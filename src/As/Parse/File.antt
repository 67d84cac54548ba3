-- ===== src/As/Parse/File.antt =====
-- nvptx-as.cc: `parse_file`, which parses a declaration, a variable or a function, and the loop of
-- `process` over the file.
use nvptx_tools.Base.{
  ℕ, zero, suc, ◌+◌, ◌||◌, ◌&&◌, not, Bool, true, false, Option, none, some, List, [], ◌∷◌, ◌++◌,
  if◌then◌else◌, codes, length, starts_with,
}
use nvptx_tools.Hashtab.{Hashtab}
use nvptx_tools.Result.{Result, ok, err, ◌>>=◌, past_the_end, out_of_fuel, expected_identifier}
use nvptx_tools.As.Token.{Token, is_comment, is_dotted, is_end}
use nvptx_tools.As.Preamble.{is_keyword}
use nvptx_tools.As.Statement.{v_comment}
use nvptx_tools.As.Parse.{
  State, Dest, to_decls, to_fns, to_symbol, put, symbol_hash_lookup, is_single, set_end, v_dot,
  v_prefix_comment, parse_line_nosemi,
}
use nvptx_tools.As.Parse.Insn.{parse_insn}
use nvptx_tools.As.Parse.Init.{is_name, parse_init}

-- A comment that is a directive for `mkoffload`.
unfoldable pub is_map : Token → Bool
unfolding starts_with
is_map t =
    starts_with (codes ":VAR_MAP ") t.text
    || starts_with (codes ":FUNC_MAP ") t.text
    || starts_with (codes ":IND_FUNC_MAP ") t.text

-- The comments in front of a construct, `is_map_directive`, and the tokens behind them.
pub record Prefix : Type 0 where
  pub comments : List Token
  pub is_map_directive : Bool
  pub rest : List Token

abbrev pub cons_comment : Token → Prefix → Prefix
cons_comment t p = record p { comments = t ∷ p.comments }

unfoldable pub take_prefix : List Token → Result Prefix
unfolding is_map
take_prefix [] = err past_the_end
take_prefix (t ∷ ts) =
    let more = take_prefix ts in
    if is_comment t.kind
    then (if is_map t
        then ok (record { comments = []; is_map_directive = true; rest = t ∷ ts })
        else (more >>= λ p. ok (cons_comment t p)))
    else ok (record { comments = []; is_map_directive = false; rest = t ∷ ts })

-- `vis`, bit by bit, `is_decl` and `def_token`.
pub record Head : Type 0 where
  pub is_var : Bool
  pub is_func : Bool
  pub is_global : Bool
  pub is_weak : Bool
  pub is_decl : Bool
  pub def_token : Option Token

abbrev pub no_head : Head
no_head = record {
  is_var = false;
  is_func = false;
  is_global = false;
  is_weak = false;
  is_decl = false;
  def_token = none;
}

abbrev pub vis_of : Head → ℕ
vis_of h =
    (if h.is_var then 1 else 0)
    + (if h.is_func then 2 else 0)
    + (if h.is_global then 8 else 0)
    + (if h.is_weak then 16 else 0)

-- The keywords of a token in front of a name.
unfoldable pub with_keyword : Token → Head → Head
unfolding is_keyword
with_keyword t h =
    if is_keyword t (codes "global") || is_keyword t (codes "const")
    then record h { is_var = true }
    else if is_keyword t (codes "func") || is_keyword t (codes "entry")
    then record h { is_func = true }
    else if is_keyword t (codes "visible")
    then record h { is_global = true }
    else if is_keyword t (codes "extern")
    then record h { is_decl = true }
    else if is_keyword t (codes "weak")
    then record h { is_weak = true }
    else h

abbrev pub with_name : Token → Head → Head
with_name t h = if is_name t then record h { def_token = some t } else h

abbrev pub ends_head : Token → Bool
ends_head t =
    is_end t.kind || is_single b'=' t || is_comment t.kind || is_single b'{' t || is_single b';' t

-- What was written to `space` of a token before it is met.
abbrev pub written_space : Option Bool → Token → Token
written_space none t = t
written_space (some b) t = record t { space = b }

-- What a parenthesis writes to `space` of the next token.
abbrev pub next_space : Token → List Token → Option Bool
next_space t [] = none
next_space t (u ∷ ts) =
    if is_single b'(' t
    then some false
    else if is_single b')' t && not (is_single b';' u)
    then some true
    else none

abbrev pub paren_space : Token → Token
paren_space t = if is_single b'(' t then record t { space = true } else t

-- The tokens up to the end of the head, the token that ends it, and the rest.
pub record Heading : Type 0 where
  pub tokens : List Token
  pub head : Head
  pub stop : Token
  pub rest : List Token

abbrev pub cons_heading : Token → Heading → Heading
cons_heading t h = record h { tokens = t ∷ h.tokens }

unfoldable pub take_head : Option Bool → Head → List Token → Result Heading
unfolding with_keyword
take_head space h [] = err past_the_end
take_head space h (t ∷ ts) =
    let u = written_space space t in
    let more = take_head (next_space t ts) (with_name t (with_keyword t h)) ts in
    if ends_head t
    then ok (record { tokens = []; head = h; stop = u; rest = ts })
    else (more >>= λ r. ok (cons_heading (paren_space u) r))

-- "Something strange": the tokens of its line are dropped.
unfoldable pub skip_strange : List Token → Result (List Token)
skip_strange [] = err past_the_end
skip_strange (t ∷ ts) =
    let more = skip_strange ts in
    if is_end t.kind then ok (t ∷ ts) else if t.end then ok ts else more

abbrev pub prefixed : List Token → ℕ → ℕ
prefixed [] vis = vis
prefixed (t ∷ ts) vis = vis + v_prefix_comment

module _ {T : Type 0} where
  -- The statement of the comments in front.
  abbrev pub put_prefix : Dest → List Token → State T → State T
  put_prefix d [] st = st
  put_prefix d (t ∷ ts) st = put d (v_comment + v_prefix_comment) (t ∷ ts) st

  -- A statement with the comments in front of it.
  unfoldable pub put_stmt : Dest → List Token → ℕ → List Token → State T → State T
  put_stmt d comments vis toks st = put d (prefixed comments vis) toks (put_prefix d comments st)

  unfoldable pub parse_directive :
      ℕ → List Token → State T → List Token → Result (State T × List Token)
  unfolding parse_line_nosemi
  parse_directive vis comments st toks =
      parse_line_nosemi vis to_decls (put_prefix to_decls comments st) toks

abbrev pub is_preamble : Token → Bool
unfolding is_keyword
is_preamble t =
    is_keyword t (codes "version")
    || is_keyword t (codes "target")
    || is_keyword t (codes "address_size")
    || is_keyword t (codes "file")

module _ (H : Hashtab ℕ) where
  -- A variable, with its initializer.
  unfoldable pub parse_variable :
      List Token → Heading → Option Token → State H.Table → Result (State H.Table × List Token)
  unfolding symbol_hash_lookup put_stmt parse_init
  parse_variable comments h none st = err expected_identifier
  parse_variable comments h (some name) st =
      let (def, st1) = symbol_hash_lookup H name.text st in
      let st2 =
        put_stmt (to_symbol def) comments (vis_of h.head) (h.tokens ++ set_end h.stop ∷ []) st1 in
      let init = parse_init H def st2 h.rest in
      if is_single b'=' h.stop then init else ok (st2, h.rest)

  unfoldable pub parse_heading :
      List Token → State H.Table → Heading → Result (State H.Table × List Token)
  unfolding put_stmt parse_insn parse_variable
  parse_heading comments st h =
      let body =
        parse_insn (put_stmt to_fns comments (vis_of h.head) h.tokens st) (h.stop ∷ h.rest) in
      let var = parse_variable comments h h.head.def_token st in
      if is_end h.stop.kind
      then ok (put_prefix to_fns comments st, h.stop ∷ h.rest)
      else if is_single b'{' h.stop || is_comment h.stop.kind
      then body
      else if h.head.is_var && not h.head.is_func && not h.head.is_decl
      then var
      else ok
          (put_stmt to_decls comments (vis_of h.head) (h.tokens ++ set_end h.stop ∷ []) st, h.rest)

  unfoldable pub parse_dotted :
      List Token → State H.Table → Token → List Token → Result (State H.Table × List Token)
  unfolding parse_directive take_head parse_heading is_keyword
  parse_dotted comments st t ts =
      if is_preamble t
      then parse_directive v_dot comments st (t ∷ ts)
      else (take_head none no_head (t ∷ ts) >>= parse_heading comments st)

  unfoldable pub parse_behind :
      Prefix → State H.Table → List Token → Result (State H.Table × List Token)
  unfolding parse_directive parse_dotted skip_strange
  parse_behind p st [] = err past_the_end
  parse_behind p st (t ∷ ts) =
      if p.is_map_directive
      then parse_directive v_comment p.comments st (t ∷ ts)
      else if is_dotted t.kind
      then parse_dotted p.comments st t ts
      else (skip_strange (t ∷ ts) >>= λ rest. ok (put_prefix to_fns p.comments st, rest))

  unfoldable pub parse_file : State H.Table → List Token → Result (State H.Table × List Token)
  unfolding take_prefix parse_behind
  parse_file st toks = take_prefix toks >>= λ p. parse_behind p st p.rest

  abbrev pub while_tokens :
      (State H.Table → List Token → Result (State H.Table))
      → State H.Table × List Token
      → Result (State H.Table)
  while_tokens again (st, []) = err past_the_end
  while_tokens again (st, t ∷ ts) =
      let more = again st (t ∷ ts) in if is_end t.kind then ok st else more

  -- `do ... while (tok->kind)`, on fuel.
  unfoldable pub file_loop : ℕ → State H.Table → List Token → Result (State H.Table)
  unfolding parse_file
  file_loop zero st toks = err out_of_fuel
  file_loop (suc fuel) st toks = parse_file st toks >>= while_tokens (file_loop fuel)

  abbrev pub no_statements : State H.Table
  no_statements = record { decls = []; fns = []; symbol_table = H.empty; symbols = [] }

  unfoldable pub parse_tokens : List Token → Result (State H.Table)
  unfolding file_loop
  parse_tokens toks = file_loop (suc (length toks)) no_statements toks
