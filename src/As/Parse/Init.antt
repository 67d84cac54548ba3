-- ===== src/As/Parse/Init.antt =====
-- nvptx-as.cc: `parse_init`, which parses the initializer of a variable.
use nvptx_tools.Base.{
  ℕ, zero, suc, ◌||◌, Bool, true, false, Option, none, some, List, [], ◌∷◌, ◌++◌, if◌then◌else◌,
  length,
}
use nvptx_tools.Hashtab.{Hashtab}
use nvptx_tools.Result.{Result, ok, err, ◌>>=◌, past_the_end, out_of_fuel}
use nvptx_tools.As.Token.{k_symbol, k_ident, Token}
use nvptx_tools.As.Statement.{v_comment}
use nvptx_tools.As.Parse.{
  State, to_symbol, put, add_dep, symbol_hash_lookup, is_single, clear_space, take_comments, v_insn,
  put_line,
}

abbrev pub is_name : Token → Bool
is_name t = elim t.kind [ k_symbol ↦ true | k_ident ↦ true | _ ↦ false ]

-- A value up to its `,` or `;`: its tokens, the last name among them, the separator, and the rest.
pub record Value : Type 0 where
  pub body : List Token
  pub def_tok : Option Token
  pub separator : Token
  pub rest : List Token

abbrev pub or_name : Token → Option Token → Option Token
or_name t (some u) = some u
or_name t none = if is_name t then some t else none

abbrev pub cons_value : Token → Value → Value
cons_value t v = record v { body = t ∷ v.body; def_tok = or_name t v.def_tok }

unfoldable pub take_value : List Token → Result Value
take_value [] = err past_the_end
take_value (t ∷ ts) =
    let more = take_value ts in
    if is_single b',' t || is_single b';' t
    then ok (record { body = []; def_tok = none; separator = t; rest = ts })
    else (more >>= λ v. ok (cons_value t v))

-- The token behind a `{` has no space.
abbrev pub clear_second : List Token → List Token
clear_second [] = []
clear_second (t ∷ []) = t ∷ []
clear_second (t ∷ u ∷ ts) = if is_single b'{' t then t ∷ clear_space u ∷ ts else t ∷ u ∷ ts

abbrev pub clear_first : List Token → Result (List Token)
clear_first [] = err past_the_end
clear_first (t ∷ ts) = ok (clear_space t ∷ ts)

module _ {T : Type 0} where
  abbrev pub put_comments : ℕ → List Token → State T → State T
  put_comments sym [] st = st
  put_comments sym (t ∷ ts) st = put (to_symbol sym) v_comment (t ∷ ts) st

module _ (H : Hashtab ℕ) where
  abbrev pub add_name : ℕ → Option Token → State H.Table → State H.Table
  unfolding symbol_hash_lookup
  add_name sym none st = st
  add_name sym (some t) st = let (d, st') = symbol_hash_lookup H t.text st in add_dep sym d st'

  -- A round of the loop: the state, the tokens left, and `end`.
  unfoldable pub parse_value :
      ℕ → State H.Table → List Token → Result (State H.Table × List Token × Bool)
  unfolding take_comments take_value put_line
  parse_value sym st toks = do
    (cs, toks) ← take_comments toks
    v ← take_value (clear_second toks)
    rest ← clear_first v.rest
    let st' = add_name sym v.def_tok (put_comments sym cs st)
    (st2, rest2) ← put_line (to_symbol sym) v_insn (v.body ++ v.separator ∷ []) st' rest
    ok (st2, rest2, is_single b';' v.separator)

  abbrev pub until_end :
      (State H.Table → List Token → Result (State H.Table × List Token))
      → State H.Table × List Token × Bool
      → Result (State H.Table × List Token)
  until_end again (st, rest, end) = let more = again st rest in if end then ok (st, rest) else more

  -- The loop, on fuel.
  unfoldable pub init_loop :
      ℕ → ℕ → State H.Table → List Token → Result (State H.Table × List Token)
  unfolding parse_value
  init_loop zero sym st toks = err out_of_fuel
  init_loop (suc fuel) sym st toks = parse_value sym st toks >>= until_end (init_loop fuel sym)

  unfoldable pub parse_init : ℕ → State H.Table → List Token → Result (State H.Table × List Token)
  unfolding init_loop
  parse_init sym st toks = init_loop (suc (length toks)) sym st toks
