-- ===== src/As/Parse.antt =====
-- nvptx-as.cc: the state of the parser, and the runs of tokens that it takes.
pub mod Insn
pub mod Init
pub mod File
pub mod Words
pub mod Held
pub mod Moves
use nvptx_tools.Base.{
  ℕ, zero, suc, ◌+◌, Bool, true, false, ◌||◌, Option, none, some, List, [], ◌∷◌, ◌++◌, ◌==◌,
  if◌then◌else◌, Bytes, length,
}
use nvptx_tools.Hashtab.{Hashtab}
use nvptx_tools.Result.{Result, ok, err, ◌>>=◌, past_the_end}
use nvptx_tools.As.Token.{Kind, single, Token, is_comment}
use nvptx_tools.As.Statement.{Stmt, v_comment, alloc_stmt, append_stmt}

-- `class symbol`, without its flags. A symbol is its place in `symbols`.
pub record Symbol : Type 0 where
  pub key : Bytes
  pub deps : List ℕ
  pub stmts : List Stmt

-- `decls`, `fns`, `symbol_table` and `symbols`.
pub record State (T : Type 0) : Type 0 where
  pub decls : List Stmt
  pub fns : List Stmt
  pub symbol_table : T
  pub symbols : List Symbol

-- The list that a statement is appended to.
pub data Dest : Type 0 where
  to_decls to_fns : Dest
  to_symbol : ℕ → Dest

-- A write through a `symbol *`.
unfoldable pub update_at : ℕ → (Symbol → Symbol) → List Symbol → List Symbol
update_at i f [] = []
update_at zero f (s ∷ symbols) = f s ∷ symbols
update_at (suc i) f (s ∷ symbols) = s ∷ update_at i f symbols

abbrev pub with_stmt : Stmt → Symbol → Symbol
with_stmt stmt s = record s { stmts = append_stmt stmt s.stmts }

abbrev pub with_dep : ℕ → Symbol → Symbol
with_dep d s = record s { deps = s.deps ++ d ∷ [] }

abbrev pub new_symbol : Bytes → Symbol
new_symbol k = record { key = k; deps = []; stmts = [] }

-- Reads through a `symbol *`.
abbrev pub stmts_at : ℕ → List Symbol → List Stmt
stmts_at i [] = []
stmts_at zero (s ∷ symbols) = s.stmts
stmts_at (suc i) (s ∷ symbols) = stmts_at i symbols

abbrev pub deps_at : ℕ → List Symbol → List ℕ
deps_at i [] = []
deps_at zero (s ∷ symbols) = s.deps
deps_at (suc i) (s ∷ symbols) = deps_at i symbols

module _ {T : Type 0} where
  unfoldable pub append_to : Dest → Stmt → State T → State T
  unfolding update_at
  append_to to_decls stmt st = record st { decls = append_stmt stmt st.decls }
  append_to to_fns stmt st = record st { fns = append_stmt stmt st.fns }
  append_to (to_symbol i) stmt st = record st { symbols = update_at i (with_stmt stmt) st.symbols }

  -- `alloc_stmt` and `append_stmt`.
  abbrev pub put : Dest → ℕ → List Token → State T → State T
  put d vis toks st = append_to d (alloc_stmt vis toks) st

  abbrev pub add_dep : ℕ → ℕ → State T → State T
  add_dep i d st = record st { symbols = update_at i (with_dep d) st.symbols }

module _ (H : Hashtab ℕ) where
  abbrev pub found_or_new : Bytes → State H.Table → Option ℕ → ℕ × State H.Table
  found_or_new k st (some i) = (i, st)
  found_or_new k st none = (
    length st.symbols,
    record st {
      symbol_table = H.put st.symbol_table k (length st.symbols);
      symbols = st.symbols ++ new_symbol k ∷ [];
    },
  )

  -- The table holds the place of each symbol.
  unfoldable pub symbol_hash_lookup : Bytes → State H.Table → ℕ × State H.Table
  symbol_hash_lookup k st = found_or_new k st (H.find st.symbol_table k)

abbrev pub is_single : ℕ → Token → Bool
is_single c t = elim t.kind [ single d ↦ d == c | _ ↦ false ]

abbrev pub clear_space : Token → Token
clear_space t = record t { space = false }

abbrev pub set_end : Token → Token
set_end t = record t { end = true }

abbrev pub cons_first : Token → List Token × List Token → List Token × List Token
cons_first t (taken, rest) = (t ∷ taken, rest)

-- `do tok++; while (!tok[-1].end)`
unfoldable pub take_line : List Token → Result (List Token × List Token)
take_line [] = err past_the_end
take_line (t ∷ ts) =
    let rest = take_line ts in
    if t.end then ok (t ∷ [], ts) else (rest >>= λ r. ok (cons_first t r))

-- `while (tok->kind == K_comment) tok++`
unfoldable pub take_comments : List Token → Result (List Token × List Token)
take_comments [] = err past_the_end
take_comments (t ∷ ts) =
    let rest = take_comments ts in
    if is_comment t.kind then (rest >>= λ r. ok (cons_first t r)) else ok ([], t ∷ ts)

abbrev pub last_end : List Token → Bool
last_end [] = false
last_end (t ∷ []) = t.end
last_end (t ∷ u ∷ ts) = last_end (u ∷ ts)

abbrev pub v_dot : ℕ
v_dot = 0

abbrev pub v_insn : ℕ
v_insn = 3

abbrev pub v_label : ℕ
v_label = 4

abbrev pub v_no_eol : ℕ
v_no_eol = 32

abbrev pub v_prefix_comment : ℕ
v_prefix_comment = 64

module _ {T : Type 0} where
  unfoldable pub parse_line_nosemi : ℕ → Dest → State T → List Token → Result (State T × List Token)
  unfolding take_line
  parse_line_nosemi vis d st toks = take_line toks >>= λ (line, rest). ok (put d vis line st, rest)

  -- A statement of the tokens `body`, with the comment that stands behind it on its line.
  unfoldable pub put_line :
      Dest → ℕ → List Token → State T → List Token → Result (State T × List Token)
  put_line d vis body st [] = if last_end body then ok (put d vis body st, []) else err past_the_end
  put_line d vis body st (t ∷ ts) =
      if last_end body
      then ok (put d vis body st, t ∷ ts)
      else if is_comment t.kind
      then ok (put d v_comment (t ∷ []) (put d (vis + v_no_eol) body st), ts)
      else ok (put d vis body st, t ∷ ts)
