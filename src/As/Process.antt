-- ===== src/As/Process.antt =====
-- nvptx-as.cc: `process`, which assembles one input file.
pub mod Written
pub mod Correct
use nvptx_tools.Base.{ℕ, Bool, Option, none, some, List, [], ◌∷◌, ◌++◌, ◌==◌, Bytes, length}
use nvptx_tools.Hashtab.{Hashtab}
use nvptx_tools.Hashtab.Count.{Count}
use nvptx_tools.Result.{Result, ok, err, ◌>>=◌, ◌>>◌, assert}
use nvptx_tools.As.Token.{Token, tokenize}
use nvptx_tools.As.Preamble.{verify_preamble}
use nvptx_tools.As.Statement.{Stmt, rev_stmts, write_stmts}
use nvptx_tools.As.Order.{order_symbols}
use nvptx_tools.As.Parse.{Symbol, State, stmts_at, deps_at}
use nvptx_tools.As.Parse.File.{parse_tokens}

-- `enum class verify_mode`
pub data VerifyMode : Type 0 where
  mode_unset mode_no mode_yes mode_libnvjitlink mode_ptxas_libnvrtc mode_ptxas : VerifyMode

-- `verify` and `preamble_target_arg` behind the call, and what is written.
pub record Assembled : Type 0 where
  pub verify : VerifyMode
  pub preamble_target_arg : Option Bytes
  pub output : Bytes

unfoldable pub verify_input : VerifyMode → List Token → Result (Option Bytes)
unfolding verify_preamble
verify_input mode_no toks = ok none
verify_input verify toks = verify_preamble none toks >>= λ arg. ok (some arg)

-- The loop over `symbols_out`.
unfoldable pub write_symbols : List Symbol → List ℕ → Result Bytes
unfolding rev_stmts write_stmts
write_symbols symbols [] = ok []
write_symbols symbols (e ∷ es) = do
  out ← write_stmts (rev_stmts (stmts_at e symbols))
  rest ← write_symbols symbols es
  ok (out ++ rest)

unfoldable pub write_all : {T : Type 0} → State T → List ℕ → Result Bytes
unfolding rev_stmts write_stmts write_symbols
write_all st symbols_out = do
  decls ← write_stmts (rev_stmts st.decls)
  symbols ← write_symbols st.symbols symbols_out
  fns ← write_stmts (rev_stmts st.fns)
  ok (decls ++ symbols ++ fns)

-- `elements` is the library's count of the entries of a table.
module _ (H : Hashtab ℕ) (count : Count H) where
  -- What is behind the loop over the file.
  unfoldable pub put_out : State H.Table → Result Bytes
  unfolding order_symbols write_all
  put_out st =
      let n_symbols = count.elements st.symbol_table in
      assert (length st.symbols == n_symbols)
      >> (order_symbols (λ e. deps_at e st.symbols) (length st.symbols) >>= λ order.
          assert (length order.symbols_out == n_symbols) >> write_all st order.symbols_out)

  unfoldable pub assemble : VerifyMode → List Token → Result Assembled
  unfolding verify_input parse_tokens put_out
  assemble verify toks = verify_input verify toks >>= λ arg. parse_tokens H toks >>= λ st.
      put_out st >>= λ out. ok (record { verify = verify; preamble_target_arg = arg; output = out })

  -- `input` is the text up to its NUL; an empty one is not verified.
  unfoldable pub process : VerifyMode → Bytes → Result Assembled
  unfolding tokenize assemble
  process verify [] = ok (record { verify = mode_no; preamble_target_arg = none; output = [] })
  process verify (c ∷ input) = tokenize (c ∷ input) >>= assemble verify
