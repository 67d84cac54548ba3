-- ===== src/As/Process/Correct.antt =====
-- What nvptx-as.cc `process` assembles, and the failures that it can have.
use nvptx_tools.Base.{
  ℕ, zero, suc, ◌<◌, ◌≡◌, refl, sym, ◌∙◌, ◌⊎◌, true, Option, none, some, List, [], ◌∷◌, ◌++◌, ◌==◌,
  Bytes, length, All, arith, inl, inr,
}
use nvptx_tools.Hashtab.{Hashtab}
use nvptx_tools.Hashtab.Count.{Count}
use nvptx_tools.Result.{Error, Result-cases, ok, err, ◌>>=◌, past_the_end}
use nvptx_tools.Result.Ensures.{
  Ensures, good, bad, Ensures-err, Ensures-bind, Ensures-weaken, Ensures-traced,
}
use nvptx_tools.As.Token.{Token, tokenize}
use nvptx_tools.As.Preamble.{IsPreamble, IsFault, verify_preamble, verify_preamble-IsPreamble}
use nvptx_tools.As.Statement.{Stmt, write_stmts}
use nvptx_tools.As.Order.{Order, places}
use nvptx_tools.As.Order.Sorted.{has, IsOutput, IsCircular}
use nvptx_tools.As.Order.Complete.{has-places, order_symbols-length}
use nvptx_tools.As.Parse.{Symbol, State, to_decls, to_fns, deps_at}
use nvptx_tools.As.Parse.File.{parse_tokens}
use nvptx_tools.As.Parse.Words.{IsParseError}
use nvptx_tools.As.Parse.Held.{AreKnown, held}
use nvptx_tools.As.Parse.Moves.Whole.{IsParse, parse_tokens-IsParse}
use nvptx_tools.As.Process.{
  VerifyMode, mode_unset, mode_no, mode_yes, mode_libnvjitlink, mode_ptxas_libnvrtc, mode_ptxas,
  Assembled, verify_input, write_all, put_out, assemble, process,
}
use nvptx_tools.As.Process.Written.{
  write_all-Written, write_all_lem, all_stmts, forward_words, words_in_order, forward-all_stmts,
}

-- `preamble_target_arg` behind the verification of the preamble.
abbrev pub IsChecked : List Token → Option Bytes → Type 0
IsChecked toks none = ⊥
IsChecked toks (some arg) = IsPreamble toks arg

abbrev pub IsArgument : VerifyMode → List Token → Option Bytes → Type 0
IsArgument mode_no toks arg = arg ≡ none
IsArgument verify toks arg = IsChecked toks arg

checked :
    (toks : List Token)
    → Ensures (IsChecked toks) IsFault (verify_preamble none toks >>= λ arg. ok (some arg))
checked toks = Ensures-bind (verify_preamble-IsPreamble toks) (λ arg p. good p)

verify_input-IsArgument :
    (verify : VerifyMode) (toks : List Token)
    → Ensures (IsArgument verify toks) IsFault (verify_input verify toks)
unfolding verify_input
verify_input-IsArgument mode_no toks = good refl
verify_input-IsArgument mode_unset toks = checked toks
verify_input-IsArgument mode_yes toks = checked toks
verify_input-IsArgument mode_libnvjitlink toks = checked toks
verify_input-IsArgument mode_ptxas_libnvrtc toks = checked toks
verify_input-IsArgument mode_ptxas toks = checked toks

known_places :
    (n e : ℕ) (symbols : List Symbol)
    → AreKnown n symbols
    → All (λ d. has (places 0 n) d ≡ true) (deps_at e symbols)
known_places n e [] h = tt
known_places n zero (s ∷ symbols) h = listed s.deps h.0
  where
    listed : (ds : List ℕ) → All (λ d. d < n) ds → All (λ d. has (places 0 n) d ≡ true) ds
    listed [] g = tt
    listed (d ∷ ds) g = (has-places 0 n d (omega arith) (omega (arith, g.0)), listed ds g.1)
known_places n (suc e) (s ∷ symbols) h = known_places n e symbols h.1

module _ (H : Hashtab ℕ) (count : Count H) where
  -- The symbols of the parser's lists are ordered, and what is written are the words that it holds: those of
  -- the declarations, of the symbols in their order, and of the functions.
  pub record IsPutOut (state : State H.Table) (out : Bytes) : Type 0 where
    pub order : Order
    pub ordered : IsOutput (λ e. deps_at e state.symbols) (length state.symbols) order
    pub stmts : List Stmt
    pub contents :
        forward_words stmts
        ≡ held to_decls state ++ words_in_order order.symbols_out state ++ held to_fns state
    pub written : write_stmts stmts ≡ ok out

  -- A circular reference, or a string token without its quotes.
  abbrev pub IsUnwritten : Error → Type 0
  IsUnwritten x = IsCircular x ⊎ (x ≡ past_the_end)

  write_all-IsPutOut :
      (st : State H.Table) (order : Order)
      → IsOutput (λ e. deps_at e st.symbols) (length st.symbols) order
      → Ensures (IsPutOut st) IsUnwritten (write_all st order.symbols_out)
  write_all-IsPutOut st order o = elim (Result-cases (write_all st order.symbols_out)) [
    | inl (out, e) ↦ rw e (
        good (record {
          order = order;
          ordered = o;
          stmts = all_stmts st order.symbols_out;
          contents = forward-all_stmts order.symbols_out st;
          written = sym (write_all_lem st order.symbols_out) ∙ e;
        }))
    | inr (x, e) ↦ rw e (bad (inr (Ensures-err (write_all-Written st order.symbols_out) e)))
  ]

  put_out-IsPutOut :
      (toks : List Token) (st : State H.Table)
      → IsParse H toks st
      → Ensures (IsPutOut st) IsUnwritten (put_out H count st)
  unfolding put_out
  put_out-IsPutOut toks st p =
      let same = p.counted count in
      let deps : ℕ → List ℕ = λ e. deps_at e st.symbols in
      let n = length st.symbols in
      let n_symbols = count.elements st.symbol_table in
      let all_handled : (n == n_symbols) ≡ true = ground (arith, same) in
      rw all_handled (
        Ensures-bind
          (Ensures-weaken (λ o h. h) (λ x c. inl c)
            (order_symbols-length deps n (λ e. known_places n e st.symbols p.known)))
          (λ order (o, l).
            let all_emitted : (length order.symbols_out == n_symbols) ≡ true =
              ground (arith, same, l) in
            rw all_emitted (write_all-IsPutOut st order o)))

  -- The output is that of the lists into which the parser puts the tokens.
  pub record IsAssembled (verify : VerifyMode) (toks : List Token) (r : Assembled) : Type 0 where
    pub kept : r.verify ≡ verify
    pub argument : IsArgument verify toks r.preamble_target_arg
    pub state : State H.Table
    pub parsed : parse_tokens H toks ≡ ok state
    pub put_out : IsPutOut state r.output

  -- The errors behind the tokens: those of the preamble, if it is verified, of the parser, and of the order and
  -- the output of its lists.
  pub data IsReport (verify : VerifyMode) (toks : List Token) (x : Error) : Type 0 where
    in_preamble : verify_input verify toks ≡ err x → IsFault x → IsReport verify toks x
    in_parser : parse_tokens H toks ≡ err x → IsParseError x → IsReport verify toks x
    in_output :
        (state : State H.Table)
        → parse_tokens H toks ≡ ok state
        → put_out H count state ≡ err x
        → IsUnwritten x
        → IsReport verify toks x

  -- For each interface to the library's hash table and to its count of entries: behind the tokens, assembling a file
  -- fails no assertion and ends. It fails with an error of the preamble (unless the file is not verified), with one of
  -- the parser, at a circular reference, or at a string token without its quotes; or it keeps the argument of `.target`
  -- if it verifies, and writes the words of the lists into which the parser puts the tokens: of the declarations, of the
  -- symbols, each once and behind those that its initializer names, and of the functions.
  pub assemble-IsAssembled :
      (verify : VerifyMode) (toks : List Token)
      → Ensures (IsAssembled verify toks) (IsReport verify toks) (assemble H count verify toks)
  unfolding assemble
  assemble-IsAssembled verify toks =
      Ensures-bind
        (Ensures-weaken (λ arg h. h.1) (λ x h. in_preamble h.0 h.1)
          (Ensures-traced (verify_input-IsArgument verify toks)))
        (λ arg a.
          Ensures-bind
            (Ensures-weaken (λ st h. h) (λ x h. in_parser h.0 h.1)
              (Ensures-traced (parse_tokens-IsParse H toks)))
            (λ st h.
              Ensures-bind
                (Ensures-weaken (λ out o. o.1) (λ x o. in_output st h.0 o.0 o.1)
                  (Ensures-traced (put_out-IsPutOut toks st h.1)))
                (λ out o.
                  good
                    (record { kept = refl; argument = a; state = st; parsed = h.0; put_out = o }))))

  -- An error of `tokenize`, or one of those.
  abbrev pub IsFailure : VerifyMode → Bytes → Error → Type 0
  IsFailure verify text x =
      (tokenize text ≡ err x)
      ⊎ ((toks : List Token) × (tokenize text ≡ ok toks) × IsReport verify toks x)

  -- What a text of a file is assembled to; an empty one is not verified.
  abbrev pub IsProcessed : VerifyMode → Bytes → Assembled → Type 0
  IsProcessed verify [] r = (r.verify ≡ mode_no) × (r.preamble_target_arg ≡ none) × (r.output ≡ [])
  IsProcessed verify (c ∷ text) r =
      (toks : List Token) × (tokenize (c ∷ text) ≡ ok toks) × IsAssembled verify toks r

  pub process-IsProcessed :
      (verify : VerifyMode) (text : Bytes)
      → Ensures (IsProcessed verify text) (IsFailure verify text) (process H count verify text)
  unfolding process
  process-IsProcessed verify [] = good (refl, refl, refl)
  process-IsProcessed verify (c ∷ text) = elim (Result-cases (tokenize (c ∷ text))) [
    | inl (toks, e) ↦ rw e (
        Ensures-weaken (λ r a. (toks, e, a)) (λ x f. inr (toks, e, f))
          (assemble-IsAssembled verify toks))
    | inr (x, e) ↦ rw e (bad (inl e))
  ]
