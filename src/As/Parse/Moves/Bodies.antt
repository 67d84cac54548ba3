-- ===== src/As/Parse/Moves/Bodies.antt =====
-- The words that nvptx-as.cc `parse_insn` and `parse_init` take.
use nvptx_tools.Base.{
  ℕ, zero, suc, ◌+◌, ◌<◌, ◌≤◌, ◌≡◌, refl, ap, sym, ◌∙◌, Bool, false, Option, none, some, List, [],
  ◌∷◌, ◌++◌, ◌==◌, codes, length, length-append, arith,
}
use nvptx_tools.Hashtab.{Hashtab}
use nvptx_tools.Result.{Result}
use nvptx_tools.Result.Ensures.{Ensures, good, bad, Ensures-bind, Ensures-weaken, Ensures-if}
use nvptx_tools.As.Token.{Token, is_comment}
use nvptx_tools.As.Preamble.{is_directive}
use nvptx_tools.As.Statement.{v_comment, v_pred}
use nvptx_tools.As.Parse.{
  State, Dest, to_decls, to_fns, to_symbol, put, symbol_hash_lookup, is_single, set_end, last_end,
  v_dot, v_insn, v_label, v_no_eol, parse_line_nosemi, put_line,
}
use nvptx_tools.As.Parse.Insn.{
  is_label, deeper, shallower, at_depth, put_insn, parse_token, parse_stmt, insn_loop, parse_insn,
}
use nvptx_tools.As.Parse.Init.{
  clear_second, put_comments, add_name, parse_value, init_loop, parse_init,
}
use nvptx_tools.As.Parse.Words.{
  Word, word, words, length-words, IsParseError, beyond, Cut, take_line-Cut, Cut-length,
  take_comments-Cut, take_semi-Cut, take_pred-Cut, take_value-Cut, words-clear_second,
  clear_first-words,
}
use nvptx_tools.As.Parse.Held.{HasPlace, Nothing}
use nvptx_tools.As.Parse.Moves.{
  IsSound, Parsed, Parsed-none, Parsed-trans, Parsed-same, Parsed-put, put-HasPlace, Parsed-dep,
  lookup-Parsed,
}

module _ (H : Hashtab ℕ) where
  -- Words taken from a text, with at most `n` tokens left.
  abbrev pub Went : State H.Table → List Word → ℕ → State H.Table × List Token → Type 0
  Went st from n r = Parsed H Nothing st r.0 from (words r.1) × (length r.1 ≤ n)

  pub parse_line_nosemi-Went :
      (vis : ℕ) (d : Dest) (st : State H.Table) (t : Token) (ts : List Token)
      → HasPlace d st
      → IsSound H st
      → Ensures
          (Went st (words (t ∷ ts)) (length ts))
          IsParseError
          (parse_line_nosemi vis d st (t ∷ ts))
  unfolding parse_line_nosemi
  parse_line_nosemi-Went vis d st t ts h s =
      Ensures-bind (take_line-Cut (t ∷ ts)) (λ r (c, l).
        good (Parsed-put H d vis r.0 st (words (t ∷ ts)) (words r.1) h s c, omega arith))

  put_line-Went :
      (d : Dest) (vis : ℕ) (body : List Token) (st : State H.Table) (rest : List Token)
      (from : List Word)
      → HasPlace d st
      → IsSound H st
      → from ≡ words body ++ words rest
      → Ensures (Went st from (length rest)) IsParseError (put_line d vis body st rest)
  unfolding put_line
  put_line-Went d vis body st [] from h s e =
      Ensures-if (last_end body) _ _
        (λ l. good (Parsed-put H d vis body st from [] h s e, omega arith)) (λ l. bad (beyond refl))
  put_line-Went d vis body st (t ∷ ts) from h s e =
      let whole = Parsed-put H d vis body st from (words (t ∷ ts)) h s e in
      Ensures-if (last_end body) _ _ (λ l. good (whole, omega arith))
        (λ l.
          Ensures-if (is_comment t.kind) _ _
            (λ c.
              let st1 = put d (vis + v_no_eol) body st in
              let p = Parsed-put H d (vis + v_no_eol) body st from (words (t ∷ ts)) h s e in
              good (
                Parsed-trans H p (
                    Parsed-put H d v_comment (t ∷ []) st1 (words (t ∷ ts)) (words ts)
                      (put-HasPlace H d d (vis + v_no_eol) body st h) p.sound refl),
                omega arith,
              ))
            (λ c. good (whole, omega arith)))

  abbrev Stepped : State H.Table → List Word → ℕ → ℕ × State H.Table × List Token → Type 0
  Stepped st from n (depth, st', rest) = Went st from n (st', rest)

  at_depth-Stepped :
      (st : State H.Table) (from : List Word) (n depth : ℕ)
      (r : Result (State H.Table × List Token))
      → Ensures (Went st from n) IsParseError r
      → Ensures (Stepped st from n) IsParseError (at_depth depth r)
  at_depth-Stepped st from n depth r h = Ensures-bind h (λ (st', rest) w. good w)

  put_insn-Went :
      (vis : ℕ) (t u : Token) (st : State H.Table) (ts : List Token) (r : List Token × List Token)
      → IsSound H st
      → word t ≡ word u
      → Cut ts r
      → Ensures (Went st (words (t ∷ ts)) (length ts)) IsParseError (put_insn vis u st r)
  put_insn-Went vis t u st ts (body, rest) s e c =
      Ensures-weaken (λ r (p, l). (p, (let k = Cut-length ts (body, rest) c in omega arith)))
        (λ x e. e)
        (put_line-Went to_fns vis (u ∷ body) st rest (words (t ∷ ts)) tt s
          (ap (λ w. w ∷ words ts) e ∙ ap (◌∷◌ (word u)) c))

  parse_token-Stepped :
      (depth : ℕ) (st : State H.Table) (t : Token) (ts : List Token)
      → IsSound H st
      → Ensures (Stepped st (words (t ∷ ts)) (length ts)) IsParseError (parse_token depth st t ts)
  unfolding parse_token
  parse_token-Stepped depth st t ts s =
      let from = words (t ∷ ts) in
      let n = length ts in
      let one : (vis d : ℕ) (u : Token)
          → word t ≡ word u
          → Ensures (Stepped st from n) IsParseError (at_depth d (put_insn vis u st ([], ts))) =
        λ vis d u e.
          at_depth-Stepped st from n d _ (put_insn-Went vis t u st ts ([], ts) s e refl) in
      Ensures-if (is_comment t.kind) _ _
        (λ c. at_depth-Stepped st from n depth _ (
          Ensures-bind (take_comments-Cut ts) (λ (cs, rest) cut. good (
            Parsed-put H to_fns v_comment (t ∷ cs) st from (words rest) tt s
                (ap (◌∷◌ (word t)) cut),
            Cut-length ts (cs, rest) cut,
          ))))
        (λ c.
          Ensures-if (is_single b'{' t) _ _ (λ o. one v_insn (deeper depth) t refl)
            (λ o.
              Ensures-if (is_single b'}' t) _ _ (λ p. one v_insn (shallower depth) t refl)
                (λ p.
                  Ensures-if (is_label t) _ _ (λ l. one v_label depth (set_end t) refl)
                    (λ l.
                      Ensures-if (is_single b'@' t) _ _
                        (λ a. at_depth-Stepped st from n depth _ (
                          Ensures-bind (take_pred-Cut ts)
                            (λ r cut. put_insn-Went v_pred t t st ts r s refl cut)))
                        (λ a. at_depth-Stepped st from n depth _ (
                          Ensures-bind (take_semi-Cut false ts)
                            (λ r cut. put_insn-Went v_insn t t st ts r s refl cut)))))))

  parse_stmt-Stepped :
      (depth : ℕ) (st : State H.Table) (t : Token) (ts : List Token)
      → IsSound H st
      → Ensures
          (Stepped st (words (t ∷ ts)) (length ts))
          IsParseError
          (parse_stmt depth st (t ∷ ts))
  unfolding parse_stmt
  parse_stmt-Stepped depth st t ts s =
      let from = words (t ∷ ts) in
      let n = length ts in
      Ensures-if (is_directive (codes "file") t) _ _
        (λ f.
          at_depth-Stepped st from n depth _ (parse_line_nosemi-Went v_dot to_decls st t ts tt s))
        (λ f.
          Ensures-if (is_directive (codes "loc") t) _ _
            (λ l.
              at_depth-Stepped st from n depth _ (parse_line_nosemi-Went v_dot to_fns st t ts tt s))
            (λ l. parse_token-Stepped depth st t ts s))

  -- Words taken, from at least one token.
  abbrev pub Gone : State H.Table → List Token → State H.Table × List Token → Type 0
  Gone st toks r = Parsed H Nothing st r.0 (words toks) (words r.1) × (length r.1 < length toks)

  Gone-trans :
      (st st1 : State H.Table) (toks toks1 : List Token) (r : State H.Table × List Token)
      → Parsed H Nothing st st1 (words toks) (words toks1)
      → length toks1 < length toks
      → Gone st1 toks1 r
      → Gone st toks r
  Gone-trans st st1 toks toks1 r p l (q, k) = (Parsed-trans H p q, omega arith)

  insn_loop-Gone :
      (fuel depth : ℕ) (st : State H.Table) (toks : List Token)
      → IsSound H st
      → length toks < fuel
      → Ensures (Gone st toks) IsParseError (insn_loop fuel depth st toks)
  unfolding insn_loop
  insn_loop-Gone zero depth st toks s l = absurd (omega arith)
  insn_loop-Gone (suc fuel) depth st [] s l = unfold parse_stmt in bad (beyond refl)
  insn_loop-Gone (suc fuel) depth st (t ∷ ts) s l =
      Ensures-bind (parse_stmt-Stepped depth st t ts s) (λ (depth', st', rest) (p, k).
        Ensures-if (depth' == 0) _ _ (λ z. good (p, omega arith))
          (λ z.
            Ensures-weaken (λ r g. Gone-trans st st' (t ∷ ts) rest r p (omega arith) g) (λ x e. e)
              (insn_loop-Gone fuel depth' st' rest p.sound (omega arith))))

  -- `parse_insn` ends. The words that it takes go to `decls` and `fns`, in their order, and at least one
  -- token is taken; or it fails at the end of the tokens.
  pub parse_insn-Gone :
      (st : State H.Table) (toks : List Token)
      → IsSound H st
      → Ensures (Gone st toks) IsParseError (parse_insn st toks)
  unfolding parse_insn
  parse_insn-Gone st toks s = insn_loop-Gone (suc (length toks)) 0 st toks s (omega arith)

  put_comments-Parsed :
      (i : ℕ) (cs : List Token) (st : State H.Table) (rest : List Word)
      → i < length st.symbols
      → IsSound H st
      → Parsed H Nothing st (put_comments i cs st) (words cs ++ rest) rest
  put_comments-Parsed i [] st rest h s = Parsed-none H st rest s
  put_comments-Parsed i (c ∷ cs) st rest h s =
      Parsed-put H (to_symbol i) v_comment (c ∷ cs) st (words (c ∷ cs) ++ rest) rest h s refl

  add_name-Parsed :
      (i : ℕ) (name : Option Token) (st : State H.Table) (ws : List Word)
      → IsSound H st
      → Parsed H Nothing st (add_name H i name st) ws ws
  unfolding symbol_hash_lookup
  add_name-Parsed i none st ws s = Parsed-none H st ws s
  add_name-Parsed i (some t) st ws s =
      let (p, l) = lookup-Parsed H t.text st ws s in
      Parsed-trans H p (Parsed-dep H i _ _ ws p.sound l)

  Valued : State H.Table → List Token → State H.Table × List Token × Bool → Type 0
  Valued st toks (st', rest, end) = Gone st toks (st', rest)

  parse_value-Valued :
      (i : ℕ) (st : State H.Table) (toks : List Token)
      → i < length st.symbols
      → IsSound H st
      → Ensures (Valued st toks) IsParseError (parse_value H i st toks)
  unfolding parse_value Valued
  parse_value-Valued i st toks h s = Ensures-bind (take_comments-Cut toks) (λ (cs, toks1) cut.
      Ensures-bind (take_value-Cut (clear_second toks1)) (λ v cut1.
        Ensures-bind (clear_first-words v.rest) (λ rest same.
          let body = v.body ++ v.separator ∷ [] in
          let p = put_comments-Parsed i cs st (words toks1) h s in
          let st1 = put_comments i cs st in
          let q = add_name-Parsed i v.def_tok st1 (words toks1) p.sound in
          let st2 = add_name H i v.def_tok st1 in
          let pq = Parsed-same H cut refl (Parsed-trans H p q) in
          let split : words toks1 ≡ words body ++ words rest =
            sym (words-clear_second toks1) ∙ cut1 ∙ ap (λ l. words body ++ l) (sym same) in
          Ensures-bind
            (put_line-Went (to_symbol i) v_insn body st2 rest (words toks1)
              (omega (arith, pq.grown)) q.sound split)
            (λ (st3, rest2) (w, l). good (
              Parsed-trans H pq w,
              omega (
                arith,
                ap length split,
                length-append (words body) (words rest),
                length-words body,
                length-words rest,
                length-words toks1,
                Cut-length toks (cs, toks1) cut,
                length-append v.body (v.separator ∷ []),
              ),
            )))))

  init_loop-Gone :
      (fuel i : ℕ) (st : State H.Table) (toks : List Token)
      → i < length st.symbols
      → IsSound H st
      → length toks < fuel
      → Ensures (Gone st toks) IsParseError (init_loop H fuel i st toks)
  unfolding init_loop Valued
  init_loop-Gone zero i st toks h s l = absurd (omega arith)
  init_loop-Gone (suc fuel) i st toks h s l =
      Ensures-bind (parse_value-Valued i st toks h s) (λ (st', rest, end) (p, k).
        Ensures-if end _ _ (λ e. good (p, k))
          (λ e.
            Ensures-weaken (λ r g. Gone-trans st st' toks rest r p k g) (λ x e. e)
              (init_loop-Gone fuel i st' rest (omega (arith, p.grown)) p.sound (omega arith))))

  -- `parse_init` ends, and its words go to its symbol.
  pub parse_init-Gone :
      (i : ℕ) (st : State H.Table) (toks : List Token)
      → i < length st.symbols
      → IsSound H st
      → Ensures (Gone st toks) IsParseError (parse_init H i st toks)
  unfolding parse_init
  parse_init-Gone i st toks h s = init_loop-Gone (suc (length toks)) i st toks h s (omega arith)
