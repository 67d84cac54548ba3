-- ===== src/As/Parse/Moves/Whole.antt =====
-- The words that nvptx-as.cc `parse_file` takes, and the loop of `process` over the file.
use nvptx_tools.Base.{
  ℕ, zero, suc, ◌<◌, ◌≡◌, refl, ap, sym, ◌∙◌, Bool, false, none, some, List, [], ◌∷◌, ◌++◌, length,
  All, ◌⊎◌, arith, inl, inr,
}
use nvptx_tools.Hashtab.{Hashtab}
use nvptx_tools.Hashtab.Count.{Count}
use nvptx_tools.Result.{Result, ok}
use nvptx_tools.Result.Ensures.{
  Ensures, good, bad, Ensures-bind, Ensures-weaken, Ensures-if, Ensures-traced,
}
use nvptx_tools.As.Token.{Token, is_dotted, is_end}
use nvptx_tools.As.Statement.{v_comment}
use nvptx_tools.As.Parse.{State, Dest, to_decls, to_fns, to_symbol}
use nvptx_tools.As.Parse.File.{
  Prefix, take_prefix, parse_behind, parse_file, while_tokens, file_loop, no_statements,
  parse_tokens,
}
use nvptx_tools.As.Parse.Words.{
  Word, words, IsParseError, beyond, Cut, Cut-length, take_prefix-Cut, IsAtEnd,
  skip_strange-IsSkipped,
}
use nvptx_tools.As.Parse.Held.{Chunk, all_words, IsFate, AreKnown, held, words_to, Nothing}
use nvptx_tools.As.Parse.Moves.{
  IsSound, Parsed, Parsed-weaken, Parsed-drop, Parsed-trans, Parsed-same,
}
use nvptx_tools.As.Parse.Moves.Heads.{
  IsLost, IsStrange, IsTurn, all_kept, dropped, Passed, parse_directive-Passed, parse_dotted-Passed,
  put_prefix-Parsed,
}

module _ (H : Hashtab ℕ) where
  dotted_first : List Word → Bool
  dotted_first [] = false
  dotted_first ((kind, text) ∷ ws) = is_dotted kind

  strange :
      (t : Token) (ts lost rest : List Token)
      → is_dotted t.kind ≡ false
      → Cut (t ∷ ts) (lost, rest)
      → IsStrange (words lost)
  unfolding dotted_first
  strange t ts [] rest h c = tt
  strange t ts (d ∷ ds) rest h c = sym (ap dotted_first c) ∙ h

  -- The tokens behind the comments in front.
  parse_behind-Passed :
      (p : Prefix) (toks : List Token) (st : State H.Table)
      → IsSound H st
      → Ensures (Passed H st p.comments toks (length toks)) IsParseError (parse_behind H p st toks)
  unfolding parse_behind
  parse_behind-Passed p [] st s = bad (beyond refl)
  parse_behind-Passed p (t ∷ ts) st s =
      let q = put_prefix-Parsed H to_fns p.comments st (words (t ∷ ts)) tt s in
      Ensures-if p.is_map_directive _ _
        (λ m. parse_directive-Passed H v_comment p.comments st t ts s)
        (λ m.
          Ensures-if (is_dotted t.kind) _ _ (λ d. parse_dotted-Passed H p.comments st t ts s)
            (λ d. Ensures-bind (skip_strange-IsSkipped (t ∷ ts)) (λ rest k. good (
              dropped k.dropped k.cut (inl (strange t ts k.dropped rest d k.cut, k.line)) q,
              k.goes_on,
            ))))

  -- One turn of the loop, behind the comments that `take_prefix` takes.
  pub record IsFileTurn (st : State H.Table) (toks : List Token) (r : State H.Table × List Token)
      : Type 0 where
    pub prefix : Prefix
    pub taken : take_prefix toks ≡ ok prefix
    pub front : words toks ≡ words prefix.comments ++ words prefix.rest
    pub turn : IsTurn H st prefix.comments prefix.rest r.0 r.1
    pub goes_on : IsAtEnd r.1 ⊎ (length r.1 < length toks)

  -- From a sound state, `parse_file` takes comments and a construct behind them, and ends with an error that is a read
  -- behind the last token or a variable without a name, or with each word of them, kind and text, in a statement
  -- list, behind what the list has and in the order of the file within each list; but what follows the
  -- comments is dropped if it is a line that begins with no directive, or a head that the end of the file cuts off. In
  -- each case fewer tokens are left, or the end of the file is reached.
  pub parse_file-IsFileTurn :
      (st : State H.Table) (toks : List Token)
      → IsSound H st
      → Ensures (IsFileTurn st toks) IsParseError (parse_file H st toks)
  unfolding parse_file
  parse_file-IsFileTurn st toks s =
      Ensures-bind (Ensures-weaken (λ p h. h) (λ x h. h.1) (Ensures-traced (take_prefix-Cut toks)))
        (λ p (e, c).
          let l = Cut-length toks (p.comments, p.rest) c in
          Ensures-weaken
            (λ r (t, k). record {
              prefix = p;
              taken = e;
              front = c;
              turn = t;
              goes_on = elim k [ inl end ↦ inl end | inr m ↦ inr (omega arith) ];
            })
            (λ x h. h) (parse_behind-Passed p p.rest st s))

  kept :
      {st st' : State H.Table} {from rest : List Word}
      → Parsed H Nothing st st' from rest
      → Parsed H IsLost st st' from rest
  kept p = Parsed-weaken H (λ ws h. absurd h) p

  turn-Parsed :
      {st st' : State H.Table} {cs toks rest : List Token}
      → IsTurn H st cs toks st' rest
      → Parsed H IsLost st st' (words cs ++ words toks) (words rest)
  turn-Parsed (all_kept p) = kept p
  turn-Parsed (dropped lost c (inl (strange_line, line)) p) =
      Parsed-trans H (kept p) (Parsed-drop H _ (words lost) _ _ p.sound (inl strange_line) c)
  turn-Parsed (dropped lost c (inr (open_tokens, end)) p) =
      Parsed-trans H (kept p)
        (Parsed-drop H _ (words lost) _ _ p.sound (inr (lost, refl, open_tokens)) c)

  abbrev Done : State H.Table → List Token → State H.Table → Type 0
  Done st toks st' =
      (rest : List Token) × Parsed H IsLost st st' (words toks) (words rest) × IsAtEnd rest

  -- Behind one turn of the loop.
  while_tokens-Done :
      (st st1 : State H.Table) (toks rest : List Token)
      (again : State H.Table → List Token → Result (State H.Table))
      → Parsed H IsLost st st1 (words toks) (words rest)
      → IsAtEnd rest ⊎ (length rest < length toks)
      → (length rest < length toks → Ensures (Done st1 rest) IsParseError (again st1 rest))
      → Ensures (Done st toks) IsParseError (while_tokens H again (st1, rest))
  while_tokens-Done st st1 toks [] again p k f = bad (beyond refl)
  while_tokens-Done st st1 toks (t ∷ ts) again p k f =
      Ensures-if (is_end t.kind) _ _ (λ e. good ((t ∷ ts), p, e))
        (λ e.
          let shorter : length (t ∷ ts) < length toks = elim k [
            | inl at_end ↦ absurd (cc (e, at_end))
            | inr m ↦ m
          ] in
          Ensures-weaken (λ st2 (r, q, end). (r, Parsed-trans H p q, end)) (λ x h. h) (f shorter))

  file_loop-Done :
      (fuel : ℕ) (st : State H.Table) (toks : List Token)
      → IsSound H st
      → length toks < fuel
      → Ensures (Done st toks) IsParseError (file_loop H fuel st toks)
  unfolding file_loop
  file_loop-Done zero st toks s l = absurd (omega arith)
  file_loop-Done (suc fuel) st toks s l =
      Ensures-bind (parse_file-IsFileTurn st toks s) (λ (st1, rest) f.
        let p = Parsed-same H f.front refl (turn-Parsed f.turn) in
        while_tokens-Done st st1 toks rest (file_loop H fuel) p f.goes_on
          (λ m. file_loop-Done fuel st1 rest p.sound (omega arith)))

-- The words up to the end of the file went to the lists, but for the lost ones, each in its order.
pub record IsParse (H : Hashtab ℕ) (toks : List Token) (st : State H.Table) : Type 0 where
  pub chunks : List Chunk
  pub rest : List Token
  pub taken : words toks ≡ all_words chunks ++ words rest
  pub ended : IsAtEnd rest
  pub fates : All (IsFate IsLost) chunks
  pub placed : (d : Dest) → held d st ≡ words_to d chunks
  pub known : AreKnown (length st.symbols) st.symbols
  pub counted : (C : Count H) → C.elements st.symbol_table ≡ length st.symbols

pub no_statements-IsSound : (H : Hashtab ℕ) → IsSound H (no_statements H)
no_statements-IsSound H = record {
  in_table = λ k i h. let e : none ≡ some i = sym (H.find-empty k) ∙ h in absurd (cc e);
  known = tt;
  counted = λ C. C.elements-empty;
}

-- The loop over the file ends, and each dependence of a symbol is the place of a symbol.
pub parse_tokens-IsParse :
    (H : Hashtab ℕ) (toks : List Token)
    → Ensures (IsParse H toks) IsParseError (parse_tokens H toks)
unfolding parse_tokens
parse_tokens-IsParse H toks =
    Ensures-weaken
      (λ st (rest, p, e). record {
        chunks = p.chunks;
        rest = rest;
        taken = p.taken;
        ended = e;
        fates = p.fates;
        placed = λ d. p.placed d ∙ ap (λ l. l ++ words_to d p.chunks) (empty d);
        known = p.sound.known;
        counted = p.sound.counted;
      })
      (λ x e. e)
      (file_loop-Done H (suc (length toks)) (no_statements H) toks (no_statements-IsSound H)
        (omega arith))
  where
    empty : (d : Dest) → held d (no_statements H) ≡ []
    empty to_decls = refl
    empty to_fns = refl
    empty (to_symbol i) = refl
