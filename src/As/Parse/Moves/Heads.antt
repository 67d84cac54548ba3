-- ===== src/As/Parse/Moves/Heads.antt =====
-- Where the tokens of a directive, of a head and of what follows it go (nvptx-as.cc, `parse_file`).
use nvptx_tools.Base.{
  ℕ, ◌+◌, ◌<◌, ◌≡◌, refl, ap, sym, ◌∙◌, false, ◌||◌, ◌&&◌, not, Option, none, some, List, [], ◌∷◌,
  ◌++◌, length, All, ◌⊎◌, arith, inl, inr,
}
use mathlib.Core.List.{append_assoc}
use nvptx_tools.Hashtab.{Hashtab}
use nvptx_tools.Result.Ensures.{Ensures, good, bad, Ensures-bind, Ensures-weaken, Ensures-if}
use nvptx_tools.As.Token.{Token, is_comment, is_dotted, is_end}
use nvptx_tools.As.Statement.{v_comment}
use nvptx_tools.As.Parse.{
  State, Dest, to_decls, to_fns, to_symbol, symbol_hash_lookup, is_single, set_end, v_dot,
  v_prefix_comment,
}
use nvptx_tools.As.Parse.File.{
  Heading, no_head, vis_of, ends_head, put_prefix, prefixed, put_stmt, parse_directive, is_preamble,
  parse_variable, parse_heading, parse_dotted,
}
use nvptx_tools.As.Parse.Words.{
  Word, word, words, words-append, IsParseError, nameless, Cut-length, IsHeading,
  take_head-IsHeading, IsAtEnd, IsLine,
}
use nvptx_tools.As.Parse.Held.{HasPlace, Nothing}
use nvptx_tools.As.Parse.Moves.{
  IsSound, Parsed, Parsed-none, Parsed-trans, Parsed-put, put-HasPlace, lookup-Parsed,
}
use nvptx_tools.As.Parse.Moves.Bodies.{parse_line_nosemi-Went, parse_insn-Gone, parse_init-Gone}

-- What is dropped: words that begin with one that is not dotted, and a head that the file cuts off.
abbrev pub IsStrange : List Word → Type 0
IsStrange [] = Unit
IsStrange ((kind, text) ∷ ws) = is_dotted kind ≡ false

abbrev pub IsUnfinished : List Word → Type 0
IsUnfinished ws = (ts : List Token) × (ws ≡ words ts) × All (λ t. ends_head t ≡ false) ts

abbrev pub IsLost : List Word → Type 0
IsLost ws = IsStrange ws ⊎ IsUnfinished ws

-- A line of tokens that begins with one that is no directive.
abbrev pub IsStrangeLine : List Token → Type 0
IsStrangeLine ts = IsStrange (words ts) × IsLine ts

-- A head, at the end of the file.
abbrev pub IsCutOff : List Token → List Token → Type 0
IsCutOff ts rest = All (λ t. ends_head t ≡ false) ts × IsAtEnd rest

module _ (H : Hashtab ℕ) where
  pub put_prefix-Parsed :
      (d : Dest) (cs : List Token) (st : State H.Table) (rest : List Word)
      → HasPlace d st
      → IsSound H st
      → Parsed H Nothing st (put_prefix d cs st) (words cs ++ rest) rest
  put_prefix-Parsed d [] st rest h s = Parsed-none H st rest s
  put_prefix-Parsed d (c ∷ cs) st rest h s =
      Parsed-put H d (v_comment + v_prefix_comment) (c ∷ cs) st (words (c ∷ cs) ++ rest) rest h s
        refl

  put_prefix-HasPlace :
      (d : Dest) (cs : List Token) (st : State H.Table)
      → HasPlace d st
      → HasPlace d (put_prefix d cs st)
  put_prefix-HasPlace d [] st h = h
  put_prefix-HasPlace d (c ∷ cs) st h =
      put-HasPlace H d d (v_comment + v_prefix_comment) (c ∷ cs) st h

  put_stmt-Parsed :
      (d : Dest) (cs : List Token) (vis : ℕ) (toks : List Token) (st : State H.Table)
      (from rest : List Word)
      → HasPlace d st
      → IsSound H st
      → from ≡ words toks ++ rest
      → Parsed H Nothing st (put_stmt d cs vis toks st) (words cs ++ from) rest
  unfolding put_stmt
  put_stmt-Parsed d cs vis toks st from rest h s e =
      let p = put_prefix-Parsed d cs st from h s in
      Parsed-trans H p (
        Parsed-put H d (prefixed cs vis) toks (put_prefix d cs st) from rest
          (put_prefix-HasPlace d cs st h) p.sound e)

  -- Behind the comments `cs` in front of a construct that begins the tokens `toks`: all words of the
  -- comments and of the tokens up to the rest go to the lists, or those of the comments alone go there,
  -- and what is dropped is a line that is no directive, or a head that the end of the file cuts off.
  pub data IsTurn (st : State H.Table) (cs toks : List Token) (st' : State H.Table)
      (rest : List Token) : Type 0 where
    all_kept :
        Parsed H Nothing st st' (words cs ++ words toks) (words rest) → IsTurn st cs toks st' rest
    dropped :
        (lost : List Token)
        → words toks ≡ words lost ++ words rest
        → IsStrangeLine lost ⊎ IsCutOff lost rest
        → Parsed H Nothing st st' (words cs ++ words toks) (words toks)
        → IsTurn st cs toks st' rest

  -- A turn, and an end of the file or fewer tokens.
  abbrev pub Passed :
      State H.Table → List Token → List Token → ℕ → State H.Table × List Token → Type 0
  Passed st cs toks n r = IsTurn st cs toks r.0 r.1 × (IsAtEnd r.1 ⊎ (length r.1 < n))

  pub parse_directive-Passed :
      (vis : ℕ) (cs : List Token) (st : State H.Table) (t : Token) (ts : List Token)
      → IsSound H st
      → Ensures
          (Passed st cs (t ∷ ts) (length (t ∷ ts)))
          IsParseError
          (parse_directive vis cs st (t ∷ ts))
  unfolding parse_directive
  parse_directive-Passed vis cs st t ts s =
      let p = put_prefix-Parsed to_decls cs st (words (t ∷ ts)) tt s in
      Ensures-weaken (λ r (q, l). (all_kept (Parsed-trans H p q), inr (omega arith))) (λ x e. e)
        (parse_line_nosemi-Went H vis to_decls (put_prefix to_decls cs st) t ts tt p.sound)

  -- The tokens of a head, with the one that ends it.
  whole_head :
      (toks : List Token) (h : Heading)
      → IsHeading toks h
      → words toks ≡ words (h.tokens ++ set_end h.stop ∷ []) ++ words h.rest
  whole_head toks h i =
      i.cut
      ∙ sym (append_assoc (words h.tokens) (word h.stop ∷ []) (words h.rest))
      ∙ ap (λ l. l ++ words h.rest) (sym (words-append h.tokens (set_end h.stop ∷ [])))

  rest_shorter : (toks : List Token) (h : Heading) → IsHeading toks h → length h.rest < length toks
  rest_shorter toks h i = let l = Cut-length toks (h.tokens, h.stop ∷ h.rest) i.cut in omega arith

  parse_variable-Passed :
      (cs : List Token) (toks : List Token) (h : Heading) (name : Option Token) (st : State H.Table)
      → IsSound H st
      → IsHeading toks h
      → Ensures (Passed st cs toks (length toks)) IsParseError (parse_variable H cs h name st)
  unfolding parse_variable
  parse_variable-Passed cs toks h none st s i = bad (nameless refl)
  parse_variable-Passed cs toks h (some name) st s i =
      let from = words cs ++ words toks in
      let (p, l) = lookup-Parsed H {Lost = Nothing} name.text st from s in
      let def = (symbol_hash_lookup H name.text st).0 in
      let st1 = (symbol_hash_lookup H name.text st).1 in
      let q =
        put_stmt-Parsed (to_symbol def) cs (vis_of h.head) (h.tokens ++ set_end h.stop ∷ []) st1
          (words toks) (words h.rest) l p.sound (whole_head toks h i) in
      let shorter = rest_shorter toks h i in
      Ensures-if (is_single b'=' h.stop) _ _
        (λ a.
          Ensures-weaken
            (λ r (w, k). (all_kept (Parsed-trans H p (Parsed-trans H q w)), inr (omega arith)))
            (λ x e. e) (parse_init-Gone H def _ h.rest (omega (arith, q.grown)) q.sound))
        (λ a. good (all_kept (Parsed-trans H p q), inr shorter))

  parse_heading-Passed :
      (cs toks : List Token) (st : State H.Table) (h : Heading)
      → IsSound H st
      → IsHeading toks h
      → Ensures (Passed st cs toks (length toks)) IsParseError (parse_heading H cs st h)
  unfolding parse_heading
  parse_heading-Passed cs toks st h s i =
      let shorter = rest_shorter toks h i in
      let stopped = words (h.stop ∷ h.rest) in
      Ensures-if (is_end h.stop.kind) _ _
        (λ e.
          let p = put_prefix-Parsed to_fns cs st (words toks) tt s in
          good (dropped h.tokens i.cut (inr (i.open_tokens, e)) p, inl e))
        (λ e.
          Ensures-if (is_single b'{' h.stop || is_comment h.stop.kind) _ _
            (λ f.
              let p =
                put_stmt-Parsed to_fns cs (vis_of h.head) h.tokens st (words toks) stopped tt s
                  i.cut in
              let l = Cut-length toks (h.tokens, h.stop ∷ h.rest) i.cut in
              Ensures-weaken (λ r (w, k). (all_kept (Parsed-trans H p w), inr (omega arith)))
                (λ x e. e) (parse_insn-Gone H _ (h.stop ∷ h.rest) p.sound))
            (λ f.
              Ensures-if (h.head.is_var && not h.head.is_func && not h.head.is_decl) _ _
                (λ v. parse_variable-Passed cs toks h h.head.def_token st s i)
                (λ v. good (
                  all_kept (
                      put_stmt-Parsed to_decls cs (vis_of h.head) (h.tokens ++ set_end h.stop ∷ [])
                        st (words toks) (words h.rest) tt s (whole_head toks h i)),
                  inr shorter,
                ))))

  pub parse_dotted-Passed :
      (cs : List Token) (st : State H.Table) (t : Token) (ts : List Token)
      → IsSound H st
      → Ensures (Passed st cs (t ∷ ts) (length (t ∷ ts))) IsParseError (parse_dotted H cs st t ts)
  unfolding parse_dotted
  parse_dotted-Passed cs st t ts s =
      Ensures-if (is_preamble t) _ _ (λ p. parse_directive-Passed v_dot cs st t ts s)
        (λ p.
          Ensures-bind (take_head-IsHeading none no_head (t ∷ ts))
            (λ h i. parse_heading-Passed cs (t ∷ ts) st h s i))
