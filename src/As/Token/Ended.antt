-- ===== src/As/Token/Ended.antt =====
-- The last token that nvptx-as.cc `tokenize` makes.
use nvptx_tools.Base.{
  ℕ, zero, suc, ◌≡◌, Bool, true, false, not, List, [], ◌∷◌, Bytes, length, Bool-cases, inl, inr,
}
use nvptx_tools.Result.{Result, ok, err, ◌>>=◌}
use nvptx_tools.Result.Ensures.{Ensures, good, bad, Ensures-bind, Ensures-ok}
use nvptx_tools.As.Token.{
  Token, Lexeme, next_lexeme, is_end, is_comment, cons_token, go_on, token_loop, tokenize,
}

-- Every token but the last is a token of the text, and the last is that of the end.
abbrev pub IsEnded : List Token → Type 0
IsEnded [] = ⊥
IsEnded (t ∷ []) = is_end t.kind ≡ true
IsEnded (t ∷ u ∷ ts) = (is_end t.kind ≡ false) × IsEnded (u ∷ ts)

cons-IsEnded :
    (eol : Bool) (lex : Lexeme) (r : Bool × List Token)
    → is_end lex.kind ≡ false
    → IsEnded r.1
    → IsEnded (cons_token eol lex r).1
cons-IsEnded eol lex (next, []) e h = absurd h
cons-IsEnded eol lex (next, t ∷ ts) e h = (e, h)

AllEnded : Result (Bool × List Token) → Type 0
AllEnded r = Ensures (λ s. IsEnded s.1) (λ x. Unit) r

go_on-AllEnded :
    (again : Bool → Bool → Bytes → Result (Bool × List Token)) (r : Result (Bool × Lexeme))
    → ((ic nc : Bool) (q : Bytes) → AllEnded (again ic nc q))
    → AllEnded (r >>= go_on again)
unfolding AllEnded
go_on-AllEnded again (err x) h = bad tt
go_on-AllEnded again (ok (eol, lex)) h = elim (Bool-cases (is_end lex.kind)) [
  | inl e ↦ rw e (good e)
  | inr e ↦ rw e (
      Ensures-bind (h lex.in_comment (not (is_comment lex.kind)) lex.rest)
        (λ r i. good (cons-IsEnded eol lex r e i)))
]

loop-AllEnded : (fuel : ℕ) (ic nc : Bool) (p : Bytes) → AllEnded (token_loop fuel ic nc p)
unfolding token_loop
loop-AllEnded zero ic nc p = unfold AllEnded in bad tt
loop-AllEnded (suc fuel) ic nc p =
    go_on-AllEnded (token_loop fuel) (next_lexeme ic nc p) (loop-AllEnded fuel)

-- The tokens of a text, if there are any, end with the one token of the end, at which the loops of
-- the parser stop, and no other token is of its kind.
pub tokenize-IsEnded : (text : Bytes) (ts : List Token) → tokenize text ≡ ok ts → IsEnded ts
unfolding tokenize AllEnded
tokenize-IsEnded text ts h =
    Ensures-ok
      (Ensures-bind {f = λ r. ok r.1} (loop-AllEnded (suc (length text)) false false text)
        (λ r i. good i))
      h
