-- ===== src/As/Token/Stuck.antt =====
-- The end of the loop of nvptx-as.cc `tokenize`.
use nvptx_tools.Base.{
  ℕ, zero, suc, ◌<◌, ◌≡◌, ◌≢◌, ◌⊎◌, refl, Bool, true, false, not, ◌&&◌, List, ◌==◌, Bytes, length,
  arith, Bool-cases, inl, inr,
}
use nvptx_tools.Result.{Result, ok, err, ◌>>=◌, out_of_fuel}
use nvptx_tools.Result.Ensures.{Ensures, good, bad, Ensures-bind}
use nvptx_tools.As.Token.{
  Token, char_at, Lexeme, next_lexeme, is_end, is_comment, go_on, token_loop, tokenize,
}
use nvptx_tools.As.Token.Fuel.{last_token, shorter, NextContinues, next_lexeme-Continues}

-- The states of the loop: `in_comment`, `not_comment` and the text that is left, one token after the other.
pub data Reaches (ic' nc' : Bool) (q : Bytes) : Bool → Bool → Bytes → Type 0 where
  here : Reaches ic' nc' q ic' nc' q
  step :
      {ic nc eol : Bool} {p : Bytes} {lex : Lexeme}
      → next_lexeme ic nc p ≡ ok (eol, lex)
      → is_end lex.kind ≡ false
      → Reaches ic' nc' q lex.in_comment (not (is_comment lex.kind)) lex.rest
      → Reaches ic' nc' q ic nc p

-- The loop comes to a NUL within a block comment.
abbrev pub IsStuck : Bool → Bool → Bytes → Type 0
IsStuck ic nc p =
    (nc' : Bool) × (q : Bytes) × Reaches true nc' q ic nc p × ((char_at q == 0) ≡ true)

abbrev pub Ends {ℓ} : {A : Type ℓ} → Result A → Type ℓ
Ends r = Ensures (λ a. Unit) (λ x. x ≢ out_of_fuel) r

IsStuck-here : (ic nc : Bool) (p : Bytes) → (ic && char_at p == 0) ≡ true → IsStuck ic nc p
IsStuck-here true nc p h = (nc, p, here, h)
IsStuck-here false nc p h = absurd (cc h)

go_on-Ends :
    (again : Bool → Bool → Bytes → Result (Bool × List Token)) (ic nc : Bool) (p : Bytes)
    (r : Result (Bool × Lexeme))
    → next_lexeme ic nc p ≡ r
    → NextContinues p r
    → ((ic' nc' : Bool) (q : Bytes)
        → length q < length p
        → Ends (again ic' nc' q) ⊎ IsStuck ic' nc' q)
    → Ends (r >>= go_on again) ⊎ IsStuck ic nc p
go_on-Ends again ic nc p (err x) e (bad k) h = inl (bad k)
go_on-Ends again ic nc p (ok (eol, lex)) e (good (last_token l)) h = inl (rw l (good tt))
go_on-Ends again ic nc p (ok (eol, lex)) e (good (shorter l)) h =
    elim (Bool-cases (is_end lex.kind)) [
      | inl last ↦ inl (rw last (good tt))
      | inr more ↦ elim (h lex.in_comment (not (is_comment lex.kind)) lex.rest l) [
        | inl k ↦ inl (rw more (Ensures-bind k (λ a u. good tt)))
        | inr (nc', q, reaches, z) ↦ inr (nc', q, step e more reaches, z)
      ]
    ]

loop-Ends :
    (fuel : ℕ) (ic nc : Bool) (p : Bytes)
    → length p < fuel
    → Ends (token_loop fuel ic nc p) ⊎ IsStuck ic nc p
unfolding token_loop
loop-Ends zero ic nc p h = absurd (omega arith)
loop-Ends (suc fuel) ic nc p h = elim (Bool-cases (ic && char_at p == 0)) [
  | inl stuck ↦ inr (IsStuck-here ic nc p stuck)
  | inr free ↦
      go_on-Ends (token_loop fuel) ic nc p (next_lexeme ic nc p) refl
        (next_lexeme-Continues ic nc p free) (λ ic' nc' q l. loop-Ends fuel ic' nc' q (omega arith))
]

-- `tokenize` ends on every text, with its tokens or an error of the source, unless the states of its loop come to a
-- NUL within a block comment.
pub tokenize-Ends : (text : Bytes) → Ends (tokenize text) ⊎ IsStuck false false text
unfolding tokenize
tokenize-Ends text = elim (loop-Ends (suc (length text)) false false text (omega arith)) [
  | inl k ↦ inl (Ensures-bind k (λ r u. good tt))
  | inr stuck ↦ inr stuck
]
