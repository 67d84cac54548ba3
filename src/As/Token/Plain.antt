-- ===== src/As/Token/Plain.antt =====
-- The symbols that nvptx-as.cc `tokenize` cuts from a text have no minus.
use nvptx_tools.Base.{
  ℕ, zero, suc, ◌%◌, ◌≡◌, refl, Bool, true, false, ◌||◌, ◌&&◌, not, Option, none, some, List, [],
  ◌∷◌, ◌==◌, ltb, Bytes, All, has_byte, length, take, drop, arith, Bool-cases, inl, inr,
}
use nvptx_tools.Result.{Result, ok}
use nvptx_tools.Result.Ensures.{Ensures, good, bad, Ensures-bind, Ensures-ok, Ensures-if}
use nvptx_tools.As.Token.{
  Kind, k_symbol, k_ident, k_dotted, k_number, k_string, Token, Lexeme, lexeme, char_at, between,
  is_ident, span_ident, Close, at_newline, closed, at_nul, span_block, span_string, block_lexeme,
  ident_lexeme, string_lexeme, read_lexeme, skip_white, after_gap, next_lexeme, is_end, is_comment,
  token_loop, tokenize,
}

abbrev pub is_symbol_kind : Kind → Bool
is_symbol_kind k_symbol = true
is_symbol_kind _ = false

abbrev pub IsPlain : Kind → Bytes → Type 0
IsPlain kind text = is_symbol_kind kind ≡ true → has_byte b'-' text ≡ false

has_byte-take : (b n : ℕ) (s : Bytes) → has_byte b s ≡ false → has_byte b (take n s) ≡ false
unfolding has_byte
has_byte-take b zero s h = refl
has_byte-take b (suc n) [] h = refl
has_byte-take b (suc n) (c ∷ s) h = ground (arith, h, has_byte-take b n s)

ident_char : (last c : ℕ) → is_ident k_symbol last c ≡ true → (c == b'-') ≡ false
unfolding is_ident
ident_char last c h = ground (arith, h)

span_ident-plain : (last : ℕ) (p : Bytes) → has_byte b'-' (span_ident k_symbol last p).0 ≡ false
unfolding span_ident has_byte
span_ident-plain last [] = refl
span_ident-plain last (c ∷ p) = elim (Bool-cases (is_ident k_symbol last c)) [
  | inl e ↦
      rw e
        (let other : (c == b'-') ≡ false = ident_char last c e in rw other (span_ident-plain c p))
  | inr e ↦ rw e refl
]

abbrev LexemeIsPlain : Lexeme → Type 0
LexemeIsPlain lex = IsPlain lex.kind lex.text

other : (lex : Lexeme) → is_symbol_kind lex.kind ≡ false → LexemeIsPlain lex
other lex h e = absurd (cc (h, e))

ident_lexeme-IsPlain :
    (kind : Kind) (ws : Bool) (c : ℕ) (r : Bytes × Bytes)
    → IsPlain kind (c ∷ r.0)
    → LexemeIsPlain (ident_lexeme kind ws c r)
ident_lexeme-IsPlain kind ws c (word, rest) h = elim (Bool-cases (char_at rest == b':')) [
  | inl e ↦ rw e (λ k. absurd (cc k))
  | inr e ↦ rw e (λ k. has_byte-take b'-' (length (c ∷ word) % 65536) (c ∷ word) (h k))
]

abbrev Plain : Result Lexeme → Type 0
Plain r = Ensures LexemeIsPlain (λ x. Unit) r

block_lexeme-IsPlain : (ws : Bool) (r : (Bytes × Bytes) × Close) → LexemeIsPlain (block_lexeme ws r)
block_lexeme-IsPlain ws ((line, rest), at_newline) k = absurd (cc k)
block_lexeme-IsPlain ws ((line, rest), closed) k = absurd (cc k)
block_lexeme-IsPlain ws ((line, rest), at_nul) k = absurd (cc k)

other-Plain : (lex : Lexeme) → is_symbol_kind lex.kind ≡ false → Plain (ok lex)
other-Plain lex h = good (other lex h)

string_lexeme-Plain :
    (ws : Bool) (c : ℕ) (r : Option (Bytes × Bytes)) → Plain (string_lexeme ws c r)
string_lexeme-Plain ws c none = bad tt
string_lexeme-Plain ws c (some (word, rest)) = other-Plain (lexeme k_string ws (c ∷ word) rest) refl

symbol-plain :
    (c : ℕ) (p : Bytes)
    → (between b'a' b'z' c || between b'A' b'Z' c || c == b'_') ≡ true
    → has_byte b'-' (c ∷ (span_ident k_symbol c p).0) ≡ false
unfolding has_byte
symbol-plain c p h =
    let other : (c == b'-') ≡ false = ground (arith, h) in rw other (span_ident-plain c p)

ident-Plain :
    (kind : Kind) (ws : Bool) (c : ℕ) (r : Bytes × Bytes)
    → is_symbol_kind kind ≡ false
    → Plain (ok (ident_lexeme kind ws c r))
ident-Plain kind ws c r h = good (ident_lexeme-IsPlain kind ws c r (λ k. absurd (cc (h, k))))

read_lexeme-Plain : (nc ws : Bool) (c : ℕ) (p : Bytes) → Plain (read_lexeme nc ws c p)
unfolding read_lexeme
read_lexeme-Plain nc ws c p =
    Ensures-if (ltb 127 c) _ _ (λ h. bad tt)
      (λ h.
        Ensures-if (c == b'/') _ _
          (λ h.
            Ensures-if (char_at p == b'/') _ _ (λ h. other-Plain _ refl)
              (λ h.
                Ensures-if (char_at p == b'*') _ _
                  (λ h. good (block_lexeme-IsPlain ws (span_block (drop 1 p))))
                  (λ h. other-Plain _ refl)))
          (λ h.
            Ensures-if (c == b'"') _ _ (λ h. string_lexeme-Plain ws c (span_string p))
              (λ h.
                Ensures-if (c == b'.' && not (between b'0' b'9' (char_at p))) _ _
                  (λ h. ident-Plain k_dotted nc c (span_ident k_dotted c p) refl)
                  (λ h.
                    Ensures-if (c == b'.' || between b'0' b'9' c) _ _
                      (λ h. ident-Plain k_number ws c (span_ident k_number c p) refl)
                      (λ h.
                        Ensures-if (c == b'$' || c == b'%') _ _
                          (λ h. ident-Plain k_ident ws c (span_ident k_ident c p) refl)
                          (λ h.
                            Ensures-if (between b'a' b'z' c || between b'A' b'Z' c || c == b'_') _ _
                              (λ h. good (
                                ident_lexeme-IsPlain k_symbol ws c (span_ident k_symbol c p)
                                  (λ k. symbol-plain c p h)))
                              (λ h. other-Plain _ refl)))))))

abbrev NextPlain : Result (Bool × Lexeme) → Type 0
NextPlain r = Ensures (λ l. LexemeIsPlain l.1) (λ x. Unit) r

next_lexeme-NextPlain : (ic nc : Bool) (p : Bytes) → NextPlain (next_lexeme ic nc p)
unfolding next_lexeme after_gap
next_lexeme-NextPlain true nc p = good (block_lexeme-IsPlain false (span_block p))
next_lexeme-NextPlain false nc p =
    let gap = skip_white nc false false p in
    Ensures-bind (read_lexeme-Plain nc gap.ws (char_at gap.rest) (drop 1 gap.rest))
      (λ lex h. good h)

-- Every symbol of a list of tokens.
abbrev pub ArePlain : List Token → Type 0
ArePlain ts = All (λ t. IsPlain t.kind t.text) ts

loop-ArePlain :
    (fuel : ℕ) (ic nc : Bool) (p : Bytes)
    → Ensures (λ r. ArePlain r.1) (λ x. Unit) (token_loop fuel ic nc p)
unfolding token_loop
loop-ArePlain zero ic nc p = bad tt
loop-ArePlain (suc fuel) ic nc p = Ensures-bind (next_lexeme-NextPlain ic nc p) (λ (eol, lex) h.
    Ensures-if (is_end lex.kind) _ _ (λ e. good (h, tt))
      (λ e.
        Ensures-bind (loop-ArePlain fuel lex.in_comment (not (is_comment lex.kind)) lex.rest)
          (λ r i. good (h, i))))

pub tokenize-ArePlain : (text : Bytes) (ts : List Token) → tokenize text ≡ ok ts → ArePlain ts
unfolding tokenize
tokenize-ArePlain text ts h =
    Ensures-ok
      (Ensures-bind {f = λ r. ok r.1} (loop-ArePlain (suc (length text)) false false text)
        (λ r i. good i))
      h
