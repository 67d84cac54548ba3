-- ===== src/As/Token/Strings.antt =====
-- The strings that nvptx-as.cc `write_token` prints, read by `tokenize`.
use nvptx_tools.Base.{
  ℕ, ◌≡◌, refl, ap, ◌∙◌, true, false, some, [], ◌∷◌, ◌++◌, ◌==◌, Bytes, has_byte, arith, Bool-cases,
  inl, inr,
}
use mathlib.Core.List.{append_assoc, append-nil}
use nvptx_tools.Result.{ok}
use nvptx_tools.As.Token.{Token, k_string, span_string, behind, encode, without_last, write_token}

span_string-plain :
    (b : ℕ) (p : Bytes)
    → (b == 0) ≡ false
    → (b == b'"') ≡ false
    → (b == b'\\') ≡ false
    → span_string (b ∷ p) ≡ behind (b ∷ []) (span_string p)
unfolding span_string
span_string-plain b [] z q s = rw z (rw s)
span_string-plain b (d ∷ p) z q s = rw z (rw q (rw s))

span_string-escaped :
    (b d : ℕ) (p : Bytes)
    → (b == b'\\') ≡ true
    → span_string (b ∷ d ∷ p) ≡ behind (b ∷ d ∷ []) (span_string p)
unfolding span_string
span_string-escaped b d p s = ground (arith, s)

later : (x b : ℕ) (body : Bytes) → has_byte x (b ∷ body) ≡ false → has_byte x body ≡ false
unfolding has_byte
later x b body h = ground (arith, h)

first : (x b : ℕ) (body : Bytes) → has_byte x (b ∷ body) ≡ false → (b == x) ≡ false
unfolding has_byte
first x b body h = ground (arith, h)

-- A string that is encoded, with its last quote, and a character behind it.
span_string-encode :
    (body rest : Bytes) (c : ℕ)
    → has_byte b'"' body ≡ false
    → has_byte 0 body ≡ false
    → span_string (encode body ++ (b'"' ∷ c ∷ rest)) ≡ some (encode body ++ b'"' ∷ [], c ∷ rest)
unfolding encode
span_string-encode [] rest c h g = unfold span_string in refl
span_string-encode (b ∷ body) rest c h g = elim (Bool-cases (b == b'\\')) [
  | inl slash ↦ rw slash (
      span_string-escaped b b (encode body ++ (b'"' ∷ c ∷ rest)) slash
      ∙ ap (behind (b ∷ b ∷ []))
          (span_string-encode body rest c (later b'"' b body h) (later 0 b body g)))
  | inr plain ↦ rw plain (
      span_string-plain b (encode body ++ (b'"' ∷ c ∷ rest)) (first 0 b body g)
        (first b'"' b body h) plain
      ∙ ap (behind (b ∷ []))
          (span_string-encode body rest c (later b'"' b body h) (later 0 b body g)))
]

without_last-snoc : (p : Bytes) (c : ℕ) → without_last (p ++ c ∷ []) ≡ p
without_last-snoc [] c = refl
without_last-snoc (b ∷ []) c = refl
without_last-snoc (b ∷ d ∷ p) c = ap (◌∷◌ b) (without_last-snoc (d ∷ p) c)

abbrev pub string_token : Bytes → Token
string_token body = record {
  kind = k_string;
  space = false;
  end = false;
  text = b'"' ∷ body ++ b'"' ∷ [];
}

write_string :
    (body : Bytes) → write_token (string_token body) ≡ ok (b'"' ∷ encode body ++ b'"' ∷ [])
unfolding write_token
write_string [] = unfold encode in refl
write_string (b ∷ body) =
    rw (without_last-snoc (b ∷ body) b'"')
      (ap (λ s. ok (b'"' ∷ s)) (append-nil (encode (b ∷ body) ++ b'"' ∷ [])))

-- What is printed of a string token without NULs and inner quotes, with any character behind it, is
-- read as one string again: the quote in front, and the rest up to the last quote.
pub span_string-write_token :
    (body rest : Bytes) (c : ℕ)
    → has_byte b'"' body ≡ false
    → has_byte 0 body ≡ false
    → (inner : Bytes) × (write_token (string_token body) ≡ ok (b'"' ∷ inner))
      × (span_string (inner ++ (c ∷ rest)) ≡ some (inner, c ∷ rest))
span_string-write_token body rest c h g = (
  encode body ++ b'"' ∷ [],
  write_string body,
  ap span_string (append_assoc (encode body) (b'"' ∷ []) (c ∷ rest))
      ∙ span_string-encode body rest c h g,
)
