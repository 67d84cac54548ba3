-- ===== src/Ld/Scan/Name.antt =====
-- The number in the special symbol of an input file (nvptx-ld.cc, `main`).
use nvptx_tools.Base.{
  ℕ, zero, suc, ◌+◌, ◌-◌, ◌*◌, ◌/◌, ◌%◌, ◌<◌, ◌≡◌, refl, ap, sym, ◌∙◌, true, [], ◌∷◌, ◌++◌, arith,
  if◌then◌else◌, ◌==◌, ltb, Bool-cases, Bytes, drop, inl, inr,
}
use nvptx_tools.Ld.Symbol.{is_starred}
use nvptx_tools.Libc.{digits_onto, decimal}
use nvptx_tools.Ld.Scan.{sym_name}

-- The number that the digits before a space stand for, behind `acc`.
value : ℕ → Bytes → ℕ
value acc [] = acc
value acc (c ∷ cs) = if c == b' ' then acc else value (acc * 10 + (c - 48)) cs

value-digit :
    (acc d : ℕ) (rest : Bytes) → d < 10 → value acc ((b'0' + d) ∷ rest) ≡ value (acc * 10 + d) rest
unfolding value
value-digit acc d rest h = ground arith

value-digits_onto :
    (fuel n : ℕ) (rest : Bytes) → n < fuel → value 0 (digits_onto fuel n rest) ≡ value n rest
unfolding digits_onto
value-digits_onto zero n rest h = absurd (omega arith)
value-digits_onto (suc fuel) n rest h = elim (Bool-cases (ltb n 10)) [
  | inl small ↦
      rw small (value-digit 0 n rest (ground arith) ∙ ap (λ m. value m rest) (omega arith))
  | inr large ↦ rw large (
      value-digits_onto fuel (n / 10) ((b'0' + n % 10) ∷ rest) (ground arith)
      ∙ value-digit (n / 10) (n % 10) rest (omega arith)
      ∙ ap (λ m. value m rest) (omega arith))
]

digits_onto-append :
    (fuel n : ℕ) (out rest : Bytes)
    → digits_onto fuel n out ++ rest ≡ digits_onto fuel n (out ++ rest)
unfolding digits_onto
digits_onto-append zero n out rest = refl
digits_onto-append (suc fuel) n out rest = elim (Bool-cases (ltb n 10)) [
  | inl small ↦ rw small
  | inr large ↦ rw large (digits_onto-append fuel (n / 10) _ rest)
]

number_of : Bytes → ℕ
number_of key = value 0 (drop 11 key)

number_of-sym_name : (n : ℕ) (name : Bytes) → number_of (sym_name n name) ≡ n
unfolding number_of sym_name decimal
number_of-sym_name n name =
    ap (value 0) (digits_onto-append (suc n) n [] (b' ' ∷ name))
    ∙ value-digits_onto (suc n) n (b' ' ∷ name) (omega arith)
    ∙ unfold value in refl

-- Two special symbols that agree are those of one input file number.
pub sym_name_injective : (i j : ℕ) (a b : Bytes) → sym_name i a ≡ sym_name j b → i ≡ j
sym_name_injective i j a b e =
    sym (number_of-sym_name i a) ∙ ap number_of e ∙ number_of-sym_name j b

pub sym_name-starred : (n : ℕ) (name : Bytes) → is_starred (sym_name n name) ≡ true
unfolding sym_name is_starred
sym_name-starred n name = refl
