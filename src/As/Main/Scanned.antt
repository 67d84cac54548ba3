-- ===== src/As/Main/Scanned.antt =====
-- What `sscanf` reads of an architecture, in nvptx-as.cc `main`.
use nvptx_tools.Base.{
  ℕ, zero, suc, ◌+◌, ◌*◌, ◌/◌, ◌%◌, ◌<◌, ◌≡◌, refl, ap, ◌∙◌, Bool, true, false, Option, none, some,
  [], ◌∷◌, ◌++◌, ltb, Bytes, codes, has_byte, starts_with, drop, arith, Bool-cases, inl, inr,
}
use nvptx_tools.Libc.{
  ℤ, pos, negsuc, has_digit, skip_space, read_sign, read_digits, digits_onto, decimal,
}
use nvptx_tools.As.Main.Target.{scan_int, scan_arch, converted}

-- What `%d` prints is what it scans.
read_digits-digit :
    (acc d : ℕ) (rest : Bytes)
    → d < 10
    → read_digits acc ((b'0' + d) ∷ rest) ≡ read_digits (acc * 10 + d) rest
unfolding read_digits
read_digits-digit acc d rest h = ground arith

read_digits-digits_onto :
    (fuel n : ℕ) (rest : Bytes)
    → n < fuel
    → read_digits 0 (digits_onto fuel n rest) ≡ read_digits n rest
unfolding digits_onto
read_digits-digits_onto zero n rest h = absurd (omega arith)
read_digits-digits_onto (suc fuel) n rest h = elim (Bool-cases (ltb n 10)) [
  | inl small ↦
      rw small
        (read_digits-digit 0 n rest (ground arith) ∙ ap (λ m. read_digits m rest) (omega arith))
  | inr large ↦ rw large (
      read_digits-digits_onto fuel (n / 10) ((b'0' + n % 10) ∷ rest) (ground arith)
      ∙ read_digits-digit (n / 10) (n % 10) rest (omega arith)
      ∙ ap (λ m. read_digits m rest) (omega arith))
]

digits_onto-has_digit :
    (fuel n : ℕ) (rest : Bytes) → n < fuel → has_digit (digits_onto fuel n rest) ≡ true
unfolding digits_onto
digits_onto-has_digit zero n rest h = absurd (omega arith)
digits_onto-has_digit (suc fuel) n rest h = elim (Bool-cases (ltb n 10)) [
  | inl small ↦ rw small (ground arith)
  | inr large ↦ rw large (digits_onto-has_digit fuel (n / 10) _ (ground arith))
]

skip_space-digit : (s : Bytes) → has_digit s ≡ true → skip_space s ≡ s
unfolding skip_space
skip_space-digit [] h = refl
skip_space-digit (c ∷ cs) h = ground (arith, h)

read_sign-digit : (s : Bytes) → has_digit s ≡ true → read_sign s ≡ (false, s)
unfolding read_sign
read_sign-digit [] h = refl
read_sign-digit (c ∷ cs) h = ground (arith, h)

scan_int-decimal : (n : ℕ) → scan_int (decimal n) ≡ some (pos n, [])
unfolding scan_int decimal
scan_int-decimal n =
    let first = digits_onto-has_digit (suc n) n [] (omega arith) in
    let number = read_digits-digits_onto (suc n) n [] (omega arith) in
    rw (skip_space-digit _ first, read_sign-digit _ first, first, number)
      (unfold read_digits in refl)

pub scan_arch-decimal : (n : ℕ) → scan_arch (codes "sm_" ++ decimal n) ≡ some (pos n, [])
unfolding scan_arch starts_with
scan_arch-decimal n = scan_int-decimal n

-- A text without minus is not scanned as a negative number.
has_byte-skip_space : (s : Bytes) → has_byte b'-' s ≡ false → has_byte b'-' (skip_space s) ≡ false
unfolding skip_space has_byte
has_byte-skip_space [] h = refl
has_byte-skip_space (c ∷ cs) h = ground (arith, h, has_byte-skip_space cs)

read_sign-plain : (s : Bytes) → has_byte b'-' s ≡ false → (read_sign s).0 ≡ false
unfolding read_sign has_byte
read_sign-plain [] h = refl
read_sign-plain (c ∷ cs) h = ground (arith, h)

has_byte-drop : (n : ℕ) (s : Bytes) → has_byte b'-' s ≡ false → has_byte b'-' (drop n s) ≡ false
unfolding has_byte
has_byte-drop zero s h = h
has_byte-drop (suc n) [] h = refl
has_byte-drop (suc n) (c ∷ s) h = has_byte-drop n s (ground (arith, h))

-- A number that is not negative, and what is behind it.
abbrev pub IsScanned : Option (ℤ × Bytes) → Type 0
IsScanned none = Unit
IsScanned (some (pos n, rest)) = Unit
IsScanned (some (negsuc n, rest)) = ⊥

converted-IsScanned :
    (negative : Bool) (digits : Bytes) (r : ℕ × Bytes)
    → negative ≡ false
    → IsScanned (converted negative digits r)
converted-IsScanned true digits r h = absurd (cc h)
converted-IsScanned false digits (n, rest) h = elim (Bool-cases (has_digit digits)) [
  | inl e ↦ rw e tt
  | inr e ↦ rw e tt
]

pub scan_arch-IsScanned : (text : Bytes) → has_byte b'-' text ≡ false → IsScanned (scan_arch text)
unfolding scan_arch scan_int
scan_arch-IsScanned text h = elim (Bool-cases (starts_with (codes "sm_") text)) [
  | inl e ↦
      let s = skip_space (drop 3 text) in
      rw e (
        converted-IsScanned (read_sign s).0 (read_sign s).1 (read_digits 0 (read_sign s).1)
          (read_sign-plain s (has_byte-skip_space (drop 3 text) (has_byte-drop 3 text h))))
  | inr e ↦ rw e tt
]
