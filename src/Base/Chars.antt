-- ===== src/Base/Chars.antt =====
-- C strings. A `char *` into a buffer is the list of the bytes from there to the end of the
-- buffer; behind the last byte stands the terminating NUL, so the empty list points at a NUL.
use Prim.Native.Nat.{ℕ, ◌+◌, ◌≤◌}
use Prim.Native.Char.{code}
use Prim.Native.String.{String}
use mathlib.Core.Path.{◌≡◌, refl, ◌∙◌}
use mathlib.Core.Logic.{◌↔◌, inl, inr}
use mathlib.Core.Bool.{Bool, true, false, ◌&&◌, ◌||◌}
use mathlib.Core.Option.{Option, none, some}
use mathlib.Core.List.{List, [], ◌∷◌, ◌++◌}
use native.Mathlib.Omega.{arith}
use nvptx_tools.Base.Tests.{◌==◌, if◌then◌else◌, Option-cases}
use nvptx_tools.Base.Lists.{length, drop}

abbrev pub Bytes : Type 0
Bytes = List ℕ

-- The bytes of an ASCII literal.
abbrev pub codes : String → Bytes
codes String.[] = []
codes (String.◌∷◌ c s) = code c ∷ codes s

-- `strcmp (a, b) == 0`
unfoldable pub equal : Bytes → Bytes → Bool
equal (c ∷ s) (d ∷ r) = c == d && equal s r
equal [] [] = true
equal s r = false

-- `strncmp (s, literal, strlen (literal)) == 0`, for a literal without NUL.
unfoldable pub starts_with : Bytes → Bytes → Bool
starts_with [] s = true
starts_with (x ∷ xs) [] = false
starts_with (x ∷ xs) (y ∷ ys) = x == y && starts_with xs ys

-- `strchr (s, '\n')`: the bytes before the newline, and the string that begins at the newline.
unfoldable pub split_line : Bytes → Option (Bytes × Bytes)
split_line [] = none
split_line (c ∷ cs) =
    if c == 0
    then none
    else if c == b'\n'
    then some ([], c ∷ cs)
    else elim (split_line cs) [ none ↦ none | some (name, rest) ↦ some (c ∷ name, rest) ]

pub equal_iff : (s r : Bytes) → (equal s r ≡ true) ↔ (s ≡ r)
unfolding equal
equal_iff [] [] = ground arith
equal_iff [] (d ∷ r) = ground arith
equal_iff (c ∷ s) [] = ground arith
equal_iff (c ∷ s) (d ∷ r) = ground (arith, equal_iff s r)

pub equal_refl : (a : Bytes) → equal a a ≡ true
equal_refl a = (equal_iff a a).1 refl

-- The text behind the terminating NUL, as `ptx + 1` for a `ptx` at it; `none` is one past the end.
unfoldable pub after_nul : Bytes → Option Bytes
after_nul [] = none
after_nul (c ∷ cs) = if c == 0 then some cs else after_nul cs

unfoldable pub has_byte : ℕ → Bytes → Bool
has_byte b [] = false
has_byte b (c ∷ cs) = c == b || has_byte b cs

-- `rest` is a later place in the same C string as `p`.
pub record Follows (p rest : Bytes) : Type 0 where
  pub length_le : length rest ≤ length p
  pub same_end : after_nul rest ≡ after_nul p

pub Follows-refl : (p : Bytes) → Follows p p
Follows-refl p = record { length_le = omega arith; same_end = refl }

pub Follows-trans : {p q r : Bytes} → Follows p q → Follows q r → Follows p r
Follows-trans f g = record { length_le = omega arith; same_end = g.same_end ∙ f.same_end }

pub starts_with-Follows :
    (literal s : Bytes)
    → has_byte 0 literal ≡ false
    → starts_with literal s ≡ true
    → Follows s (drop (length literal) s)
      × (length s ≡ length literal + length (drop (length literal) s))
unfolding starts_with has_byte after_nul
starts_with-Follows [] s f h = (Follows-refl s, omega arith)
starts_with-Follows (x ∷ xs) [] f h = cc
starts_with-Follows (x ∷ xs) (y ∷ ys) f h = ground (arith, starts_with-Follows xs ys)

-- `strchr` finds the first newline of the C string.
pub split_line-Follows :
    (s : Bytes) {name rest : Bytes}
    → split_line s ≡ some (name, rest)
    → Follows s rest
      × (s ≡ name ++ rest)
      × (has_byte b'\n' name ≡ false)
      × (has_byte 0 name ≡ false)
unfolding split_line after_nul has_byte
split_line-Follows [] h = cc
split_line-Follows (c ∷ cs) h = elim (Option-cases (split_line cs)) [
  | inl e ↦ ground (arith, e)
  | inr ((name, rest), e) ↦ ground (arith, e, split_line-Follows cs e)
]
