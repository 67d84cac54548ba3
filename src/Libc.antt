-- ===== src/Libc.antt =====
-- What the tools use of the C library: signed integers and `strtol`.
use nvptx_tools.Base.{
  ℕ, zero, suc, ◌/◌, ◌%◌, ◌+◌, ◌-◌, ◌*◌, Bool, true, false, ◌&&◌, ◌||◌, [], ◌∷◌, ◌==◌,
  if◌then◌else◌, ltb, leb, Bytes,
}

-- `int` and `long`, within their range.
pub data ℤ : Type 0 where
  pos negsuc : ℕ → ℤ

abbrev pub less : ℤ → ℤ → Bool
less (pos a) (pos b) = ltb a b
less (negsuc a) (negsuc b) = ltb b a
less (negsuc a) (pos b) = true
less (pos a) (negsuc b) = false

abbrev pub same_int : ℤ → ℤ → Bool
same_int (pos a) (pos b) = a == b
same_int (negsuc a) (negsuc b) = a == b
same_int _ _ = false

abbrev pub negate : Bool → ℕ → ℤ
negate true (suc n) = negsuc n
negate _ n = pos n

-- `strtol` in base 10, of a number that fits: the white space and the sign before the digits.
unfoldable pub skip_space : Bytes → Bytes
skip_space [] = []
skip_space (c ∷ cs) =
    let rest = skip_space cs in if c == b' ' || (leb 9 c && leb c 13) then rest else c ∷ cs

unfoldable pub read_sign : Bytes → Bool × Bytes
read_sign [] = (false, [])
read_sign (c ∷ cs) =
    if c == b'-' then (true, cs) else if c == b'+' then (false, cs) else (false, c ∷ cs)

abbrev pub is_digit : ℕ → Bool
is_digit c = leb b'0' c && leb c b'9'

unfoldable pub read_digits : ℕ → Bytes → ℕ × Bytes
read_digits acc [] = (acc, [])
read_digits acc (c ∷ cs) =
    let rest = read_digits (acc * 10 + (c - b'0')) cs in if is_digit c then rest else (acc, c ∷ cs)

abbrev pub has_digit : Bytes → Bool
has_digit [] = false
has_digit (c ∷ cs) = is_digit c

-- The number, and the place behind it: the start if there is no digit.
unfoldable pub strtol : Bytes → ℤ × Bytes
unfolding skip_space read_sign read_digits
strtol s =
    let (negative, digits) = read_sign (skip_space s) in
    let (n, rest) = read_digits 0 digits in
    if has_digit digits then (negate negative n, rest) else (pos 0, s)

-- `%zu`, on fuel: a number has at most as many digits as its value, and one at least.
unfoldable pub digits_onto : ℕ → ℕ → Bytes → Bytes
digits_onto zero n out = out
digits_onto (suc fuel) n out =
    let more = digits_onto fuel (n / 10) ((b'0' + n % 10) ∷ out) in
    if ltb n 10 then (b'0' + n) ∷ out else more

unfoldable pub decimal : ℕ → Bytes
unfolding digits_onto
decimal n = digits_onto (suc n) n []

-- `%d`
unfoldable pub print_int : ℤ → Bytes
unfolding decimal
print_int (pos n) = decimal n
print_int (negsuc n) = b'-' ∷ decimal (suc n)
