-- ===== src/Nm/Display/Line.antt =====
-- Reading back what nvptx-nm.cc prints of its symbols.
use nvptx_tools.Base.{
  ℕ, zero, suc, ◌≡◌, refl, ap, ◌∙◌, Bool, true, false, Option, none, some, List, [], ◌∷◌, ◌++◌,
  ◌==◌, Bytes, codes, drop, All, has_byte, arith, if◌then◌else◌,
}
use mathlib.Core.List.{append_assoc}
use nvptx_tools.Result.{ok}
use nvptx_tools.Nm.Symbol.{
  SymbolType, var, local_var, function, local_function, undefined, weak_var, weak_function,
  weak_undefined, letter, is_undefined,
}
use nvptx_tools.Nm.Display.{Symbol, print_value, print_symbol, print_symbols}

-- The type that a letter stands for.
unfoldable pub type_of_letter : ℕ → Option SymbolType
type_of_letter c =
    if c == b'D'
    then some var
    else if c == b'd'
    then some local_var
    else if c == b'T'
    then some function
    else if c == b't'
    then some local_function
    else if c == b'U'
    then some undefined
    else if c == b'V'
    then some weak_var
    else if c == b'W'
    then some weak_function
    else if c == b'w'
    then some weak_undefined
    else none

-- The bytes before a newline, and those behind it.
unfoldable pub take_line : Bytes → Bytes × Bytes
take_line [] = ([], [])
take_line (c ∷ cs) =
    let (line, rest) = take_line cs in if c == b'\n' then ([], cs) else (c ∷ line, rest)

abbrev pub first_letter : Bytes → Option SymbolType
first_letter [] = none
first_letter (c ∷ cs) = type_of_letter c

-- A reader of the lines: a column of 16 characters, the letter, and the name, set off by spaces.
unfoldable pub read_symbols : ℕ → Bytes → List Symbol
unfolding take_line type_of_letter
read_symbols zero out = []
read_symbols (suc n) out =
    let (line, rest) = take_line out in
    (drop 19 line, record { type = first_letter (drop 17 line) }) ∷ read_symbols n rest

-- A symbol that has a type, and no newline in its name.
abbrev pub IsPrintable : Symbol → Type 0
IsPrintable (k, e) = (t : SymbolType) × (e.type ≡ some t) × (has_byte b'\n' k ≡ false)

type_of_letter-letter : (t : SymbolType) → type_of_letter (letter t) ≡ some t
unfolding type_of_letter
type_of_letter-letter t = ground arith

take_line-append :
    (line rest : Bytes)
    → has_byte b'\n' line ≡ false
    → take_line (line ++ (b'\n' ∷ rest)) ≡ (line, rest)
unfolding take_line has_byte
take_line-append [] rest h = refl
take_line-append (c ∷ cs) rest h = ground (arith, take_line-append cs rest)

-- The column of a symbol's value.
abbrev column : Bool → Bytes
column absent = if absent then codes "                " else codes "0000000000000000"

abbrev line_of : Bytes → SymbolType → Bytes
line_of k t = column (is_undefined t) ++ (b' ' ∷ letter t ∷ b' ' ∷ k)

print_symbol-line :
    (k : Bytes) (t : SymbolType)
    → print_symbol 64 (k, record { type = some t }) ≡ ok (line_of k t ++ b'\n' ∷ [])
unfolding print_symbol print_value
print_symbol-line k t = ground arith

line_plain :
    (k : Bytes) (t : SymbolType) → has_byte b'\n' k ≡ false → has_byte b'\n' (line_of k t) ≡ false
unfolding has_byte
line_plain k t h = ground arith

read_line :
    (n : ℕ) (k : Bytes) (t : SymbolType) (rest : Bytes)
    → has_byte b'\n' k ≡ false
    → read_symbols (suc n) (line_of k t ++ (b'\n' ∷ rest))
      ≡ (k, record { type = some t }) ∷ read_symbols n rest
unfolding read_symbols
read_line n k t rest h =
    rw (take_line-append (line_of k t) rest (line_plain k t h)) (
      rw (name_at (is_undefined t))
        (rw (letter_at (is_undefined t)) (rw (type_of_letter-letter t))))
  where
    name_at : (b : Bool) → drop 19 (column b ++ (b' ' ∷ letter t ∷ b' ' ∷ k)) ≡ k
    name_at true = refl
    name_at false = refl

    letter_at :
        (b : Bool)
        → first_letter (drop 17 (column b ++ (b' ' ∷ letter t ∷ b' ' ∷ k)))
          ≡ type_of_letter (letter t)
    letter_at true = refl
    letter_at false = refl

abbrev length_of : List Symbol → ℕ
length_of [] = 0
length_of (x ∷ xs) = suc (length_of xs)

-- What is printed of symbols that have types, and names without newlines.
abbrev lines_of : (syms : List Symbol) → All IsPrintable syms → Bytes
lines_of [] h = []
lines_of ((k, e) ∷ syms) ((t, is, plain), h) = line_of k t ++ (b'\n' ∷ lines_of syms h)

print_symbols-lines :
    (syms : List Symbol) (h : All IsPrintable syms) → print_symbols 64 syms ≡ ok (lines_of syms h)
unfolding print_symbols
print_symbols-lines [] h = refl
print_symbols-lines ((k, e) ∷ syms) ((t, is, plain), h) =
    let same : e ≡ record { type = some t } = cc in
    rw same (
      rw (print_symbol-line k t) (
        rw (print_symbols-lines syms h)
          (ap ok (append_assoc (line_of k t) (b'\n' ∷ []) (lines_of syms h)))))

read_lines :
    (syms : List Symbol) (h : All IsPrintable syms)
    → read_symbols (length_of syms) (lines_of syms h) ≡ syms
unfolding read_symbols
read_lines [] h = refl
read_lines ((k, e) ∷ syms) ((t, is, plain), h) =
    let same : e ≡ record { type = some t } = cc in
    read_line (length_of syms) k t (lines_of syms h) plain
    ∙ rw same (ap (◌∷◌ (k, record { type = some t })) (read_lines syms h))

-- Symbols that have types, and names without newlines, are printed, and a reader of the lines, by
-- the column of the value, the letter and the name, gets them back, each with its type.
pub read_symbols-print_symbols :
    (syms : List Symbol)
    → All IsPrintable syms
    → (out : Bytes) × (print_symbols 64 syms ≡ ok out) × (read_symbols (length_of syms) out ≡ syms)
read_symbols-print_symbols syms h = (lines_of syms h, print_symbols-lines syms h, read_lines syms h)
