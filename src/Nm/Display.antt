-- ===== src/Nm/Display.antt =====
-- nvptx-nm.cc: the symbol-sorting predicates, the print of a symbol, and `display_rel_file`.
pub mod Collation
pub mod Before
pub mod Order
pub mod Line
use nvptx_tools.Base.{
  ℕ, zero, suc, Bool, true, false, not, ◌&&◌, ◌||◌, Option, none, some, List, [], ◌∷◌, ◌++◌, ◌==◌,
  if◌then◌else◌, Bytes, codes,
}
use nvptx_tools.Hashtab.{Hashtab}
use nvptx_tools.Hashtab.Traversal.{Traversal}
use nvptx_tools.Libc.{ℤ, pos, negsuc}
use nvptx_tools.Result.{Result, ok, err, ◌>>=◌, ◌>>◌, assert, assertion}
use nvptx_tools.Nm.Symbol.{SymbolType, letter, is_undefined, Entry}

-- A `symbol_hash_entry *`: the key and the entry.
abbrev pub Symbol : Type 0
Symbol = Bytes × Entry

abbrev pub is_undefined_symbol : Symbol → Bool
is_undefined_symbol (k, e) = elim e.type [ none ↦ false | some t ↦ is_undefined t ]

abbrev pub opposite : ℤ → ℤ
opposite (pos zero) = pos zero
opposite (pos (suc n)) = negsuc n
opposite (negsuc n) = pos (suc n)

abbrev pub is_positive : ℤ → Bool
is_positive (pos (suc n)) = true
is_positive _ = false

abbrev pub has_byte_first : Bytes → Bool
has_byte_first [] = false
has_byte_first (c ∷ cs) = true

-- `strcoll` is that of the locale.
module _ (strcoll : Bytes → Bytes → ℤ) where
  unfoldable pub non_numeric_forward : Symbol → Symbol → Result ℤ
  non_numeric_forward x y =
      assert (has_byte_first x.0 && has_byte_first y.0) >> ok (strcoll x.0 y.0)

  unfoldable pub non_numeric_reverse : Symbol → Symbol → Result ℤ
  unfolding non_numeric_forward
  non_numeric_reverse x y = non_numeric_forward x y >>= λ n. ok (opposite n)

  -- "Undefined symbols are always considered "less than" defined symbols".
  unfoldable pub numeric_forward : Symbol → Symbol → Result ℤ
  unfolding non_numeric_forward
  numeric_forward x y =
      if is_undefined_symbol x
      then (if not (is_undefined_symbol y) then ok (negsuc 0) else non_numeric_forward x y)
      else if is_undefined_symbol y
      then ok (pos 1)
      else non_numeric_forward x y

  unfoldable pub numeric_reverse : Symbol → Symbol → Result ℤ
  unfolding numeric_forward
  numeric_reverse x y = numeric_forward x y >>= λ n. ok (opposite n)

  -- `sorters[sort_numerically][reverse_sort]`
  unfoldable pub sorters : Bool → Bool → Symbol → Symbol → Result ℤ
  unfolding non_numeric_forward non_numeric_reverse numeric_forward numeric_reverse
  sorters false false = non_numeric_forward
  sorters false true = non_numeric_reverse
  sorters true false = numeric_forward
  sorters true true = numeric_reverse

-- `qsort`: a sort that calls the predicate, which may fail in an assertion.
module _ (compar : Symbol → Symbol → Result ℤ) where
  abbrev pub placed :
      Symbol → Symbol → List Symbol → Result (List Symbol) → ℤ → Result (List Symbol)
  placed x y ys rest n = if is_positive n then (rest >>= λ zs. ok (y ∷ zs)) else ok (x ∷ y ∷ ys)

  unfoldable pub insert_symbol : Symbol → List Symbol → Result (List Symbol)
  insert_symbol x [] = ok (x ∷ [])
  insert_symbol x (y ∷ ys) = let rest = insert_symbol x ys in compar x y >>= placed x y ys rest

  unfoldable pub qsort : List Symbol → Result (List Symbol)
  unfolding insert_symbol
  qsort [] = ok []
  qsort (x ∷ xs) = qsort xs >>= insert_symbol x

-- `printf` of the value 0, in the format that `get_print_format` makes for the width.
unfoldable pub print_value : ℕ → Result Bytes
print_value print_width =
    if print_width == 32
    then ok (codes "00000000")
    else if print_width == 64
    then ok (codes "0000000000000000")
    else err assertion

abbrev pub type_byte : Option SymbolType → ℕ
type_byte none = 0
type_byte (some t) = letter t

unfoldable pub print_symbol_info_bsd : ℕ → Symbol → Result Bytes
unfolding print_value
print_symbol_info_bsd print_width (k, e) = do
  value ←
      if is_undefined_symbol (k, e)
      then ok ((if print_width == 64 then codes "        " else []) ++ codes "        ")
      else print_value print_width
  ok (value ++ (b' ' ∷ type_byte e.type ∷ b' ' ∷ k))

unfoldable pub print_symbol : ℕ → Symbol → Result Bytes
unfolding print_symbol_info_bsd
print_symbol print_width sym =
    print_symbol_info_bsd print_width sym >>= λ line. ok (line ++ b'\n' ∷ [])

unfoldable pub print_symbols : ℕ → List Symbol → Result Bytes
unfolding print_symbol
print_symbols print_width [] = ok []
print_symbols print_width (sym ∷ syms) = do
  line ← print_symbol print_width sym
  rest ← print_symbols print_width syms
  ok (line ++ rest)

-- The settings that the options make.
pub record Settings : Type 0 where
  pub no_sort : Bool
  pub reverse_sort : Bool
  pub sort_numerically : Bool
  pub quiet : Bool

module _ (H : Hashtab Entry) (traversal : Traversal H) where
  -- `symbol_table_into_array`, over the tables.
  unfoldable pub into_array : List H.Table → List Symbol
  into_array [] = []
  into_array (t ∷ ts) = traversal.entries t ++ into_array ts

module _ (strcoll : Bytes → Bytes → ℤ) where
  unfoldable pub sort_symbols : Settings → List Symbol → Result (List Symbol)
  unfolding qsort sorters
  sort_symbols settings minisyms =
      if not settings.no_sort
      then qsort (sorters strcoll settings.sort_numerically settings.reverse_sort) minisyms
      else ok minisyms

module _ (H : Hashtab Entry) (traversal : Traversal H) (strcoll : Bytes → Bytes → ℤ) where
  unfoldable pub display_rel_file : Settings → ℕ → List H.Table → Result Bytes
  unfolding into_array sort_symbols print_symbols
  display_rel_file settings print_width symbol_tables =
      sort_symbols strcoll settings (into_array H traversal symbol_tables)
      >>= print_symbols print_width
