-- ===== src/Nm/Symbol.antt =====
-- nvptx-nm.cc: the symbol tables, and the type of a symbol that is seen more than once.
pub mod Merge
pub mod Table
use nvptx_tools.Base.{
  ℕ, Bool, true, false, not, ◌&&◌, ◌||◌, Option, none, some, Bytes, ◌==◌, if◌then◌else◌,
}
use nvptx_tools.Hashtab.{Hashtab}
use nvptx_tools.Result.{Result, ok, err, ◌>>=◌, assert, assertion}

-- The letters 'D', 'd', 'T', 't', 'U', 'V', 'W' and 'w'.
pub data SymbolType : Type 0 where
  var local_var function local_function undefined weak_var weak_function weak_undefined : SymbolType

abbrev pub letter : SymbolType → ℕ
letter var = b'D'
letter local_var = b'd'
letter function = b'T'
letter local_function = b't'
letter undefined = b'U'
letter weak_var = b'V'
letter weak_function = b'W'
letter weak_undefined = b'w'

-- `struct symbol_hash_entry`, without its key, which is the table's. The type '\0' of a fresh entry
-- is `none`.
pub record Entry : Type 0 where
  pub type : Option SymbolType

abbrev pub fresh : Entry
fresh = record { type = none }

abbrev pub same_type : SymbolType → SymbolType → Bool
same_type a b = letter a == letter b

abbrev pub is_undefined : SymbolType → Bool
is_undefined undefined = true
is_undefined weak_undefined = true
is_undefined _ = false

-- A "weak" definition behind a "strong" one of its kind.
abbrev pub is_weaker : SymbolType → SymbolType → Bool
is_weaker weak_var var = true
is_weaker weak_function function = true
is_weaker _ _ = false

-- The type that an entry of type `old` has after a marker of type `type`.
unfoldable pub merge_seen : SymbolType → SymbolType → Result SymbolType
merge_seen old type =
    if is_undefined old
    then ok type
    else if is_undefined type
    then ok old
    else if is_weaker type old
    then ok old
    else if is_weaker old type
    then ok type
    else if same_type old type
    then ok old
    else err assertion

unfoldable pub merge : Option SymbolType → SymbolType → Result SymbolType
unfolding merge_seen
merge none type = ok type
merge (some old) type = merge_seen old type

module _ (H : Hashtab Entry) where
  abbrev pub or_fresh : Option Entry → Entry
  or_fresh none = fresh
  or_fresh (some e) = e

  abbrev pub entry_of : H.Table → Bytes → Entry
  entry_of t k = or_fresh (H.find t k)

  unfoldable pub symbol_hash_lookup : H.Table → Bytes → Bool → H.Table × Option Entry
  symbol_hash_lookup t k create = elim (H.find t k) [
    | none ↦ if create then (H.put t k fresh, some fresh) else (t, none)
    | some e ↦ (t, some e)
  ]

  -- The lookup of a symbol, and what becomes of its type.
  unfoldable pub define : H.Table → Bytes → SymbolType → Result (H.Table)
  unfolding symbol_hash_lookup merge
  define t k type = do
    let t' = (symbol_hash_lookup t k true).0
    type' ← merge (entry_of t' k).type type
    ok (H.put t' k (record { type = some type' }))
