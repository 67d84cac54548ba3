-- ===== src/Ld/Symbol.antt =====
-- nvptx-ld.cc: the symbol table, the queue of unresolved symbols, and the errors of the linker.
-- `pprev` is null exactly when the entry is in no queue: the field `queued` is that test. The list
-- `unresolved` holds the keys of the queue, in the order of the `next` pointers.
pub mod Table
pub mod Valid
use nvptx_tools.Base.{
  ℕ, ◌≡◌, refl, ◌⊎◌, inl, inr, Bool, true, false, not, ◌||◌, Option, none, some, List, [], ◌∷◌,
  ◌==◌, if◌then◌else◌, Bytes, codes, equal,
}
use nvptx_tools.Hashtab.{Hashtab}
use nvptx_tools.Result.{Result, ok, err, ◌>>=◌, ◌>>◌, assert, is_some}

-- A `file_hash_entry *`: `file_hash_entry_intrinsic`, or an object file by its number.
pub data FileRef : Type 0 where
  intrinsic : FileRef
  object : ℕ → FileRef

-- `struct symbol_hash_entry`. The key is the table's.
pub record Entry : Type 0 where
  pub def : Option FileRef
  pub strong_def : Option FileRef
  pub included : Bool
  pub referenced : Bool
  pub queued : Bool

-- What `XCNEW` returns.
abbrev pub fresh : Entry
fresh = record {
  def = none;
  strong_def = none;
  included = false;
  referenced = false;
  queued = false;
}

abbrev pub is_intrinsic : Option FileRef → Bool
is_intrinsic (some intrinsic) = true
is_intrinsic _ = false

abbrev pub or_fresh : Option Entry → Entry
or_fresh none = fresh
or_fresh (some e) = e

-- `key[0] == '*'`
unfoldable pub is_starred : Bytes → Bool
is_starred [] = false
is_starred (c ∷ _) = c == b'*'

-- The file-scope and `main` state that the symbol handling touches.
pub record State (T : Type 0) : Type 0 where
  pub table : T
  pub unresolved : List Bytes
  pub special_purpose_functions : List Bytes

-- Membership, and removal of the first occurrence.
unfoldable pub contains : List Bytes → Bytes → Bool
contains [] k = false
contains (x ∷ xs) k = equal x k || contains xs k

unfoldable pub erase : Bytes → List Bytes → List Bytes
erase k [] = []
erase k (x ∷ xs) = if equal x k then xs else x ∷ erase k xs

abbrev pub intrins : List Bytes
intrins = codes "vprintf" ∷ codes "malloc" ∷ codes "free" ∷ []

module _ (H : Hashtab Entry) where
  -- The entry that a lookup with `create` gives: the one present, or a fresh one.
  abbrev pub entry_of : H.Table → Bytes → Entry
  entry_of t k = or_fresh (H.find t k)

  unfoldable pub symbol_hash_lookup : H.Table → Bytes → Bool → H.Table × Option Entry
  symbol_hash_lookup t k create = elim (H.find t k) [
    | none ↦ if create then (H.put t k fresh, some fresh) else (t, none)
    | some e ↦ (t, some e)
  ]

  -- A write to the entry of `k`, through the pointer that the lookup returned.
  abbrev pub write : Bytes → Entry → State H.Table → State H.Table
  write k e st = record st { table = H.put st.table k e }

  unfoldable pub enqueue_as_unresolved : Bytes → State H.Table → Result (State H.Table)
  enqueue_as_unresolved k st = do
    let e = entry_of st.table k
    assert (not e.included)
    assert (not e.referenced)
    ok (record st {
      table = H.put st.table k (record e { referenced = true; queued = true });
      unresolved = k ∷ st.unresolved;
    })

  unfoldable pub dequeue_unresolved : Bytes → State H.Table → Result (State H.Table)
  dequeue_unresolved k st = do
    let e = entry_of st.table k
    assert e.referenced
    assert e.queued
    ok (record st {
      table = H.put st.table k (record e { queued = false });
      unresolved = erase k st.unresolved;
    })

  -- One round of the loop of `define_intrinsics`.
  unfoldable pub define_intrinsic : Bytes → H.Table → Result (H.Table)
  define_intrinsic k t = do
    let e = entry_of t k
    assert (not e.included)
    ok (H.put t k (record e { def = some intrinsic; strong_def = some intrinsic; included = true }))

  unfoldable pub define_all : List Bytes → H.Table → Result (H.Table)
  define_all [] t = ok t
  define_all (k ∷ ks) t = do t' ← define_intrinsic k t; define_all ks t'

  unfoldable pub define_intrinsics : H.Table → Result (H.Table)
  unfolding define_all define_intrinsic
  define_intrinsics t = define_all intrins t
