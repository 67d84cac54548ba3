-- ===== src/Hashtab.antt =====
-- The hash tables of libiberty/hashtab.c, as the tools use them: a table from C strings to entries
-- that is reached through the slot of a key. Its code is a parameter of the tools' models.
pub mod Assoc
pub mod Traversal
pub mod Count
use nvptx_tools.Base.{◌≡◌, Bool, Option, none, some, if◌then◌else◌, Bytes, equal}

-- `find` is `htab_find_slot_with_hash` with `NO_INSERT`; `put` writes through the slot that
-- `INSERT` returns. The laws are the documented behaviour of a table under `strcmp` equality.
pub record Hashtab (E : Type 0) : Type 1 where
  pub Table : Type 0
  pub empty : Table
  pub find : Table → Bytes → Option E
  pub put : Table → Bytes → E → Table
  pub find-empty : (k : Bytes) → find empty k ≡ none
  pub find-put :
      (t : Table) (k j : Bytes) (e : E)
      → find (put t k e) j ≡ (if equal k j then some e else find t j)
