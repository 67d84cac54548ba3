-- ===== src/Hashtab/Traversal.antt =====
-- The traversal of a hash table of libiberty/hashtab.c: `htab_traverse_noresize`.
use nvptx_tools.Base.{◌≡◌, refl, List, Bytes}
use nvptx_tools.Hashtab.{Hashtab}
use nvptx_tools.Hashtab.Assoc.{lookup, assoc_table}

-- `entries` are the entries with their keys, in the order of the traversal, which visits every
-- entry.
pub record Traversal {E : Type 0} (H : Hashtab E) : Type 0 where
  pub entries : H.Table → List (Bytes × E)
  pub lookup-entries : (t : H.Table) (k : Bytes) → lookup (entries t) k ≡ H.find t k

abbrev pub assoc_traversal : (E : Type 0) → Traversal (assoc_table E)
assoc_traversal E = record { entries = λ t. t; lookup-entries = λ t k. refl }
