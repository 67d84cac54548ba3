-- ===== src/Hashtab/Count.antt =====
-- The number of entries of a hash table of libiberty/hashtab.c: `htab_elements`.
use nvptx_tools.Base.{
  ℕ, suc, ◌≡◌, refl, ap, List, [], ◌∷◌, none, Bytes, length, equal, Bool-cases, inl, inr,
}
use nvptx_tools.Hashtab.{Hashtab}
use nvptx_tools.Hashtab.Assoc.{lookup, insert, assoc_table}

-- An entry for a key that the table has not adds one.
pub record Count {E : Type 0} (H : Hashtab E) : Type 0 where
  pub elements : H.Table → ℕ
  pub elements-empty : elements H.empty ≡ 0
  pub elements-put :
      (t : H.Table) (k : Bytes) (e : E)
      → H.find t k ≡ none
      → elements (H.put t k e) ≡ suc (elements t)

pub length-insert :
    {E : Type 0} (m : List (Bytes × E)) (k : Bytes) (e : E)
    → lookup m k ≡ none
    → length (insert m k e) ≡ suc (length m)
unfolding lookup insert
length-insert [] k e h = refl
length-insert ((j, w) ∷ m) k e h = elim (Bool-cases (equal j k)) [
  | inl same ↦ absurd (cc (rw same at h))
  | inr other ↦ rw other (ap suc (length-insert m k e (rw other at h)))
]

abbrev pub assoc_count : (E : Type 0) → Count (assoc_table E)
assoc_count E = record { elements = length; elements-empty = refl; elements-put = length-insert }
