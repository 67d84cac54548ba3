-- ===== src/Hashtab/Assoc.antt =====
-- An association list as the hash table of libiberty/hashtab.c.
use nvptx_tools.Base.{
  ◌≡◌, refl, Option, none, some, List, [], ◌∷◌, arith, if◌then◌else◌, Bytes, equal, equal_iff,
}
use nvptx_tools.Hashtab.{Hashtab}

module _ {E : Type 0} where
  unfoldable pub lookup : List (Bytes × E) → Bytes → Option E
  lookup [] k = none
  lookup ((j, v) ∷ m) k = if equal j k then some v else lookup m k

  unfoldable pub insert : List (Bytes × E) → Bytes → E → List (Bytes × E)
  insert [] k v = (k, v) ∷ []
  insert ((j, w) ∷ m) k v = if equal j k then (k, v) ∷ m else (j, w) ∷ insert m k v

  pub lookup-insert :
      (m : List (Bytes × E)) (k j : Bytes) (v : E)
      → lookup (insert m k v) j ≡ (if equal k j then some v else lookup m j)
  unfolding lookup insert
  lookup-insert [] k j v = refl
  lookup-insert ((i, w) ∷ m) k j v =
      ground (arith, equal_iff k j, equal_iff i k, equal_iff i j, lookup-insert m k j v)

  pub lookup-nil : (k : Bytes) → lookup [] k ≡ none
  unfolding lookup
  lookup-nil k = refl

abbrev pub assoc_table : (E : Type 0) → Hashtab E
assoc_table E = record {
  Table = List (Bytes × E);
  empty = [];
  find = lookup;
  put = insert;
  find-empty = lookup-nil;
  find-put = lookup-insert;
}
