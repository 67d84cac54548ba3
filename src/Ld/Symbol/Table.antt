-- ===== src/Ld/Symbol/Table.antt =====
-- The entries of the table under the writes of the linker, and the queue's list operations.
use nvptx_tools.Base.{
  ◌≡◌, ap, sym, subst, ◌∙◌, inl, inr, true, false, none, List, [], ◌∷◌, arith, if◌then◌else◌,
  Bool-cases, Option-cases, Bytes, equal, equal_iff,
}
use nvptx_tools.Hashtab.{Hashtab}
use nvptx_tools.Ld.Symbol.{Entry, fresh, or_fresh, entry_of, symbol_hash_lookup, contains, erase}

-- No key twice.
abbrev pub IsUnique : List Bytes → Type 0
IsUnique [] = Unit
IsUnique (x ∷ xs) = (contains xs x ≡ false) × IsUnique xs

pub contains-erase :
    (k j : Bytes) (xs : List Bytes)
    → IsUnique xs
    → contains (erase k xs) j ≡ (if equal k j then false else contains xs j)
unfolding contains erase
contains-erase k j [] u = ground arith
contains-erase k j (x ∷ xs) u =
    ground (arith, equal_iff x k, equal_iff x j, equal_iff k j, contains-erase k j xs u.1)

pub erase-IsUnique : (k : Bytes) (xs : List Bytes) → IsUnique xs → IsUnique (erase k xs)
unfolding erase contains
erase-IsUnique k [] u = tt
erase-IsUnique k (x ∷ xs) u =
    ground (arith, contains-erase k x xs u.1, erase-IsUnique k xs u.1, equal_iff k x)

module _ (H : Hashtab Entry) where
  pub entry_of-put :
      (t : H.Table) (k j : Bytes) (e : Entry)
      → entry_of H (H.put t k e) j ≡ (if equal k j then e else entry_of H t j)
  entry_of-put t k j e = elim (Bool-cases (equal k j)) [
    | inl same ↦ rw same (ap or_fresh (H.find-put t k j e) ∙ rw same)
    | inr other ↦ rw other (ap or_fresh (H.find-put t k j e) ∙ rw other)
  ]

  -- A property of the entries after a write: of the one written, and of the others.
  pub put_pointwise :
      (P : Bytes → Entry → Type 0) (t : H.Table) (k : Bytes) (e : Entry)
      → P k e
      → ((j : Bytes) → equal k j ≡ false → P j (entry_of H t j))
      → (j : Bytes) → P j (entry_of H (H.put t k e) j)
  put_pointwise P t k e here others j = elim (Bool-cases (equal k j)) [
    | inl same ↦
        subst (P j) (sym (entry_of-put t k j e ∙ rw same))
          (subst (λ i. P i e) ((equal_iff k j).0 same) here)
    | inr other ↦ subst (P j) (sym (entry_of-put t k j e ∙ rw other)) (others j other)
  ]

  pub entry_of-empty : (j : Bytes) → entry_of H H.empty j ≡ fresh
  entry_of-empty j = ap or_fresh (H.find-empty j)

  if_fresh :
      (t : H.Table) (k j : Bytes)
      → H.find t k ≡ none
      → (if equal k j then fresh else entry_of H t j) ≡ entry_of H t j
  if_fresh t k j e = elim (Bool-cases (equal k j)) [
    | inl same ↦ rw same (sym (ap or_fresh (ap (H.find t) (sym ((equal_iff k j).0 same)) ∙ e)))
    | inr other ↦ rw other
  ]

  -- A lookup with `create` changes no entry.
  pub entry_of-symbol_hash_lookup :
      (t : H.Table) (k j : Bytes) → entry_of H (symbol_hash_lookup H t k true).0 j ≡ entry_of H t j
  unfolding symbol_hash_lookup
  entry_of-symbol_hash_lookup t k j = elim (Option-cases (H.find t k)) [
    | inl e ↦ rw (e, symbol_hash_lookup) (entry_of-put t k j fresh ∙ if_fresh t k j e)
    | inr (x, e) ↦ rw (e, symbol_hash_lookup)
  ]
