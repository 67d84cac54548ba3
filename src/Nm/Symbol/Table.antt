-- ===== src/Nm/Symbol/Table.antt =====
-- The entries of a symbol table of nvptx-nm.cc under `define`.
use nvptx_tools.Base.{
  ◌≡◌, ap, sym, ◌∙◌, true, false, none, some, Bytes, equal, equal_iff, equal_refl, if◌then◌else◌,
  Bool-cases, Option-cases, inl, inr,
}
use nvptx_tools.Hashtab.{Hashtab}
use nvptx_tools.Result.{Result, Result-cases, ok, err, ◌>>=◌}
use nvptx_tools.Result.Ensures.{Ensures, good, bad}
use nvptx_tools.Nm.Symbol.{
  SymbolType, Entry, fresh, or_fresh, entry_of, symbol_hash_lookup, define, merge,
}

module _ (H : Hashtab Entry) where
  pub type_of-empty : (k : Bytes) → (entry_of H H.empty k).type ≡ none
  type_of-empty k = ap (λ o. (or_fresh H o).type) (H.find-empty k)

  entry_of-put :
      (t : H.Table) (k j : Bytes) (e : Entry)
      → entry_of H (H.put t k e) j ≡ (if equal k j then e else entry_of H t j)
  entry_of-put t k j e = elim (Bool-cases (equal k j)) [
    | inl same ↦ rw same (ap (or_fresh H) (H.find-put t k j e) ∙ rw same)
    | inr other ↦ rw other (ap (or_fresh H) (H.find-put t k j e) ∙ rw other)
  ]

  entry_of-symbol_hash_lookup :
      (t : H.Table) (k j : Bytes) → entry_of H (symbol_hash_lookup H t k true).0 j ≡ entry_of H t j
  unfolding symbol_hash_lookup
  entry_of-symbol_hash_lookup t k j = elim (Option-cases (H.find t k)) [
    | inl e ↦ rw (e, symbol_hash_lookup) (entry_of-put t k j fresh ∙ if_fresh e)
    | inr (x, e) ↦ rw (e, symbol_hash_lookup)
  ]
    where
      if_fresh : H.find t k ≡ none → (if equal k j then fresh else entry_of H t j) ≡ entry_of H t j
      if_fresh e = elim (Bool-cases (equal k j)) [
        | inl same ↦
            rw same
              (sym (ap (λ i. entry_of H t i) (sym ((equal_iff k j).0 same)) ∙ ap (or_fresh H) e))
        | inr other ↦ rw other
      ]

  -- A symbol defined: its type is the merged one, and the others keep theirs.
  pub record Defined (k : Bytes) (type : SymbolType) (t t' : H.Table) : Type 0 where
    pub merged_type : SymbolType
    pub merged : merge (entry_of H t k).type type ≡ ok merged_type
    pub here : (entry_of H t' k).type ≡ some merged_type
    pub others : (j : Bytes) → equal k j ≡ false → (entry_of H t' j).type ≡ (entry_of H t j).type

  abbrev merged_into : Bytes → H.Table → Result SymbolType → Result (H.Table)
  merged_into k t r = r >>= λ type'. ok (H.put t k (record { type = some type' }))

  pub define-Defined :
      (t : H.Table) (k : Bytes) (type : SymbolType)
      → Ensures
          (Defined k type t)
          (λ x. merge (entry_of H t k).type type ≡ err x)
          (define H t k type)
  unfolding define
  define-Defined t k type =
      let t1 = (symbol_hash_lookup H t k true).0 in
      let same = ap (λ e. merge e.type type) (entry_of-symbol_hash_lookup t k k) in
      elim (Result-cases (merge (entry_of H t1 k).type type)) [
        | inl (r, e) ↦ rw e (
            good (record {
              merged_type = r;
              merged = sym same ∙ e;
              here =
                  ap (λ e. e.type) (entry_of-put t1 k k (record { type = some r }))
                  ∙ rw (equal_refl k);
              others = λ j ne.
                  ap (λ e. e.type)
                    (entry_of-put t1 k j (record { type = some r })
                      ∙ rw ne (entry_of-symbol_hash_lookup t k j));
            }))
        | inr (x, e) ↦ rw e (bad (sym same ∙ e))
      ]
