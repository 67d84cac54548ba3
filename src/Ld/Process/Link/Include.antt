-- ===== src/Ld/Process/Link/Include.antt =====
-- Linking a DEF of a symbol that is not included yet.
use nvptx_tools.Base.{
  ◌≡◌, refl, ap, ◌∙◌, true, false, arith, Bool-cases, Bytes, equal, inl, inr, starts_with, codes,
}
use nvptx_tools.Hashtab.{Hashtab}
use nvptx_tools.Result.{is_some}
use nvptx_tools.Ld.Symbol.{Entry, State, entry_of, write, erase, dequeue_unresolved}
use nvptx_tools.Ld.Symbol.Table.{entry_of-put}
use nvptx_tools.Result.Ensures.{
  Ensures, good, Ensures-bind, Ensures-weaken, Ensures-assert, Ensures-if,
}
use nvptx_tools.Ld.Symbol.Valid.{IsValid, write-IsValid, pull-IsValid, put-Extends}
use nvptx_tools.Ld.Process.{capture_special, include_def}
use nvptx_tools.Ld.Process.Link.Entries.{still_queued, not_queued, Linked, at-put}
use nvptx_tools.Ld.Process.Link.Decl.{Linked-same}

module _ (H : Hashtab Entry) where
  abbrev at : State H.Table → Bytes → Entry
  at st k = entry_of H st.table k

  unfoldable pub included : Entry → Entry
  included e = record e { included = true; queued = false }

  include-Linked :
      (st : State H.Table) (k : Bytes)
      → IsValid H st
      → is_some (at st k).def ≡ true
      → Linked H st (record st {
        table = H.put st.table k (included (at st k));
        unresolved = erase k st.unresolved;
      })
  unfolding included
  include-Linked st k v d =
      let c = v.entries k in
      record {
        valid = pull-IsValid H st k (included (at st k)) v refl (record {
          waiting = λ h. cc;
          defined = λ _. d;
          settled = λ _ h. cc;
          strong_included = λ _. refl;
          starred = λ _. (λ _. d, λ _ h. cc);
        });
        extends = put-Extends H st.table k (included (at st k)) (record {
          same_def = refl;
          included = λ _. refl;
          referenced = λ h. h;
          strong = λ _. refl;
        });
      }

  include_only-Linked :
      (st : State H.Table) (k : Bytes)
      → IsValid H st
      → is_some (at st k).def ≡ true
      → (at st k).queued ≡ false
      → Linked H st (write H k (record (at st k) { included = true }) st)
  include_only-Linked st k v d q =
      let e' = record (at st k) { included = true } in
      let c = v.entries k in
      record {
        valid = write-IsValid H st k e' v refl (record {
          waiting = λ h. absurd (ground arith);
          defined = λ _. d;
          settled = λ _ h. cc;
          strong_included = λ _. refl;
          starred = λ _. (λ _. d, λ _ h. cc);
        });
        extends = put-Extends H st.table k e' (record {
          same_def = refl;
          included = λ _. refl;
          referenced = λ h. h;
          strong = λ _. refl;
        });
      }

  pub put_elsewhere :
      (t : H.Table) (k j : Bytes) (e : Entry)
      → equal k j ≡ false
      → entry_of H (H.put t k e) j ≡ entry_of H t j
  put_elsewhere t k j e ne = entry_of-put H t k j e ∙ rw ne

  pub put-put :
      (t : H.Table) (k : Bytes) (e e' : Entry) (j : Bytes)
      → entry_of H (H.put (H.put t k e) k e') j ≡ entry_of H (H.put t k e') j
  put-put t k e e' j =
      ground (
        arith,
        entry_of-put H t k j e,
        entry_of-put H t k j e',
        entry_of-put H (H.put t k e) k j e',
      )

  pub dequeue-Linked :
      (st : State H.Table) (k : Bytes)
      → IsValid H st
      → is_some (at st k).def ≡ true
      → (at st k).included ≡ false
      → (at st k).referenced ≡ true
      → Ensures
          (λ st'.
            Linked H st st'
            × (at st' k ≡ included (at st k))
            × ((j : Bytes) → equal k j ≡ false → at st' j ≡ at st j))
          (λ _. ⊥)
          (dequeue_unresolved H k (write H k (record (at st k) { included = true }) st))
  unfolding dequeue_unresolved included
  dequeue-Linked st k v d out ref =
      let e' = record (at st k) { included = true } in
      let t' = H.put st.table k e' in
      let here = at-put H st k e' in
      let c = v.entries k in
      let x = record (entry_of H t' k) { queued = false } in
      let x_is = ap (λ (e : Entry). record e { queued = false }) here in
      let same = λ (j : Bytes).
        put-put st.table k e' x j ∙ ap (λ (y : Entry). entry_of H (H.put st.table k y) j) x_is in
      Ensures-assert _ _ (ap (λ e. e.referenced) here ∙ ref) (
        Ensures-assert _ _ (ap (λ e. e.queued) here ∙ still_queued (at st k) c d out ref) (
          good (
            Linked-same H st
                (record st {
                  table = H.put st.table k (included (at st k));
                  unresolved = erase k st.unresolved;
                })
                (H.put t' k x) (include-Linked st k v d) same,
            same k ∙ at-put H st k (included (at st k)),
            λ j ne. same j ∙ put_elsewhere st.table k j (included (at st k)) ne,
          )))

  capture-Linked :
      (st s : State H.Table) (k : Bytes) → Linked H st s → Linked H st (capture_special H k s)
  unfolding capture_special
  capture-Linked st s k l = elim (Bool-cases (starts_with (codes "_GLOBAL__") k)) [
    | inl special ↦ rw special (record {
      valid = record { queue = l.valid.queue; unique = l.valid.unique; entries = l.valid.entries };
      extends = l.extends;
    })
    | inr plain ↦ rw plain l
  ]

  capture-at : (s : State H.Table) (k j : Bytes) → at (capture_special H k s) j ≡ at s j
  unfolding capture_special
  capture-at s k j = elim (Bool-cases (starts_with (codes "_GLOBAL__") k)) [
    | inl special ↦ rw special
    | inr plain ↦ rw plain
  ]

  pub include_def-Linked :
      (st : State H.Table) (k : Bytes)
      → IsValid H st
      → is_some (at st k).def ≡ true
      → (at st k).included ≡ false
      → Ensures
          (λ st'.
            Linked H st st'
            × ((at st' k).included ≡ true)
            × ((at st' k).strong_def ≡ (at st k).strong_def))
          (λ _. ⊥)
          (include_def H k st)
  unfolding include_def included
  include_def-Linked st k v d out =
      Ensures-bind
        {P = λ s.
          Linked H st s × ((at s k).included ≡ true) × ((at s k).strong_def ≡ (at st k).strong_def)}
        (Ensures-if _ _ _
          (λ ref.
            Ensures-weaken (λ s l. (l.0, ap (λ e. e.included) l.1, ap (λ e. e.strong_def) l.1))
              (λ _ h. h) (dequeue-Linked st k v d out ref))
          (λ new.
            let here = at-put H st k (record (at st k) { included = true }) in
            good (
              include_only-Linked st k v d (not_queued (at st k) (v.entries k) new),
              ap (λ e. e.included) here,
              ap (λ e. e.strong_def) here,
            )))
        (λ s l. good (
          capture-Linked st s k l.0,
          ap (λ e. e.included) (capture-at s k k) ∙ l.1,
          ap (λ e. e.strong_def) (capture-at s k k) ∙ l.2,
        ))
