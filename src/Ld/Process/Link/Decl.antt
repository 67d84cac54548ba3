-- ===== src/Ld/Process/Link/Decl.antt =====
-- Linking a DECL, and a DEF of a symbol that is included already.
use nvptx_tools.Base.{
  false-true, ◌≡◌, refl, ap, sym, subst, Bool, true, false, arith, Bytes, inl, inr,
}
use nvptx_tools.Hashtab.{Hashtab}
use nvptx_tools.Result.{is_some}
use nvptx_tools.Ld.Symbol.{Entry, State, entry_of, is_starred, enqueue_as_unresolved}
use nvptx_tools.Result.Ensures.{Ensures, good, bad, Ensures-assert, Ensures-if}
use nvptx_tools.Ld.Symbol.Valid.{
  IsValid, push-IsValid, Grows, put-Extends, IsValid-same, not_of_false,
}
use nvptx_tools.Ld.Process.{link_decl, define_again}
use nvptx_tools.Ld.Process.Link.Entries.{
  Duplicate, IsReached, once_strong, second_strong, Linked, Linked-refl, at-put,
}

module _ (H : Hashtab Entry) where
  abbrev at : State H.Table → Bytes → Entry
  at st k = entry_of H st.table k

  enqueue-Linked :
      (st : State H.Table) (k : Bytes)
      → IsValid H st
      → is_starred k ≡ false
      → (at st k).included ≡ false
      → (at st k).referenced ≡ false
      → Ensures
          (λ st'. Linked H st st' × IsReached (at st' k))
          (λ _. ⊥)
          (enqueue_as_unresolved H k st)
  unfolding enqueue_as_unresolved
  enqueue-Linked st k v plain out new =
      let c = v.entries k in
      let e' = record (at st k) { referenced = true; queued = true } in
      Ensures-assert _ _ (not_of_false _ out) (
        Ensures-assert _ _ (not_of_false _ new) (
          good (
            record {
              valid = push-IsValid H st k e' v (ground (arith, c.waiting)) refl (record {
                waiting = λ _. (out, refl);
                defined = c.defined;
                settled = λ _ _ h. cc;
                strong_included = c.strong_included;
                starred = λ h. absurd (false-true plain h);
              });
              extends = put-Extends H st.table k e' (record {
                same_def = refl;
                included = λ h. h;
                referenced = λ h. refl;
                strong = λ h. refl;
              });
            },
            inr (ap (λ e. e.referenced) (at-put H st k e')),
          )))

  pub link_decl-Linked :
      (st : State H.Table) (k : Bytes)
      → IsValid H st
      → is_starred k ≡ false
      → Ensures (λ st'. Linked H st st' × IsReached (at st' k)) (λ _. ⊥) (link_decl H k st)
  unfolding link_decl
  link_decl-Linked st k v plain =
      Ensures-if _ _ _ (λ in_. good (Linked-refl H st v, inl in_))
        (λ out.
          Ensures-if _ _ _ (λ old. good (Linked-refl H st v, inr old))
            (λ new. enqueue-Linked st k v plain out new))

  pub Linked-same :
      (st s : State H.Table) (t : H.Table)
      → Linked H st s
      → ((j : Bytes) → entry_of H t j ≡ at s j)
      → Linked H st (record s { table = t })
  Linked-same st s t l same = record {
    valid = IsValid-same H s t same l.valid;
    extends = λ j. subst (Grows (at st j)) (sym (same j)) (l.extends j);
  }

  pub define_again-Linked :
      (st : State H.Table) (k : Bytes) (weak : Bool)
      → IsValid H st
      → is_starred k ≡ false
      → (at st k).included ≡ true
      → Ensures
          (λ st'.
            Linked H st st'
            × ((at st' k).included ≡ true)
            × (weak ≡ false → is_some (at st k).strong_def ≡ false)
            × ((at st' k).strong_def ≡ (at st k).strong_def))
          (Duplicate k weak (at st k))
          (define_again H k weak st)
  unfolding define_again
  define_again-Linked st k weak v plain in_ = Ensures-assert _ _ (not_of_false _ plain) (
      Ensures-if _ _ _ (λ once. good (Linked-refl H st v, in_, once_strong weak _ once, refl))
        (λ twice. bad (second_strong k weak (at st k) in_ twice)))
