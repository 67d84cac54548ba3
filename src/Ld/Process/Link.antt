-- ===== src/Ld/Process/Link.antt =====
-- Linking one marker: what it keeps, what it reaches, and when it fails.
mod Entries
mod Decl
mod Include
pub use Entries.{
  Duplicate, Fails, Defined, IsReached, has_def, Linked, Linked-refl, Linked-trans, at-put,
}
pub use Include.{put_elsewhere, dequeue-Linked, put-put}
unfoldable pub use Include.{included}
use nvptx_tools.Base.{
  false-true, ◌≡◌, refl, ap, sym, subst, ◌∙◌, Bool, true, false, not, ◌&&◌, ◌||◌, ◌⊎◌, some, arith,
  Bool-cases, Bytes, equal, equal_refl, inl, inr, starts_with, codes,
}
use nvptx_tools.Hashtab.{Hashtab}
use nvptx_tools.Result.{Error, is_some, multiple_definitions}
use nvptx_tools.Ld.Symbol.{
  Entry, FileRef, State, entry_of, is_starred, write, erase, enqueue_as_unresolved,
  dequeue_unresolved, symbol_hash_lookup,
}
use nvptx_tools.Ld.Symbol.Table.{entry_of-put, entry_of-symbol_hash_lookup}
use nvptx_tools.Result.Ensures.{
  Ensures, good, bad, Ensures-bind, Ensures-weaken, Ensures-assert, Ensures-if,
}
use nvptx_tools.Ld.Symbol.Valid.{
  IsConsistent, IsValid, write-IsValid, push-IsValid, pull-IsValid, Grows, Grows-refl, Grows-trans,
  Extends, put-Extends, IsValid-same, not_of_false,
}
use nvptx_tools.Ld.Marker.{Marker, Kind, def, decl}
use nvptx_tools.Ld.Process.{
  link_decl, define_again, capture_special, include_def, remember_strong, link_def, link_kind,
  mode_marker, check_def, process_marker, link,
}
use nvptx_tools.Ld.Process.Link.Entries.{
  once_strong, second_strong, still_queued, not_queued, not_strong, no_strong, is_first,
}
use nvptx_tools.Ld.Process.Link.Decl.{link_decl-Linked, Linked-same, define_again-Linked}
use nvptx_tools.Ld.Process.Link.Include.{include_def-Linked}

module _ (H : Hashtab Entry) where
  abbrev at : State H.Table → Bytes → Entry
  at st k = entry_of H st.table k

  remember_strong-Linked :
      (fhe : FileRef) (st : State H.Table) (k : Bytes) (weak : Bool)
      → IsValid H st
      → is_starred k ≡ false
      → (at st k).included ≡ true
      → Ensures
          (λ st'.
            Linked H st st'
            × ((at st' k).included ≡ true)
            × (weak ≡ false
                → is_some (at st k).strong_def ≡ false
                → (at st' k).strong_def ≡ some fhe))
          (λ _. ⊥)
          (remember_strong H fhe k weak st)
  unfolding remember_strong
  remember_strong-Linked fhe st k weak v plain in_ =
      let e = at st k in
      let e' = record e { strong_def = some fhe } in
      let c = v.entries k in
      let here = at-put H st k e' in
      Ensures-if _ _ _
        (λ first. Ensures-assert _ _ (not_of_false _ plain) (
          good (
            record {
              valid = write-IsValid H st k e' v refl (record {
                waiting = c.waiting;
                defined = c.defined;
                settled = c.settled;
                strong_included = λ _. in_;
                starred = λ h. absurd (false-true plain h);
              });
              extends = put-Extends H st.table k e' (record {
                same_def = refl;
                included = λ h. h;
                referenced = λ h. h;
                strong = λ h. absurd (no_strong weak _ first h);
              });
            },
            ap (λ e. e.included) here ∙ in_,
            λ _ _. ap (λ e. e.strong_def) here,
          )))
        (λ later. good (Linked-refl H st v, in_, λ w s. absurd (is_first weak _ later w s)))

  link_def-Linked :
      (fhe : FileRef) (st : State H.Table) (k : Bytes) (weak : Bool)
      → IsValid H st
      → is_starred k ≡ false
      → is_some (at st k).def ≡ true
      → Ensures
          (λ st'. Linked H st st' × Defined fhe weak (at st k) (at st' k))
          (Duplicate k weak (at st k))
          (link_def H fhe k weak st)
  unfolding link_def
  link_def-Linked fhe st k weak v plain d =
      Ensures-bind
        {P = λ s.
          Linked H st s
          × ((at s k).included ≡ true)
          × (weak ≡ false → is_some (at st k).strong_def ≡ false)
          × ((at s k).strong_def ≡ (at st k).strong_def)}
        (Ensures-if _ _ _ (λ in_. define_again-Linked H st k weak v plain in_)
          (λ out.
            Ensures-weaken (λ s l. (l.0, l.1, λ _. not_strong (at st k) (v.entries k) out, l.2))
              (λ _ h. absurd h) (include_def-Linked H st k v d out)))
        (λ s l.
          Ensures-weaken
            (λ s' l'. (
              Linked-trans H st s s' l.0 l'.0,
              record {
                is_included = l'.1;
                recorded = λ w. (l.2 w, l'.2 w (ap is_some l.3 ∙ l.2 w));
              },
            ))
            (λ _ h. absurd h) (remember_strong-Linked fhe s k weak l.0.valid plain l.1))

  -- What a marker brings about: a DECL is reached, a DEF is included and its strong DEF recorded.
  abbrev KindEffect : FileRef → Kind → Bool → Entry → Entry → Type 0
  KindEffect fhe kind weak e e' =
      (kind ≡ decl → IsReached e') × (kind ≡ def → Defined fhe weak e e')

  link_kind-Linked :
      (fhe : FileRef) (kind : Kind) (k : Bytes) (weak : Bool) (st : State H.Table)
      → IsValid H st
      → is_starred k ≡ false
      → (kind ≡ def → is_some (at st k).def ≡ true)
      → Ensures
          (λ st'. Linked H st st' × KindEffect fhe kind weak (at st k) (at st' k))
          (λ x. (kind ≡ def) × Duplicate k weak (at st k) x)
          (link_kind H fhe kind k weak st)
  unfolding link_kind
  link_kind-Linked fhe decl k weak st v plain d =
      Ensures-weaken (λ s l. (l.0, (λ _. l.1, λ h. cc))) (λ _ h. absurd h)
        (link_decl-Linked H st k v plain)
  link_kind-Linked fhe def k weak st v plain d =
      Ensures-weaken (λ s l. (l.0, (λ h. cc, λ _. l.1))) (λ _ h. (refl, h))
        (link_def-Linked fhe st k weak v plain (d refl))

  abbrev pub Effect : FileRef → Marker → Entry → Entry → Type 0
  Effect fhe m = KindEffect fhe m.kind m.weak

  check_def-Linked :
      (st s : State H.Table) (k : Bytes) (Q : State H.Table → Type 0) {E : Error → Type 0}
      → Linked H st s
      → Q s
      → Ensures (λ st'. Linked H st st' × Q st') E (check_def H k s)
  unfolding check_def
  check_def-Linked st s k Q l q =
      Ensures-assert _ _ (has_def (at s k) (l.valid.entries k)) (good (l, q))

  -- One marker linked, of a symbol that is not special and that has a file if the marker is a DEF,
  -- in a well-formed table: no assertion fails, the table stays well formed, the marker has its
  -- effect on the symbol, and the only error is a strong DEF of a symbol included with a strong DEF.
  pub link_marker-Linked :
      (fhe : FileRef) (m : Marker) (st : State H.Table)
      → IsValid H st
      → is_starred m.name ≡ false
      → (m.kind ≡ def → is_some (at st m.name).def ≡ true)
      → Ensures
          (λ st'. Linked H st st' × Effect fhe m (at st m.name) (at st' m.name))
          (Fails m (at st m.name))
          (process_marker H link fhe m st)
  unfolding process_marker mode_marker
  link_marker-Linked fhe m st v plain d =
      let t = (symbol_hash_lookup H st.table m.name true).0 in
      let same = entry_of-symbol_hash_lookup H st.table m.name in
      let st' = record st { table = t } in
      let l = Linked-same H st st t (Linked-refl H st v) same in
      Ensures-bind {P = λ s. Linked H st s × Effect fhe m (at st m.name) (at s m.name)}
        (Ensures-weaken
          (λ s r. (
            Linked-trans H st st' s l r.0,
            subst (λ e. Effect fhe m e (at s m.name)) (same m.name) r.1,
          ))
          (λ x r. subst (λ e. Fails m e x) (same m.name) r)
          (link_kind-Linked fhe m.kind m.name m.weak st' l.valid plain
            (λ h. ap (λ e. is_some e.def) (same m.name) ∙ d h)))
        (λ s r.
          check_def-Linked st s m.name (λ s'. Effect fhe m (at st m.name) (at s' m.name)) r.0 r.1)
