-- ===== src/Ld/Scan/Inputs.antt =====
-- Scanning the input files.
use nvptx_tools.Base.{
  ℕ, ◌≡◌, refl, ap, sym, subst, ◌∙◌, Bool, true, false, not, ◌&&◌, ◌||◌, ◌⊎◌, none, some, List, [],
  ◌∷◌, arith, Bytes, inl, inr, Bool-cases, equal, equal_iff,
}
use nvptx_tools.Hashtab.{Hashtab}
use nvptx_tools.Result.{is_some}
use nvptx_tools.Ld.Symbol.{
  Entry, FileRef, object, State, is_starred, entry_of, symbol_hash_lookup, enqueue_as_unresolved,
}
use nvptx_tools.Ld.Symbol.Table.{put_pointwise, entry_of-symbol_hash_lookup}
use nvptx_tools.Result.Ensures.{Ensures, good, Ensures-assert}
use nvptx_tools.Ld.Symbol.Valid.{IsConsistent, IsValid-same, push-IsValid}
use nvptx_tools.Ld.Marker.{Marker}
use nvptx_tools.Ld.Process.Listing.{listing}
use nvptx_tools.Ld.Process.Link.{at-put, put_elsewhere}
use nvptx_tools.Ld.Process.File.{is_def}
use nvptx_tools.Ld.Resolve.{nth}
use nvptx_tools.Ld.Resolve.Invariant.{defines, IsObject, IsPrepared}
use nvptx_tools.Ld.Scan.{register}
use nvptx_tools.Ld.Scan.Marker.{at, IsScanned, ScanInv}
use nvptx_tools.Ld.Scan.Text.{IsPlain, IsCovered-keeps}
use nvptx_tools.Ld.Scan.Sound.{some_injective}

-- A symbol that plain markers define is not special.
pub defines_plain :
    (k : Bytes) (ms : List Marker) → IsPlain ms → defines k ms ≡ true → is_starred k ≡ false
defines_plain k [] p d = cc
defines_plain k (m ∷ ms) p d = elim (Bool-cases (is_def m.kind && equal m.name k)) [
  | inl here ↦
      subst (λ j. is_starred j ≡ false) ((equal_iff m.name k).0 (second (is_def m.kind) here)) p.0
  | inr later ↦ defines_plain k ms p.1 (or_right later d)
]
  where
    second : (a : Bool) {b : Bool} → (a && b) ≡ true → b ≡ true
    second a {b} h = ground arith

    or_right : {a b : Bool} → a ≡ false → (a || b) ≡ true → b ≡ true
    or_right {a} {b} n h = ground arith

not_some :
    (e : Entry) {k : Bytes}
    → IsScanned e
    → IsConsistent k e
    → is_starred k ≡ true
    → e.def ≡ none
    → (e.included ≡ false) × (e.referenced ≡ false) × (e.queued ≡ false)
not_some e {k} i c star d =
    let no = ap is_some d in
    let ref = off (λ h. both no ((c.starred star).0 h)) in
    (off (λ h. both no (c.defined h)), ref, off (λ h. both ref (c.waiting h).1))
  where
    both : {b : Bool} → b ≡ false → b ≡ true → ⊥
    both h g = cc

    off : {b : Bool} → (b ≡ true → ⊥) → b ≡ false
    off {b} h = elim (Bool-cases b) [ inl t ↦ absurd (h t) | inr f ↦ f ]

module _ (H : Hashtab Entry) where
  pub record Registered (objects : List Bytes) (k : Bytes) (st st' : State H.Table) : Type 0 where
    pub inv : ScanInv H st'
    pub prepared : IsPrepared H objects st'.table
    pub others : (j : Bytes) → equal k j ≡ false → at H st' j ≡ at H st j

  IsPrepared-same :
      (objects : List Bytes) (t t' : H.Table)
      → ((j : Bytes) → entry_of H t' j ≡ entry_of H t j)
      → IsPrepared H objects t
      → IsPrepared H objects t'
  IsPrepared-same objects t t' same p = record {
    texts = λ i text n.
        let (end, c) = p.texts i text n in
        (end, IsCovered-keeps H t t' _ (λ k h. ap (λ e. is_some e.def) (same k) ∙ h) c);
    sourced = λ k f d out.
        p.sourced k f (ap (λ e. e.def) (sym (same k)) ∙ d)
          (ap (λ e. e.included) (sym (same k)) ∙ out);
  }

  -- The entry of an input file's special symbol.
  waiting_entry : ℕ → Entry → Entry
  waiting_entry n e = record e { def = some (object n); referenced = true; queued = true }

  abbrev waiting_state : ℕ → Bytes → State H.Table → State H.Table
  waiting_state n k st = record st {
    table = H.put st.table k (waiting_entry n (at H st k));
    unresolved = k ∷ st.unresolved;
  }

  waiting_state-Registered :
      (objects : List Bytes) (n : ℕ) (text k : Bytes) (st : State H.Table)
      → nth objects n ≡ some text
      → ScanInv H st
      → IsPrepared H objects st.table
      → is_starred k ≡ true
      → (at H st k).def ≡ none
      → Registered objects k st (waiting_state n k st)
  unfolding waiting_entry
  waiting_state-Registered objects n text k st has v p star d =
      let c = v.valid.entries k in
      let (out, new, idle) = not_some (at H st k) (v.scanned k) c star d in
      let e' = waiting_entry n (at H st k) in
      record {
        inv = record {
          valid = push-IsValid H st k e' v.valid idle refl (record {
            waiting = λ _. (out, refl);
            defined = λ _. refl;
            settled = λ _ _ h. cc;
            strong_included = c.strong_included;
            starred = λ _. (λ _. refl, λ _ _. refl);
          });
          scanned =
              put_pointwise H (λ _ e. IsScanned e) st.table k e'
                (record { only_intrinsic = λ h. cc; active = λ _. refl }) (λ j _. v.scanned j);
        };
        prepared = record {
          texts = λ i t has'.
              let (end, covered) = p.texts i t has' in
              (
                end,
                IsCovered-keeps H _ _ _
                    (put_pointwise H (λ j e. is_some (at H st j).def ≡ true → is_some e.def ≡ true)
                      st.table k e' (λ _. refl) (λ j _ h. h))
                    covered,
              );
          sourced =
              put_pointwise H
                (λ j e.
                  (f : FileRef)
                  → e.def ≡ some f
                  → e.included ≡ false
                  → (o : IsObject objects f) × ((is_starred j ≡ true)
                      ⊎ (defines j (listing o.text).markers ≡ true)))
                st.table k e'
                (λ f is _. (
                  record {
                    index = n;
                    text = text;
                    is_object = sym (some_injective is);
                    has_text = has;
                  },
                  inl star,
                ))
                (λ j _. p.sourced j);
        };
        others = λ j ne. put_elsewhere H st.table k j e' ne;
      }

  Registered-same :
      (objects : List Bytes) (k : Bytes) (st s : State H.Table) (t : H.Table)
      → ((j : Bytes) → entry_of H t j ≡ at H s j)
      → Registered objects k st s
      → Registered objects k st (record s { table = t })
  Registered-same objects k st s t same r = record {
    inv = record {
      valid = IsValid-same H s t same r.inv.valid;
      scanned = λ j. subst IsScanned (sym (same j)) (r.inv.scanned j);
    };
    prepared = IsPrepared-same objects s.table t same r.prepared;
    others = λ j ne. same j ∙ r.others j ne;
  }

  pub register-Registered :
      (objects : List Bytes) (n : ℕ) (text k : Bytes) (st : State H.Table)
      → nth objects n ≡ some text
      → ScanInv H st
      → IsPrepared H objects st.table
      → is_starred k ≡ true
      → (at H st k).def ≡ none
      → Ensures (Registered objects k st) (λ _. ⊥) (register H n k st)
  unfolding register enqueue_as_unresolved waiting_entry
  register-Registered objects n text k st has v p star d =
      let t0 = (symbol_hash_lookup H st.table k true).0 in
      let same = entry_of-symbol_hash_lookup H st.table k in
      let e = entry_of H t0 k in
      let e1 = record e { def = some (object n) } in
      let t1 = H.put t0 k e1 in
      let here = at-put H (record st { table = t0 }) k e1 in
      let e2 = record (entry_of H t1 k) { referenced = true; queued = true } in
      let goal = waiting_entry n (at H st k) in
      let (out, new, idle) = not_some (at H st k) (v.scanned k) (v.valid.entries k) star d in
      let e2_is =
        ap (λ (x : Entry). record x { referenced = true; queued = true }) here
        ∙ ap (waiting_entry n) (same k) in
      Ensures-assert _ _ (ap (λ x. not (is_some x.def)) (same k) ∙ ap (λ x. not (is_some x)) d) (
        Ensures-assert _ _
          (ap (λ x. not x.included) (here) ∙ ap (λ x. not x.included) (same k) ∙ ap not out)
          (Ensures-assert _ _
            (ap (λ x. not x.referenced) (here) ∙ ap (λ x. not x.referenced) (same k) ∙ ap not new)
            (good (
              Registered-same objects k st (waiting_state n k st) (H.put t1 k e2)
                (put_pointwise H (λ j x. x ≡ entry_of H (H.put st.table k goal) j) t1 k e2
                  (e2_is ∙ sym (at-put H st k goal))
                  (λ j ne.
                    put_elsewhere H t0 k j e1 ne
                    ∙ same j
                    ∙ sym (put_elsewhere H st.table k j goal ne)))
                (waiting_state-Registered objects n text k st has v p star d)))))
