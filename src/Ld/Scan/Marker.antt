-- ===== src/Ld/Scan/Marker.antt =====
-- Scanning one marker, and the markers of a text.
use nvptx_tools.Base.{
  true-false, ◌≡◌, refl, ap, sym, subst, ◌∙◌, Bool, true, false, not, ◌&&◌, ◌||◌, ◌⊎◌, Option, none,
  some, arith, Bytes, inl, inr, equal_refl, equal,
}
use nvptx_tools.Hashtab.{Hashtab}
use nvptx_tools.Result.{is_some}
use nvptx_tools.Ld.Symbol.{
  Entry, FileRef, intrinsic, State, is_intrinsic, is_starred, entry_of, symbol_hash_lookup,
}
use nvptx_tools.Ld.Symbol.Table.{put_pointwise, entry_of-symbol_hash_lookup}
use nvptx_tools.Result.Ensures.{Ensures, good, Ensures-bind, Ensures-assert}
use nvptx_tools.Ld.Symbol.Valid.{IsConsistent, IsValid, IsValid-same, write-IsValid}
use nvptx_tools.Ld.Marker.{Marker, Kind, def, decl}
use nvptx_tools.Ld.Process.{
  process_marker, mode_marker, scan_marker, scan_entry, first_def, check_def, scan,
}
use nvptx_tools.Ld.Process.Link.{at-put, has_def}
use nvptx_tools.Ld.Process.File.{is_def}

-- During the scan only intrinsics are included, and a referenced symbol waits.
pub record IsScanned (e : Entry) : Type 0 where
  pub only_intrinsic :
      e.included ≡ true → (e.def ≡ some intrinsic) × (e.strong_def ≡ some intrinsic)
  pub active : e.referenced ≡ true → e.queued ≡ true

fits :
    (e : Entry)
    → IsScanned e
    → (not e.included || (is_intrinsic e.def && is_intrinsic e.strong_def)) ≡ true
fits e i = ground (arith, i.only_intrinsic)

-- What the scan keeps of an entry: all but an absent file, which may become that of `fhe`.
pub record Gains (fhe : FileRef) (found : Bool) (e e' : Entry) : Type 0 where
  pub others :
      (e'.strong_def ≡ e.strong_def)
      × (e'.included ≡ e.included)
      × (e'.referenced ≡ e.referenced)
      × (e'.queued ≡ e.queued)
  pub file : (e'.def ≡ e.def) ⊎ ((e.def ≡ none) × (e'.def ≡ some fhe) × (found ≡ true))

pub Gains-refl : (fhe : FileRef) (found : Bool) (e : Entry) → Gains fhe found e e
Gains-refl fhe found e = record { others = (refl, refl, refl, refl); file = inl refl }

pub Gains-trans :
    (fhe : FileRef) (x y : Bool) (a b c : Entry)
    → Gains fhe x a b
    → Gains fhe y b c
    → Gains fhe (x || y) a c
Gains-trans fhe x y a b c f g = record {
  others = (
    g.others.0 ∙ f.others.0,
    g.others.1 ∙ f.others.1,
    g.others.2 ∙ f.others.2,
    g.others.3 ∙ f.others.3,
  );
  file = elim f.file [
    | inl p ↦ elim g.file [
      | inl q ↦ inl (q ∙ p)
      | inr (n, e, t) ↦ inr (sym p ∙ n, e, rw t (or_true x))
    ]
    | inr (n, e, t) ↦ elim g.file [ inl q ↦ inr (n, q ∙ e, rw t) | inr (n', e', t') ↦ cc ]
  ];
}
  where
    or_true : (z : Bool) → (z || true) ≡ true
    or_true z = ground arith

-- What an entry with an absent file filled in still satisfies.
Gains-IsScanned :
    (fhe : FileRef) (found : Bool) (e e' : Entry)
    → Gains fhe found e e'
    → IsScanned e
    → IsScanned e'
Gains-IsScanned fhe found e e' g i = record {
  only_intrinsic = λ h.
      let (d, s) = i.only_intrinsic (sym g.others.1 ∙ h) in
      (elim g.file [ inl p ↦ p ∙ d | inr (n, _, _) ↦ cc ], g.others.0 ∙ s);
  active = λ h. g.others.3 ∙ i.active (sym g.others.2 ∙ h);
}

Gains-IsConsistent :
    (fhe : FileRef) (found : Bool) (k : Bytes) (e e' : Entry)
    → Gains fhe found e e'
    → IsScanned e
    → is_starred k ≡ false
    → IsConsistent k e
    → IsConsistent k e'
Gains-IsConsistent fhe found k e e' g i plain c =
    let i' = Gains-IsScanned fhe found e e' g i in
    record {
      waiting = λ h.
          let (out, ref) = c.waiting (sym g.others.3 ∙ h) in (g.others.1 ∙ out, g.others.2 ∙ ref);
      defined = λ h. ap is_some (i'.only_intrinsic h).0;
      settled = λ ref out q. absurd (true-false (i'.active ref) q);
      strong_included = λ h. g.others.1 ∙ c.strong_included (ap is_some (sym g.others.0) ∙ h);
      starred = λ star. absurd (true-false star plain);
    }

first_def-cases :
    (fhe : FileRef) (d : Option FileRef)
    → (first_def fhe d ≡ d) ⊎ ((d ≡ none) × (first_def fhe d ≡ some fhe) × ◌≡◌ {A = Bool} true true)
unfolding first_def
first_def-cases fhe none = inr (refl, refl, refl)
first_def-cases fhe (some f) = inl refl

first_def-some : (fhe : FileRef) (d : Option FileRef) → is_some (first_def fhe d) ≡ true
unfolding first_def
first_def-some fhe none = refl
first_def-some fhe (some f) = refl

and_true : (b : Bool) → b ≡ (b && true)
and_true b = ground arith

module _ (H : Hashtab Entry) where
  abbrev pub at : State H.Table → Bytes → Entry
  at st k = entry_of H st.table k

  pub record ScanInv (st : State H.Table) : Type 0 where
    pub valid : IsValid H st
    pub scanned : (k : Bytes) → IsScanned (at st k)

  scan_entry-Gains :
      (fhe : FileRef) (kind : Kind) (e : Entry)
      → Gains fhe (is_def kind) e (scan_entry H fhe kind e)
  unfolding scan_entry
  scan_entry-Gains fhe decl e = Gains-refl fhe false e
  scan_entry-Gains fhe def e = record {
    others = (refl, refl, refl, refl);
    file = first_def-cases fhe e.def;
  }

  scan_entry-def :
      (fhe : FileRef) (kind : Kind) (e : Entry)
      → kind ≡ def
      → is_some (scan_entry H fhe kind e).def ≡ true
  unfolding scan_entry
  scan_entry-def fhe decl e h = cc
  scan_entry-def fhe def e h = first_def-some fhe e.def

  -- A marker scanned: what every entry gains.
  pub record MarkerScanned (fhe : FileRef) (m : Marker) (st st' : State H.Table) : Type 0 where
    pub inv : ScanInv st'
    pub gains : (k : Bytes) → Gains fhe (is_def m.kind && equal m.name k) (at st k) (at st' k)
    pub defined : m.kind ≡ def → is_some (at st' m.name).def ≡ true

  scan_marker-Scanned :
      (fhe : FileRef) (m : Marker) (st : State H.Table)
      → ScanInv st
      → is_starred m.name ≡ false
      → Ensures (MarkerScanned fhe m st) (λ _. ⊥) (scan_marker H fhe m st)
  unfolding scan_marker
  scan_marker-Scanned fhe m st v plain =
      let e = at st m.name in
      let e' = scan_entry H fhe m.kind e in
      let g = scan_entry-Gains fhe m.kind e in
      let i = v.scanned m.name in
      Ensures-assert _ _ (fits e i) (
        good (record {
          inv = record {
            valid =
                write-IsValid H st m.name e' v.valid g.others.3
                  (Gains-IsConsistent fhe _ m.name e e' g i plain (v.valid.entries m.name));
            scanned =
                put_pointwise H (λ _ x. IsScanned x) st.table m.name e'
                  (Gains-IsScanned fhe _ e e' g i) (λ j _. v.scanned j);
          };
          gains =
              put_pointwise H (λ j x. Gains fhe (is_def m.kind && equal m.name j) (at st j) x)
                st.table m.name e'
                (rw (equal_refl m.name)
                  (subst (λ b. Gains fhe b e e') (and_true (is_def m.kind)) g))
                (λ j ne. Gains-refl fhe _ _);
          defined =
              λ h. ap (λ x. is_some x.def) (at-put H st m.name e') ∙ scan_entry-def fhe m.kind e h;
        }))

  -- Scanning a marker never fails.
  pub process_marker-Scanned :
      (fhe : FileRef) (m : Marker) (st : State H.Table)
      → ScanInv st
      → is_starred m.name ≡ false
      → Ensures (MarkerScanned fhe m st) (λ _. ⊥) (process_marker H scan fhe m st)
  unfolding process_marker mode_marker check_def
  process_marker-Scanned fhe m st v plain =
      let t = (symbol_hash_lookup H st.table m.name true).0 in
      let same = entry_of-symbol_hash_lookup H st.table m.name in
      let v' : ScanInv (record st { table = t }) = record {
        valid = IsValid-same H st t same v.valid;
        scanned = λ k. subst IsScanned (sym (same k)) (v.scanned k);
      } in
      Ensures-bind (scan_marker-Scanned fhe m (record st { table = t }) v' plain) (λ s r.
        Ensures-assert _ _ (has_def (at s m.name) (r.inv.valid.entries m.name)) (
          good (record {
            inv = r.inv;
            gains = λ k.
                subst (λ e. Gains fhe (is_def m.kind && equal m.name k) e (at s k)) (same k)
                  (r.gains k);
            defined = r.defined;
          })))
