-- ===== src/Ld/Process/File.antt =====
-- Linking the markers of a whole object file.
use nvptx_tools.Base.{
  ℕ, ◌+◌, ◌≤◌, ◌≡◌, refl, ap, subst, ◌∙◌, Bool, true, false, not, ◌&&◌, List, [], ◌∷◌, arith,
  if◌then◌else◌, Bool-cases, Bytes, equal, equal_iff, inl, inr, All,
}
use nvptx_tools.Hashtab.{Hashtab}
use nvptx_tools.Result.{Error, is_some, multiple_definitions}
use nvptx_tools.Ld.Symbol.{Entry, FileRef, State, entry_of, is_starred}
use nvptx_tools.Result.Ensures.{Ensures, good, Ensures-bind, Ensures-weaken}
use nvptx_tools.Ld.Symbol.Valid.{IsValid, Grows, Extends}
use nvptx_tools.Ld.Marker.{Marker, Kind, def, decl}
use nvptx_tools.Ld.Process.{process_marker, link}
use nvptx_tools.Ld.Process.Listing.{replay}
use nvptx_tools.Ld.Process.Link.{
  IsReached, Defined, Linked, Linked-refl, Linked-trans, Effect, link_marker-Linked,
}

abbrev pub is_def : Kind → Bool
is_def def = true
is_def decl = false

-- The number of strong DEFs of a symbol among markers.
abbrev pub strong_defs : Bytes → List Marker → ℕ
strong_defs k [] = 0
strong_defs k (m ∷ ms) =
    (if is_def m.kind && not m.weak && equal m.name k then 1 else 0) + strong_defs k ms

-- One if a strong DEF of the symbol has been linked.
abbrev pub strong_seen : Entry → ℕ
strong_seen e = if is_some e.strong_def then 1 else 0

-- An entry on which a marker has had its effect.
abbrev pub Handled : Kind → Entry → Type 0
Handled decl e = IsReached e
Handled def e = e.included ≡ true

abbrev pub IsMultiple : Error → Type 0
IsMultiple x = (k : Bytes) × (x ≡ multiple_definitions k)

Handled-Grows : (kind : Kind) (e e' : Entry) → Grows e e' → Handled kind e → Handled kind e'
Handled-Grows def e e' g h = g.included h
Handled-Grows decl e e' g (inl h) = inl (g.included h)
Handled-Grows decl e e' g (inr h) = inr (g.referenced h)

pub seen-Grows : (e e' : Entry) → Grows e e' → strong_seen e ≤ strong_seen e'
seen-Grows e e' g = elim (Bool-cases (is_some e.strong_def)) [
  | inl seen ↦ rw (seen, ap is_some (g.strong seen) ∙ seen) (omega arith)
  | inr new ↦ rw new (omega arith)
]

count_step :
    (fhe : FileRef) (kind : Kind) (weak same : Bool) (e e' : Entry)
    → Grows e e'
    → (same ≡ true → kind ≡ def → Defined fhe weak e e')
    → (if is_def kind && not weak && same then 1 else 0) + strong_seen e ≤ strong_seen e'
count_step fhe decl weak same e e' g d = omega (arith, seen-Grows e e' g)
count_step fhe def true same e e' g d = omega (arith, seen-Grows e e' g)
count_step fhe def false false e e' g d = omega (arith, seen-Grows e e' g)
count_step fhe def false true e e' g d =
    let (old, new) = (d refl refl).recorded refl in rw (old, new) (omega arith)

module _ (H : Hashtab Entry) where
  -- What the linker relies on for a marker of a file that it has scanned.
  abbrev pub IsCovered : H.Table → Marker → Type 0
  IsCovered t m =
      (is_starred m.name ≡ false) × (m.kind ≡ def → is_some (entry_of H t m.name).def ≡ true)

  abbrev pub AllHandled : H.Table → List Marker → Type 0
  AllHandled t ms = All (λ m. Handled m.kind (entry_of H t m.name)) ms

  pub IsCovered-Extends :
      (t t' : H.Table) (ms : List Marker)
      → Extends H t t'
      → All (IsCovered t) ms
      → All (IsCovered t') ms
  IsCovered-Extends t t' [] x c = tt
  IsCovered-Extends t t' (m ∷ ms) x c =
      ((c.0.0, λ h. ap is_some ((x m.name).same_def) ∙ c.0.1 h), IsCovered-Extends t t' ms x c.1)

  pub AllHandled-Extends :
      (t t' : H.Table) (ms : List Marker) → Extends H t t' → AllHandled t ms → AllHandled t' ms
  AllHandled-Extends t t' [] x c = tt
  AllHandled-Extends t t' (m ∷ ms) x c =
      (Handled-Grows m.kind _ _ (x m.name) c.0, AllHandled-Extends t t' ms x c.1)

  Handled-Effect :
      (fhe : FileRef) (m : Marker) (e e' : Entry) → Effect H fhe m e e' → Handled m.kind e'
  Handled-Effect fhe m e e' (reached, defined) =
      by_kind m.kind reached (λ h. (defined h).is_included)
    where
      by_kind :
          (kind : Kind)
          → (kind ≡ decl → IsReached e')
          → (kind ≡ def → e'.included ≡ true)
          → Handled kind e'
      by_kind def r d = d refl
      by_kind decl r d = r refl

  strong_step :
      (fhe : FileRef) (m : Marker) (st st' : State H.Table) (k : Bytes)
      → Linked H st st'
      → Effect H fhe m (entry_of H st.table m.name) (entry_of H st'.table m.name)
      → (if is_def m.kind && not m.weak && equal m.name k then 1 else 0)
          + strong_seen (entry_of H st.table k)
        ≤ strong_seen (entry_of H st'.table k)
  strong_step fhe m st st' k l f =
      count_step fhe m.kind m.weak (equal m.name k) _ _ (l.extends k) (λ same h.
        let here = (equal_iff m.name k).0 same in
        subst (λ j. Defined fhe m.weak (entry_of H st.table j) (entry_of H st'.table j)) here
          (f.1 h))

  -- The markers of a scanned file, linked in order.
  pub record FileLinked (st : State H.Table) (ms : List Marker) (st' : State H.Table) : Type 0 where
    pub linked : Linked H st st'
    pub handled : AllHandled st'.table ms
    pub strong :
        (k : Bytes)
        → strong_defs k ms + strong_seen (entry_of H st.table k)
          ≤ strong_seen (entry_of H st'.table k)

  pub link_file :
      (fhe : FileRef) (ms : List Marker) (st : State H.Table)
      → IsValid H st
      → All (IsCovered st.table) ms
      → Ensures (FileLinked st ms) IsMultiple (replay (process_marker H link fhe) ms st)
  unfolding replay
  link_file fhe [] st v c =
      good (record { linked = Linked-refl H st v; handled = tt; strong = λ k. omega arith })
  link_file fhe (m ∷ ms) st v c =
      Ensures-bind
        (Ensures-weaken (λ s l. l) (λ x f. (m.name, f.1.error))
          (link_marker-Linked H fhe m st v c.0.0 c.0.1))
        (λ s l.
          Ensures-weaken
            (λ s' r. record {
              linked = Linked-trans H st s s' l.0 r.linked;
              handled = (
                Handled-Grows m.kind _ _ (r.linked.extends m.name) (Handled-Effect fhe m _ _ l.1),
                r.handled,
              );
              strong = λ k. omega (arith, r.strong k, strong_step fhe m st s k l.0 l.1);
            })
            (λ x h. h)
            (link_file fhe ms s l.0.valid (IsCovered-Extends st.table s.table ms l.0.extends c.1)))
