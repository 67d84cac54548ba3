-- ===== src/Ld/Scan/Text.antt =====
-- Scanning a text and registering an input file.
use nvptx_tools.Base.{
  ◌≡◌, refl, ap, sym, subst, ◌∙◌, Bool, true, false, ◌⊎◌, Option, List, [], ◌∷◌, Bytes, inl, inr,
  All, after_nul,
}
use nvptx_tools.Hashtab.{Hashtab}
use nvptx_tools.Result.{Error, is_some, truncated_marker}
use nvptx_tools.Ld.Symbol.{Entry, FileRef, State, is_starred, entry_of}
use nvptx_tools.Result.Ensures.{Ensures, good, bad, Ensures-bind, Ensures-weaken}
use nvptx_tools.Ld.Marker.{Marker}
use nvptx_tools.Ld.Process.{process_refs_defs, process_marker, scan}
use nvptx_tools.Ld.Process.Listing.{
  listing, listing-IsComplete, Ending, ended, cut, replay, conclude, process_refs_defs-replay,
}
use nvptx_tools.Ld.Process.File.{IsCovered}
use nvptx_tools.Ld.Resolve.Invariant.{defines}
use nvptx_tools.Ld.Scan.Marker.{at, Gains, Gains-refl, Gains-trans, ScanInv, process_marker-Scanned}

abbrev pub IsPlain : List Marker → Type 0
IsPlain = All (λ m. is_starred m.name ≡ false)

pub still_some :
    (fhe : FileRef) (found : Bool) (e e' : Entry)
    → Gains fhe found e e'
    → is_some e.def ≡ true
    → is_some e'.def ≡ true
still_some fhe found e e' g h = elim g.file [
  | inl p ↦ ap is_some p ∙ h
  | inr (n, s, t) ↦ ap is_some s
]

module _ (H : Hashtab Entry) where
  -- The markers of a text scanned.
  pub record TextScanned (fhe : FileRef) (ms : List Marker) (st st' : State H.Table) : Type 0 where
    pub inv : ScanInv H st'
    pub gains : (k : Bytes) → Gains fhe (defines k ms) (at H st k) (at H st' k)
    pub covered : All (IsCovered H st'.table) ms

  pub IsCovered-keeps :
      (t t' : H.Table) (ms : List Marker)
      → ((k : Bytes) → is_some (entry_of H t k).def ≡ true → is_some (entry_of H t' k).def ≡ true)
      → All (IsCovered H t) ms
      → All (IsCovered H t') ms
  IsCovered-keeps t t' [] g c = tt
  IsCovered-keeps t t' (m ∷ ms) g c =
      ((c.0.0, λ h. g m.name (c.0.1 h)), IsCovered-keeps t t' ms g c.1)

  scan_markers :
      (fhe : FileRef) (ms : List Marker) (st : State H.Table)
      → ScanInv H st
      → IsPlain ms
      → Ensures (TextScanned fhe ms st) (λ _. ⊥) (replay (process_marker H scan fhe) ms st)
  unfolding replay
  scan_markers fhe [] st v p =
      good (record { inv = v; gains = λ k. Gains-refl fhe _ _; covered = tt })
  scan_markers fhe (m ∷ ms) st v p = Ensures-bind (process_marker-Scanned H fhe m st v p.0) (λ s r.
      Ensures-weaken
        (λ s' r'. record {
          inv = r'.inv;
          gains = λ k. Gains-trans fhe _ _ _ _ _ (r.gains k) (r'.gains k);
          covered = ((p.0, λ h. still_some fhe _ _ _ (r'.gains m.name) (r.defined h)), r'.covered);
        })
        (λ x e. e) (scan_markers fhe ms s r.inv p.1))

  -- A text scanned to its end, which is that of its buffer.
  abbrev pub IsScan : FileRef → Bytes → State H.Table → State H.Table × Option Bytes → Type 0
  IsScan fhe text st r =
      TextScanned fhe (listing text).markers st r.0
      × (r.1 ≡ after_nul text)
      × ((listing text).ending ≡ ended r.1)

  -- A scan fails only at a truncated marker line.
  abbrev pub IsTruncated : Bytes → Error → Type 0
  IsTruncated text x = (x ≡ truncated_marker) × ((listing text).ending ≡ cut)

  conclude-IsScan :
      (fhe : FileRef) (text : Bytes) (end : Ending) (st s : State H.Table)
      → (listing text).ending ≡ end
      → (end ≡ ended (after_nul text)) ⊎ (end ≡ cut)
      → TextScanned fhe (listing text).markers st s
      → Ensures (IsScan fhe text st) (IsTruncated text) (conclude end s)
  conclude-IsScan fhe text (ended rest) st s e c r = good (r, elim c [ inl h ↦ cc | inr h ↦ cc ], e)
  conclude-IsScan fhe text cut st s e c r = bad (refl, e)
  conclude-IsScan fhe text Ending.exhausted st s e c r = elim c [ inl h ↦ cc | inr h ↦ cc ]

  -- Scanning a text without special symbols, in a sound state: each symbol keeps its file, or has
  -- none and gets the scanned file if the text defines it; every DEF of the text has a file then; the
  -- result is the place behind the NUL. The only error is a truncated marker line.
  pub process_refs_defs-IsScan :
      (fhe : FileRef) (text : Bytes) (st : State H.Table)
      → ScanInv H st
      → IsPlain (listing text).markers
      → Ensures (IsScan fhe text st) (IsTruncated text) (process_refs_defs H scan fhe text st)
  process_refs_defs-IsScan fhe text st v p =
      subst (Ensures (IsScan fhe text st) (IsTruncated text))
        (sym (process_refs_defs-replay H scan fhe text st))
        (Ensures-bind
          (Ensures-weaken (λ s r. r) (λ x e. absurd e)
            (scan_markers fhe (listing text).markers st v p))
          (λ s r. conclude-IsScan fhe text _ st s refl (listing-IsComplete text).ending r))
