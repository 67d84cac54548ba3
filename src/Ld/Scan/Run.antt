-- ===== src/Ld/Scan/Run.antt =====
-- The loops of the scan, and the state that they start from.
use nvptx_tools.Base.{
  true-false, ℕ, suc, ◌≤◌, length, ◌≡◌, refl, ap, sym, subst, ◌∙◌, false, ◌⊎◌, Option, none, some,
  List, [], ◌∷◌, ◌++◌, arith, Bytes, inl, inr, All, Bool-cases, equal, equal_iff,
}
use nvptx_tools.Hashtab.{Hashtab}
use nvptx_tools.Result.{Error, ok, open_error}
use nvptx_tools.Ld.Symbol.{Entry, State}
use nvptx_tools.Result.Ensures.{Ensures, good, bad, Ensures-bind, Ensures-weaken, Ensures-if}
use nvptx_tools.Ld.Process.Listing.{listing}
use nvptx_tools.Ld.Resolve.{Linker, nth, has_file}
use nvptx_tools.Ld.Resolve.Invariant.{Inv}
use nvptx_tools.Ld.Scan.{
  Scanner, scan_object, scan_input, scan_inputs, scan_members, is_archive, sym_name,
}
use nvptx_tools.Ld.Scan.Name.{sym_name_injective, sym_name-starred}
use nvptx_tools.Ld.Scan.Marker.{at}
use nvptx_tools.Ld.Scan.Text.{IsPlain}
use nvptx_tools.Ld.Scan.Sound.{ScannerInv, TextAdded, IsBadText, scan_text-TextAdded, nth_last}
use nvptx_tools.Ld.Scan.Inputs.{register-Registered, defines_plain}

le_of_suc_le : (n j : ℕ) → suc n ≤ j → n ≤ j
le_of_suc_le n j h = omega arith

pub differ : (k j : Bytes) → (k ≡ j → ⊥) → equal k j ≡ false
differ k j h = elim (Bool-cases (equal k j)) [
  | inl e ↦ absurd (h ((equal_iff k j).0 e))
  | inr e ↦ e
]

module _ (H : Hashtab Entry) where
  -- The special symbols of the input files from a number on have no file.
  abbrev pub IsUnused : ℕ → State H.Table → Type 0
  IsUnused n st = (j : ℕ) (name : Bytes) → n ≤ j → (at H st (sym_name j name)).def ≡ none

  TextAdded-IsUnused :
      (n : ℕ) (text : Bytes) (s s' : Scanner H.Table)
      → IsPlain (listing text).markers
      → TextAdded H text s s'
      → IsUnused n s.symbols
      → IsUnused n s'.symbols
  TextAdded-IsUnused n text s s' p a u j name h = elim (a.gains (sym_name j name)).file [
    | inl same ↦ same ∙ u j name h
    | inr (_, _, found) ↦
        absurd
          (true-false (sym_name-starred j name) (defines_plain _ (listing text).markers p found))
  ]

  -- An input file scanned and registered.
  pub record Grown (n : ℕ) (s : Scanner H.Table) : Type 0 where
    pub inv : ScannerInv H s
    pub unused : IsUnused n s.symbols

  scan_object-Grown :
      (n : ℕ) (name text : Bytes) (s : Scanner H.Table)
      → Grown n s
      → IsPlain (listing text).markers
      → Ensures (Grown (suc n)) (IsBadText H text) (scan_object H n name text s)
  unfolding scan_object
  scan_object-Grown n name text s g p = Ensures-bind (scan_text-TextAdded H text s g.inv p) (λ s1 a.
      let k = sym_name n name in
      let unused = TextAdded-IsUnused n text s s1 p a g.unused in
      Ensures-bind
        (Ensures-weaken (λ st r. r) (λ x e. absurd e)
          (register-Registered H s1.objects (length s.objects) text k s1.symbols
            (subst (λ o. nth o (length s.objects) ≡ some text) (sym a.objects)
              (nth_last s.objects text))
            a.inv.scan_inv a.inv.prepared (sym_name-starred n name) (unused n name (omega arith))))
        (λ st r. good (record {
          inv = record { scan_inv = r.inv; prepared = r.prepared };
          unused = λ j other h.
              ap (λ e. e.def)
                (r.others (sym_name j other) (
                  differ k (sym_name j other)
                    (λ same. absurd (omega (arith, sym_name_injective n j name other same)))))
              ∙ unused j other (omega arith);
        })))

  -- The files that can be opened have plain markers.
  abbrev pub IsPlainFile : Option Bytes → Type 0
  IsPlainFile none = Unit
  IsPlainFile (some text) = IsPlain (listing text).markers

  -- The failures of the scan: a file that does not open, or a bad text.
  abbrev pub IsScanError : (Bytes → Option Bytes) → Error → Type 0
  IsScanError contents x =
      (name : Bytes) × ((contents name ≡ none) × (x ≡ open_error name)
        ⊎ ((text : Bytes) × (contents name ≡ some text) × IsBadText H text x))

  scan_input-Grown :
      (contents : Bytes → Option Bytes) (n : ℕ) (name : Bytes) (content : Option Bytes)
      (s : Scanner H.Table)
      → contents name ≡ content
      → IsPlainFile content
      → Grown n s
      → Ensures (Grown (suc n)) (IsScanError contents) (scan_input H n name content s)
  unfolding scan_input
  scan_input-Grown contents n name none s e p g = bad (name, inl (e, refl))
  scan_input-Grown contents n name (some text) s e p g =
      let s' = record s { libraries = s.libraries ++ name ∷ [] } in
      Ensures-if (is_archive text) (ok s') (scan_object H n name text s)
        (λ lib. good {a = s'} (record {
          inv = record { scan_inv = g.inv.scan_inv; prepared = g.inv.prepared };
          unused = λ j other h. g.unused j other (le_of_suc_le n j h);
        }))
        (λ obj.
          Ensures-weaken (λ s' r. r) (λ x b. (name, inr (text, e, b)))
            (scan_object-Grown n name text s g p))

  -- The scan of the input files: its result is prepared for the resolve loop, or it fails at a
  -- file that does not open, a truncated marker line or a NUL.
  pub scan_inputs-ScannerInv :
      (contents : Bytes → Option Bytes) (n : ℕ) (names : List Bytes) (s : Scanner H.Table)
      → ((name : Bytes) → IsPlainFile (contents name))
      → Grown n s
      → Ensures (ScannerInv H) (IsScanError contents) (scan_inputs H contents n names s)
  unfolding scan_inputs
  scan_inputs-ScannerInv contents n [] s p g = good g.inv
  scan_inputs-ScannerInv contents n (name ∷ names) s p g =
      Ensures-bind (scan_input-Grown contents n name (contents name) s refl (p name) g)
        (λ s1 g1. scan_inputs-ScannerInv contents (suc n) names s1 p g1)

  -- The scan of archive members without special symbols, from a sound state, leaves a sound state,
  -- or fails at a truncated marker line or a NUL inside a member.
  pub scan_members-ScannerInv :
      (texts : List Bytes) (s : Scanner H.Table)
      → All (λ text. IsPlain (listing text).markers) texts
      → ScannerInv H s
      → Ensures (ScannerInv H) (λ x. (text : Bytes) × IsBadText H text x) (scan_members H texts s)
  unfolding scan_members
  scan_members-ScannerInv [] s p v = good v
  scan_members-ScannerInv (text ∷ texts) s p v =
      Ensures-bind
        (Ensures-weaken (λ s1 a. a) (λ x b. (text, b)) (scan_text-TextAdded H text s v p.0))
        (λ s1 a. scan_members-ScannerInv texts s1 p.1 a.inv)

  -- Where the resolve loop starts.
  abbrev pub start : Scanner H.Table → Linker H.Table
  start s = record { symbols = s.symbols; outfile = []; linked = [] }

  pub start-Inv : (s : Scanner H.Table) → ScannerInv H s → Inv H s.objects (start s)
  unfolding has_file
  start-Inv s v = record {
    valid = v.scan_inv.valid;
    prepared = v.prepared;
    unlinked = λ k f d out. refl;
    once = tt;
    handled = λ i text n h. cc;
    strong = λ k. omega arith;
  }
