-- ===== src/Ld/Scan/Sound.antt =====
-- What the scan hands to the resolve loop.
use nvptx_tools.Base.{
  ℕ, zero, suc, length, ◌≡◌, refl, ap, sym, subst, ◌∙◌, true, not, ◌⊎◌, Option, none, some, List,
  [], ◌∷◌, ◌++◌, arith, Bytes, inl, inr, All, after_nul,
}
use nvptx_tools.Hashtab.{Hashtab}
use nvptx_tools.Result.{Error, ok, ◌>>◌, assert, is_some, assertion}
use nvptx_tools.Ld.Symbol.{Entry, FileRef, object, State}
use nvptx_tools.Result.Ensures.{Ensures, good, bad, Ensures-bind, Ensures-weaken}
use nvptx_tools.Ld.Process.Listing.{listing, ended}
use nvptx_tools.Ld.Process.File.{IsCovered}
use nvptx_tools.Ld.Resolve.{nth}
use nvptx_tools.Ld.Resolve.Invariant.{defines, IsObject, IsPrepared}
use nvptx_tools.Ld.Scan.{Scanner, scan_text}
use nvptx_tools.Ld.Scan.Marker.{at, Gains, ScanInv}
use nvptx_tools.Ld.Scan.Text.{
  IsPlain, TextScanned, IsTruncated, still_some, IsCovered-keeps, process_refs_defs-IsScan,
}

pub nth_left :
    (xs ys : List Bytes) (i : ℕ) {x : Bytes} → nth xs i ≡ some x → nth (xs ++ ys) i ≡ some x
nth_left [] ys i h = cc
nth_left (x ∷ xs) ys zero h = h
nth_left (x ∷ xs) ys (suc i) h = nth_left xs ys i h

pub nth_last : (xs : List Bytes) (x : Bytes) → nth (xs ++ x ∷ []) (length xs) ≡ some x
nth_last [] x = refl
nth_last (y ∷ xs) x = nth_last xs x

nth_snoc :
    (xs : List Bytes) (t : Bytes) (i : ℕ) {x : Bytes}
    → nth (xs ++ t ∷ []) i ≡ some x
    → (nth xs i ≡ some x) ⊎ (t ≡ x)
nth_snoc [] t zero h = inr (ground arith)
nth_snoc [] t (suc i) h = cc
nth_snoc (y ∷ xs) t zero h = inl h
nth_snoc (y ∷ xs) t (suc i) h = nth_snoc xs t i h

pub some_injective : {f g : FileRef} → ◌≡◌ {A = Option FileRef} (some f) (some g) → f ≡ g
some_injective h = ground arith

IsObject-snoc :
    (objects : List Bytes) (t : Bytes) (f : FileRef)
    → IsObject objects f
    → IsObject (objects ++ t ∷ []) f
IsObject-snoc objects t f o = record {
  index = o.index;
  text = o.text;
  is_object = o.is_object;
  has_text = nth_left objects (t ∷ []) o.index o.has_text;
}

module _ (H : Hashtab Entry) where
  -- The scan so far is sound.
  pub record ScannerInv (s : Scanner H.Table) : Type 0 where
    pub scan_inv : ScanInv H s.symbols
    pub prepared : IsPrepared H s.objects s.symbols.table

  -- The entries after a text.
  abbrev TextGains : Bytes → Scanner H.Table → State H.Table → Type 0
  TextGains text s st =
      (k : Bytes)
      → Gains (object (length s.objects)) (defines k (listing text).markers) (at H s.symbols k)
          (at H st k)

  IsPrepared-text :
      (s : Scanner H.Table) (text : Bytes) (st : State H.Table)
      → IsPrepared H s.objects s.symbols.table
      → TextScanned H (object (length s.objects)) (listing text).markers s.symbols st
      → (listing text).ending ≡ ended none
      → IsPrepared H (s.objects ++ text ∷ []) st.table
  unfolding IsObject-snoc
  IsPrepared-text s text st p r e = record {
    texts = λ i t n. elim (nth_snoc s.objects text i n) [
      | inl old ↦
          let (end, covered) = p.texts i t old in
          (end, IsCovered-keeps H _ _ _ (λ k. still_some _ _ _ _ (r.gains k)) covered)
      | inr new ↦
          subst
            (λ x.
              ((listing x).ending ≡ ended none) × All (IsCovered H st.table) (listing x).markers)
            new (e, r.covered)
    ];
    sourced = λ k f d out. elim (r.gains k).file [
      | inl same ↦
          let (o, c) = p.sourced k f (sym same ∙ d) (sym (r.gains k).others.1 ∙ out) in
          (IsObject-snoc s.objects text f o, c)
      | inr (n, found, is) ↦ (
        record {
          index = length s.objects;
          text = text;
          is_object = some_injective (sym d ∙ found);
          has_text = nth_last s.objects text;
        },
        inr is,
      )
    ];
  }

  -- A text scanned: the invariant, and what stays.
  pub record TextAdded (text : Bytes) (s s' : Scanner H.Table) : Type 0 where
    pub inv : ScannerInv s'
    pub objects : s'.objects ≡ s.objects ++ text ∷ []
    pub libraries : s'.libraries ≡ s.libraries
    pub gains : TextGains text s s'.symbols

  -- The scan of a text fails at a truncated marker line, or on a NUL.
  abbrev pub IsBadText : Bytes → Error → Type 0
  IsBadText text x = IsTruncated H text x ⊎ ((x ≡ assertion) × (is_some (after_nul text) ≡ true))

  pub scan_text-TextAdded :
      (text : Bytes) (s : Scanner H.Table)
      → ScannerInv s
      → IsPlain (listing text).markers
      → Ensures (TextAdded text s) (IsBadText text) (scan_text H text s)
  unfolding scan_text
  scan_text-TextAdded text s v p =
      Ensures-bind
        (Ensures-weaken (λ r i. i) (λ x e. inl e)
          (process_refs_defs-IsScan H (object (length s.objects)) text s.symbols v.scan_inv p))
        (λ (st, rest) (r, end, stop). by_end rest st r end stop)
    where
      by_end :
          (rest : Option Bytes) (st : State H.Table)
          → TextScanned H (object (length s.objects)) (listing text).markers s.symbols st
          → rest ≡ after_nul text
          → (listing text).ending ≡ ended rest
          → Ensures (TextAdded text s) (IsBadText text) (
              assert (not (is_some rest))
              >> ok (record s { symbols = st; objects = s.objects ++ text ∷ [] }))
      by_end none st r end stop = good (record {
        inv = record { scan_inv = r.inv; prepared = IsPrepared-text s text st v.prepared r stop };
        objects = refl;
        libraries = refl;
        gains = r.gains;
      })
      by_end (some x) st r end stop = bad (inr (refl, sym (ap is_some end)))
