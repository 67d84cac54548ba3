-- ===== src/Ld/Main/Libraries.antt =====
-- The scan of libraries, and of all that the linker reads.
use nvptx_tools.Base.{
  ℕ, zero, suc, ◌≡◌, ◌≢◌, refl, sym, subst, ◌⊎◌, inl, inr, Option, none, some, List, [], ◌∷◌, Bytes,
  All, length, Bool-cases,
}
use nvptx_tools.Hashtab.{Hashtab}
use nvptx_tools.Result.{
  Error, Result, Result-cases, ok, err, ◌>>=◌, open_error, bad_archive, out_of_fuel,
}
use nvptx_tools.Ld.Symbol.{Entry, define_intrinsics}
use nvptx_tools.Result.Ensures.{Ensures, good, bad, Ensures-ok, Ensures-bind, Ensures-weaken}
use nvptx_tools.Ld.Process.Listing.{listing}
use nvptx_tools.Ld.Archive.{
  Archive, Member, End, complete, broken, exhausted, init, at_end, next_file, read_next, read_loop,
  read_members,
}
use nvptx_tools.Ld.Archive.Bounds.{init-IsInside, read_members_ends}
use nvptx_tools.Ld.Scan.{Scanner, scan_text, scan_members}
use nvptx_tools.Ld.Scan.Text.{IsPlain}
use nvptx_tools.Ld.Scan.Sound.{ScannerInv, IsBadText}
use nvptx_tools.Ld.Scan.Run.{
  IsPlainFile, IsScanError, scan_inputs-ScannerInv, scan_members-ScannerInv,
}
use nvptx_tools.Ld.Scan.Intrinsics.{scanner_of, define_intrinsics-Grown}
use nvptx_tools.Ld.Main.{
  scan_next, scan_archive, scan_opened, scan_library, scan_libraries, scan_all, sort, unique,
}

abbrev pub texts_of : List Member → List Bytes
texts_of [] = []
texts_of (m ∷ ms) = m.contents ∷ texts_of ms

-- What the end of an archive comes to.
abbrev pub close {ℓ} : {A : Type ℓ} → Bytes → End → A → Result A
close name complete s = ok s
close name broken s = err (bad_archive name)
close name exhausted s = err out_of_fuel

module _ (H : Hashtab Entry) where
  abbrev pub scan_read : Bytes → List Member × End → Scanner H.Table → Result (Scanner H.Table)
  scan_read name (ms, end) s = scan_members H (texts_of ms) s >>= close name end

  scan_next-read :
      (again : Archive → Scanner H.Table → Result (Scanner H.Table)) (name : Bytes)
      (listed : Archive → List Member × End)
      → ((ar : Archive) (s : Scanner H.Table) → again ar s ≡ scan_read name (listed ar) s)
      → (next : Option (Archive × Member)) (s : Scanner H.Table)
      → scan_next H again name next s ≡ scan_read name (read_next listed next) s
  unfolding scan_next read_next scan_members
  scan_next-read again name listed h none s = refl
  scan_next-read again name listed h (some (ar, m)) s =
      elim (Result-cases (scan_text H m.contents s)) [
        | inl (s', e) ↦ rw e (h ar s')
        | inr (x, e) ↦ rw e
      ]

  scan_loop-read :
      (fuel : ℕ) (name : Bytes) (ar : Archive) (s : Scanner H.Table)
      → scan_archive H fuel name ar s ≡ scan_read name (read_loop fuel ar) s
  unfolding scan_archive read_loop
  scan_loop-read zero name ar s = unfold scan_members in refl
  scan_loop-read (suc fuel) name ar s = elim (Bool-cases (at_end ar)) [
    | inl done ↦ rw done (unfold scan_members in refl)
    | inr more ↦ rw more (
        scan_next-read (scan_archive H fuel name) name (read_loop fuel) (scan_loop-read fuel name)
          (next_file ar) s)
  ]

  -- The loop over the members of an archive, which scans each member as it reads it, comes to the
  -- same as reading all members, scanning their texts, and then failing if a member was bad.
  scan_archive-read :
      (name : Bytes) (ar : Archive) (s : Scanner H.Table)
      → scan_archive H (suc (length ar.text)) name ar s ≡ scan_read name (read_members ar) s
  unfolding read_members
  scan_archive-read name ar s = scan_loop-read (suc (length ar.text)) name ar s

  -- The archives that can be opened have members with plain markers.
  abbrev pub IsPlainArchive : Option Archive → Type 0
  IsPlainArchive none = Unit
  IsPlainArchive (some ar) =
      All (λ text. IsPlain (listing text).markers) (texts_of (read_members ar).0)

  abbrev pub IsPlainLibrary : Option Bytes → Type 0
  IsPlainLibrary none = Unit
  IsPlainLibrary (some text) = IsPlainArchive (init text)

  -- The failures at a library: it does not open, is no archive or a broken one, or has a bad text.
  abbrev pub IsLibraryError : Error → Type 0
  IsLibraryError x =
      (name : Bytes) × ((x ≡ open_error name)
        ⊎ (x ≡ bad_archive name)
        ⊎ ((text : Bytes) × IsBadText H text x))

  close-Ensures :
      (name : Bytes) (end : End) (s : Scanner H.Table)
      → end ≢ exhausted
      → ScannerInv H s
      → Ensures (ScannerInv H) IsLibraryError (close name end s)
  close-Ensures name complete s n v = good v
  close-Ensures name broken s n v = bad (name, inr (inl refl))
  close-Ensures name exhausted s n v = absurd (n refl)

  scan_opened-Ensures :
      (name text : Bytes) (opened : Option Archive) (s : Scanner H.Table)
      → init text ≡ opened
      → IsPlainArchive opened
      → ScannerInv H s
      → Ensures (ScannerInv H) IsLibraryError (scan_opened H name opened s)
  unfolding scan_opened
  scan_opened-Ensures name text none s e p v = bad (name, inr (inl refl))
  scan_opened-Ensures name text (some ar) s e p v =
      subst (Ensures (ScannerInv H) IsLibraryError) (sym (scan_archive-read name ar s)) (
        Ensures-bind
          (Ensures-weaken (λ s' w. w) (λ x (t, b). (name, inr (inr (t, b))))
            (scan_members-ScannerInv H (texts_of (read_members ar).0) s p v))
          (λ s' w.
            close-Ensures name (read_members ar).1 s'
              (read_members_ends ar (init-IsInside text ar e)) w))

  scan_library-Ensures :
      (name : Bytes) (content : Option Bytes) (s : Scanner H.Table)
      → IsPlainLibrary content
      → ScannerInv H s
      → Ensures (ScannerInv H) IsLibraryError (scan_library H name content s)
  unfolding scan_library
  scan_library-Ensures name none s p v = bad (name, inl refl)
  scan_library-Ensures name (some text) s p v = scan_opened-Ensures name text (init text) s refl p v

  scan_libraries-Ensures :
      (contents : Bytes → Option Bytes) (names : List Bytes) (s : Scanner H.Table)
      → ((name : Bytes) → IsPlainLibrary (contents name))
      → ScannerInv H s
      → Ensures (ScannerInv H) IsLibraryError (scan_libraries H contents names s)
  unfolding scan_libraries
  scan_libraries-Ensures contents [] s p v = good v
  scan_libraries-Ensures contents (name ∷ names) s p v =
      Ensures-bind (scan_library-Ensures name (contents name) s (p name) v)
        (λ s' w. scan_libraries-Ensures contents names s' p w)

  -- The scan of input files and libraries whose markers name no special symbol, from the table of
  -- `define_intrinsics` and any list of libraries, leaves a sound state, or fails at a file that
  -- does not open, at a library that is no archive or a broken one, or at a bad text.
  pub scan_all-ScannerInv :
      (contents : Bytes → Option Bytes) (inputfiles libraries : List Bytes) (t : H.Table)
      → ((name : Bytes) → IsPlainFile H (contents name))
      → ((name : Bytes) → IsPlainLibrary (contents name))
      → define_intrinsics H H.empty ≡ ok t
      → Ensures
          (ScannerInv H)
          (λ x. IsScanError H contents x ⊎ IsLibraryError x)
          (scan_all H contents inputfiles (record (scanner_of H t) { libraries = libraries }))
  unfolding scan_all
  scan_all-ScannerInv contents inputfiles libraries t p q defined =
      let g = Ensures-ok (define_intrinsics-Grown H) defined in
      Ensures-bind
        (Ensures-weaken (λ s w. w) (λ x e. inl e)
          (scan_inputs-ScannerInv H contents 0 inputfiles
            (record (scanner_of H t) { libraries = libraries }) p
            (record {
              inv = record { scan_inv = g.inv.scan_inv; prepared = g.inv.prepared };
              unused = g.unused;
            })))
        (λ s w.
          Ensures-weaken (λ s' v. v) (λ x e. inr e)
            (scan_libraries-Ensures contents (unique (sort s.libraries)) s q w))
