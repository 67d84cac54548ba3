-- ===== src/Ld/Correct.antt =====
-- What the linker promises of a run over input files and libraries: `define_intrinsics`, the scan, and
-- the resolve loop.
use nvptx_tools.Base.{
  and_true, or_right, true-false, ℕ, ◌≤◌, ◌≡◌, refl, ap, sym, ◌∙◌, Bool, true, false, ◌⊎◌, Option,
  some, List, [], ◌∷◌, arith, Bytes, inl, inr, All, Bool-cases, subst, ◌&&◌, equal, equal_iff,
}
use mathlib.Core.List.{append-nil}
use nvptx_tools.Hashtab.{Hashtab}
use nvptx_tools.Result.{ok, is_some}
use nvptx_tools.Ld.Symbol.{Entry, FileRef, object, entry_of, contains, define_intrinsics}
use nvptx_tools.Result.Ensures.{Ensures, Ensures-ok, Ensures-weaken}
use nvptx_tools.Ld.Symbol.Valid.{IsConsistent}
use nvptx_tools.Ld.Marker.{Marker, Kind, def, decl}
use nvptx_tools.Ld.Process.Listing.{listing}
use nvptx_tools.Ld.Process.File.{strong_seen, is_def, AllHandled, Handled, IsCovered}
use nvptx_tools.Ld.Resolve.{Linker, resolve, has_file, nth}
use nvptx_tools.Ld.Resolve.Files.{IsOnce}
use nvptx_tools.Ld.Resolve.Invariant.{strong_total, defines, IsPrepared}
use nvptx_tools.Ld.Resolve.Linking.{written}
use nvptx_tools.Ld.Resolve.Loop.{Fails, Resolved, resolve-Resolved}
use nvptx_tools.Ld.Scan.{Scanner, scan_inputs}
use nvptx_tools.Ld.Scan.Sound.{ScannerInv}
use nvptx_tools.Ld.Main.{scan_all}
use nvptx_tools.Ld.Main.Libraries.{IsPlainLibrary, scan_all-ScannerInv}
use nvptx_tools.Ld.Scan.Run.{IsPlainFile, IsScanError, start, scan_inputs-ScannerInv, start-Inv}
use nvptx_tools.Ld.Scan.Intrinsics.{scanner_of, define_intrinsics-Grown}

-- No object file holds a DEF of the symbol.
abbrev pub IsUndefined : List Bytes → Bytes → Type 0
IsUndefined objects k =
    (i : ℕ) (text : Bytes) → nth objects i ≡ some text → defines k (listing text).markers ≡ false

-- What a marker of a linked file comes to.
abbrev pub IsLinked : List Bytes → Kind → Bytes → Entry → Type 0
IsLinked objects def k e = e.included ≡ true
IsLinked objects decl k e = (e.included ≡ true) ⊎ IsUndefined objects k

nothing : (k : Bytes) → contains [] k ≡ false
unfolding contains
nothing k = refl

seen-le : (e : Entry) → strong_seen e ≤ 1
seen-le e = ground arith

module _ (H : Hashtab Entry) where
  covered_defines :
      (t : H.Table) (k : Bytes) (ms : List Marker)
      → All (IsCovered H t) ms
      → defines k ms ≡ true
      → is_some (entry_of H t k).def ≡ true
  covered_defines t k [] c d = cc
  covered_defines t k (m ∷ ms) c d = elim (Bool-cases (is_def m.kind && equal m.name k)) [
    | inl here ↦
        subst (λ j. is_some (entry_of H t j).def ≡ true) ((equal_iff m.name k).0 (and_true here).1)
          (c.0.1 (kind_is (and_true here).0))
    | inr later ↦ covered_defines t k ms c.1 (or_right later d)
  ]
    where
      kind_is : {kind : Kind} → is_def kind ≡ true → kind ≡ def
      kind_is {kind} h = ground arith

  undefined :
      (objects : List Bytes) (t : H.Table) (k : Bytes)
      → IsPrepared H objects t
      → is_some (entry_of H t k).def ≡ false
      → IsUndefined objects k
  undefined objects t k p absent i text n = elim (Bool-cases (defines k (listing text).markers)) [
    | inl d ↦ absurd (true-false (covered_defines t k _ (p.texts i text n).1 d) absent)
    | inr d ↦ d
  ]

  settled :
      (objects : List Bytes) (t : H.Table) (k : Bytes) (kind : Kind)
      → IsPrepared H objects t
      → IsConsistent k (entry_of H t k)
      → (entry_of H t k).queued ≡ false
      → Handled kind (entry_of H t k)
      → IsLinked objects kind k (entry_of H t k)
  settled objects t k def p c q h = h
  settled objects t k decl p c q (inl in_) = inl in_
  settled objects t k decl p c q (inr ref) = elim (Bool-cases (entry_of H t k).included) [
    | inl in_ ↦ inl in_
    | inr out ↦ inr (undefined objects t k p (c.settled ref out q))
  ]

  all-IsLinked :
      (objects : List Bytes) (t : H.Table) (ms : List Marker)
      → IsPrepared H objects t
      → ((k : Bytes) → IsConsistent k (entry_of H t k) × ((entry_of H t k).queued ≡ false))
      → AllHandled H t ms
      → All (λ m. IsLinked objects m.kind m.name (entry_of H t m.name)) ms
  all-IsLinked objects t [] p c h = tt
  all-IsLinked objects t (m ∷ ms) p c h = (
    settled objects t m.name m.kind p (c m.name).0 (c m.name).1 h.0,
    all-IsLinked objects t ms p c h.1,
  )

module _ (H : Hashtab Entry) (contents : Bytes → Option Bytes)
    (plain : (name : Bytes) → IsPlainFile H (contents name)) (t : H.Table)
    (defined : define_intrinsics H H.empty ≡ ok t) where
  -- The scan of input files whose markers name no special symbol, after `define_intrinsics`, leaves
  -- a sound state, or fails at a file that does not open, at a truncated marker line, or, in an
  -- assertion, at a NUL inside a file.
  pub scan_inputs_total :
      (names : List Bytes)
      → Ensures
          (ScannerInv H)
          (IsScanError H contents)
          (scan_inputs H contents 0 names (scanner_of H t))
  scan_inputs_total names =
      scan_inputs-ScannerInv H contents 0 names (scanner_of H t) plain
        (Ensures-ok (define_intrinsics-Grown H) defined)

  -- Input files, archives among them, and libraries, all with markers that name no special symbol.
  module _ (plain_lib : (name : Bytes) → IsPlainLibrary H (contents name))
      (inputfiles libraries : List Bytes) (s : Scanner H.Table)
      (scanned : scan_all H contents inputfiles (record (scanner_of H t) { libraries = libraries })
        ≡ ok s)
      (ignored : List Bytes) (writes : FileRef → Bool) where
    run :
        Ensures
          (Resolved H s.objects ignored writes (start H s))
          (Fails H s.objects ignored writes (start H s))
          (resolve H s.objects ignored writes (start H s))
    run = resolve-Resolved H s.objects ignored writes (start H s) (
        start-Inv H s (
          Ensures-ok (scan_all-ScannerInv H contents inputfiles libraries t plain plain_lib defined)
            scanned))

    -- After a successful scan of input files and libraries whose markers name no special symbol, the resolve loop ends
    -- with an empty queue, or it fails at a symbol that has no file and is not ignored, at a second
    -- strong DEF, or at a failed write. It fails no assertion and never runs out of fuel.
    pub resolve_total :
        Ensures
          (λ s'. s'.symbols.unresolved ≡ [])
          (Fails H s.objects ignored writes (start H s))
          (resolve H s.objects ignored writes (start H s))
    resolve_total = Ensures-weaken (λ s' r. r.no_more) (λ x e. e) run

    module _ (s' : Linker H.Table)
        (resolved : resolve H s.objects ignored writes (start H s) ≡ ok s') where
      -- A run that succeeds, after a scan of input files and libraries whose markers name no special symbol,
      -- links no file and no member of an archive twice (an input that is named twice is two files), and the
      -- output file holds the texts of the linked files in the order of linking, a NUL behind each.
      pub resolve-IsOnce : IsOnce s'.linked × (s'.outfile ≡ written s.objects s'.linked)
      resolve-IsOnce =
          let r = Ensures-ok run resolved in
          let p = r.step.progress in
          (
            r.step.inv.once,
            p.output ∙ ap (written s.objects) (sym (append-nil p.new_files) ∙ sym p.linked),
          )

      -- In a run that succeeds, after such a scan, what a linked file or member defines is included, and what it
      -- declares is included or has no DEF in any scanned file or member.
      pub resolve_complete :
          (i : ℕ) (text : Bytes)
          → nth s.objects i ≡ some text
          → has_file s'.linked (object i) ≡ true
          → All
              (λ m. IsLinked s.objects m.kind m.name (entry_of H s'.symbols.table m.name))
              (listing text).markers
      resolve_complete i text n h =
          let r = Ensures-ok run resolved in
          let v = r.step.inv.valid in
          all-IsLinked H s.objects s'.symbols.table (listing text).markers r.step.inv.prepared
            (λ k. (v.entries k, sym (v.queue k) ∙ ap (λ q. contains q k) r.no_more ∙ nothing k))
            (r.step.inv.handled i text n h)

      -- A run that succeeds, after such a scan, has linked at most one strong DEF of each symbol.
      pub strong_total-le : (k : Bytes) → strong_total s.objects k s'.linked ≤ 1
      strong_total-le k = omega (
        arith,
        (Ensures-ok run resolved).step.inv.strong k,
        seen-le (entry_of H s'.symbols.table k),
      )
