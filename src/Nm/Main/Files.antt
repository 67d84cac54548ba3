-- ===== src/Nm/Main/Files.antt =====
-- What nvptx-nm.cc shows of a file, and of the files before one that fails.
use nvptx_tools.Base.{
  ◌≡◌, refl, ap, sym, subst, ◌∙◌, Bool, true, false, Option, none, some, List, [], ◌∷◌, ◌++◌, Bytes,
  All, equal, if◌then◌else◌, inl, inr, Bool-cases,
}
use nvptx_tools.Hashtab.{Hashtab}
use nvptx_tools.Hashtab.Assoc.{lookup}
use nvptx_tools.Hashtab.Traversal.{Traversal}
use nvptx_tools.Libc.{ℤ}
use nvptx_tools.Result.{Error, Result, ok, err}
use nvptx_tools.Result.Ensures.{Ensures, good, bad, Ensures-bind, Ensures-weaken}
use nvptx_tools.Nm.Symbol.{Entry}
use nvptx_tools.Nm.Process.Ends.{IsScanError}
use nvptx_tools.Nm.Process.Parts.{parts, markers_of, FileScanned, scan_file-FileScanned}
use nvptx_tools.Nm.Process.Named.{HasName, IsNamedTable, scan_file-AllNamed}
use nvptx_tools.Nm.Display.{
  is_undefined_symbol, Symbol, Settings, print_symbols, print_symbol, into_array, sort_symbols,
  display_rel_file,
}
use nvptx_tools.Nm.Display.Collation.{Collation, IsNamed}
use nvptx_tools.Nm.Display.Order.{IsArranged, qsort-IsArranged}
use nvptx_tools.Nm.Main.{
  print_width, print_object_filename_bsd, Run, show_tables, show_text, show_files,
}

lookup-IsNamed : (l : List Symbol) → lookup l [] ≡ none → All IsNamed l
unfolding lookup equal
lookup-IsNamed [] h = tt
lookup-IsNamed (([], e) ∷ l) h = cc
lookup-IsNamed ((c ∷ cs, e) ∷ l) h = (refl, lookup-IsNamed l h)

All-append {ℓ} :
    {A : Type ℓ} (P : A → Type 0) (xs ys : List A) → All P xs → All P ys → All P (xs ++ ys)
All-append P [] ys h g = g
All-append P (x ∷ xs) ys h g = (h.0, All-append P xs ys h.1 g)

-- Of the symbols shown: they are those of the tables, and sorted, unless the options say not to.
pub record IsShown (c : Collation) (settings : Settings) (array : List Symbol) (out : Bytes)
    : Type 0 where
  pub syms : List Symbol
  pub printed : print_symbols print_width syms ≡ ok out
  pub arranged :
      if settings.no_sort
      then (syms ≡ array)
      else IsArranged c settings.sort_numerically settings.reverse_sort array syms

print_symbol-ok : (x : Symbol) → (out : Bytes) × (print_symbol print_width x ≡ ok out)
unfolding print_symbol
print_symbol-ok x = elim (Bool-cases (is_undefined_symbol x)) [
  | inl u ↦ rw u (_, refl)
  | inr u ↦ rw u (_, refl)
]

print_symbols-ok : (syms : List Symbol) → (out : Bytes) × (print_symbols print_width syms ≡ ok out)
unfolding print_symbols
print_symbols-ok [] = ([], refl)
print_symbols-ok (x ∷ xs) =
    let (line, e) = print_symbol-ok x in
    let (rest, f) = print_symbols-ok xs in
    let same : print_symbols print_width (x ∷ xs) ≡ ok (line ++ rest) = rw e (rw f refl) in
    (line ++ rest, same)

print_sorted :
    (c : Collation) (settings : Settings) (array syms : List Symbol)
    → (if settings.no_sort
        then (syms ≡ array)
        else IsArranged c settings.sort_numerically settings.reverse_sort array syms)
    → Ensures (IsShown c settings array) (λ _. ⊥) (print_symbols print_width syms)
print_sorted c settings array syms h =
    let (out, e) = print_symbols-ok syms in
    subst (Ensures (IsShown c settings array) (λ _. ⊥)) (sym e)
      (good (record { syms = syms; printed = e; arranged = h }))

module _ (H : Hashtab Entry) (traversal : Traversal H) (c : Collation) where
  into_array-IsNamed :
      (ts : List H.Table) → All (IsNamedTable H) ts → All IsNamed (into_array H traversal ts)
  unfolding into_array
  into_array-IsNamed [] h = tt
  into_array-IsNamed (t ∷ ts) h =
      All-append IsNamed (traversal.entries t) (into_array H traversal ts)
        (lookup-IsNamed (traversal.entries t) (traversal.lookup-entries t [] ∙ h.0))
        (into_array-IsNamed ts h.1)

  sort_symbols-IsArranged :
      (no_sort : Bool) (settings : Settings) (array : List Symbol)
      → settings.no_sort ≡ no_sort
      → All IsNamed array
      → Ensures
          (λ syms.
            if settings.no_sort
            then (syms ≡ array)
            else IsArranged c settings.sort_numerically settings.reverse_sort array syms)
          (λ _. ⊥)
          (sort_symbols c.strcoll settings array)
  unfolding sort_symbols
  sort_symbols-IsArranged true settings array e h = rw e (good refl)
  sort_symbols-IsArranged false settings array e h =
      rw e (qsort-IsArranged c settings.sort_numerically settings.reverse_sort array h)

  display_rel_file-IsShown :
      (settings : Settings) (ts : List H.Table)
      → All (IsNamedTable H) ts
      → Ensures
          (IsShown c settings (into_array H traversal ts))
          (λ _. ⊥)
          (display_rel_file H traversal c.strcoll settings print_width ts)
  unfolding display_rel_file
  display_rel_file-IsShown settings ts h =
      Ensures-bind
        (sort_symbols-IsArranged settings.no_sort settings (into_array H traversal ts) refl
          (into_array-IsNamed ts h))
        (print_sorted c settings (into_array H traversal ts))

  -- A file shown: it is scanned into tables, its name stands in front if there are several files, and
  -- the symbols of the tables are printed in their order.
  pub record FileShown (settings : Settings) (several : Bool) (name buf out : Bytes) : Type 0 where
    pub tables : H.Table × List H.Table
    pub scanned : FileScanned H (parts buf) H.empty [] tables
    pub lines : Bytes
    pub shown : IsShown c settings (into_array H traversal (tables.0 ∷ tables.1)) lines
    pub output : out ≡ print_object_filename_bsd several name ++ lines

  both {ℓ} :
      {A : Type ℓ} {P Q : A → Type 0} {E F : Error → Type 0} {r : Result A}
      → Ensures P E r
      → Ensures Q F r
      → Ensures (λ a. P a × Q a) F r
  both (good p) (good q) = good (p, q)
  both p (bad e) = bad e

  -- A file whose markers have names that are not empty is shown in the order that the options ask
  -- for: its symbols with their types, each as often as the tables have it, under the name of the
  -- file if there are several; or the scan of the file fails. The sort fails no assertion.
  pub show_text-FileShown :
      (settings : Settings) (several : Bool) (name buf : Bytes)
      → All HasName (markers_of (parts buf))
      → Ensures
          (FileShown settings several name buf)
          IsScanError
          (show_text H traversal c.strcoll settings several name (some buf))
  unfolding show_text show_tables
  show_text-FileShown settings several name buf h =
      Ensures-bind (both (scan_file-AllNamed H buf h) (scan_file-FileScanned H buf))
        (λ tables (named, scanned).
          Ensures-bind
            (Ensures-weaken (λ a p. p) (λ e p. absurd p)
              (display_rel_file-IsShown settings (tables.0 ∷ tables.1) named))
            (λ lines shown. good (record {
              tables = tables;
              scanned = scanned;
              lines = lines;
              shown = shown;
              output = refl;
            })))

module _ (H : Hashtab Entry) (traversal : Traversal H) (strcoll : Bytes → Bytes → ℤ)
    (contents : Bytes → Option Bytes) (settings : Settings) (several : Bool) where
  abbrev show : Bytes → Result Bytes
  show name = show_text H traversal strcoll settings several name (contents name)

  -- The files that are shown one behind the other, and what is printed of them.
  abbrev AreShown : List Bytes → Bytes → Type 0
  AreShown [] out = out ≡ []
  AreShown (name ∷ names) out =
      (first : Bytes) × (rest : Bytes) × (show name ≡ ok first)
      × AreShown names rest
      × (out ≡ first ++ rest)

  abbrev FailsAt : List Bytes → Option Error → Type 0
  FailsAt [] failure = failure ≡ none
  FailsAt (name ∷ names) failure = (x : Error) × (show name ≡ err x) × (failure ≡ some x)

  -- How the loop ends: at the end of the names, or at the first file that fails.
  pub record IsStopped (names : List Bytes) (r : Run) : Type 0 where
    pub shown : List Bytes
    pub left : List Bytes
    pub parted : names ≡ shown ++ left
    pub output : AreShown shown r.output
    pub failure : FailsAt left r.failure

  -- The loop over the files shows them in their order up to the first that fails, whose error is that
  -- of the run; what is printed of the files before it is kept, and nothing of it or behind it is
  -- printed. If no file fails, all are shown.
  pub show_files-IsStopped :
      (names : List Bytes)
      → IsStopped names (show_files H traversal strcoll contents settings several names)
  unfolding show_files
  show_files-IsStopped [] = record {
    shown = [];
    left = [];
    parted = refl;
    output = refl;
    failure = refl;
  }
  show_files-IsStopped (name ∷ names) =
      stop (show name) refl (show_files H traversal strcoll contents settings several names)
        (show_files-IsStopped names)
    where
      stop :
          (m : Result Bytes)
          → show name ≡ m
          → (rest : Run) → IsStopped names rest
          → IsStopped (name ∷ names) (elim m [
            | ok out ↦ record rest { output = out ++ rest.output }
            | err failure ↦ record { output = []; failure = some failure }
          ])
      stop (ok out) e rest s = record {
        shown = name ∷ s.shown;
        left = s.left;
        parted = ap (◌∷◌ name) s.parted;
        output = (out, rest.output, e, s.output, refl);
        failure = s.failure;
      }
      stop (err x) e rest s = record {
        shown = [];
        left = name ∷ names;
        parted = refl;
        output = refl;
        failure = (x, e, refl);
      }
