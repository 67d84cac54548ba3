-- ===== src/Tests/Members.antt =====
-- A run of the linker of nvptx-ld.cc over a program and an archive, whose member has both functions that
-- the program calls.
use nvptx_tools.Base.{
  ◌≡◌, ◌≤◌, refl, Bool, true, false, Option, some, List, [], ◌∷◌, ◌++◌, All, Bytes, codes, equal,
  starts_with, split_line,
}
use nvptx_tools.Hashtab.{Hashtab}
use nvptx_tools.Hashtab.Assoc.{assoc_table, lookup, insert}
use nvptx_tools.Result.{Result, ok, err}
use nvptx_tools.Result.Ensures.{Ensures}
use nvptx_tools.Ld.Symbol.{
  Entry, FileRef, object, define_intrinsics, symbol_hash_lookup, contains, erase, is_starred,
  entry_of,
}
use nvptx_tools.Ld.Archive.{init, read_members}
use nvptx_tools.Ld.Marker.{round}
use nvptx_tools.Ld.Process.Listing.{listing}
use nvptx_tools.Ld.Resolve.{Linker, resolve, has_file, file_data, nth}
use nvptx_tools.Ld.Resolve.Files.{IsOnce}
use nvptx_tools.Ld.Resolve.Invariant.{strong_total}
use nvptx_tools.Ld.Resolve.Linking.{written}
use nvptx_tools.Ld.Resolve.Loop.{Fails}
use nvptx_tools.Ld.Scan.{Scanner, armag}
use nvptx_tools.Ld.Scan.Run.{IsPlainFile, start}
use nvptx_tools.Ld.Scan.Intrinsics.{scanner_of}
use nvptx_tools.Ld.Main.{scan_all}
use nvptx_tools.Ld.Main.Libraries.{IsPlainLibrary}
use nvptx_tools.Ld.Correct.{
  IsLinked, resolve-IsOnce, resolve_total, resolve_complete, strong_total-le,
}

abbrev h : Hashtab Entry
h = assoc_table Entry

abbrev Table : Type 0
Table = List (Bytes × Entry)

abbrev program : Bytes
program =
    codes "\n// BEGIN GLOBAL FUNCTION DECL: f\n\n// BEGIN GLOBAL FUNCTION DECL: g\n"
    ++ codes "\n// BEGIN GLOBAL FUNCTION DEF: main\n"

abbrev member : Bytes
member = codes "\n// BEGIN GLOBAL FUNCTION DEF: f\n\n// BEGIN GLOBAL FUNCTION DEF: g\n"

abbrev library : Bytes
library = armag ++ codes "l.o/            0           0     0     644     66        `\n" ++ member

abbrev choose : Bool → Option Bytes
choose true = some program
choose false = some library

abbrev contents : Bytes → Option Bytes
contents name = choose (equal name (codes "a"))

abbrev inputfiles : List Bytes
inputfiles = codes "a" ∷ []

abbrev libraries : List Bytes
libraries = codes "/lib/l.a" ∷ []

plain_file : (b : Bool) → IsPlainFile h (choose b)
unfolding listing round is_starred starts_with split_line
plain_file true = (refl, (refl, (refl, tt)))
plain_file false = (refl, (refl, tt))

plain : (name : Bytes) → IsPlainFile h (contents name)
plain name = plain_file (equal name (codes "a"))

plain_either : (b : Bool) → IsPlainLibrary h (choose b)
unfolding init read_members listing round is_starred starts_with split_line
plain_either true = tt
plain_either false = ((refl, (refl, tt)), tt)

plain_library : (name : Bytes) → IsPlainLibrary h (contents name)
plain_library name = plain_either (equal name (codes "a"))

abbrev or_else : {A : Type 0} → A → Result A → A
or_else d (ok a) = a
or_else d (err e) = d

abbrev is_ok : {A : Type 0} → Result A → Bool
is_ok (ok a) = true
is_ok (err e) = false

is_ok-or_else : {A : Type 0} → (d : A) (r : Result A) → is_ok r ≡ true → r ≡ ok (or_else d r)
is_ok-or_else d (ok a) h = refl
is_ok-or_else d (err e) h = absurd (cc h)

abbrev t : Table
t = or_else [] (define_intrinsics h [])

defined : define_intrinsics h [] ≡ ok t
unfolding define_intrinsics lookup insert equal
defined = refl

abbrev initial : Scanner Table
initial = record (scanner_of h t) { libraries = libraries }

abbrev s : Scanner Table
s = or_else initial (scan_all h contents inputfiles initial)

scanned : scan_all h contents inputfiles initial ≡ ok s
unfolding scan_all define_intrinsics lookup insert equal starts_with symbol_hash_lookup
scanned = is_ok-or_else initial (scan_all h contents inputfiles initial) refl

abbrev writes : FileRef → Bool
writes f = true

abbrev s' : Linker Table
s' = or_else (start h s) (resolve h s.objects [] writes (start h s))

resolved : resolve h s.objects [] writes (start h s) ≡ ok s'
unfolding resolve scan_all define_intrinsics lookup insert equal starts_with symbol_hash_lookup
    erase contains is_starred file_data has_file
resolved = is_ok-or_else (start h s) (resolve h s.objects [] writes (start h s)) refl

-- The member is linked once, for both functions.
both_files : s'.linked ≡ object 1 ∷ object 0 ∷ []
unfolding resolve scan_all define_intrinsics lookup insert equal starts_with symbol_hash_lookup
    erase contains is_starred file_data has_file
both_files = refl

resolve-IsOnce_example : IsOnce s'.linked × (s'.outfile ≡ written s.objects s'.linked)
resolve-IsOnce_example =
    resolve-IsOnce h contents plain t defined plain_library inputfiles libraries s scanned [] writes
      s' resolved

resolve_total_example :
    Ensures
      (λ r. r.symbols.unresolved ≡ [])
      (Fails h s.objects [] writes (start h s))
      (resolve h s.objects [] writes (start h s))
resolve_total_example =
    resolve_total h contents plain t defined plain_library inputfiles libraries s scanned [] writes

a_linked : has_file s'.linked (object 0) ≡ true
unfolding resolve scan_all define_intrinsics lookup insert equal starts_with symbol_hash_lookup
    erase contains is_starred file_data has_file
a_linked = refl

a_scanned : nth s.objects 0 ≡ some program
unfolding scan_all define_intrinsics lookup insert equal starts_with symbol_hash_lookup
a_scanned = refl

resolve_complete_example :
    All
      (λ m. IsLinked s.objects m.kind m.name (entry_of h s'.symbols.table m.name))
      (listing program).markers
resolve_complete_example =
    resolve_complete h contents plain t defined plain_library inputfiles libraries s scanned []
      writes s' resolved 0 program a_scanned a_linked

strong_total-le_example : strong_total s.objects (codes "f") s'.linked ≤ 1
strong_total-le_example =
    strong_total-le h contents plain t defined plain_library inputfiles libraries s scanned []
      writes s' resolved (codes "f")
