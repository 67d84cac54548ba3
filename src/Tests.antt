-- ===== src/Tests.antt =====
-- Runs of the linker of nvptx-ld.cc on small inputs, over an association list as hash table.
mod Archive
mod Members
mod Nm
mod As
mod Parse
mod Main
mod Run
use nvptx_tools.Base.{
  ℕ, ◌≡◌, ◌≢◌, ◌≤◌, refl, Bool, true, false, Option, none, some, List, [], ◌∷◌, ◌++◌, All, Bytes,
  codes, equal, starts_with, split_line, after_nul,
}
use nvptx_tools.Hashtab.{Hashtab}
use nvptx_tools.Hashtab.Assoc.{assoc_table, lookup, insert}
use nvptx_tools.Result.{Result, ok, err, is_some, out_of_fuel, multiple_definitions}
use nvptx_tools.Ld.Symbol.{
  State, Entry, FileRef, object, define_intrinsics, symbol_hash_lookup, contains, erase, is_starred,
  entry_of,
}
use nvptx_tools.Result.Ensures.{Ensures, Ensures-ok}
use nvptx_tools.Ld.Marker.{Marker, def, round}
use nvptx_tools.Ld.Process.{process_refs_defs, process_marker, scan, link}
use nvptx_tools.Ld.Process.Link
use nvptx_tools.Ld.Process.Link.{Linked, Effect, link_marker-Linked}
use nvptx_tools.Ld.Process.Listing.{listing, replay_listing, process_refs_defs-replay}
use nvptx_tools.Ld.Process.Ends.{
  process_refs_defs-end, process_refs_defs_terminates, multiple_definitions_lem,
}
use nvptx_tools.Ld.Resolve.{Linker, resolve, has_file, file_data, nth}
use nvptx_tools.Ld.Resolve.Files.{IsOnce}
use nvptx_tools.Ld.Resolve.Invariant.{strong_total}
use nvptx_tools.Ld.Resolve.Linking.{written}
use nvptx_tools.Ld.Resolve.Loop.{Fails}
use nvptx_tools.Ld.Scan.{Scanner, scan_inputs, scan_members}
use nvptx_tools.Ld.Scan.Name.{sym_name_injective}
use nvptx_tools.Ld.Scan.Sound.{ScannerInv, IsBadText}
use nvptx_tools.Ld.Scan.Text.{IsPlain, IsScan, IsTruncated, process_refs_defs-IsScan}
use nvptx_tools.Ld.Scan.Run.{IsPlainFile, IsScanError, Grown, start, scan_members-ScannerInv}
use nvptx_tools.Ld.Scan.Intrinsics.{scanner_of, define_intrinsics-Grown}
use nvptx_tools.Libc.{pos, negsuc}
use nvptx_tools.Ld.Special.{
  Cdtor, clear, cdtor, parse_priority, sort_cdtors, ctor_list, dtor_list,
  handle_special_purpose_functions, resolve_and_link,
}
use nvptx_tools.Ld.Special.Sort.{IsDescending, count, sort_cdtors-IsDescending}
use nvptx_tools.Ld.Special.Table.{
  IsBadName, IsOutcome, handle_special_purpose_functions-ListsDefined,
}
use nvptx_tools.Ld.Correct.{scan_inputs_total}

abbrev h : Hashtab Entry
h = assoc_table Entry

abbrev Table : Type 0
Table = List (Bytes × Entry)

-- A program that calls `f`, and the file with `f`.
abbrev file_a : Bytes
file_a = codes "\n// BEGIN GLOBAL FUNCTION DECL: f\n\n// BEGIN GLOBAL FUNCTION DEF: main\n"

abbrev file_b : Bytes
file_b = codes "\n// BEGIN GLOBAL FUNCTION DEF: f\n"

abbrev choose : Bool → Bool → Option Bytes
choose true _ = some file_a
choose false true = some file_b
choose false false = none

abbrev contents : Bytes → Option Bytes
contents name = choose (equal name (codes "a")) (equal name (codes "b"))

abbrev names : List Bytes
names = codes "a" ∷ codes "b" ∷ []

choose-plain : (x y : Bool) → IsPlainFile h (choose x y)
unfolding listing round is_starred starts_with split_line
choose-plain true y = (refl, (refl, tt))
choose-plain false true = (refl, tt)
choose-plain false false = tt

plain : (name : Bytes) → IsPlainFile h (contents name)
plain name = choose-plain (equal name (codes "a")) (equal name (codes "b"))

abbrev or_else : {A : Type 0} → A → Result A → A
or_else d (ok a) = a
or_else d (err e) = d

abbrev t : Table
t = or_else [] (define_intrinsics h [])

defined : define_intrinsics h [] ≡ ok t
unfolding define_intrinsics lookup insert equal
defined = refl

abbrev s : Scanner Table
s = or_else (scanner_of h t) (scan_inputs h contents 0 names (scanner_of h t))

scanned : scan_inputs h contents 0 names (scanner_of h t) ≡ ok s
unfolding scan_inputs define_intrinsics lookup insert equal starts_with symbol_hash_lookup
scanned = refl

abbrev writes : FileRef → Bool
writes f = true

abbrev s' : Linker Table
s' = or_else (start h s) (resolve h s.objects [] writes (start h s))

resolved : resolve h s.objects [] writes (start h s) ≡ ok s'
unfolding resolve scan_inputs define_intrinsics lookup insert equal starts_with symbol_hash_lookup
    erase contains is_starred file_data has_file
resolved = refl

scan_inputs_total_example :
    Ensures
      (ScannerInv h)
      (IsScanError h contents)
      (scan_inputs h contents 0 names (scanner_of h t))
scan_inputs_total_example = scan_inputs_total h contents plain t defined names

with_intrinsics : Ensures (λ u. Grown h 0 (scanner_of h u)) (λ _. ⊥) (define_intrinsics h [])
with_intrinsics = define_intrinsics-Grown h

initial : Grown h 0 (scanner_of h t)
initial = Ensures-ok with_intrinsics defined

abbrev st : State Table
st = (scanner_of h t).symbols

-- A weak DEF of an intrinsic.
abbrev weak_malloc : Marker
weak_malloc = record { kind = def; name = codes "malloc"; weak = true }

malloc_has_file : is_some (entry_of h st.table (codes "malloc")).def ≡ true
unfolding define_intrinsics lookup insert equal
malloc_has_file = refl

malloc_plain : is_starred (codes "malloc") ≡ false
unfolding is_starred
malloc_plain = refl

link_marker-Linked_example :
    Ensures
      (λ st'.
        Linked h st st'
        × Effect h
            (object 0)
            weak_malloc
            (entry_of h st.table (codes "malloc"))
            (entry_of h st'.table (codes "malloc")))
      (Link.Fails weak_malloc (entry_of h st.table (codes "malloc")))
      (process_marker h link (object 0) weak_malloc st)
link_marker-Linked_example =
    link_marker-Linked h (object 0) weak_malloc st initial.inv.scan_inv.valid malloc_plain
      (λ _. malloc_has_file)

a-IsPlain : IsPlain (listing file_a).markers
a-IsPlain = choose-plain true true

process_refs_defs-IsScan_example :
    Ensures
      (IsScan h (object 0) file_a st)
      (IsTruncated h file_a)
      (process_refs_defs h scan (object 0) file_a st)
process_refs_defs-IsScan_example =
    process_refs_defs-IsScan h (object 0) file_a st initial.inv.scan_inv a-IsPlain

process_refs_defs_terminates_example :
    process_refs_defs h link (object 0) file_a st ≢ err out_of_fuel
process_refs_defs_terminates_example = process_refs_defs_terminates h link (object 0) file_a st

-- A text with a NUL inside.
abbrev two_parts : Bytes
two_parts = codes "ab" ++ (0 ∷ codes "c")

two_parts_processed : process_refs_defs h scan (object 0) two_parts st ≡ ok (st, some (codes "c"))
unfolding process_refs_defs starts_with
two_parts_processed = refl

multiple_definitions_of_malloc :
    process_marker h link (object 0) (record { kind = def; name = codes "malloc"; weak = false }) st
    ≡ err (multiple_definitions (codes "malloc"))
unfolding define_intrinsics lookup insert equal process_marker is_starred
multiple_definitions_of_malloc = refl

-- The output holds the program before the file that it calls.
two_files : s'.linked ≡ object 1 ∷ object 0 ∷ []
unfolding resolve scan_inputs define_intrinsics lookup insert equal starts_with symbol_hash_lookup
    erase contains is_starred file_data has_file
two_files = refl

abbrev ctor_names : List Bytes
ctor_names =
    codes "_GLOBAL__I_00500_0_a" ∷ codes "_GLOBAL__D_00100_0_b" ∷ codes "_GLOBAL__I_65535_0_c" ∷ []

abbrev two_ctors : List Cdtor
two_ctors = cdtor (codes "_GLOBAL__I_00500_0_a") 0 ∷ cdtor (codes "_GLOBAL__I_65535_0_c") 1 ∷ []

priority_500 : parse_priority (codes "_GLOBAL__I_00500_0_c1") ≡ pos 500
unfolding parse_priority
priority_500 = refl

priority_missing : parse_priority (codes "_GLOBAL__I_0500_0_c1") ≡ negsuc 0
unfolding parse_priority
priority_missing = refl

-- The higher priority stands first.
last_first :
    sort_cdtors two_ctors
    ≡ cdtor (codes "_GLOBAL__I_65535_0_c") 1 ∷ cdtor (codes "_GLOBAL__I_00500_0_a") 0 ∷ []
unfolding sort_cdtors cdtor
last_first = refl

sort_cdtors-IsDescending_example :
    IsDescending (sort_cdtors two_ctors)
    × ((p : Cdtor → Bool) → count p (sort_cdtors two_ctors) ≡ count p two_ctors)
sort_cdtors-IsDescending_example = sort_cdtors-IsDescending two_ctors

no_ctor_list : (entry_of h t ctor_list).included ≡ false
unfolding define_intrinsics lookup insert equal
no_ctor_list = refl

no_dtor_list : (entry_of h t dtor_list).included ≡ false
unfolding define_intrinsics lookup insert equal
no_dtor_list = refl

handle_special_purpose_functions-ListsDefined_example :
    Ensures
      (IsOutcome h ctor_names t)
      (IsBadName ctor_names)
      (handle_special_purpose_functions h ctor_names t)
handle_special_purpose_functions-ListsDefined_example =
    handle_special_purpose_functions-ListsDefined h ctor_names t no_ctor_list no_dtor_list

-- Without `__trigger_gbl_ctors` the first resolve run is the last.
one_run : resolve_and_link h s.objects [] writes (start h s) ≡ ok (clear h s')
unfolding resolve_and_link resolve scan_inputs define_intrinsics lookup insert equal starts_with
    symbol_hash_lookup erase contains is_starred file_data has_file
one_run = refl
