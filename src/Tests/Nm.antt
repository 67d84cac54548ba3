-- ===== src/Tests/Nm.antt =====
-- Runs of nvptx-nm.cc on small inputs, over an association list as hash table and the order of
-- `strcmp` as that of the locale.
use nvptx_tools.Base.{
  ◌≡◌, refl, true, false, Option, none, some, List, [], ◌∷◌, ◌++◌, Bytes, codes, equal, starts_with,
  split_line, after_nul, has_byte, inr, ltb, arith, if◌then◌else◌,
}
use nvptx_tools.Hashtab.{Hashtab}
use nvptx_tools.Hashtab.Assoc.{assoc_table, lookup, insert}
use nvptx_tools.Hashtab.Traversal.{assoc_traversal}
use nvptx_tools.Libc.{ℤ, pos, negsuc}
use nvptx_tools.Result.{ok}
use nvptx_tools.Result.Ensures.{Ensures}
use nvptx_tools.Nm.Symbol.{SymbolType, Entry, var, weak_var, undefined, function}
use nvptx_tools.Nm.Symbol.Merge.{merge_all, IsTop, Clash, merge_all-IsTop}
use nvptx_tools.Nm.Marker.{round}
use nvptx_tools.Ld.Marker.{round as linker_round}
use nvptx_tools.Nm.Agreement.{for_linker, round_agree}
use nvptx_tools.Nm.Process.{Tables, process_refs_defs, scan_file}
use nvptx_tools.Nm.Process.Fold.{listing}
use nvptx_tools.Nm.Process.Ends.{PartScanned, IsScanError, process_refs_defs-PartScanned}
use nvptx_tools.Nm.Process.Parts.{FileScanned, parts, scan_file-FileScanned}
use nvptx_tools.Nm.Display.{Symbol, is_positive, opposite, sorters, qsort, print_symbols}
use nvptx_tools.Nm.Display.Collation.{Collation}
use nvptx_tools.Nm.Display.Order.{IsArranged, qsort-IsArranged}
use nvptx_tools.Nm.Display.Line.{read_symbols, read_symbols-print_symbols}
use nvptx_tools.Nm.Main.{initial_settings, show_text, show_files, run_nm}
use nvptx_tools.Nm.Main.Files.{FileShown, IsStopped, show_text-FileShown, show_files-IsStopped}

abbrev h : Hashtab Entry
h = assoc_table Entry

unfoldable strcmp : Bytes → Bytes → ℤ
strcmp [] [] = pos 0
strcmp [] (d ∷ r) = negsuc 0
strcmp (c ∷ s) [] = pos 1
strcmp (c ∷ s) (d ∷ r) =
    let rest = strcmp s r in if ltb c d then negsuc 0 else if ltb d c then pos 1 else rest

strcmp_turns : (s r : Bytes) → is_positive (strcmp s r) ≡ is_positive (opposite (strcmp r s))
unfolding strcmp
strcmp_turns [] [] = refl
strcmp_turns [] (d ∷ r) = refl
strcmp_turns (c ∷ s) [] = refl
strcmp_turns (c ∷ s) (d ∷ r) = ground (arith, strcmp_turns s r)

strcmp_trans :
    (s r q : Bytes)
    → is_positive (strcmp s r) ≡ false
    → is_positive (strcmp r q) ≡ false
    → is_positive (strcmp s q) ≡ false
unfolding strcmp
strcmp_trans [] r [] h g = refl
strcmp_trans [] r (e ∷ q) h g = refl
strcmp_trans (c ∷ s) [] q h g = cc
strcmp_trans (c ∷ s) (d ∷ r) [] h g = cc
strcmp_trans (c ∷ s) (d ∷ r) (e ∷ q) h g = ground (arith, strcmp_trans s r q)

abbrev c_locale : Collation
c_locale = record { strcoll = strcmp; turns = strcmp_turns; trans = strcmp_trans }

-- Two parts: the second overrides the weak definition, and has a symbol of its own.
abbrev first_part : Bytes
first_part = codes "\n// BEGIN GLOBAL VAR DEF: v\n.weak x\n// BEGIN GLOBAL FUNCTION DECL: f\n"

abbrev second_part : Bytes
second_part = codes "\n// BEGIN GLOBAL VAR DEF: v\n\n// BEGIN FUNCTION DEF: g\n"

abbrev two_parts : Bytes
two_parts = first_part ++ (0 ∷ second_part)

merge_all-IsTop_example :
    Ensures
      (IsTop weak_var (undefined ∷ var ∷ []))
      (Clash weak_var (undefined ∷ var ∷ []))
      (merge_all (some weak_var) (undefined ∷ var ∷ []))
merge_all-IsTop_example = merge_all-IsTop weak_var (undefined ∷ var ∷ [])

abbrev no_symbols : Tables (List (Bytes × Entry))
no_symbols = record { global = []; local = [] }

process_refs_defs-PartScanned_example :
    Ensures
      (PartScanned h two_parts no_symbols)
      IsScanError
      (process_refs_defs h two_parts no_symbols)
process_refs_defs-PartScanned_example = process_refs_defs-PartScanned h two_parts no_symbols

scan_file-FileScanned_example :
    Ensures (FileScanned h (parts two_parts) [] []) IsScanError (scan_file h two_parts)
scan_file-FileScanned_example = scan_file-FileScanned h two_parts

abbrev typed : SymbolType → Entry
typed t = record { type = some t }

abbrev three : List Symbol
three = (codes "v", typed var) ∷ (codes "f", typed undefined) ∷ (codes "g", typed function) ∷ []

qsort-IsArranged_example :
    Ensures
      (IsArranged c_locale true false three)
      (λ _. ⊥)
      (qsort (sorters strcmp true false) three)
qsort-IsArranged_example = qsort-IsArranged c_locale true false three (refl, (refl, (refl, tt)))

read_symbols-print_symbols_example :
    (out : Bytes) × (print_symbols 64 three ≡ ok out) × (read_symbols 3 out ≡ three)
unfolding has_byte
read_symbols-print_symbols_example =
    read_symbols-print_symbols three
      ((var, refl, refl), ((undefined, refl, refl), ((function, refl, refl), tt)))

show_text-FileShown_example :
    Ensures
      (FileShown h (assoc_traversal Entry) c_locale initial_settings true (codes "a.o") two_parts)
      IsScanError
      (show_text h
        (assoc_traversal Entry)
        strcmp
        initial_settings
        true
        (codes "a.o")
        (some two_parts))
unfolding listing round starts_with split_line after_nul
show_text-FileShown_example =
    show_text-FileShown h (assoc_traversal Entry) c_locale initial_settings true (codes "a.o")
      two_parts (refl, (refl, (refl, (refl, tt))))

abbrev contents : Bytes → Option Bytes
contents name = if equal name (codes "a.o") then some two_parts else none

show_files-IsStopped_example :
    IsStopped h
      (assoc_traversal Entry)
      strcmp
      contents
      initial_settings
      true
      (codes "a.o" ∷ codes "b.o" ∷ [])
      (show_files h
        (assoc_traversal Entry)
        strcmp
        contents
        initial_settings
        true
        (codes "a.o" ∷ codes "b.o" ∷ []))
show_files-IsStopped_example =
    show_files-IsStopped h (assoc_traversal Entry) strcmp contents initial_settings true
      (codes "a.o" ∷ codes "b.o" ∷ [])

-- A run on one file, in reverse.
shown :
    run_nm h (assoc_traversal Entry) strcmp contents ((b'r', []) ∷ []) (codes "a.o" ∷ [])
    ≡ inr (record {
      output = codes "0000000000000000 D v\n0000000000000000 t g\n                 U f\n";
      failure = none;
    })
unfolding run_nm strcmp lookup insert equal starts_with split_line
shown = refl

round_agree_example :
    linker_round (codes "\n// BEGIN GLOBAL VAR DEF: v\n.weak x")
    ≡ for_linker (round (codes "\n// BEGIN GLOBAL VAR DEF: v\n.weak x"))
unfolding starts_with
round_agree_example = round_agree (codes "\n// BEGIN GLOBAL VAR DEF: v\n.weak x") refl
