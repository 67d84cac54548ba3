-- ===== src/Ld/Main.antt =====
-- nvptx-ld.cc, `main`: the options, the search for libraries, the scan of libraries, and the
-- linker from end to end; and `path_resolve`.
pub mod Paths
pub mod Libraries
use nvptx_tools.Base.{
  ℕ, zero, suc, ◌+◌, Bool, true, false, not, ◌&&◌, ◌||◌, Option, none, some, List, [], ◌∷◌, ◌++◌,
  ◌==◌, if◌then◌else◌, ltb, Bytes, codes, equal, length,
}
use nvptx_tools.Hashtab.{Hashtab}
use nvptx_tools.Result.{
  Result, ok, err, ◌>>=◌, open_error, bad_archive, library_error, output_error, out_of_fuel,
}
use nvptx_tools.Options.{Parsed, proceed, exits}
use nvptx_tools.Ld.Symbol.{Entry, FileRef, define_intrinsics}
use nvptx_tools.Ld.Archive.{Archive, Member, init, at_end, next_file}
use nvptx_tools.Ld.Scan.{Scanner, scan_text, scan_inputs}
use nvptx_tools.Ld.Scan.Intrinsics.{scanner_of}
use nvptx_tools.Ld.Scan.Run.{start}
use nvptx_tools.Ld.Resolve.{Linker}
use nvptx_tools.Ld.Special.{resolve_and_link}

-- What the options set.
pub record Options : Type 0 where
  pub verbose : Bool
  pub outname : Option Bytes
  pub libraries : List Bytes
  pub libpaths : List Bytes
  pub unresolved_ignore : List Bytes

abbrev pub opt_hash_style : ℕ
opt_hash_style = 256

abbrev pub opt_ignore_unresolved_symbol : ℕ
opt_ignore_unresolved_symbol = 257

abbrev pub set_outname : Bytes → Options → Option Bytes → Parsed Options
set_outname arg opts (some name) = exits 1
set_outname arg opts none = proceed (record opts { outname = some arg })

-- The `switch` on what `getopt_long` returned, with `optarg`.
unfoldable pub handle_option : ℕ → Bytes → Options → Parsed Options
handle_option o arg opts =
    if o == b'v'
    then proceed (record opts { verbose = true })
    else if o == b'o'
    then set_outname arg opts opts.outname
    else if o == b'l'
    then proceed (record opts { libraries = opts.libraries ++ arg ∷ [] })
    else if o == b'L'
    then proceed (record opts { libpaths = opts.libpaths ++ arg ∷ [] })
    else if o == b'h'
    then exits 0
    else if o == b'V'
    then exits 0
    else if o == opt_hash_style
    then proceed opts
    else if o == opt_ignore_unresolved_symbol
    then proceed (record opts { unresolved_ignore = arg ∷ opts.unresolved_ignore })
    else exits 1

-- `std::list::unique`: of neighbours that agree, the first stays.
unfoldable pub skip_same : Bytes → List Bytes → List Bytes
skip_same x [] = []
skip_same x (y ∷ ys) = let rest = skip_same y ys in if equal x y then rest else y ∷ rest

unfoldable pub unique : List Bytes → List Bytes
unfolding skip_same
unique [] = []
unique (x ∷ xs) = x ∷ skip_same x xs

-- `operator<` of `std::string`.
unfoldable pub before : Bytes → Bytes → Bool
before [] [] = false
before [] (d ∷ r) = true
before (c ∷ s) [] = false
before (c ∷ s) (d ∷ r) = ltb c d || (c == d && before s r)

-- `std::list::sort`
unfoldable pub insert_name : Bytes → List Bytes → List Bytes
unfolding before
insert_name x [] = x ∷ []
insert_name x (y ∷ ys) = let rest = insert_name x ys in if before y x then y ∷ rest else x ∷ y ∷ ys

unfoldable pub sort : List Bytes → List Bytes
unfolding insert_name
sort [] = []
sort (x ∷ xs) = insert_name x (sort xs)

-- `exists` says of which names `access (name, F_OK) == 0`.
module _ (exists : Bytes → Bool) where
  unfoldable pub path_resolve : Bytes → List Bytes → Bytes
  path_resolve filename [] = []
  path_resolve filename (path ∷ paths) =
      let tmp = path ++ (b'/' ∷ filename) in
      let rest = path_resolve filename paths in if exists tmp then tmp else rest

  abbrev pub library_name : Bytes → Bytes
  library_name library = codes "lib" ++ (library ++ codes ".a")

  abbrev pub is_empty : Bytes → Bool
  is_empty [] = true
  is_empty (c ∷ cs) = false

  -- The loop that puts the resolved names into `libraries`.
  unfoldable pub resolve_libraries : List Bytes → List Bytes → Result (List Bytes)
  unfolding path_resolve
  resolve_libraries libpaths [] = ok []
  resolve_libraries libpaths (library ∷ libraries) =
      let found = path_resolve (library_name library) libpaths in
      let rest = resolve_libraries libpaths libraries in
      if is_empty found
      then err (library_error (library_name library))
      else (rest >>= λ names. ok (found ∷ names))

module _ (H : Hashtab Entry) where
  -- A round of the loop over the members, with the rounds that follow.
  unfoldable pub scan_next :
      (Archive → Scanner H.Table → Result (Scanner H.Table))
      → Bytes
      → Option (Archive × Member)
      → Scanner H.Table
      → Result (Scanner H.Table)
  unfolding scan_text
  scan_next again name none s = err (bad_archive name)
  scan_next again name (some (ar, m)) s = scan_text H m.contents s >>= again ar

  -- `while (!ar.at_end ())`, on fuel.
  unfoldable pub scan_archive : ℕ → Bytes → Archive → Scanner H.Table → Result (Scanner H.Table)
  unfolding scan_next at_end next_file
  scan_archive zero name ar s = err out_of_fuel
  scan_archive (suc fuel) name ar s =
      let more = scan_next (scan_archive fuel name) name (next_file ar) s in
      if at_end ar then ok s else more

  unfoldable pub scan_opened : Bytes → Option Archive → Scanner H.Table → Result (Scanner H.Table)
  unfolding scan_archive
  scan_opened name none s = err (bad_archive name)
  scan_opened name (some ar) s = scan_archive (suc (length ar.text)) name ar s

  unfoldable pub scan_library : Bytes → Option Bytes → Scanner H.Table → Result (Scanner H.Table)
  unfolding scan_opened init
  scan_library name none s = err (open_error name)
  scan_library name (some text) s = scan_opened name (init text) s

  -- The loop over `libraries`; `contents` is the file system.
  unfoldable pub scan_libraries :
      (Bytes → Option Bytes) → List Bytes → Scanner H.Table → Result (Scanner H.Table)
  unfolding scan_library
  scan_libraries contents [] s = ok s
  scan_libraries contents (name ∷ names) s =
      scan_library name (contents name) s >>= scan_libraries contents names

  -- From the scan of the input files on.
  unfoldable pub scan_all :
      (Bytes → Option Bytes) → List Bytes → Scanner H.Table → Result (Scanner H.Table)
  unfolding scan_inputs sort unique scan_libraries
  scan_all contents inputfiles s = scan_inputs H contents 0 inputfiles s >>= λ s'.
      scan_libraries contents (unique (sort s'.libraries)) s'

  -- `opens` says whether the output file opens.
  unfoldable pub link_all :
      (exists : Bytes → Bool) (contents : Bytes → Option Bytes) (opens : Bool)
      (writes : FileRef → Bool)
      → Options
      → List Bytes
      → Result (Linker H.Table)
  unfolding define_intrinsics unique resolve_libraries scan_all resolve_and_link
  link_all exists contents opens writes opts inputfiles = do
    t ← define_intrinsics H H.empty
    libraries ← resolve_libraries exists (unique opts.libpaths) opts.libraries
    s ← scan_all contents inputfiles (record (scanner_of H t) { libraries = libraries })
    if opens
        then resolve_and_link H s.objects opts.unresolved_ignore writes (start H s)
        else err output_error
