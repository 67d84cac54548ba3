-- ===== src/Ld/Special.antt =====
-- nvptx-ld.cc: `cdtor`, `handle_special_purpose_functions`, and the part of `main` behind the
-- resolve loop, which hands over to them and starts the second resolve run.
pub mod Sort
pub mod Table
use nvptx_tools.Base.{
  ℕ, zero, suc, ◌+◌, ◌-◌, ◌*◌, Bool, true, false, not, ◌&&◌, ◌||◌, Option, none, some, List, [],
  ◌∷◌, ◌++◌, ◌==◌, if◌then◌else◌, ltb, leb, Bytes, codes, length, drop, starts_with,
}
use nvptx_tools.Hashtab.{Hashtab}
use nvptx_tools.Libc.{ℤ, pos, negsuc, less, same_int, strtol, decimal, print_int}
use nvptx_tools.Result.{
  Result, ok, err, ◌>>=◌, ◌>>◌, assert, bad_special_function, additional_special_functions,
}
use nvptx_tools.Ld.Symbol.{
  Entry, FileRef, State, entry_of, symbol_hash_lookup, define_intrinsic, enqueue_as_unresolved,
}
use nvptx_tools.Ld.Resolve.{Linker, resolve}

pub record Cdtor : Type 0 where
  pub name : Bytes
  pub sequence : ℕ
  pub priority : ℤ

-- The priority takes the five characters behind "_GLOBAL__I_", and is -1 otherwise. A number that
-- sets `errno` is longer.
unfoldable pub parse_priority : Bytes → ℤ
unfolding strtol
parse_priority name =
    let (n, rest) = strtol (drop 11 name) in
    if (length rest + 5) == length (drop 11 name) then n else negsuc 0

unfoldable pub cdtor : Bytes → ℕ → Cdtor
unfolding parse_priority
cdtor name sequence = record { name = name; sequence = sequence; priority = parse_priority name }

unfoldable pub validate : Cdtor → Bool
validate c = not (less c.priority (pos 0))

unfoldable pub sorter : Cdtor → Cdtor → Bool
sorter a b =
    if less a.priority b.priority
    then false
    else if same_int a.priority b.priority && ltb a.sequence b.sequence
    then false
    else true

-- `std::sort` by `sorter`.
unfoldable pub insert_cdtor : Cdtor → List Cdtor → List Cdtor
unfolding sorter
insert_cdtor c [] = c ∷ []
insert_cdtor c (d ∷ ds) =
    let rest = insert_cdtor c ds in if sorter c d then c ∷ d ∷ ds else d ∷ rest

unfoldable pub sort_cdtors : List Cdtor → List Cdtor
unfolding insert_cdtor
sort_cdtors [] = []
sort_cdtors (c ∷ cs) = insert_cdtor c (sort_cdtors cs)

-- The first loop; a `sequence` counts the constructors, and another the destructors.
abbrev pub with_ctor : Cdtor → List Cdtor × List Cdtor → List Cdtor × List Cdtor
with_ctor c (ctors, dtors) = (c ∷ ctors, dtors)

abbrev pub with_dtor : Cdtor → List Cdtor × List Cdtor → List Cdtor × List Cdtor
with_dtor c (ctors, dtors) = (ctors, c ∷ dtors)

unfoldable pub classify : ℕ → ℕ → List Bytes → Result (List Cdtor × List Cdtor)
unfolding cdtor starts_with
classify i j [] = ok ([], [])
classify i j (name ∷ names) =
    let as_ctor = classify (suc i) j names in
    let as_dtor = classify i (suc j) names in
    if starts_with (codes "_GLOBAL__I_") name
    then (as_ctor >>= λ lists. ok (with_ctor (cdtor name i) lists))
    else if starts_with (codes "_GLOBAL__D_") name
    then (as_dtor >>= λ lists. ok (with_dtor (cdtor name j) lists))
    else err (bad_special_function name)

-- The `.extern` declarations, in order of appearance.
unfoldable pub externs : List Cdtor → Result Bytes
unfolding validate
externs [] = ok []
externs (c ∷ cs) =
    let rest = externs cs in
    if validate c
    then (rest >>= λ out. ok (codes ".extern .func " ++ (c.name ++ (codes ";\n" ++ out))))
    else err (bad_special_function c.name)

unfoldable pub elements : List Cdtor → Bytes
unfolding print_int
elements [] = []
elements (c ∷ cs) =
    codes "  // priority: "
    ++ (print_int c.priority
        ++ (codes ", sequence: "
            ++ (decimal c.sequence ++ (codes "\n  " ++ (c.name ++ (codes ",\n" ++ elements cs))))))

-- One of the two halves of the output: its heading, and the name of its list.
unfoldable pub print_list : Bytes → Bytes → List Cdtor → Result Bytes
unfolding externs sort_cdtors elements
print_list heading list cs = externs cs >>= λ out. ok (
    codes "\n// "
    ++ (heading
        ++ (codes ".\n\n"
            ++ (out
                ++ (codes "\n.visible .global .u64 "
                    ++ (list
                        ++ (codes "[] = {\n  "
                            ++ (decimal (length cs)
                                ++ (codes ",\n"
                                    ++ (elements (sort_cdtors cs) ++ codes "  0\n};\n"))))))))))

abbrev pub preamble : Bytes
preamble = codes ".version 3.1\n.target sm_30\n.address_size 64\n"

-- The end of the output.
abbrev pub dummy : Bytes
dummy =
    codes "\n/* For example with old Nvidia Tesla K20c, Driver Version: 361.93.02, the\n"
    ++ (codes "   function pointers stored in the '__CTOR_LIST__', '__DTOR_LIST__' arrays\n"
        ++ (codes "   evidently evaluate to NULL in JIT compilation.  Defining a dummy function\n"
            ++ (codes "   next to the arrays apparently does work around this issue...  */\n"
                ++ codes "\n.func dummy\n{\n  ret;\n}\n")))

abbrev pub ctor_list : Bytes
ctor_list = codes "__CTOR_LIST__"

abbrev pub dtor_list : Bytes
dtor_list = codes "__DTOR_LIST__"

abbrev pub trigger_gbl_ctors : Bytes
trigger_gbl_ctors = codes "__trigger_gbl_ctors"

module _ (H : Hashtab Entry) where
  -- The body behind the first loop, with the text that it prints.
  unfoldable pub print_lists : List Cdtor × List Cdtor → H.Table → Result (H.Table × Bytes)
  unfolding print_list define_intrinsic
  print_lists (ctors, dtors) t = do
    first ← print_list (codes "Constructors") ctor_list ctors
    t' ← define_intrinsic H ctor_list t
    second ← print_list (codes "Destructors") dtor_list dtors
    t'' ← define_intrinsic H dtor_list t'
    ok (t'', preamble ++ (first ++ (second ++ (dummy ++ 0 ∷ []))))

  unfoldable pub handle_special_purpose_functions : List Bytes → H.Table → Result (H.Table × Bytes)
  unfolding classify print_lists
  handle_special_purpose_functions [] t = ok (t, [])
  handle_special_purpose_functions (name ∷ names) t =
      classify 0 0 (name ∷ names) >>= λ lists. print_lists lists t

  -- `special_purpose_functions.clear ()`
  abbrev pub clear : Linker H.Table → Linker H.Table
  clear s = record s { symbols = record (s.symbols) { special_purpose_functions = [] } }

  -- "..., and if we found any, trigger link-in of the relevant libgcc object file"; `again` is the
  -- way back to the label.
  unfoldable pub trigger_link_in :
      (Linker H.Table → Result (Linker H.Table))
      → Linker H.Table
      → H.Table × Bytes
      → Result (Linker H.Table)
  unfolding enqueue_as_unresolved
  trigger_link_in again s (t, out) =
      enqueue_as_unresolved H trigger_gbl_ctors (record ((clear s).symbols) { table = t })
      >>= λ symbols. again (record s { symbols = symbols; outfile = s.outfile ++ out })

  -- The first time behind the loop, with the entry of `__trigger_gbl_ctors`.
  unfoldable pub handle_functions :
      (Linker H.Table → Result (Linker H.Table))
      → List Bytes
      → Linker H.Table
      → Result (Linker H.Table)
  unfolding handle_special_purpose_functions trigger_link_in
  handle_functions again [] s = ok s
  handle_functions again (name ∷ names) s =
      handle_special_purpose_functions (name ∷ names) s.symbols.table >>= trigger_link_in again s

  unfoldable pub first_time :
      (Linker H.Table → Result (Linker H.Table))
      → Option Entry
      → Linker H.Table
      → Result (Linker H.Table)
  unfolding handle_functions
  first_time again none s = ok (clear s)
  first_time again (some e) s =
      assert (not e.included) >> handle_functions again s.symbols.special_purpose_functions s

  abbrev pub no_additional : List Bytes → Linker H.Table → Result (Linker H.Table)
  no_additional [] s = ok s
  no_additional (name ∷ names) s = err additional_special_functions

  unfoldable pub second_time : Option Entry → Linker H.Table → Result (Linker H.Table)
  second_time none s = ok (clear s)
  second_time (some e) s = assert e.included >> no_additional s.symbols.special_purpose_functions s

  module _ (objects ignored : List Bytes) (writes : FileRef → Bool) where
    unfoldable pub second_run : Linker H.Table → Result (Linker H.Table)
    unfolding resolve second_time symbol_hash_lookup
    second_run s = resolve H objects ignored writes s >>= λ s'.
        second_time (symbol_hash_lookup H s'.symbols.table trigger_gbl_ctors false).1 s'

    unfoldable pub resolve_and_link : Linker H.Table → Result (Linker H.Table)
    unfolding resolve first_time symbol_hash_lookup second_run
    resolve_and_link s = resolve H objects ignored writes s >>= λ s'.
        first_time second_run (symbol_hash_lookup H s'.symbols.table trigger_gbl_ctors false).1 s'
