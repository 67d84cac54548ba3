-- ===== src/Nm/Process.antt =====
-- nvptx-nm.cc: `process_refs_defs`, and the loop of `main` over the NUL-separated parts of a file.
pub mod Fold
pub mod Types
pub mod Ends
pub mod Parts
pub mod Named
use nvptx_tools.Base.{
  ℕ, zero, suc, Bool, true, false, Option, none, some, List, [], ◌∷◌, ◌++◌, Bytes, length,
  if◌then◌else◌,
}
use nvptx_tools.Hashtab.{Hashtab}
use nvptx_tools.Result.{
  Result, ok, err, ◌>>=◌, truncated_marker, weak_local, assertion, out_of_fuel,
}
use nvptx_tools.Nm.Symbol.{
  SymbolType, var, function, undefined, weak_var, weak_function, weak_undefined, Entry, define,
}
use nvptx_tools.Nm.Marker.{Marker, type_of, Round, finish, advance, truncated, handle, round}

-- `symbol_table_global` and `symbol_table_local`.
pub record Tables (T : Type 0) : Type 0 where
  pub global : T
  pub local : T

-- The type of a "weak" symbol that is global.
abbrev pub weaken : SymbolType → Result SymbolType
weaken var = ok weak_var
weaken function = ok weak_function
weaken undefined = ok weak_undefined
weaken _ = err assertion

unfoldable pub marker_type : Marker → Result SymbolType
marker_type m =
    if m.weak
    then (if m.global then weaken (type_of m.global m.kind) else err (weak_local m.name))
    else ok (type_of m.global m.kind)

module _ (H : Hashtab Entry) where
  unfoldable pub define_in : Bool → Bytes → SymbolType → Tables H.Table → Result (Tables H.Table)
  unfolding define
  define_in true k type t = define H t.global k type >>= λ g. ok (record t { global = g })
  define_in false k type t = define H t.local k type >>= λ l. ok (record t { local = l })

  unfoldable pub process_marker : Marker → Tables H.Table → Result (Tables H.Table)
  unfolding marker_type define_in
  process_marker m t = marker_type m >>= λ type. define_in m.global m.name type t

  unfoldable pub process_round :
      (Bytes → Tables H.Table → Result (Tables H.Table × Option Bytes))
      → Round
      → Tables H.Table
      → Result (Tables H.Table × Option Bytes)
  unfolding process_marker
  process_round loop (finish rest) t = ok (t, rest)
  process_round loop (advance rest) t = loop rest t
  process_round loop truncated t = err truncated_marker
  process_round loop (handle m rest) t = process_marker m t >>= loop rest

  -- The loop, on fuel. The result is the tables and the returned pointer.
  unfoldable pub process_loop : ℕ → Bytes → Tables H.Table → Result (Tables H.Table × Option Bytes)
  unfolding process_round round
  process_loop zero ptx t = err out_of_fuel
  process_loop (suc fuel) ptx t = process_round (process_loop fuel) (round ptx) t

  unfoldable pub process_refs_defs : Bytes → Tables H.Table → Result (Tables H.Table × Option Bytes)
  unfolding process_loop
  process_refs_defs ptx t = process_loop (suc (length ptx)) ptx t

  -- The `do` loop of `main`: the tables so far are the global one and the local ones, in the order
  -- of `symbol_tables`.
  unfoldable pub scan_rest :
      (Bytes → H.Table → List H.Table → Result (H.Table × List H.Table))
      → List H.Table
      → Tables H.Table × Option Bytes
      → Result (H.Table × List H.Table)
  scan_rest again locals (t, none) = ok (t.global, locals ++ t.local ∷ [])
  scan_rest again locals (t, some buf) = again buf t.global (locals ++ t.local ∷ [])

  unfoldable pub scan_parts : ℕ → Bytes → H.Table → List H.Table → Result (H.Table × List H.Table)
  unfolding scan_rest process_refs_defs
  scan_parts zero buf global locals = err out_of_fuel
  scan_parts (suc fuel) buf global locals =
      process_refs_defs buf (record { global = global; local = H.empty })
      >>= scan_rest (scan_parts fuel) locals

  -- A part takes its NUL.
  unfoldable pub scan_file : Bytes → Result (H.Table × List H.Table)
  unfolding scan_parts
  scan_file buf = scan_parts (suc (length buf)) buf H.empty []
