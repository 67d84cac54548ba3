-- ===== src/Ld/Process.antt =====
-- nvptx-ld.cc, `process_refs_defs`: the two modes and the loop.
pub mod File
pub mod Ends
pub mod Listing
pub mod Link
use nvptx_tools.Base.{
  ℕ, zero, suc, Bool, true, not, ◌&&◌, ◌||◌, Option, none, some, [], ◌∷◌, ◌++◌, if◌then◌else◌,
  Bytes, codes, length, starts_with,
}
use nvptx_tools.Hashtab.{Hashtab}
use nvptx_tools.Result.{
  Result, ok, err, ◌>>=◌, ◌>>◌, assert, is_some, truncated_marker, multiple_definitions,
  out_of_fuel,
}
use nvptx_tools.Ld.Symbol.{
  Entry, FileRef, State, is_intrinsic, is_starred, entry_of, symbol_hash_lookup, write,
  enqueue_as_unresolved, dequeue_unresolved,
}
use nvptx_tools.Ld.Marker.{
  Marker, Kind, def, decl, finish, advance, truncated, handle, Round, round,
}

-- `enum class process_refs_defs_mode`
pub data Mode : Type 0 where
  scan link : Mode

-- "We've already seen an earlier DEF; ignore this one."
unfoldable pub first_def : FileRef → Option FileRef → Option FileRef
first_def fhe none = some fhe
first_def fhe (some f) = some f

module _ (H : Hashtab Entry) where
  -- A DEF or DECL during scanning.
  unfoldable pub scan_entry : FileRef → Kind → Entry → Entry
  unfolding first_def
  scan_entry fhe decl e = e
  scan_entry fhe def e = record e { def = first_def fhe e.def }

  unfoldable pub scan_marker : FileRef → Marker → State H.Table → Result (State H.Table)
  unfolding scan_entry
  scan_marker fhe m st = do
    let e = entry_of H st.table m.name
    assert (not e.included || (is_intrinsic e.def && is_intrinsic e.strong_def))
    ok (write H m.name (scan_entry fhe m.kind e) st)

  -- A DECL during linking.
  unfoldable pub link_decl : Bytes → State H.Table → Result (State H.Table)
  unfolding enqueue_as_unresolved
  link_decl k st =
      let e = entry_of H st.table k in
      if e.included then ok st else if e.referenced then ok st else enqueue_as_unresolved H k st

  -- A DEF during linking of a symbol that is included already.
  unfoldable pub define_again : Bytes → Bool → State H.Table → Result (State H.Table)
  define_again k weak st = do
    let e = entry_of H st.table k
    assert (not (is_starred k))
    if weak || not (is_some e.strong_def) then ok st else err (multiple_definitions k)

  -- A DEF during linking of a symbol that is not included yet.
  unfoldable pub capture_special : Bytes → State H.Table → State H.Table
  capture_special k st =
      if starts_with (codes "_GLOBAL__") k
      then record st { special_purpose_functions = st.special_purpose_functions ++ k ∷ [] }
      else st

  unfoldable pub include_def : Bytes → State H.Table → Result (State H.Table)
  unfolding dequeue_unresolved capture_special
  include_def k st = do
    let e = entry_of H st.table k
    let st' = write H k (record e { included = true }) st
    st'' ← if e.referenced then dequeue_unresolved H k st' else ok st'
    ok (capture_special k st'')

  -- "Remember the first "strong" DEF we're seeing."
  unfoldable pub remember_strong : FileRef → Bytes → Bool → State H.Table → Result (State H.Table)
  remember_strong fhe k weak st = do
    let e = entry_of H st.table k
    if not (is_some e.strong_def) && not weak
        then (assert (not (is_starred k)) >> ok (write H k (record e { strong_def = some fhe }) st))
        else ok st

  unfoldable pub link_def : FileRef → Bytes → Bool → State H.Table → Result (State H.Table)
  unfolding define_again include_def remember_strong
  link_def fhe k weak st = do
    st' ← if (entry_of H st.table k).included then define_again k weak st else include_def k st
    remember_strong fhe k weak st'

  unfoldable pub link_kind : FileRef → Kind → Bytes → Bool → State H.Table → Result (State H.Table)
  unfolding link_decl link_def
  link_kind fhe decl k weak st = link_decl k st
  link_kind fhe def k weak st = link_def fhe k weak st

  unfoldable pub mode_marker : Mode → FileRef → Marker → State H.Table → Result (State H.Table)
  unfolding scan_marker link_kind
  mode_marker scan fhe m st = scan_marker fhe m st
  mode_marker link fhe m st = link_kind fhe m.kind m.name m.weak st

  -- "if (e->included) assert (e->def);"
  unfoldable pub check_def : Bytes → State H.Table → Result (State H.Table)
  check_def k st = do let e = entry_of H st.table k; assert (not e.included || is_some e.def); ok st

  -- One marker: the lookup, the mode's work, and the closing assertion.
  unfoldable pub process_marker : Mode → FileRef → Marker → State H.Table → Result (State H.Table)
  unfolding mode_marker symbol_hash_lookup check_def
  process_marker mode fhe m st = do
    let st' = record st { table = (symbol_hash_lookup H st.table m.name true).0 }
    st'' ← mode_marker mode fhe m st'
    check_def m.name st''

  -- A round of the loop, with `loop` for the rounds that follow.
  unfoldable pub process_round :
      Mode
      → FileRef
      → (Bytes → State H.Table → Result (State H.Table × Option Bytes))
      → Round
      → State H.Table
      → Result (State H.Table × Option Bytes)
  unfolding process_marker
  process_round mode fhe loop (finish rest) st = ok (st, rest)
  process_round mode fhe loop (advance rest) st = loop rest st
  process_round mode fhe loop truncated st = err truncated_marker
  process_round mode fhe loop (handle m rest) st = process_marker mode fhe m st >>= loop rest

  -- The loop, on fuel. The result is the state and the returned pointer.
  unfoldable pub process_loop :
      Mode → FileRef → ℕ → Bytes → State H.Table → Result (State H.Table × Option Bytes)
  unfolding process_round round
  process_loop mode fhe zero ptx st = err out_of_fuel
  process_loop mode fhe (suc fuel) ptx st =
      process_round mode fhe (process_loop mode fhe fuel) (round ptx) st

  -- A round consumes a byte at least, so the length is enough fuel.
  unfoldable pub process_refs_defs :
      Mode → FileRef → Bytes → State H.Table → Result (State H.Table × Option Bytes)
  unfolding process_loop
  process_refs_defs mode fhe ptx st = process_loop mode fhe (suc (length ptx)) ptx st
