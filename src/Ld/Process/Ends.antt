-- ===== src/Ld/Process/Ends.antt =====
-- How `process_refs_defs` ends, in either mode and from any state.
use nvptx_tools.Base.{
  ◌≡◌, ◌≢◌, refl, ap, sym, ◌∙◌, ◌⊎◌, if◌then◌else◌, Bool, true, false, Option, List, [], ◌∷◌, arith,
  inl, inr, Bytes, after_nul,
}
use nvptx_tools.Hashtab.{Hashtab}
use nvptx_tools.Result.{Result, ok, err, is_some, out_of_fuel, multiple_definitions}
use nvptx_tools.Ld.Symbol.{
  Entry, FileRef, State, entry_of, is_starred, enqueue_as_unresolved, dequeue_unresolved,
}
use nvptx_tools.Ld.Symbol.Table.{entry_of-symbol_hash_lookup}
use nvptx_tools.Result.Ensures.{Ensures, good, bad, Ensures-bind, Ensures-err, Ensures-ok}
use nvptx_tools.Ld.Marker.{Marker, Kind, def, decl}
use nvptx_tools.Ld.Process.{
  Mode, scan, link, process_refs_defs, process_marker, mode_marker, scan_marker, link_kind,
  link_decl, link_def, define_again, include_def, remember_strong, check_def,
}
use nvptx_tools.Ld.Process.Listing.{
  Ending, ended, cut, listing, replay, conclude, process_refs_defs-replay, listing-IsComplete,
}

-- The result is not that the fuel ran out.
abbrev HasFuel {ℓ} : {A : Type ℓ} → Result A → Type ℓ
HasFuel r = Ensures (λ _. Unit {0}) (λ x. x ≢ out_of_fuel) r

fuel_of_ne {ℓ} : {A : Type ℓ} (r : Result A) → r ≢ err out_of_fuel → HasFuel r
fuel_of_ne (ok a) h = good tt
fuel_of_ne (err x) h = bad (λ e. h (ap err e))

any {ℓ} : {A : Type ℓ} (r : Result A) → Ensures (λ _. Unit {0}) (λ _. Unit {0}) r
any (ok a) = good tt
any (err x) = bad tt

conclude-end :
    {T : Type 0} (e : Ending) (s : T) (end : Option Bytes)
    → (e ≡ ended end) ⊎ (e ≡ cut)
    → Ensures (λ r. r.1 ≡ end) (λ _. Unit {0}) (conclude e s)
conclude-end e s end (inl is) = rw is (good refl)
conclude-end e s end (inr is) = rw is (bad tt)

module _ (H : Hashtab Entry) where
  -- A successful call returns the place behind the NUL of its text.
  pub process_refs_defs-end :
      (mode : Mode) (fhe : FileRef) (p : Bytes) (st st' : State H.Table) (rest : Option Bytes)
      → process_refs_defs H mode fhe p st ≡ ok (st', rest)
      → rest ≡ after_nul p
  process_refs_defs-end mode fhe p st st' rest h =
      Ensures-ok
        (Ensures-bind (any (replay (process_marker H mode fhe) (listing p).markers st))
          (λ s g. conclude-end (listing p).ending s (after_nul p) (listing-IsComplete p).ending))
        (sym (process_refs_defs-replay H mode fhe p st) ∙ h)

  link_decl_fuel : (k : Bytes) (st : State H.Table) → link_decl H k st ≢ err out_of_fuel
  unfolding link_decl enqueue_as_unresolved
  link_decl_fuel k st = ground arith

  define_again_fuel :
      (k : Bytes) (weak : Bool) (st : State H.Table) → define_again H k weak st ≢ err out_of_fuel
  unfolding define_again
  define_again_fuel k weak st = ground arith

  include_def_fuel : (k : Bytes) (st : State H.Table) → include_def H k st ≢ err out_of_fuel
  unfolding include_def dequeue_unresolved
  include_def_fuel k st = ground arith

  remember_strong_fuel :
      (fhe : FileRef) (k : Bytes) (weak : Bool) (st : State H.Table)
      → remember_strong H fhe k weak st ≢ err out_of_fuel
  unfolding remember_strong
  remember_strong_fuel fhe k weak st = ground arith

  link_def_fuel :
      (fhe : FileRef) (k : Bytes) (weak : Bool) (st : State H.Table)
      → HasFuel (link_def H fhe k weak st)
  unfolding link_def
  link_def_fuel fhe k weak st =
      Ensures-bind
        (fuel_of_ne
          (if (entry_of H st.table k).included
            then define_again H k weak st
            else include_def H k st)
          (ground (arith, define_again_fuel k weak st, include_def_fuel k st)))
        (λ s h. fuel_of_ne _ (remember_strong_fuel fhe k weak s))

  link_kind_fuel :
      (fhe : FileRef) (kind : Kind) (k : Bytes) (weak : Bool) (st : State H.Table)
      → HasFuel (link_kind H fhe kind k weak st)
  unfolding link_kind
  link_kind_fuel fhe decl k weak st = fuel_of_ne _ (link_decl_fuel k st)
  link_kind_fuel fhe def k weak st = link_def_fuel fhe k weak st

  scan_marker_fuel :
      (fhe : FileRef) (m : Marker) (st : State H.Table) → scan_marker H fhe m st ≢ err out_of_fuel
  unfolding scan_marker
  scan_marker_fuel fhe m st = ground arith

  mode_marker_fuel :
      (mode : Mode) (fhe : FileRef) (m : Marker) (st : State H.Table)
      → HasFuel (mode_marker H mode fhe m st)
  unfolding mode_marker
  mode_marker_fuel scan fhe m st = fuel_of_ne _ (scan_marker_fuel fhe m st)
  mode_marker_fuel link fhe m st = link_kind_fuel fhe m.kind m.name m.weak st

  check_def_fuel : (k : Bytes) (st : State H.Table) → check_def H k st ≢ err out_of_fuel
  unfolding check_def
  check_def_fuel k st = ground arith

  process_marker_fuel :
      (mode : Mode) (fhe : FileRef) (m : Marker) (st : State H.Table)
      → HasFuel (process_marker H mode fhe m st)
  unfolding process_marker
  process_marker_fuel mode fhe m st =
      Ensures-bind (mode_marker_fuel mode fhe m _) (λ s h. fuel_of_ne _ (check_def_fuel m.name s))

  replay_fuel :
      (mode : Mode) (fhe : FileRef) (ms : List Marker) (st : State H.Table)
      → HasFuel (replay (process_marker H mode fhe) ms st)
  unfolding replay
  replay_fuel mode fhe [] st = good tt
  replay_fuel mode fhe (m ∷ ms) st =
      Ensures-bind (process_marker_fuel mode fhe m st) (λ s h. replay_fuel mode fhe ms s)

  conclude_fuel :
      (e : Ending) (st : State H.Table) (end : Option Bytes)
      → (e ≡ ended end) ⊎ (e ≡ cut)
      → HasFuel (conclude e st)
  conclude_fuel e st end (inl is) = rw is (good tt)
  conclude_fuel e st end (inr is) = rw is (bad (λ h. cc))

  -- The loop of `process_refs_defs` ends on every text: it never runs out of fuel.
  pub process_refs_defs_terminates :
      (mode : Mode) (fhe : FileRef) (p : Bytes) (st : State H.Table)
      → process_refs_defs H mode fhe p st ≢ err out_of_fuel
  process_refs_defs_terminates mode fhe p st ran_out =
      Ensures-err
        (Ensures-bind (replay_fuel mode fhe (listing p).markers st)
          (λ s h. conclude_fuel (listing p).ending s (after_nul p) (listing-IsComplete p).ending))
        (sym (process_refs_defs-replay H mode fhe p st) ∙ ran_out) refl

  -- Linking a strong DEF of a symbol, not a special one, that is included with a strong DEF is the
  -- error of multiple definitions.
  pub multiple_definitions_lem :
      (fhe : FileRef) (k : Bytes) (st : State H.Table)
      → is_starred k ≡ false
      → (entry_of H st.table k).included ≡ true
      → is_some (entry_of H st.table k).strong_def ≡ true
      → process_marker H link fhe (record { kind = def; name = k; weak = false }) st
        ≡ err (multiple_definitions k)
  unfolding process_marker mode_marker link_kind link_def define_again
  multiple_definitions_lem fhe k st plain in_ strong =
      ground (arith, entry_of-symbol_hash_lookup H st.table k k)
