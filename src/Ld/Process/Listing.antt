-- ===== src/Ld/Process/Listing.antt =====
-- The loop of `process_refs_defs` as a reader that lists the markers of a text, and a fold of the
-- handler over that list.
use nvptx_tools.Base.{
  ℕ, zero, suc, ◌<◌, ◌≤◌, ◌≡◌, refl, ap, Option, List, [], ◌∷◌, arith, Bytes, length, after_nul,
  All, ◌⊎◌, inl, inr,
}
use nvptx_tools.Hashtab.{Hashtab}
use nvptx_tools.Result.{Result, Result-cases, ok, err, ◌>>=◌, truncated_marker, out_of_fuel}
use nvptx_tools.Ld.Symbol.{Entry, FileRef, State}
use nvptx_tools.Ld.Marker.{Marker, Round, finish, advance, truncated, handle, round}
use nvptx_tools.Ld.Marker.Rounds.{IsName, Leaves, round-Leaves}
use nvptx_tools.Ld.Process.{Mode, process_marker, process_round, process_loop, process_refs_defs}

-- How the reading of a text ends.
pub data Ending : Type 0 where
  ended : Option Bytes → Ending
  cut : Ending
  exhausted : Ending

pub record Listing : Type 0 where
  pub markers : List Marker
  pub ending : Ending

abbrev pub cons_marker : Marker → Listing → Listing
cons_marker m l = record l { markers = m ∷ l.markers }

unfoldable pub read_round : (Bytes → Listing) → Round → Listing
read_round rest (finish p) = record { markers = []; ending = ended p }
read_round rest (advance p) = rest p
read_round rest truncated = record { markers = []; ending = cut }
read_round rest (handle m p) = cons_marker m (rest p)

unfoldable pub read : ℕ → Bytes → Listing
unfolding read_round round
read zero p = record { markers = []; ending = exhausted }
read (suc fuel) p = read_round (read fuel) (round p)

-- The markers of a text, up to its NUL.
unfoldable pub listing : Bytes → Listing
unfolding read
listing p = read (suc (length p)) p

module _ {T : Type 0} where
  abbrev pub conclude : Ending → T → Result (T × Option Bytes)
  conclude (ended rest) st = ok (st, rest)
  conclude cut st = err truncated_marker
  conclude exhausted st = err out_of_fuel

-- The handler over a list of markers.
module _ {T : Type 0} (step : Marker → T → Result T) where
  unfoldable pub replay : List Marker → T → Result T
  replay [] st = ok st
  replay (m ∷ ms) st = step m st >>= replay ms

module _ (H : Hashtab Entry) (mode : Mode) (fhe : FileRef) where
  abbrev pub replay_listing : Listing → State H.Table → Result (State H.Table × Option Bytes)
  replay_listing l st = replay (process_marker H mode fhe) l.markers st >>= conclude l.ending

  round_replays :
      (loop : Bytes → State H.Table → Result (State H.Table × Option Bytes))
      (rest : Bytes → Listing)
      → ((p : Bytes) (st : State H.Table) → loop p st ≡ replay_listing (rest p) st)
      → (r : Round) (st : State H.Table)
      → process_round H mode fhe loop r st ≡ replay_listing (read_round rest r) st
  unfolding process_round read_round replay
  round_replays loop rest h (finish p) st = refl
  round_replays loop rest h (advance p) st = h p st
  round_replays loop rest h truncated st = refl
  round_replays loop rest h (handle m p) st = elim (Result-cases (process_marker H mode fhe m st)) [
    | inl (st', e) ↦ rw e (h p st')
    | inr (x, e) ↦ rw e
  ]

  loop_replays :
      (fuel : ℕ) (p : Bytes) (st : State H.Table)
      → process_loop H mode fhe fuel p st ≡ replay_listing (read fuel p) st
  unfolding process_loop read
  loop_replays zero p st = unfold replay in refl
  loop_replays (suc fuel) p st =
      round_replays (process_loop H mode fhe fuel) (read fuel) (loop_replays fuel) (round p) st

  -- The loop of `process_refs_defs` handles exactly the markers that `listing` reads off the text,
  -- in their order, up to the first error, and then ends as the listing does.
  pub process_refs_defs-replay :
      (p : Bytes) (st : State H.Table)
      → process_refs_defs H mode fhe p st ≡ replay_listing (listing p) st
  unfolding process_refs_defs listing
  process_refs_defs-replay p st = loop_replays (suc (length p)) p st

-- A listing of a text whose NUL is followed by `end`, with readable names.
pub record IsComplete (end : Option Bytes) (l : Listing) : Type 0 where
  pub ending : (l.ending ≡ ended end) ⊎ (l.ending ≡ cut)
  pub names : All (λ m. IsName m.name) l.markers

read_round-IsComplete :
    (rest : Bytes → Listing) (n : ℕ) (p : Bytes)
    → ((q : Bytes) → length q ≤ n → IsComplete (after_nul q) (rest q))
    → (r : Round) → Leaves n p r
    → IsComplete (after_nul p) (read_round rest r)
unfolding read_round
read_round-IsComplete rest n p h (finish e) l = record { ending = inl (ap ended l); names = tt }
read_round-IsComplete rest n p h (advance q) l = rw l.1 at (h q l.0)
read_round-IsComplete rest n p h truncated l = record { ending = inr refl; names = tt }
read_round-IsComplete rest n p h (handle m q) l =
    let c = h q l.0 in record { ending = rw l.1 at c.ending; names = (l.2, c.names) }

read-IsComplete : (fuel : ℕ) (p : Bytes) → length p < fuel → IsComplete (after_nul p) (read fuel p)
unfolding read
read-IsComplete zero p h = absurd (omega arith)
read-IsComplete (suc fuel) [] h =
    unfold round read_round after_nul in record { ending = inl refl; names = tt }
read-IsComplete (suc fuel) (c ∷ cs) h =
    read_round-IsComplete (read fuel) (length cs) (c ∷ cs)
      (λ q le. read-IsComplete fuel q (omega arith)) (round (c ∷ cs)) (round-Leaves c cs)

-- The fuel is enough: the reading of a text ends at its NUL or in a truncated marker line.
pub listing-IsComplete : (p : Bytes) → IsComplete (after_nul p) (listing p)
unfolding listing
listing-IsComplete p = read-IsComplete (suc (length p)) p (omega arith)
