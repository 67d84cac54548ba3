-- ===== src/Nm/Process/Fold.antt =====
-- The loop of nvptx-nm.cc `process_refs_defs` as a fold over the markers of the text, and what the
-- fold does to the type of each symbol.
use nvptx_tools.Base.{
  ℕ, zero, suc, ◌≡◌, refl, Bool, true, false, ◌&&◌, inl, inr, Option, List, [], ◌∷◌, Bytes, length,
  equal, if◌then◌else◌,
}
use nvptx_tools.Hashtab.{Hashtab}
use nvptx_tools.Result.{Result, Result-cases, ok, err, ◌>>=◌, truncated_marker, out_of_fuel}
use nvptx_tools.Nm.Symbol.{SymbolType, Entry, entry_of}
use nvptx_tools.Nm.Marker.{Marker, Round, finish, advance, truncated, handle, round}
use nvptx_tools.Nm.Process.{
  Tables, marker_type, process_marker, process_round, process_loop, process_refs_defs,
}

-- How the reading of a text ends.
pub data Ending : Type 0 where
  ended : Option Bytes → Ending
  cut : Ending
  exhausted : Ending

pub record Listing : Type 0 where
  pub markers : List Marker
  pub ending : Ending

abbrev cons_marker : Marker → Listing → Listing
cons_marker m l = record l { markers = m ∷ l.markers }

unfoldable pub read_round : (Bytes → Listing) → Round → Listing
read_round rest (finish p) = record { markers = []; ending = ended p }
read_round rest (advance p) = rest p
read_round rest truncated = record { markers = []; ending = cut }
read_round rest (handle m p) = cons_marker m (rest p)

unfoldable pub read : ℕ → Bytes → Listing
unfolding read_round round
read zero p = record { markers = []; ending = exhausted }
read (suc fuel) p = read_round (read fuel) (round p)

-- The markers of a text, up to its NUL.
unfoldable pub listing : Bytes → Listing
unfolding read
listing p = read (suc (length p)) p

module _ {T : Type 0} where
  abbrev pub conclude : Ending → T → Result (T × Option Bytes)
  conclude (ended rest) t = ok (t, rest)
  conclude cut t = err truncated_marker
  conclude exhausted t = err out_of_fuel

module _ (H : Hashtab Entry) where
  unfoldable pub replay : List Marker → Tables H.Table → Result (Tables H.Table)
  replay [] t = ok t
  replay (m ∷ ms) t = process_marker H m t >>= replay ms

  round_replays :
      (loop : Bytes → Tables H.Table → Result (Tables H.Table × Option Bytes))
      (rest : Bytes → Listing)
      → ((p : Bytes) (t : Tables H.Table)
          → loop p t ≡ (replay (rest p).markers t >>= conclude (rest p).ending))
      → (r : Round) (t : Tables H.Table)
      → process_round H loop r t
        ≡ (replay (read_round rest r).markers t >>= conclude (read_round rest r).ending)
  unfolding process_round read_round replay
  round_replays loop rest h (finish p) t = refl
  round_replays loop rest h (advance p) t = h p t
  round_replays loop rest h truncated t = refl
  round_replays loop rest h (handle m p) t = elim (Result-cases (process_marker H m t)) [
    | inl (t', e) ↦ rw e (h p t')
    | inr (x, e) ↦ rw e
  ]

  loop_replays :
      (fuel : ℕ) (p : Bytes) (t : Tables H.Table)
      → process_loop H fuel p t ≡ (replay (read fuel p).markers t >>= conclude (read fuel p).ending)
  unfolding process_loop read
  loop_replays zero p t = unfold replay in refl
  loop_replays (suc fuel) p t =
      round_replays (process_loop H fuel) (read fuel) (loop_replays fuel) (round p) t

  pub process_refs_defs-replay :
      (p : Bytes) (t : Tables H.Table)
      → process_refs_defs H p t ≡ (replay (listing p).markers t >>= conclude (listing p).ending)
  unfolding process_refs_defs listing
  process_refs_defs-replay p t = loop_replays (suc (length p)) p t

  -- The table of global symbols, or of local ones.
  abbrev pub table_of : Bool → Tables H.Table → H.Table
  table_of true t = t.global
  table_of false t = t.local

  abbrev pub seen : Bool → Bytes → Tables H.Table → Option SymbolType
  seen g k t = (entry_of H (table_of g t) k).type

abbrev pub is_of : Bool → Bytes → Marker → Bool
is_of g k m = (if g then m.global else (if m.global then false else true)) && equal m.name k

-- The type of a marker that is no error.
abbrev pub plain_type : Result SymbolType → List SymbolType → List SymbolType
plain_type (ok t) ts = t ∷ ts
plain_type (err x) ts = ts

-- The types of the markers of a symbol, global or local, in their order.
abbrev pub types_of : Bool → Bytes → List Marker → List SymbolType
types_of g k [] = []
types_of g k (m ∷ ms) =
    if is_of g k m then plain_type (marker_type m) (types_of g k ms) else types_of g k ms
