-- ===== src/Nm/Process/Named.antt =====
-- Markers with names that are not empty, and the symbol tables of nvptx-nm.cc that they make.
use nvptx_tools.Base.{
  ℕ, zero, suc, ◌≡◌, refl, sym, subst, ◌∙◌, Bool, true, false, Option, none, some, List, [], ◌∷◌,
  ◌++◌, Bytes, All, length, after_nul, equal, inl, inr, Option-cases,
}
use nvptx_tools.Hashtab.{Hashtab}
use nvptx_tools.Result.{Error, Result, Result-cases, ok, err, ◌>>=◌}
use nvptx_tools.Result.Ensures.{Ensures, good, bad, Ensures-bind}
use nvptx_tools.Nm.Symbol.{SymbolType, Entry, fresh, entry_of, symbol_hash_lookup, merge, define}
use nvptx_tools.Nm.Marker.{Marker}
use nvptx_tools.Nm.Process.{
  Tables, marker_type, define_in, process_marker, process_refs_defs, scan_rest, scan_parts,
  scan_file,
}
use nvptx_tools.Nm.Process.Fold.{
  Ending, ended, cut, exhausted, listing, replay, conclude, process_refs_defs-replay,
}
use nvptx_tools.Nm.Process.Parts.{parts, part_starts, starts_from, markers_of}
use nvptx_tools.Nm.Process.Ends.{IsScanError, PartScanned, process_refs_defs-PartScanned}
use nvptx_tools.Nm.Display.{has_byte_first}

abbrev pub HasName : Marker → Type 0
HasName m = has_byte_first m.name ≡ true

All-append_cases : (ms ns : List Marker) → All HasName (ms ++ ns) → All HasName ms × All HasName ns
All-append_cases [] ns h = (tt, h)
All-append_cases (m ∷ ms) ns h = let (p, q) = All-append_cases ms ns h.1 in ((h.0, p), q)

not_empty : (k : Bytes) → has_byte_first k ≡ true → equal k [] ≡ false
unfolding equal
not_empty [] h = cc
not_empty (c ∷ cs) h = refl

abbrev Anything : Error → Type 0
Anything x = Unit

module _ (H : Hashtab Entry) where
  -- A table without a symbol of the empty name.
  abbrev pub IsNamedTable : H.Table → Type 0
  IsNamedTable t = H.find t [] ≡ none

  AreNamed : Tables H.Table → Type 0
  AreNamed t = IsNamedTable t.global × IsNamedTable t.local

  put-IsNamedTable :
      (t : H.Table) (k : Bytes) (e : Entry)
      → has_byte_first k ≡ true
      → IsNamedTable t
      → IsNamedTable (H.put t k e)
  put-IsNamedTable t k e p h = H.find-put t k [] e ∙ rw (not_empty k p) h

  lookup-IsNamedTable :
      (t : H.Table) (k : Bytes)
      → has_byte_first k ≡ true
      → IsNamedTable t
      → IsNamedTable (symbol_hash_lookup H t k true).0
  unfolding symbol_hash_lookup
  lookup-IsNamedTable t k p h = elim (Option-cases (H.find t k)) [
    | inl e ↦ rw (e, symbol_hash_lookup) (put-IsNamedTable t k fresh p h)
    | inr (x, e) ↦ rw (e, symbol_hash_lookup) h
  ]

  define-IsNamedTable :
      (t : H.Table) (k : Bytes) (type : SymbolType)
      → has_byte_first k ≡ true
      → IsNamedTable t
      → Ensures IsNamedTable Anything (define H t k type)
  unfolding define
  define-IsNamedTable t k type p h =
      let t1 = (symbol_hash_lookup H t k true).0 in
      elim (Result-cases (merge (entry_of H t1 k).type type)) [
        | inl (r, e) ↦ rw e (
            good (put-IsNamedTable t1 k (record { type = some r }) p (lookup-IsNamedTable t k p h)))
        | inr (x, e) ↦ rw e (bad tt)
      ]

  define_in-AreNamed :
      (g : Bool) (k : Bytes) (type : SymbolType) (t : Tables H.Table)
      → has_byte_first k ≡ true
      → AreNamed t
      → Ensures AreNamed Anything (define_in H g k type t)
  unfolding define_in AreNamed
  define_in-AreNamed true k type t p h =
      Ensures-bind (define-IsNamedTable t.global k type p h.0) (λ u i. good (i, h.1))
  define_in-AreNamed false k type t p h =
      Ensures-bind (define-IsNamedTable t.local k type p h.1) (λ u i. good (h.0, i))

  process_marker-AreNamed :
      (m : Marker) (t : Tables H.Table)
      → HasName m
      → AreNamed t
      → Ensures AreNamed Anything (process_marker H m t)
  unfolding process_marker
  process_marker-AreNamed m t p h = elim (Result-cases (marker_type m)) [
    | inl (type, e) ↦ rw e (define_in-AreNamed m.global m.name type t p h)
    | inr (x, e) ↦ rw e (bad tt)
  ]

  replay-AreNamed :
      (ms : List Marker) (t : Tables H.Table)
      → All HasName ms
      → AreNamed t
      → Ensures AreNamed Anything (replay H ms t)
  unfolding replay
  replay-AreNamed [] t p h = good h
  replay-AreNamed (m ∷ ms) t p h =
      Ensures-bind (process_marker-AreNamed m t p.0 h) (λ t' i. replay-AreNamed ms t' p.1 i)

  conclude-AreNamed :
      (e : Ending) (t : Tables H.Table)
      → AreNamed t
      → Ensures (λ r. AreNamed r.0) Anything (conclude e t)
  conclude-AreNamed (ended q) t h = good h
  conclude-AreNamed cut t h = bad tt
  conclude-AreNamed exhausted t h = bad tt

  process_refs_defs-AreNamed :
      (p : Bytes) (t : Tables H.Table)
      → All HasName (listing p).markers
      → AreNamed t
      → Ensures (λ r. AreNamed r.0) Anything (process_refs_defs H p t)
  process_refs_defs-AreNamed p t q h =
      subst (Ensures (λ r. AreNamed r.0) Anything) (sym (process_refs_defs-replay H p t)) (
        Ensures-bind (replay-AreNamed (listing p).markers t q h)
          (λ t' i. conclude-AreNamed (listing p).ending t' i))

  abbrev pub AllNamed : H.Table × List H.Table → Type 0
  AllNamed (g, ls) = IsNamedTable g × All IsNamedTable ls

  All-snoc :
      (ls : List H.Table) (t : H.Table)
      → All IsNamedTable ls
      → IsNamedTable t
      → All IsNamedTable (ls ++ t ∷ [])
  All-snoc [] t p q = (q, tt)
  All-snoc (l ∷ ls) t p q = (p.0, All-snoc ls t p.1 q)

  scan_rest-AllNamed :
      (again : Bytes → H.Table → List H.Table → Result (H.Table × List H.Table))
      (more : Bytes → List Bytes) (ls : List H.Table) (t : Tables H.Table) (rest : Option Bytes)
      → All HasName (markers_of (starts_from more rest))
      → AreNamed t
      → All IsNamedTable ls
      → ((q : Bytes) (g : H.Table) (l : List H.Table)
          → All HasName (markers_of (more q))
          → IsNamedTable g
          → All IsNamedTable l
          → Ensures AllNamed Anything (again q g l))
      → Ensures AllNamed Anything (scan_rest H again ls (t, rest))
  unfolding scan_rest AreNamed
  scan_rest-AllNamed again more ls t none p h i k = good (h.0, All-snoc ls t.local i h.1)
  scan_rest-AllNamed again more ls t (some q) p h i k =
      k q t.global (ls ++ t.local ∷ []) p h.0 (All-snoc ls t.local i h.1)

  scan_part-AllNamed :
      (buf : Bytes) (g : H.Table)
      (again : Bytes → H.Table → List H.Table → Result (H.Table × List H.Table))
      (more : Bytes → List Bytes) (ls : List H.Table) (r : Result (Tables H.Table × Option Bytes))
      → Ensures (λ r. AreNamed r.0) Anything r
      → Ensures (PartScanned H buf (record { global = g; local = H.empty })) IsScanError r
      → All HasName (markers_of (starts_from more (after_nul buf)))
      → All IsNamedTable ls
      → ((q : Bytes) (g : H.Table) (l : List H.Table)
          → All HasName (markers_of (more q))
          → IsNamedTable g
          → All IsNamedTable l
          → Ensures AllNamed Anything (again q g l))
      → Ensures AllNamed Anything (r >>= scan_rest H again ls)
  scan_part-AllNamed buf g again more ls (ok (t, rest)) (good n) (good s) p i k =
      scan_rest-AllNamed again more ls t rest
        (subst (λ o. All HasName (markers_of (starts_from more o))) (sym s.rest) p) n i k
  scan_part-AllNamed buf g again more ls (err x) n s p i k = bad tt

  scan_parts-AllNamed :
      (fuel : ℕ) (buf : Bytes) (g : H.Table) (ls : List H.Table)
      → All HasName (markers_of (part_starts fuel buf))
      → IsNamedTable g
      → All IsNamedTable ls
      → Ensures AllNamed Anything (scan_parts H fuel buf g ls)
  unfolding scan_parts AreNamed
  scan_parts-AllNamed zero buf g ls p h i = bad tt
  scan_parts-AllNamed (suc fuel) buf g ls p h i =
      let t0 : Tables H.Table = record { global = g; local = H.empty } in
      let (p1, p2) =
        All-append_cases (listing buf).markers
          (markers_of (starts_from (part_starts fuel) (after_nul buf))) p in
      scan_part-AllNamed buf g (scan_parts H fuel) (part_starts fuel) ls
        (process_refs_defs H buf t0) (process_refs_defs-AreNamed buf t0 p1 (h, H.find-empty []))
        (process_refs_defs-PartScanned H buf t0) p2 i (scan_parts-AllNamed fuel)

  pub scan_file-AllNamed :
      (buf : Bytes)
      → All HasName (markers_of (parts buf))
      → Ensures AllNamed Anything (scan_file H buf)
  unfolding scan_file
  scan_file-AllNamed buf p =
      scan_parts-AllNamed (suc (length buf)) buf H.empty [] p (H.find-empty []) tt
