-- ===== src/Nm/Process/Ends.antt =====
-- The end of the loop of nvptx-nm.cc `process_refs_defs`, and the parts of a file.
use nvptx_tools.Base.{
  ℕ, zero, suc, ◌≤◌, ◌<◌, ◌≡◌, refl, ap, sym, subst, Bool, ◌⊎◌, inl, inr, Option, none, some, List,
  [], ◌∷◌, ◌++◌, Bytes, length, after_nul, arith, Bool-cases,
}
use nvptx_tools.Hashtab.{Hashtab}
use nvptx_tools.Result.{
  Error, Result-cases, ok, err, ◌>>=◌, truncated_marker, weak_local, assertion,
}
use nvptx_tools.Result.Ensures.{Ensures, good, bad, Ensures-bind, Ensures-weaken}
use nvptx_tools.Nm.Symbol.{SymbolType, Entry, merge, merge_seen}
use nvptx_tools.Nm.Symbol.Merge.{merge_all, merge_seen-err}
use nvptx_tools.Nm.Marker.{Marker, Round, finish, advance, truncated, handle, round}
use nvptx_tools.Nm.Marker.Rounds.{Leaves, round-Leaves}
use nvptx_tools.Nm.Process.{Tables, marker_type, process_refs_defs}
use nvptx_tools.Nm.Process.Fold.{
  Ending, ended, cut, Listing, listing, read, read_round, conclude, is_of, types_of,
  process_refs_defs-replay,
}
use nvptx_tools.Nm.Process.Types.{Becomes, Fails, weak_symbol, bad_type, replay-Becomes}

abbrev Ends : Option Bytes → Ending → Type 0
Ends end e = (e ≡ ended end) ⊎ (e ≡ cut)

read_round-Ends :
    (rest : Bytes → Listing) (n : ℕ) (p : Bytes)
    → ((q : Bytes) → length q ≤ n → Ends (after_nul q) (rest q).ending)
    → (r : Round) → Leaves n p r
    → Ends (after_nul p) (read_round rest r).ending
unfolding read_round
read_round-Ends rest n p h (finish e) l = inl (ap ended l)
read_round-Ends rest n p h (advance q) l = rw l.1 at (h q l.0)
read_round-Ends rest n p h truncated l = inr refl
read_round-Ends rest n p h (handle m q) l = rw l.1 at (h q l.0)

read-Ends : (fuel : ℕ) (p : Bytes) → length p < fuel → Ends (after_nul p) (read fuel p).ending
unfolding read
read-Ends zero p h = absurd (omega arith)
read-Ends (suc fuel) [] h = unfold round read_round after_nul in inl refl
read-Ends (suc fuel) (c ∷ cs) h =
    read_round-Ends (read fuel) (length cs) (c ∷ cs) (λ q le. read-Ends fuel q (omega arith))
      (round (c ∷ cs)) (round-Leaves c cs)

listing-Ends : (p : Bytes) → Ends (after_nul p) (listing p).ending
unfolding listing
listing-Ends p = read-Ends (suc (length p)) p (omega arith)

merge_all-err :
    (acc : Option SymbolType) (ts : List SymbolType) (x : Error)
    → merge_all acc ts ≡ err x
    → x ≡ assertion
unfolding merge_all merge
merge_all-err acc [] x h = cc
merge_all-err none (t ∷ ts) x h = merge_all-err (some t) ts x h
merge_all-err (some a) (t ∷ ts) x h = elim (Result-cases (merge_seen a t)) [
  | inl (r, e) ↦ merge_all-err (some r) ts x (rw e at h)
  | inr (y, e) ↦ let f : y ≡ assertion = (merge_seen-err a t y e).0 in cc (e, h)
]

pub merge_all-append :
    (acc : Option SymbolType) (ts us : List SymbolType) {r : Option SymbolType}
    → merge_all acc ts ≡ ok r
    → merge_all acc (ts ++ us) ≡ merge_all r us
unfolding merge_all
merge_all-append acc [] us {r} h = let e : acc ≡ r = cc in ap (λ a. merge_all a us) e
merge_all-append acc (t ∷ ts) us h = elim (Result-cases (merge acc t)) [
  | inl (r', e) ↦ rw e (merge_all-append (some r') ts us (rw e at h))
  | inr (x, e) ↦ absurd (cc (ap (λ m. m >>= λ q. merge_all (some q) ts) e, h))
]

pub types_of-append :
    (g : Bool) (k : Bytes) (ms ns : List Marker)
    → types_of g k (ms ++ ns) ≡ types_of g k ms ++ types_of g k ns
types_of-append g k [] ns = refl
types_of-append g k (m ∷ ms) ns = elim (Bool-cases (is_of g k m)) [
  | inl mine ↦ elim (Result-cases (marker_type m)) [
    | inl (type, e) ↦ rw (mine, e) (ap (◌∷◌ type) (types_of-append g k ms ns))
    | inr (x, e) ↦ rw (mine, e) (types_of-append g k ms ns)
  ]
  | inr other ↦ rw other (types_of-append g k ms ns)
]

-- The failures of a scan: a truncated marker line, a "weak" symbol that is not global, or markers of
-- a symbol that do not agree, where an assertion fails.
pub data IsScanError (x : Error) : Type 0 where
  truncated_line : x ≡ truncated_marker → IsScanError x
  weak_line : (k : Bytes) → x ≡ weak_local k → IsScanError x
  disagreement : x ≡ assertion → IsScanError x

module _ (H : Hashtab Entry) where
  -- A part of a file handled: each symbol has the merge of its types, and the place behind the part
  -- is returned.
  pub record PartScanned (p : Bytes) (t : Tables H.Table) (r : Tables H.Table × Option Bytes)
      : Type 0 where
    pub becomes : Becomes H (listing p).markers t r.0
    pub rest : r.1 ≡ after_nul p

  conclude-PartScanned :
      (p : Bytes) (e : Ending) (t t' : Tables H.Table)
      → Ends (after_nul p) e
      → Becomes H (listing p).markers t t'
      → Ensures (PartScanned p t) IsScanError (conclude e t')
  conclude-PartScanned p e t t' (inl is) b = rw is (good (record { becomes = b; rest = refl }))
  conclude-PartScanned p e t t' (inr is) b = rw is (bad (truncated_line refl))

  Fails-IsScanError :
      (ms : List Marker) (t : Tables H.Table) (x : Error) → Fails H ms t x → IsScanError x
  Fails-IsScanError ms t x (weak_symbol k e h) = weak_line k e
  Fails-IsScanError ms t x (bad_type g k h) = disagreement (merge_all-err _ (types_of g k ms) x h)

  -- `process_refs_defs` gives each symbol, global and local, the merge of the type that it had and
  -- those of its markers in the text, in their order, and returns the place behind the NUL; or it
  -- fails at a truncated marker line, a "weak" symbol that is not global, or markers that do not agree.
  pub process_refs_defs-PartScanned :
      (p : Bytes) (t : Tables H.Table)
      → Ensures (PartScanned p t) IsScanError (process_refs_defs H p t)
  process_refs_defs-PartScanned p t =
      subst (Ensures (PartScanned p t) IsScanError) (sym (process_refs_defs-replay H p t)) (
        Ensures-bind
          (Ensures-weaken (λ t' b. b) (λ x f. Fails-IsScanError (listing p).markers t x f)
            (replay-Becomes H (listing p).markers t))
          (λ t' b. conclude-PartScanned p (listing p).ending t t' (listing-Ends p) b))
