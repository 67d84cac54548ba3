-- ===== src/Nm/Process/Types.antt =====
-- What the loop of nvptx-nm.cc `process_refs_defs` makes of the type of each symbol.
use nvptx_tools.Base.{
  ◌≡◌, refl, ap, sym, ◌∙◌, Bool, true, false, not, ◌&&◌, ◌||◌, inl, inr, some, List, [], ◌∷◌, Bytes,
  equal, equal_iff, equal_refl, if◌then◌else◌, Bool-cases, and_true, or_true, arith,
}
use nvptx_tools.Hashtab.{Hashtab}
use nvptx_tools.Result.{Error, ok, err, weak_local}
use nvptx_tools.Result.Ensures.{Ensures, good, bad, Ensures-bind, Ensures-weaken}
use nvptx_tools.Nm.Symbol.{SymbolType, Entry, entry_of, merge}
use nvptx_tools.Nm.Symbol.Merge.{merge_all}
use nvptx_tools.Nm.Symbol.Table.{define-Defined}
use nvptx_tools.Nm.Marker.{Marker, Kind, var_def, function_def, decl, type_of}
use nvptx_tools.Nm.Process.{Tables, marker_type, weaken, define_in, process_marker}
use nvptx_tools.Nm.Process.Fold.{seen, is_of, types_of, replay}

-- A marker of a "weak" symbol that is not global.
abbrev pub has_weak_local : Bytes → List Marker → Bool
has_weak_local k [] = false
has_weak_local k (m ∷ ms) = (m.weak && (not m.global && equal m.name k)) || has_weak_local k ms

weak_type : (kind : Kind) → (type : SymbolType) × (weaken (type_of true kind) ≡ ok type)
weak_type var_def = (SymbolType.weak_var, refl)
weak_type function_def = (SymbolType.weak_function, refl)
weak_type decl = (SymbolType.weak_undefined, refl)

-- A marker has a type, or is "weak" and not global.
data Typed (m : Marker) : Type 0 where
  typed : (type : SymbolType) → marker_type m ≡ ok type → Typed m
  untyped : marker_type m ≡ err (weak_local m.name) → m.weak ≡ true → m.global ≡ false → Typed m

marker_typed : (m : Marker) → Typed m
unfolding marker_type
marker_typed m = elim (Bool-cases m.weak) [
  | inl w ↦ elim (Bool-cases m.global) [
    | inl g ↦ let (type, e) = weak_type m.kind in typed type (rw w (rw g e))
    | inr l ↦ untyped (rw w (rw l refl)) w l
  ]
  | inr s ↦ typed (type_of m.global m.kind) (rw s refl)
]

-- `is_of`, by the parts of the marker.
abbrev is_at : Bool → Bytes → Bool → Bytes → Bool
is_at g k global name = (if g then global else (if global then false else true)) && equal name k

same_table :
    (g global : Bool) → (if g then global else (if global then false else true)) ≡ true → g ≡ global
same_table g global h = ground arith

module _ (H : Hashtab Entry) where
  record Changed (global : Bool) (name : Bytes) (type : SymbolType) (t t' : Tables H.Table)
      : Type 0 where
    merged_type : SymbolType
    merged : merge (seen H global name t) type ≡ ok merged_type
    here : seen H global name t' ≡ some merged_type
    others : (g : Bool) (k : Bytes) → is_at g k global name ≡ false → seen H g k t' ≡ seen H g k t

  abbrev KeepsOthers : Bytes → H.Table → H.Table → Type 0
  KeepsOthers name u u' =
      (k : Bytes) → equal name k ≡ false → (entry_of H u' k).type ≡ (entry_of H u k).type

  others_global :
      (t : Tables H.Table) (u : H.Table) (name : Bytes)
      → KeepsOthers name t.global u
      → (g : Bool) (k : Bytes) → is_at g k true name ≡ false
      → seen H g k (record t { global = u }) ≡ seen H g k t
  others_global t u name h true k n = h k n
  others_global t u name h false k n = refl

  others_local :
      (t : Tables H.Table) (u : H.Table) (name : Bytes)
      → KeepsOthers name t.local u
      → (g : Bool) (k : Bytes) → is_at g k false name ≡ false
      → seen H g k (record t { local = u }) ≡ seen H g k t
  others_local t u name h true k n = refl
  others_local t u name h false k n = h k n

  define_in-Changed :
      (global : Bool) (name : Bytes) (type : SymbolType) (t : Tables H.Table)
      → Ensures
          (Changed global name type t)
          (λ x. merge (seen H global name t) type ≡ err x)
          (define_in H global name type t)
  unfolding define_in
  define_in-Changed true name type t = Ensures-bind (define-Defined H t.global name type) (λ u d.
      good (record {
        merged_type = d.merged_type;
        merged = d.merged;
        here = d.here;
        others = others_global t u name d.others;
      }))
  define_in-Changed false name type t = Ensures-bind (define-Defined H t.local name type) (λ u d.
      good (record {
        merged_type = d.merged_type;
        merged = d.merged;
        here = d.here;
        others = others_local t u name d.others;
      }))

  -- What a symbol's type becomes over the markers of a list.
  abbrev pub Becomes : List Marker → Tables H.Table → Tables H.Table → Type 0
  Becomes ms t t' =
      (g : Bool) (k : Bytes) → merge_all (seen H g k t) (types_of g k ms) ≡ ok (seen H g k t')

  -- The failures: a "weak" symbol that is not global, or one whose markers do not agree.
  pub data Fails (ms : List Marker) (t : Tables H.Table) (x : Error) : Type 0 where
    weak_symbol : (k : Bytes) → x ≡ weak_local k → has_weak_local k ms ≡ true → Fails ms t x
    bad_type :
        (g : Bool) (k : Bytes) → merge_all (seen H g k t) (types_of g k ms) ≡ err x → Fails ms t x

  -- The types of the markers of a symbol, from a state on, behind a first marker.
  step_types :
      (m : Marker) (ms : List Marker) (type : SymbolType) (t t' : Tables H.Table)
      → marker_type m ≡ ok type
      → Changed m.global m.name type t t'
      → (g : Bool) (k : Bytes)
      → merge_all (seen H g k t) (types_of g k (m ∷ ms))
        ≡ merge_all (seen H g k t') (types_of g k ms)
  unfolding merge_all
  step_types m ms type t t' e c g k = elim (Bool-cases (is_of g k m)) [
    | inl mine ↦ rw mine (
        rw e (
          let at : (seen H g k t ≡ seen H m.global m.name t)
              × (seen H g k t' ≡ seen H m.global m.name t') =
            same_place mine in
          rw at.0 (rw at.1 (rw c.here (rw c.merged refl)))))
    | inr other ↦ rw other (rw (c.others g k other) refl)
  ]
    where
      same_place :
          is_of g k m ≡ true
          → (seen H g k t ≡ seen H m.global m.name t) × (seen H g k t' ≡ seen H m.global m.name t')
      same_place h =
          let (table, name) = and_true h in
          let p = same_table g m.global table in
          let q = sym ((equal_iff m.name k).0 name) in
          (
            ap (λ b. seen H b k t) p ∙ ap (λ n. seen H m.global n t) q,
            ap (λ b. seen H b k t') p ∙ ap (λ n. seen H m.global n t') q,
          )

  Becomes-cons :
      (m : Marker) (ms : List Marker) (type : SymbolType) (t t1 t' : Tables H.Table)
      → marker_type m ≡ ok type
      → Changed m.global m.name type t t1
      → Becomes ms t1 t'
      → Becomes (m ∷ ms) t t'
  Becomes-cons m ms type t t1 t' e c b g k = step_types m ms type t t1 e c g k ∙ b g k

  Fails-cons :
      (m : Marker) (ms : List Marker) (type : SymbolType) (t t1 : Tables H.Table) (x : Error)
      → marker_type m ≡ ok type
      → Changed m.global m.name type t t1
      → Fails ms t1 x
      → Fails (m ∷ ms) t x
  Fails-cons m ms type t t1 x e c (weak_symbol k p h) = weak_symbol k p (rw h (or_true _))
  Fails-cons m ms type t t1 x e c (bad_type g k h) =
      bad_type g k (step_types m ms type t t1 e c g k ∙ h)

  merge-Fails :
      (m : Marker) (ms : List Marker) (type : SymbolType) (t : Tables H.Table) (x : Error)
      → marker_type m ≡ ok type
      → merge (seen H m.global m.name t) type ≡ err x
      → Fails (m ∷ ms) t x
  unfolding merge_all
  merge-Fails m ms type t x e h =
      bad_type m.global m.name (rw (own m.global) (rw (equal_refl m.name) (rw e (rw h refl))))
    where
      own : (g : Bool) → (if g then g else (if g then false else true)) ≡ true
      own g = ground arith

  process_marker-Changed :
      (m : Marker) (type : SymbolType) (t : Tables H.Table)
      → marker_type m ≡ ok type
      → Ensures
          (Changed m.global m.name type t)
          (λ x. merge (seen H m.global m.name t) type ≡ err x)
          (process_marker H m t)
  unfolding process_marker
  process_marker-Changed m type t e = rw e (define_in-Changed m.global m.name type t)

  -- From any tables, the handling of a list of markers gives each symbol the merge of its types.
  pub replay-Becomes :
      (ms : List Marker) (t : Tables H.Table) → Ensures (Becomes ms t) (Fails ms t) (replay H ms t)
  unfolding replay merge_all
  replay-Becomes [] t = good (λ g k. refl)
  replay-Becomes (m ∷ ms) t = elim (marker_typed m) [
    | typed type e ↦
        Ensures-bind
          (Ensures-weaken (λ t1 c. c) (λ x h. merge-Fails m ms type t x e h)
            (process_marker-Changed m type t e))
          (λ t1 c.
            Ensures-weaken (λ t' b. Becomes-cons m ms type t t1 t' e c b)
              (λ x f. Fails-cons m ms type t t1 x e c f) (replay-Becomes ms t1))
    | untyped e w l ↦
        unfold process_marker in
        rw e (bad (weak_symbol m.name refl (rw w (rw l (rw (equal_refl m.name))))))
  ]
