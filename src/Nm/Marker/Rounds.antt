-- ===== src/Nm/Marker/Rounds.antt =====
-- What a round of the loop of `process_refs_defs` (nvptx-nm.cc) leaves of the text.
use nvptx_tools.Base.{
  ℕ, ◌+◌, ◌≤◌, ◌≡◌, refl, ◌∙◌, inl, inr, Bool, true, false, Option, none, some, ◌∷◌, arith, ◌==◌,
  Bool-cases, Option-cases, Bytes, codes, length, drop, starts_with, split_line, after_nul,
  has_byte, Follows, Follows-refl, Follows-trans, starts_with-Follows, split_line-Follows,
}
use nvptx_tools.Nm.Marker.{
  Kind, Round, finish, advance, truncated, handle, marker_kind, read_weak, read_name, read_marker,
  begin_global, begin_local, round,
}

-- What the loop may rely on after a round at `p`, for a bound `n` on what is left.
abbrev pub Leaves : ℕ → Bytes → Round → Type 0
Leaves n p (finish rest) = rest ≡ after_nul p
Leaves n p (advance rest) = (length rest ≤ n) × (after_nul rest ≡ after_nul p)
Leaves n p truncated = Unit
Leaves n p (handle m rest) = (length rest ≤ n) × (after_nul rest ≡ after_nul p)

marker_kind-Follows : (p : Bytes) → Follows p (marker_kind p).1
unfolding marker_kind has_byte
marker_kind-Follows p = ground (
  arith,
  Follows-refl p,
  starts_with-Follows (codes "VAR DEF: ") p refl,
  starts_with-Follows (codes "FUNCTION DEF: ") p refl,
  starts_with-Follows (codes "VAR DECL: ") p refl,
  starts_with-Follows (codes "FUNCTION DECL: ") p refl,
)

read_weak-Leaves :
    (global : Bool) (kind : Kind) (name p q : Bytes)
    → Follows q p
    → Leaves (length q) q (read_weak global kind name p)
unfolding read_weak has_byte
read_weak-Leaves global kind name p q f =
    ground (arith, starts_with-Follows (codes "\n.weak ") p refl)

Leaves-widen :
    (n m : ℕ) (p q : Bytes) (r : Round)
    → n ≤ m
    → after_nul q ≡ after_nul p
    → Leaves n q r
    → Leaves m p r
Leaves-widen n m p q (finish rest) h e l = l ∙ e
Leaves-widen n m p q (advance rest) h e l = (omega arith, l.1 ∙ e)
Leaves-widen n m p q truncated h e l = tt
Leaves-widen n m p q (handle mk rest) h e l = (omega arith, l.1 ∙ e)

read_name-Leaves :
    (global : Bool) (kind : Option Kind) (p q : Bytes)
    → Follows q p
    → Leaves (length q) q (read_name global kind (split_line p))
read_name-Leaves global kind p q f = elim (Option-cases (split_line p)) [
  | inl e ↦ rw e (unfold read_name in tt)
  | inr ((name, rest), e) ↦ rw e (found kind name rest (Follows-trans f (split_line-Follows p e).0))
]
  where
    found :
        (kind : Option Kind) (name rest : Bytes)
        → Follows q rest
        → Leaves (length q) q (read_name global kind (some (name, rest)))
    found none name rest s = unfold read_name in (s.length_le, s.same_end)
    found (some k) name rest s = unfold read_name in read_weak-Leaves global k name rest q s

read_marker-Leaves : (global : Bool) (p : Bytes) → Leaves (length p) p (read_marker global p)
unfolding read_marker
read_marker-Leaves global p =
    read_name-Leaves global (marker_kind p).0 (marker_kind p).1 p (marker_kind-Follows p)

-- Behind a literal of a marker that stands at the place.
behind_begin :
    (global : Bool) (literal p : Bytes) (n : ℕ)
    → has_byte 0 literal ≡ false
    → starts_with literal p ≡ true
    → length p ≤ n + length literal
    → Leaves n p (read_marker global (drop (length literal) p))
behind_begin global literal p n plain begins short =
    let s = starts_with-Follows literal p plain begins in
    Leaves-widen (length (drop (length literal) p)) n p (drop (length literal) p) _
      (omega (arith, s.1)) s.0.same_end (read_marker-Leaves global (drop (length literal) p))

pub round-Leaves : (c : ℕ) (cs : Bytes) → Leaves (length cs) (c ∷ cs) (round (c ∷ cs))
unfolding round after_nul has_byte
round-Leaves c cs = elim (Bool-cases (c == 0)) [
  | inl nul ↦ rw nul (rw nul)
  | inr more ↦ elim (Bool-cases (starts_with begin_global (c ∷ cs))) [
    | inl begins ↦
        rw (more, begins)
          (behind_begin true begin_global (c ∷ cs) (length cs) refl begins (omega arith))
    | inr other ↦ elim (Bool-cases (starts_with begin_local (c ∷ cs))) [
      | inl begins ↦
          rw (more, other, begins)
            (behind_begin false begin_local (c ∷ cs) (length cs) refl begins (omega arith))
      | inr no_marker ↦ rw (more, other, no_marker) (omega arith, rw more)
    ]
  ]
]
