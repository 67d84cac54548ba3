-- ===== src/Ld/Marker/Rounds.antt =====
-- What a round of the loop of `process_refs_defs` (nvptx-ld.cc) leaves of the text.
use nvptx_tools.Base.{
  ℕ, ◌≤◌, ◌≡◌, refl, ◌∙◌, ◌++◌, inl, inr, false, Option, none, some, ◌∷◌, arith, ◌==◌, Bool-cases,
  Option-cases, Bytes, codes, length, drop, starts_with, split_line, after_nul, has_byte, Follows,
  Follows-refl, Follows-trans, starts_with-Follows, split_line-Follows,
}
use nvptx_tools.Ld.Marker.{
  Kind, Round, finish, advance, truncated, handle, marker_type, read_weak, read_name, read_marker,
  begin_global, round,
}

abbrev pub IsName : Bytes → Type 0
IsName name = (has_byte b'\n' name ≡ false) × (has_byte 0 name ≡ false)

-- What the loop may rely on after a round at `p`, for a bound `n` on what is left.
abbrev pub Leaves : ℕ → Bytes → Round → Type 0
Leaves n p (finish rest) = rest ≡ after_nul p
Leaves n p (advance rest) = (length rest ≤ n) × (after_nul rest ≡ after_nul p)
Leaves n p truncated = Unit
Leaves n p (handle m rest) = (length rest ≤ n) × (after_nul rest ≡ after_nul p) × IsName m.name

marker_type-Follows : (p : Bytes) → Follows p (marker_type p).1
unfolding marker_type has_byte
marker_type-Follows p = ground (
  arith,
  Follows-refl p,
  starts_with-Follows (codes "VAR DEF: ") p refl,
  starts_with-Follows (codes "FUNCTION DEF: ") p refl,
  starts_with-Follows (codes "VAR DECL: ") p refl,
  starts_with-Follows (codes "FUNCTION DECL: ") p refl,
)

read_weak-Leaves :
    (kind : Kind) (name p q : Bytes)
    → Follows q p
    → IsName name
    → Leaves (length q) q (read_weak kind name p)
unfolding read_weak has_byte
read_weak-Leaves kind name p q f h = ground (arith, starts_with-Follows (codes "\n.weak ") p refl)

Leaves-widen :
    (n m : ℕ) (p q : Bytes) (r : Round)
    → n ≤ m
    → after_nul q ≡ after_nul p
    → Leaves n q r
    → Leaves m p r
Leaves-widen n m p q (finish rest) h e l = l ∙ e
Leaves-widen n m p q (advance rest) h e l = (omega arith, l.1 ∙ e)
Leaves-widen n m p q truncated h e l = tt
Leaves-widen n m p q (handle mk rest) h e l = (omega arith, l.1 ∙ e, l.2)

read_name-Leaves :
    (type : Option Kind) (p q : Bytes)
    → Follows q p
    → Leaves (length q) q (read_name type (split_line p))
read_name-Leaves type p q f = elim (Option-cases (split_line p)) [
  | inl e ↦ rw e (unfold read_name in tt)
  | inr ((name, rest), e) ↦ rw e (found type name rest (split_line-Follows p e))
]
  where
    found :
        (type : Option Kind) (name rest : Bytes)
        → Follows p rest
          × (p ≡ name ++ rest)
          × (has_byte b'\n' name ≡ false)
          × (has_byte 0 name ≡ false)
        → Leaves (length q) q (read_name type (some (name, rest)))
    found none name rest s =
        unfold read_name in ((Follows-trans f s.0).length_le, (Follows-trans f s.0).same_end)
    found (some kind) name rest s =
        unfold read_name in read_weak-Leaves kind name rest q (Follows-trans f s.0) (s.2, s.3)

read_marker-Leaves : (p : Bytes) → Leaves (length p) p (read_marker p)
unfolding read_marker
read_marker-Leaves p =
    read_name-Leaves (marker_type p).0 (marker_type p).1 p (marker_type-Follows p)

pub round-Leaves : (c : ℕ) (cs : Bytes) → Leaves (length cs) (c ∷ cs) (round (c ∷ cs))
unfolding round after_nul
round-Leaves c cs = elim (Bool-cases (c == 0)) [
  | inl nul ↦ rw nul (rw nul)
  | inr more ↦ elim (Bool-cases (starts_with begin_global (c ∷ cs))) [
    | inl begins ↦
        let s = starts_with-Follows begin_global (c ∷ cs) (unfold has_byte in refl) begins in
        rw (more, begins)
          (Leaves-widen (length (drop 17 (c ∷ cs))) (length cs) (c ∷ cs) (drop 17 (c ∷ cs)) _
            (omega arith) s.0.same_end (read_marker-Leaves (drop 17 (c ∷ cs))))
    | inr other ↦ rw (more, other) (omega arith, rw more)
  ]
]
