-- ===== src/Nm/Display/Collation.antt =====
-- The predicates by which nvptx-nm.cc sorts, as orders, on a locale whose `strcoll` is one.
use nvptx_tools.Base.{◌≡◌, refl, ap, sym, ◌∙◌, Bool, true, false, Bytes, arith, if◌then◌else◌}
use nvptx_tools.Libc.{ℤ, pos, negsuc}
use nvptx_tools.Result.{Result, ok, err, ◌>>=◌}
use nvptx_tools.Nm.Display.{
  Symbol, is_undefined_symbol, opposite, is_positive, has_byte_first, non_numeric_forward,
  non_numeric_reverse, numeric_forward, numeric_reverse, sorters,
}

-- What the tools rely on of `strcoll`: exchanging the strings turns the sign, and its order is
-- transitive.
pub record Collation : Type 0 where
  pub strcoll : Bytes → Bytes → ℤ
  pub turns : (s r : Bytes) → is_positive (strcoll s r) ≡ is_positive (opposite (strcoll r s))
  pub trans :
      (s r q : Bytes)
      → is_positive (strcoll s r) ≡ false
      → is_positive (strcoll r q) ≡ false
      → is_positive (strcoll s q) ≡ false

-- The symbols that the predicates can compare.
abbrev pub IsNamed : Symbol → Type 0
IsNamed x = has_byte_first x.0 ≡ true

abbrev pub value : Result ℤ → ℤ
value (ok n) = n
value (err e) = pos 0

-- A predicate that orders the named symbols.
pub record IsOrder (compar : Symbol → Symbol → Result ℤ) : Type 0 where
  pub decided : (x y : Symbol) → IsNamed x → IsNamed y → compar x y ≡ ok (value (compar x y))
  pub turns :
      (x y : Symbol)
      → IsNamed x
      → IsNamed y
      → is_positive (value (compar x y)) ≡ is_positive (opposite (value (compar y x)))
  pub trans :
      (x y z : Symbol)
      → IsNamed x
      → IsNamed y
      → IsNamed z
      → is_positive (value (compar x y)) ≡ false
      → is_positive (value (compar y z)) ≡ false
      → is_positive (value (compar x z)) ≡ false

opposite_twice : (n : ℤ) → opposite (opposite n) ≡ n
opposite_twice n = ground arith

pub opposite_positive : (n : ℤ) → is_positive (opposite n) ≡ true → is_positive n ≡ false
opposite_positive n h = ground arith

-- The predicate with the sign turned.
abbrev reversed : (Symbol → Symbol → Result ℤ) → Symbol → Symbol → Result ℤ
reversed compar x y = compar x y >>= λ n. ok (opposite n)

reversed-IsOrder :
    (compar : Symbol → Symbol → Result ℤ) → IsOrder compar → IsOrder (reversed compar)
reversed-IsOrder compar o = record {
  decided = λ x y p q. rw (o.decided x y p q);
  turns = λ x y p q.
      ap is_positive (at x y p q)
      ∙ sym (o.turns y x q p)
      ∙ ap is_positive (sym (opposite_twice (value (compar y x))))
      ∙ ap (λ n. is_positive (opposite n)) (sym (at y x q p));
  trans = λ x y z p q r h g.
      ap is_positive (at x z p r)
      ∙ sym (o.turns z x r p)
      ∙ o.trans z y x r q p (o.turns z y r q ∙ sym (ap is_positive (at y z q r)) ∙ g)
          (o.turns y x q p ∙ sym (ap is_positive (at x y p q)) ∙ h);
}
  where
    at :
        (x y : Symbol)
        → IsNamed x
        → IsNamed y
        → value (reversed compar x y) ≡ opposite (value (compar x y))
    at x y p q = rw (o.decided x y p q)

module _ (c : Collation) where
  pub forward_value :
      (x y : Symbol)
      → IsNamed x
      → IsNamed y
      → non_numeric_forward c.strcoll x y ≡ ok (c.strcoll x.0 y.0)
  unfolding non_numeric_forward
  forward_value x y p q = rw p (rw q refl)

  non_numeric_forward-IsOrder : IsOrder (non_numeric_forward c.strcoll)
  non_numeric_forward-IsOrder = record {
    decided = λ x y p q. rw (forward_value x y p q);
    turns = λ x y p q. rw (forward_value x y p q) (rw (forward_value y x q p) (c.turns x.0 y.0));
    trans = λ x y z p q r.
        rw (forward_value x y p q)
          (rw (forward_value y z q r) (rw (forward_value x z p r) (c.trans x.0 y.0 z.0)));
  }

  -- `numeric_forward`, by whether the symbols are undefined.
  abbrev pub by_defined : Bool → Bool → ℤ → ℤ
  by_defined ux uy n = if ux then (if uy then n else negsuc 0) else if uy then pos 1 else n

  pub numeric_value :
      (x y : Symbol)
      → IsNamed x
      → IsNamed y
      → numeric_forward c.strcoll x y
        ≡ ok (by_defined (is_undefined_symbol x) (is_undefined_symbol y) (c.strcoll x.0 y.0))
  unfolding numeric_forward
  numeric_value x y p q = rw (forward_value x y p q) (ground arith)

  pub by_defined_turns :
      (ux uy : Bool) (n m : ℤ)
      → is_positive n ≡ is_positive (opposite m)
      → is_positive (by_defined ux uy n) ≡ is_positive (opposite (by_defined uy ux m))
  by_defined_turns ux uy n m h = ground arith

  by_defined_trans :
      (ux uy uz : Bool) (n m l : ℤ)
      → (is_positive n ≡ false → is_positive m ≡ false → is_positive l ≡ false)
      → is_positive (by_defined ux uy n) ≡ false
      → is_positive (by_defined uy uz m) ≡ false
      → is_positive (by_defined ux uz l) ≡ false
  by_defined_trans true true true n m l k h g = k h g
  by_defined_trans true uy false n m l k h g = refl
  by_defined_trans true false true n m l k h g = cc
  by_defined_trans false true uz n m l k h g = cc
  by_defined_trans false false true n m l k h g = cc
  by_defined_trans false false false n m l k h g = k h g

  numeric_forward-IsOrder : IsOrder (numeric_forward c.strcoll)
  numeric_forward-IsOrder = record {
    decided = λ x y p q. rw (numeric_value x y p q);
    turns = λ x y p q. rw (numeric_value x y p q) (
        rw (numeric_value y x q p) (
          by_defined_turns (is_undefined_symbol x) (is_undefined_symbol y) (c.strcoll x.0 y.0)
            (c.strcoll y.0 x.0) (c.turns x.0 y.0)));
    trans = λ x y z p q r. rw (numeric_value x y p q) (
        rw (numeric_value y z q r) (
          rw (numeric_value x z p r) (
            by_defined_trans (is_undefined_symbol x) (is_undefined_symbol y) (is_undefined_symbol z)
              (c.strcoll x.0 y.0) (c.strcoll y.0 z.0) (c.strcoll x.0 z.0) (c.trans x.0 y.0 z.0))));
  }

  pub sorters-IsOrder :
      (numerically reverse : Bool) → IsOrder (sorters c.strcoll numerically reverse)
  unfolding sorters non_numeric_reverse numeric_reverse
  sorters-IsOrder false false = non_numeric_forward-IsOrder
  sorters-IsOrder false true =
      reversed-IsOrder (non_numeric_forward c.strcoll) non_numeric_forward-IsOrder
  sorters-IsOrder true false = numeric_forward-IsOrder
  sorters-IsOrder true true = reversed-IsOrder (numeric_forward c.strcoll) numeric_forward-IsOrder
