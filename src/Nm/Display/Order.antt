-- ===== src/Nm/Display/Order.antt =====
-- The order in which nvptx-nm.cc displays the symbols.
use nvptx_tools.Base.{
  ℕ, ◌+◌, ◌≡◌, refl, ap, sym, ◌∙◌, Bool, true, false, List, [], ◌∷◌, All, arith, if◌then◌else◌,
  Bool-cases, inl, inr,
}
use nvptx_tools.Libc.{ℤ}
use nvptx_tools.Result.{Result, ok}
use nvptx_tools.Result.Ensures.{Ensures, good}
use nvptx_tools.Nm.Display.{Symbol, is_positive, sorters, insert_symbol, qsort}
use nvptx_tools.Nm.Display.Before.{IsBefore, sorters-IsBefore}
use nvptx_tools.Nm.Display.Collation.{
  Collation, IsNamed, value, IsOrder, opposite_positive, sorters-IsOrder,
}

abbrev pub count : (Symbol → Bool) → List Symbol → ℕ
count p [] = 0
count p (x ∷ xs) = (if p x then 1 else 0) + count p xs

-- Of a predicate's call: it does not put the first symbol behind the second.
abbrev InOrder : Result ℤ → Type 0
InOrder r = (n : ℤ) × (r ≡ ok n) × (is_positive n ≡ false)

-- No symbol stands before one that the predicate puts in front of it.
abbrev IsSorted : (Symbol → Symbol → Result ℤ) → List Symbol → Type 0
IsSorted compar [] = Unit
IsSorted compar (x ∷ xs) = All (λ y. InOrder (compar x y)) xs × IsSorted compar xs

module _ (compar : Symbol → Symbol → Result ℤ) (o : IsOrder compar) where
  in_order :
      (x y : Symbol)
      → IsNamed x
      → IsNamed y
      → is_positive (value (compar x y)) ≡ false
      → InOrder (compar x y)
  in_order x y p q h = (value (compar x y), o.decided x y p q, h)

  value_of : (x y : Symbol) → InOrder (compar x y) → is_positive (value (compar x y)) ≡ false
  value_of x y (n, e, h) = ap (λ r. is_positive (value r)) e ∙ h

  All-trans :
      (x y : Symbol) (zs : List Symbol)
      → IsNamed x
      → IsNamed y
      → All IsNamed zs
      → is_positive (value (compar x y)) ≡ false
      → All (λ z. InOrder (compar y z)) zs
      → All (λ z. InOrder (compar x z)) zs
  All-trans x y [] p q r h g = tt
  All-trans x y (z ∷ zs) p q r h g = (
    in_order x z p r.0 (o.trans x y z p q r.0 h (value_of y z g.0)),
    All-trans x y zs p q r.1 h g.1,
  )

  -- The sort, of symbols that can be compared.
  inserted : Symbol → List Symbol → List Symbol
  inserted x [] = x ∷ []
  inserted x (y ∷ ys) =
      let rest = inserted x ys in if is_positive (value (compar x y)) then y ∷ rest else x ∷ y ∷ ys

  in_sorted : List Symbol → List Symbol
  in_sorted [] = []
  in_sorted (x ∷ xs) = inserted x (in_sorted xs)

  insert_symbol-ok :
      (x : Symbol) (ys : List Symbol)
      → IsNamed x
      → All IsNamed ys
      → insert_symbol compar x ys ≡ ok (inserted x ys)
  unfolding insert_symbol inserted
  insert_symbol-ok x [] p q = refl
  insert_symbol-ok x (y ∷ ys) p q =
      rw (o.decided x y p q.0) (rw (insert_symbol-ok x ys p q.1) (ground arith))

  All-inserted :
      (P : Symbol → Type 0) (x : Symbol) (ys : List Symbol) → P x → All P ys → All P (inserted x ys)
  unfolding inserted
  All-inserted P x [] h g = (h, tt)
  All-inserted P x (y ∷ ys) h g = elim (Bool-cases (is_positive (value (compar x y)))) [
    | inl later ↦ rw later (g.0, All-inserted P x ys h g.1)
    | inr first ↦ rw first (h, g)
  ]

  All-in_sorted : (P : Symbol → Type 0) (xs : List Symbol) → All P xs → All P (in_sorted xs)
  unfolding in_sorted
  All-in_sorted P [] h = tt
  All-in_sorted P (x ∷ xs) h = All-inserted P x (in_sorted xs) h.0 (All-in_sorted P xs h.1)

  count-inserted :
      (p : Symbol → Bool) (x : Symbol) (ys : List Symbol)
      → count p (inserted x ys) ≡ count p (x ∷ ys)
  unfolding inserted
  count-inserted p x [] = refl
  count-inserted p x (y ∷ ys) = elim (Bool-cases (is_positive (value (compar x y)))) [
    | inl later ↦ rw later (omega (arith, count-inserted p x ys))
    | inr first ↦ rw first
  ]

  count-in_sorted : (p : Symbol → Bool) (xs : List Symbol) → count p (in_sorted xs) ≡ count p xs
  unfolding in_sorted
  count-in_sorted p [] = refl
  count-in_sorted p (x ∷ xs) =
      count-inserted p x (in_sorted xs)
      ∙ ap (λ n. (if p x then 1 else 0) + n) (count-in_sorted p xs)

  behind :
      (x y : Symbol)
      → IsNamed x
      → IsNamed y
      → is_positive (value (compar x y)) ≡ true
      → is_positive (value (compar y x)) ≡ false
  behind x y p q h = opposite_positive (value (compar y x)) (sym (o.turns x y p q) ∙ h)

  inserted-IsSorted :
      (x : Symbol) (ys : List Symbol)
      → IsNamed x
      → All IsNamed ys
      → IsSorted compar ys
      → IsSorted compar (inserted x ys)
  unfolding inserted
  inserted-IsSorted x [] p q s = (tt, tt)
  inserted-IsSorted x (y ∷ ys) p q s = elim (Bool-cases (is_positive (value (compar x y)))) [
    | inl later ↦ rw later (
      All-inserted (λ z. InOrder (compar y z)) x ys (in_order y x q.0 p (behind x y p q.0 later))
          s.0,
      inserted-IsSorted x ys p q.1 s.1,
    )
    | inr first ↦ rw first ((in_order x y p q.0 first, All-trans x y ys p q.0 q.1 first s.0), s)
  ]

  in_sorted-IsSorted : (xs : List Symbol) → All IsNamed xs → IsSorted compar (in_sorted xs)
  unfolding in_sorted
  in_sorted-IsSorted [] h = tt
  in_sorted-IsSorted (x ∷ xs) h =
      inserted-IsSorted x (in_sorted xs) h.0 (All-in_sorted IsNamed xs h.1)
        (in_sorted-IsSorted xs h.1)

  qsort-ok : (xs : List Symbol) → All IsNamed xs → qsort compar xs ≡ ok (in_sorted xs)
  unfolding qsort in_sorted
  qsort-ok [] h = refl
  qsort-ok (x ∷ xs) h =
      rw (qsort-ok xs h.1) (insert_symbol-ok x (in_sorted xs) h.0 (All-in_sorted IsNamed xs h.1))

module _ (c : Collation) (numerically reverse : Bool) where
  -- Each symbol may stand before all behind it.
  abbrev pub IsOrdered : List Symbol → Type 0
  IsOrdered [] = Unit
  IsOrdered (x ∷ xs) = All (IsBefore c numerically reverse x) xs × IsOrdered xs

  All-IsBefore :
      (x : Symbol) (ys : List Symbol)
      → IsNamed x
      → All IsNamed ys
      → All (λ y. InOrder (sorters c.strcoll numerically reverse x y)) ys
      → All (IsBefore c numerically reverse x) ys
  All-IsBefore x [] p q h = tt
  All-IsBefore x (y ∷ ys) p q h = (
    sorters-IsBefore c numerically reverse x y p q.0
        (value_of _ (sorters-IsOrder c numerically reverse) x y h.0),
    All-IsBefore x ys p q.1 h.1,
  )

  IsSorted-IsOrdered :
      (ys : List Symbol)
      → All IsNamed ys
      → IsSorted (sorters c.strcoll numerically reverse) ys
      → IsOrdered ys
  IsSorted-IsOrdered [] q h = tt
  IsSorted-IsOrdered (y ∷ ys) q h = (All-IsBefore y ys q.0 q.1 h.0, IsSorted-IsOrdered ys q.1 h.1)

  -- An ordered list with the same symbols.
  pub record IsArranged (xs ys : List Symbol) : Type 0 where
    pub ordered : IsOrdered ys
    pub same_symbols : (p : Symbol → Bool) → count p ys ≡ count p xs

-- Sorting symbols whose names are not empty, by any of the four predicates, in a locale whose `strcoll` orders the
-- names: no assertion fails, and the result holds the same symbols as often. Each name is not behind a later one in
-- the locale's order; in a numeric sort, "undefined" symbols stand first, and each two symbols that both are
-- or both are not are in that order; in a reverse sort, all this is turned around.
pub qsort-IsArranged :
    (c : Collation) (numerically reverse : Bool) (xs : List Symbol)
    → All IsNamed xs
    → Ensures
        (IsArranged c numerically reverse xs)
        (λ _. ⊥)
        (qsort (sorters c.strcoll numerically reverse) xs)
qsort-IsArranged c numerically reverse xs h =
    let compar = sorters c.strcoll numerically reverse in
    let o = sorters-IsOrder c numerically reverse in
    rw (qsort-ok compar o xs h) (
      good (record {
        ordered =
            IsSorted-IsOrdered c numerically reverse _ (All-in_sorted compar o IsNamed xs h)
              (in_sorted-IsSorted compar o xs h);
        same_symbols = λ p. count-in_sorted compar o p xs;
      }))
