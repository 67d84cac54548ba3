-- ===== src/Nm/Display/Before.antt =====
-- What the predicates by which nvptx-nm.cc sorts mean: the order of the names in the locale, behind that
-- of "undefined" and other symbols where the sort is numeric.
use nvptx_tools.Base.{◌≡◌, refl, ap, sym, ◌∙◌, ◌⊎◌, inl, inr, Bool, true, false}
use nvptx_tools.Libc.{ℤ}
use nvptx_tools.Result.{ok, ◌>>=◌}
use nvptx_tools.Nm.Display.{
  Symbol, is_undefined_symbol, opposite, is_positive, non_numeric_reverse, numeric_reverse, sorters,
}
use nvptx_tools.Nm.Display.Collation.{
  Collation, IsNamed, value, forward_value, by_defined, numeric_value, by_defined_turns,
}

module _ (c : Collation) where
  -- The first name is not behind the second.
  abbrev pub InNameOrder : Symbol → Symbol → Type 0
  InNameOrder x y = is_positive (c.strcoll x.0 y.0) ≡ false

  -- "Undefined symbols are always considered "less than" defined symbols".
  abbrev pub IsUndefinedFirst : Symbol → Symbol → Type 0
  IsUndefinedFirst x y =
      ((is_undefined_symbol x ≡ true) × (is_undefined_symbol y ≡ false))
      ⊎ ((is_undefined_symbol x ≡ is_undefined_symbol y) × InNameOrder x y)

  -- The first symbol may stand before the second, for `sort_numerically` and `reverse_sort`.
  abbrev pub IsBefore : Bool → Bool → Symbol → Symbol → Type 0
  IsBefore false false x y = InNameOrder x y
  IsBefore false true x y = InNameOrder y x
  IsBefore true false x y = IsUndefinedFirst x y
  IsBefore true true x y = IsUndefinedFirst y x

  by_defined_before :
      (ux uy : Bool) (n : ℤ)
      → is_positive (by_defined c ux uy n) ≡ false
      → ((ux ≡ true) × (uy ≡ false)) ⊎ ((ux ≡ uy) × (is_positive n ≡ false))
  by_defined_before true true n h = inr (refl, h)
  by_defined_before true false n h = inl (refl, refl)
  by_defined_before false true n h = absurd (cc h)
  by_defined_before false false n h = inr (refl, h)

  pub sorters-IsBefore :
      (numerically reverse : Bool) (x y : Symbol)
      → IsNamed x
      → IsNamed y
      → is_positive (value (sorters c.strcoll numerically reverse x y)) ≡ false
      → IsBefore numerically reverse x y
  unfolding sorters non_numeric_reverse numeric_reverse
  sorters-IsBefore false false x y p q h =
      ap (λ r. is_positive (value r)) (sym (forward_value c x y p q)) ∙ h
  sorters-IsBefore false true x y p q h =
      c.turns y.0 x.0
      ∙ ap (λ r. is_positive (value (r >>= λ n. ok (opposite n)))) (sym (forward_value c x y p q))
      ∙ h
  sorters-IsBefore true false x y p q h =
      by_defined_before (is_undefined_symbol x) (is_undefined_symbol y) (c.strcoll x.0 y.0)
        (ap (λ r. is_positive (value r)) (sym (numeric_value c x y p q)) ∙ h)
  sorters-IsBefore true true x y p q h =
      let ux = is_undefined_symbol x in
      let uy = is_undefined_symbol y in
      by_defined_before uy ux (c.strcoll y.0 x.0) (
        by_defined_turns c uy ux (c.strcoll y.0 x.0) (c.strcoll x.0 y.0) (c.turns y.0 x.0)
        ∙ ap (λ r. is_positive (value (r >>= λ n. ok (opposite n)))) (sym (numeric_value c x y p q))
        ∙ h)
