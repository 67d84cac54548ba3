-- ===== src/As/Order/Complete.antt =====
-- The number of symbols that nvptx-as.cc `symbol_order_deps` puts out.
use nvptx_tools.Base.{
  ℕ, zero, suc, ◌+◌, ◌≤◌, ◌<◌, ◌≡◌, refl, ap, sym, subst, ◌∙◌, true, false, List, [], ◌∷◌, ◌++◌,
  ◌==◌, if◌then◌else◌, All, length, length-append, arith, Bool-cases, inl, inr,
}
use mathlib.Core.List.{append_assoc, append-nil}
use nvptx_tools.Result.{Result}
use nvptx_tools.Result.Ensures.{
  Ensures, good, bad, Ensures-bind, Ensures-weaken, Ensures-if, Ensures-and,
}
use nvptx_tools.As.Order.{
  Order, order_all, start_pending, symbol_order_deps, unordered, places, order_symbols,
}
use nvptx_tools.As.Order.Sorted.{
  has, has-snoc, All-has, IsOrdered, IsOutput, IsCircular, order_symbols-IsOutput,
}

pub has-places : (first n d : ℕ) → first ≤ d → d < first + n → has (places first n) d ≡ true
has-places first zero d h g = absurd (omega arith)
has-places first (suc n) d h g = elim (Bool-cases (first == d)) [
  | inl same ↦ rw same
  | inr other ↦ rw other (has-places (suc first) n d (ground arith) (omega arith))
]

places_above : (first n d : ℕ) → d < first → has (places first n) d ≡ false
places_above first zero d h = refl
places_above first (suc n) d h =
    let other : (first == d) ≡ false = ground arith in
    rw other (places_above (suc first) n d (omega arith))

-- How many of `ks` are listed.
abbrev listed : List ℕ → List ℕ → ℕ
listed xs [] = 0
listed xs (k ∷ ks) = (if has xs k then 1 else 0) + listed xs ks

listed-nil : (ks : List ℕ) → listed [] ks ≡ 0
listed-nil [] = refl
listed-nil (k ∷ ks) = omega (arith, listed-nil ks)

listed_all : (xs ks : List ℕ) → All (λ k. has xs k ≡ true) ks → listed xs ks ≡ length ks
listed_all xs [] h = refl
listed_all xs (k ∷ ks) h = rw h.0 (omega (arith, listed_all xs ks h.1))

listed_other : (xs ks : List ℕ) (e : ℕ) → has ks e ≡ false → listed (xs ++ e ∷ []) ks ≡ listed xs ks
listed_other xs [] e h = refl
listed_other xs (k ∷ ks) e h = ground (arith, has-snoc xs e k, listed_other xs ks e)

listed-snoc :
    (xs : List ℕ) (first n e : ℕ)
    → has xs e ≡ false
    → has (places first n) e ≡ true
    → listed (xs ++ e ∷ []) (places first n) ≡ suc (listed xs (places first n))
listed-snoc xs first zero e h g = absurd (cc g)
listed-snoc xs first (suc n) e h g = elim (Bool-cases (first == e)) [
  | inl same ↦ ground (
    arith,
    same,
    h,
    has-snoc xs e first,
    listed_other xs (places (suc first) n) e (places_above (suc first) n e (ground arith)),
  )
  | inr other ↦
      ground (arith, other, has-snoc xs e first, listed-snoc xs (suc first) n e h (rw other at g))
]

length-places : (first n : ℕ) → length (places first n) ≡ n
length-places first zero = refl
length-places first (suc n) = ap suc (length-places (suc first) n)

module _ (deps : ℕ → List ℕ) where
  listed_ordered :
      (n : ℕ) (before es : List ℕ)
      → IsOrdered deps before es
      → All (λ e. has (places 0 n) e ≡ true) es
      → listed before (places 0 n) ≡ length before
      → listed (before ++ es) (places 0 n) ≡ length (before ++ es)
  listed_ordered n before [] o h e =
      let same = sym (append-nil before) in subst (λ l. listed l (places 0 n) ≡ length l) same e
  listed_ordered n before (x ∷ es) (new, known, o) h e =
      subst (λ l. listed l (places 0 n) ≡ length l) (append_assoc before (x ∷ []) es)
        (listed_ordered n (before ++ x ∷ []) es o h.1
          (listed-snoc before 0 n x new h.0 ∙ omega (arith, e, length-append before (x ∷ []))))

  -- Only places are put out.
  abbrev ArePlaces : ℕ → Order → Type 0
  ArePlaces n st = All (λ e. has (places 0 n) e ≡ true) st.symbols_out

  All-snoc : (P : ℕ → Type 0) (xs : List ℕ) (x : ℕ) → All P xs → P x → All P (xs ++ x ∷ [])
  All-snoc P [] x h g = (g, tt)
  All-snoc P (y ∷ ys) x h g = (h.0, All-snoc P ys x h.1 g)

  order_all-ArePlaces :
      (n : ℕ) (again : ℕ → Order → Result Order)
      → ((e : ℕ) (st : Order)
          → has (places 0 n) e ≡ true
          → ArePlaces n st
          → Ensures (ArePlaces n) (λ x. Unit) (again e st))
      → (es : List ℕ) (st : Order) → All (λ e. has (places 0 n) e ≡ true) es
      → ArePlaces n st
      → Ensures (ArePlaces n) (λ x. Unit) (order_all again es st)
  unfolding order_all
  order_all-ArePlaces n again h [] st p i = good i
  order_all-ArePlaces n again h (e ∷ es) st p i =
      Ensures-bind (h e st p.0 i) (λ st1 j. order_all-ArePlaces n again h es st1 p.1 j)

  symbol_order_deps-ArePlaces :
      (n : ℕ)
      → ((e : ℕ) → All (λ d. has (places 0 n) d ≡ true) (deps e))
      → (fuel e : ℕ) (st : Order) → has (places 0 n) e ≡ true
      → ArePlaces n st
      → Ensures (ArePlaces n) (λ x. Unit) (symbol_order_deps deps fuel e st)
  unfolding symbol_order_deps
  symbol_order_deps-ArePlaces n known zero e st p i = bad tt
  symbol_order_deps-ArePlaces n known (suc fuel) e st p i =
      Ensures-if (st.emitted e) _ _ (λ h. good i)
        (λ h.
          Ensures-if (st.pending e) _ _ (λ g. bad tt)
            (λ g.
              Ensures-bind
                (order_all-ArePlaces n (symbol_order_deps deps fuel)
                  (symbol_order_deps-ArePlaces n known fuel) (deps e) (start_pending e st) (known e)
                  i)
                (λ st1 j. good (All-snoc _ st1.symbols_out e j p))))

  -- As many symbols are put out as there are.
  pub order_symbols-length :
      (n : ℕ)
      → ((e : ℕ) → All (λ d. has (places 0 n) d ≡ true) (deps e))
      → Ensures
          (λ st. IsOutput deps n st × (length st.symbols_out ≡ n))
          IsCircular
          (order_symbols deps n)
  unfolding order_symbols
  order_symbols-length n known =
      Ensures-weaken
        (λ st (o, p). (
          o,
          omega (
            arith,
            listed_ordered n [] st.symbols_out o.ordered p (listed-nil (places 0 n)),
            listed_all st.symbols_out (places 0 n) o.complete,
            length-places 0 n,
          ),
        ))
        (λ x h. h) (Ensures-and (order_symbols-IsOutput deps n known) (only_places n known))
    where
      only_places :
          (n : ℕ)
          → ((e : ℕ) → All (λ d. has (places 0 n) d ≡ true) (deps e))
          → Ensures (ArePlaces n) (λ x. Unit {0}) (order_symbols deps n)
      only_places n known =
          order_all-ArePlaces n (symbol_order_deps deps (suc n))
            (symbol_order_deps-ArePlaces n known (suc n)) (places 0 n) unordered
            (All-has [] (places 0 n)) tt
