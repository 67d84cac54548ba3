-- ===== src/As/Order/Sorted.antt =====
-- The order that nvptx-as.cc `symbol_order_deps` makes.
use nvptx_tools.Base.{
  ℕ, zero, suc, ◌+◌, ◌≤◌, ◌<◌, ◌≡◌, refl, sym, subst, ◌∙◌, Bool, true, false, ◌||◌, List, [], ◌∷◌,
  ◌++◌, ◌==◌, if◌then◌else◌, All, arith, Bool-cases, inl, inr,
}
use mathlib.Core.List.{append_assoc, append-nil}
use nvptx_tools.Result.{Error, Result, circular_reference}
use nvptx_tools.Result.Ensures.{Ensures, good, bad, Ensures-bind, Ensures-weaken}
use nvptx_tools.As.Order.{
  Order, set, order_all, emit, start_pending, symbol_order_deps, unordered, places, order_symbols,
}

abbrev pub has : List ℕ → ℕ → Bool
has [] k = false
has (x ∷ xs) k = x == k || has xs k

has-append : (xs ys : List ℕ) (k : ℕ) → has (xs ++ ys) k ≡ (has xs k || has ys k)
has-append [] ys k = refl
has-append (x ∷ xs) ys k = ground (arith, has-append xs ys k)

pub has-snoc : (xs : List ℕ) (e k : ℕ) → has (xs ++ e ∷ []) k ≡ (e == k || has xs k)
has-snoc xs e k = ground (arith, has-append xs (e ∷ []) k)

-- The number of symbols that are not pending.
abbrev free : (ℕ → Bool) → List ℕ → ℕ
free pending [] = 0
free pending (k ∷ ks) = (if pending k then 0 else 1) + free pending ks

free_agree : (f g : ℕ → Bool) (ks : List ℕ) → ((k : ℕ) → f k ≡ g k) → free f ks ≡ free g ks
free_agree f g [] h = refl
free_agree f g (k ∷ ks) h = ground (arith, h k, free_agree f g ks h)

free-set_le : (e : ℕ) (f : ℕ → Bool) (ks : List ℕ) → free (set e true f) ks ≤ free f ks
free-set_le e f [] = omega arith
free-set_le e f (k ∷ ks) = ground (arith, free-set_le e f ks)

free-set :
    (e : ℕ) (f : ℕ → Bool) (ks : List ℕ)
    → has ks e ≡ true
    → f e ≡ false
    → free (set e true f) ks < free f ks
free-set e f [] h g = cc
free-set e f (k ∷ ks) h g = elim (Bool-cases (k == e)) [
  | inl same ↦ ground (arith, same, g, free-set_le e f ks)
  | inr other ↦ ground (arith, other, h, free-set e f ks)
]

free-places : (first n : ℕ) → free (λ k. false) (places first n) ≡ n
free-places first zero = refl
free-places first (suc n) = omega (arith, free-places (suc first) n)

pub All-has : (xs ys : List ℕ) → All (λ e. has (xs ++ ys) e ≡ true) ys
All-has xs [] = tt
All-has xs (y ∷ ys) = (
  has-append xs (y ∷ ys) y ∙ ground arith,
  subst (λ l. All (λ e. has l e ≡ true) ys) (append_assoc xs (y ∷ []) ys)
      (All-has (xs ++ y ∷ []) ys),
)

abbrev pub IsCircular : Error → Type 0
IsCircular x = x ≡ circular_reference

module _ (deps : ℕ → List ℕ) where
  -- Behind the symbols `before`, each symbol is new, and its dependences stand before it.
  abbrev pub IsOrdered : List ℕ → List ℕ → Type 0
  IsOrdered before [] = Unit
  IsOrdered before (e ∷ es) =
      (has before e ≡ false)
      × All (λ d. has before d ≡ true) (deps e)
      × IsOrdered (before ++ e ∷ []) es

  IsOrdered-snoc :
      (before es : List ℕ) (e : ℕ)
      → IsOrdered before es
      → has (before ++ es) e ≡ false
      → All (λ d. has (before ++ es) d ≡ true) (deps e)
      → IsOrdered before (es ++ e ∷ [])
  IsOrdered-snoc before [] e o new h =
      let same = append-nil before in
      (
        subst (λ l. has l e ≡ false) same new,
        subst (λ l. All (λ d. has l d ≡ true) (deps e)) same h,
        tt,
      )
  IsOrdered-snoc before (x ∷ es) e (p, q, o) new h =
      let same = sym (append_assoc before (x ∷ []) es) in
      (
        p,
        q,
        IsOrdered-snoc (before ++ x ∷ []) es e o (subst (λ l. has l e ≡ false) same new)
            (subst (λ l. All (λ d. has l d ≡ true) (deps e)) same h),
      )

  -- What holds between the calls.
  record Inv (st : Order) : Type 0 where
    ordered : IsOrdered [] st.symbols_out
    agree : (k : ℕ) → st.emitted k ≡ has st.symbols_out k
    exclusive : (k : ℕ) → st.pending k ≡ true → has st.symbols_out k ≡ false

  -- What a call that succeeds does.
  record Grown (st st' : Order) : Type 0 where
    inv : Inv st'
    more : (k : ℕ) → has st.symbols_out k ≡ true → has st'.symbols_out k ≡ true
    same_pending : (k : ℕ) → st'.pending k ≡ st.pending k
    kept : (k : ℕ) → st.pending k ≡ true → has st'.symbols_out k ≡ has st.symbols_out k

  Grown-none : (st : Order) → Inv st → Grown st st
  Grown-none st i = record {
    inv = i;
    more = λ k h. h;
    same_pending = λ k. refl;
    kept = λ k h. refl;
  }

  Grown-trans : (st st' st2 : Order) → Grown st st' → Grown st' st2 → Grown st st2
  Grown-trans st st' st2 g h = record {
    inv = h.inv;
    more = λ k p. h.more k (g.more k p);
    same_pending = λ k. h.same_pending k ∙ g.same_pending k;
    kept = λ k p. h.kept k (g.same_pending k ∙ p) ∙ g.kept k p;
  }

  record Visited (es : List ℕ) (st st' : Order) : Type 0 where
    grown : Grown st st'
    all : All (λ e. has st'.symbols_out e ≡ true) es

  order_all-Visited :
      (symbols : List ℕ) (fuel : ℕ) (again : ℕ → Order → Result Order)
      → ((e : ℕ) (st : Order)
          → has symbols e ≡ true
          → Inv st
          → free st.pending symbols < fuel
          → Ensures (λ st'. Grown st st' × (has st'.symbols_out e ≡ true)) IsCircular (again e st))
      → (es : List ℕ) (st : Order) → All (λ e. has symbols e ≡ true) es
      → Inv st
      → free st.pending symbols < fuel
      → Ensures (Visited es st) IsCircular (order_all again es st)
  unfolding order_all
  order_all-Visited symbols fuel again h [] st p i l =
      good (record { grown = Grown-none st i; all = tt })
  order_all-Visited symbols fuel again h (e ∷ es) st p i l =
      Ensures-bind (h e st p.0 i l) (λ st1 (g, here).
        Ensures-weaken
          (λ st2 v. record {
            grown = Grown-trans st st1 st2 g v.grown;
            all = (v.grown.more e here, v.all);
          })
          (λ x u. u)
          (order_all-Visited symbols fuel again h es st1 p.1 g.inv
            (omega (arith, free_agree st1.pending st.pending symbols g.same_pending))))

  start-Inv : (e : ℕ) (st : Order) → Inv st → st.emitted e ≡ false → Inv (start_pending e st)
  start-Inv e st i h = record {
    ordered = i.ordered;
    agree = i.agree;
    exclusive = λ k p. ground (arith, i.exclusive k, i.agree e);
  }

  emit-Grown :
      (e : ℕ) (st st' : Order)
      → Inv st
      → st.emitted e ≡ false
      → st.pending e ≡ false
      → Visited (deps e) (start_pending e st) st'
      → Grown st (emit e st')
  emit-Grown e st st' i fresh free v =
      let g = v.grown in
      let new : has st'.symbols_out e ≡ false = g.kept e (ground arith) ∙ sym (i.agree e) ∙ fresh in
      record {
        inv = record {
          ordered = IsOrdered-snoc [] st'.symbols_out e g.inv.ordered new v.all;
          agree = λ k. ground (arith, g.inv.agree k, has-snoc st'.symbols_out e k);
          exclusive = λ k p. ground (arith, p, g.inv.exclusive k, has-snoc st'.symbols_out e k);
        };
        more = λ k h. ground (arith, g.more k h, has-snoc st'.symbols_out e k);
        same_pending = λ k. ground (arith, g.same_pending k, free);
        kept = λ k p. ground (arith, p, free, g.kept k, has-snoc st'.symbols_out e k);
      }

  symbol_order_deps-Grown :
      (symbols : List ℕ)
      → ((e : ℕ) → All (λ d. has symbols d ≡ true) (deps e))
      → (fuel e : ℕ) (st : Order) → has symbols e ≡ true
      → Inv st
      → free st.pending symbols < fuel
      → Ensures
          (λ st'. Grown st st' × (has st'.symbols_out e ≡ true))
          IsCircular
          (symbol_order_deps deps fuel e st)
  unfolding symbol_order_deps
  symbol_order_deps-Grown symbols known zero e st p i l = absurd (omega arith)
  symbol_order_deps-Grown symbols known (suc fuel) e st p i l = elim (Bool-cases (st.emitted e)) [
    | inl done ↦ rw done (good (Grown-none st i, sym (i.agree e) ∙ done))
    | inr fresh ↦ elim (Bool-cases (st.pending e)) [
      | inl circular ↦ rw (fresh, circular) (bad refl)
      | inr free ↦
          rw (fresh, free)
            (Ensures-bind
              (order_all-Visited symbols fuel (symbol_order_deps deps fuel)
                (symbol_order_deps-Grown symbols known fuel) (deps e) (start_pending e st) (known e)
                (start-Inv e st i fresh) (omega (arith, free-set e st.pending symbols p free)))
              (λ st' v.
                good (
                  emit-Grown e st st' i fresh free v,
                  has-snoc st'.symbols_out e e ∙ ground arith,
                )))
    ]
  ]

  unordered-Inv : Inv unordered
  unordered-Inv = record { ordered = tt; agree = λ k. refl; exclusive = λ k p. cc }

  -- The symbols that are put out: each once, behind all symbols of its initializer, and all are there.
  pub record IsOutput (n : ℕ) (st : Order) : Type 0 where
    pub ordered : IsOrdered [] st.symbols_out
    pub complete : All (λ e. has st.symbols_out e ≡ true) (places 0 n)

  -- If the initializers name symbols of the file, ordering them ends: each symbol stands once in
  -- `symbols_out`, behind all symbols that its initializer names, and every symbol of the file is
  -- there; or it fails at a circular reference.
  pub order_symbols-IsOutput :
      (n : ℕ)
      → ((e : ℕ) → All (λ d. has (places 0 n) d ≡ true) (deps e))
      → Ensures (IsOutput n) IsCircular (order_symbols deps n)
  unfolding order_symbols
  order_symbols-IsOutput n known =
      Ensures-weaken (λ st v. record { ordered = v.grown.inv.ordered; complete = v.all }) (λ x e. e)
        (order_all-Visited (places 0 n) (suc n) (symbol_order_deps deps (suc n))
          (symbol_order_deps-Grown (places 0 n) known (suc n)) (places 0 n) unordered
          (All-has [] (places 0 n)) unordered-Inv (omega (arith, free-places 0 n)))
