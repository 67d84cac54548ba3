-- ===== src/Result/Ensures.antt =====
-- Statements on results: what holds on success, and on each error.
use nvptx_tools.Base.{◌≡◌, refl, subst, Bool, true, false, if◌then◌else◌, inl, inr}
use nvptx_tools.Result.{Error, Result, Result-cases, ok, err, ◌>>=◌, assert}

-- What a result of a tool satisfies, on success and on each error.
pub data Ensures {ℓ} {A : Type ℓ} (P : A → Type 0) (E : Error → Type 0) : Result A → Type ℓ where
  good : {a : A} → P a → Ensures P E (ok a)
  bad : {e : Error} → E e → Ensures P E (err e)

pub Ensures-ok {ℓ} :
    {A : Type ℓ} {P : A → Type 0} {E : Error → Type 0} {r : Result A} {a : A}
    → Ensures P E r
    → r ≡ ok a
    → P a
Ensures-ok {P} {a = a} (good {a = b} p) e = subst P (cc) p
Ensures-ok (bad p) e = cc

pub Ensures-err {ℓ} :
    {A : Type ℓ} {P : A → Type 0} {E : Error → Type 0} {r : Result A} {x : Error}
    → Ensures P E r
    → r ≡ err x
    → E x
Ensures-err (good p) e = cc
Ensures-err {E} (bad p) e = subst E (cc) p

pub Ensures-and {ℓ} :
    {A : Type ℓ} {P Q : A → Type 0} {E F : Error → Type 0} {r : Result A}
    → Ensures P E r
    → Ensures Q F r
    → Ensures (λ a. P a × Q a) E r
Ensures-and {P} {Q} {E} {r = r} h g = elim (Result-cases r) [
  | inl (a, e) ↦
      subst (Ensures (λ a. P a × Q a) E) (cc e) (good {a = a} (Ensures-ok h e, Ensures-ok g e))
  | inr (x, e) ↦ subst (Ensures (λ a. P a × Q a) E) (cc e) (bad {e = x} (Ensures-err h e))
]

-- With the result itself.
pub Ensures-traced :
    {A : Type 0} {P : A → Type 0} {E : Error → Type 0} {r : Result A}
    → Ensures P E r
    → Ensures (λ a. (r ≡ ok a) × P a) (λ x. (r ≡ err x) × E x) r
Ensures-traced (good h) = good (refl, h)
Ensures-traced (bad h) = bad (refl, h)

pub Ensures-bind {ℓ κ} :
    {A : Type ℓ} {B : Type κ} {P : A → Type 0} {Q : B → Type 0} {E : Error → Type 0} {m : Result A}
    {f : A → Result B}
    → Ensures P E m
    → ((a : A) → P a → Ensures Q E (f a))
    → Ensures Q E (m >>= f)
Ensures-bind (good {a} h) k = k a h
Ensures-bind (bad h) k = bad h

pub Ensures-weaken {ℓ} :
    {A : Type ℓ} {P Q : A → Type 0} {E F : Error → Type 0} {m : Result A}
    → ((a : A) → P a → Q a)
    → ((e : Error) → E e → F e)
    → Ensures P E m
    → Ensures Q F m
Ensures-weaken f g (good {a} h) = good (f a h)
Ensures-weaken f g (bad {e} h) = bad (g e h)

module _ {ℓ} {A : Type ℓ} {P : A → Type 0} {E : Error → Type 0} where
  pub Ensures-assert :
      (b : Bool) (f : Unit {0} → Result A)
      → b ≡ true
      → Ensures P E (f tt)
      → Ensures P E (assert b >>= f)
  Ensures-assert true f e h = h
  Ensures-assert false f e h = cc

  pub Ensures-if :
      (b : Bool) (x y : Result A)
      → (b ≡ true → Ensures P E x)
      → (b ≡ false → Ensures P E y)
      → Ensures P E (if b then x else y)
  Ensures-if true x y h k = h refl
  Ensures-if false x y h k = k refl
