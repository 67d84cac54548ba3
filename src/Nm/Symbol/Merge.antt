-- ===== src/Nm/Symbol/Merge.antt =====
-- The type that a symbol gets from all its markers.
use nvptx_tools.Base.{
  ℕ, ◌≡◌, refl, ap, sym, ◌∙◌, Bool, true, false, not, ◌&&◌, ◌||◌, inl, inr, Option, some, List, [],
  ◌∷◌, ◌==◌, All, arith,
}
use nvptx_tools.Result.{Error, Result, Result-cases, ok, err, ◌>>=◌, assertion}
use nvptx_tools.Result.Ensures.{Ensures, good, bad, Ensures-weaken}
use nvptx_tools.Nm.Symbol.{
  SymbolType, var, local_var, function, local_function, weak_var, weak_function, same_type,
  is_undefined, merge_seen, merge,
}

-- The code over the types of a symbol's markers, in their order.
unfoldable pub merge_all : Option SymbolType → List SymbolType → Result (Option SymbolType)
unfolding merge
merge_all acc [] = ok acc
merge_all acc (t ∷ ts) = merge acc t >>= λ r. merge_all (some r) ts

-- The kind of a definition: a variable or a function, global or local.
abbrev pub kind_of : SymbolType → ℕ
kind_of var = 0
kind_of weak_var = 0
kind_of function = 1
kind_of weak_function = 1
kind_of local_var = 2
kind_of local_function = 3
kind_of _ = 4

abbrev pub is_weak : SymbolType → Bool
is_weak weak_var = true
is_weak weak_function = true
is_weak _ = false

-- `a` gives way to `b`: `a` is no definition, or they are definitions of one kind, and `b` is the
-- "strong" one or both are "weak".
abbrev pub yields : SymbolType → SymbolType → Bool
yields a b = is_undefined a || (kind_of a == kind_of b && (is_weak a || not (is_weak b)))

-- Definitions of two kinds.
abbrev pub conflicts : SymbolType → SymbolType → Bool
conflicts a b = not (is_undefined a) && (not (is_undefined b) && not (kind_of a == kind_of b))

abbrev pub mem : SymbolType → List SymbolType → Bool
mem a [] = false
mem a (b ∷ bs) = same_type b a || mem a bs

abbrev pub last : SymbolType → List SymbolType → SymbolType
last a [] = a
last a (b ∷ bs) = last b bs

-- What a symbol's type is: that of one of its markers, to which the types of all others give way,
-- and if no marker is a definition, that of the last.
pub record IsTop (a : SymbolType) (ts : List SymbolType) (r : Option SymbolType) : Type 0 where
  pub top : SymbolType
  pub is_top : r ≡ some top
  pub member : mem top (a ∷ ts) ≡ true
  pub all_yield : All (λ t. yields t top ≡ true) (a ∷ ts)
  pub last_undefined : is_undefined top ≡ true → top ≡ last a ts

-- Why there is none: two markers are definitions of different kinds.
pub record Clash (a : SymbolType) (ts : List SymbolType) (x : Error) : Type 0 where
  pub failed : x ≡ assertion
  pub first : SymbolType
  pub second : SymbolType
  pub first_member : mem first (a ∷ ts) ≡ true
  pub second_member : mem second (a ∷ ts) ≡ true
  pub clash : conflicts first second ≡ true

yields_trans : (a b c : SymbolType) → yields a b ≡ true → yields b c ≡ true → yields a c ≡ true
yields_trans a b c h g = ground arith

yields_refl : (a : SymbolType) → yields a a ≡ true
yields_refl a = ground arith

-- Merging two types: one of them, to which both give way; an undefined one is the second.
record Merged (a b r : SymbolType) : Type 0 where
  one : (same_type a r || same_type b r) ≡ true
  first : yields a r ≡ true
  second : yields b r ≡ true
  undefined_second : is_undefined r ≡ true → r ≡ b

merge_seen-ok : (a b r : SymbolType) → merge_seen a b ≡ ok r → Merged a b r
unfolding merge_seen
merge_seen-ok a b r h = ground arith

pub merge_seen-err :
    (a b : SymbolType) (x : Error)
    → merge_seen a b ≡ err x
    → (x ≡ assertion) × (conflicts a b ≡ true)
unfolding merge_seen
merge_seen-err a b x h = ground arith

same_type-eq : (a b : SymbolType) → same_type a b ≡ true → a ≡ b
same_type-eq a b h = ground arith

-- The top of the merged type and the rest is the top of all.
IsTop-cons :
    (a b r : SymbolType) (ts : List SymbolType) (top : Option SymbolType)
    → Merged a b r
    → IsTop r ts top
    → IsTop a (b ∷ ts) top
IsTop-cons a b r ts top m t = record {
  top = t.top;
  is_top = t.is_top;
  member = among (t.member);
  all_yield = (
    yields_trans a r t.top m.first t.all_yield.0,
    (yields_trans b r t.top m.second t.all_yield.0, t.all_yield.1),
  );
  last_undefined = λ u. t.last_undefined u ∙ behind ts (t.last_undefined u) u;
}
  where
    among : mem t.top (r ∷ ts) ≡ true → mem t.top (a ∷ b ∷ ts) ≡ true
    among h = ground (arith, m.one, same_type-eq r t.top, same_type-eq a r, same_type-eq b r)

    behind :
        (ts : List SymbolType)
        → t.top ≡ last r ts
        → is_undefined t.top ≡ true
        → last r ts ≡ last b ts
    behind [] e u = m.undefined_second (ap is_undefined (sym e) ∙ u)
    behind (c ∷ cs) e u = refl

Clash-cons :
    (a b r : SymbolType) (ts : List SymbolType) (x : Error)
    → Merged a b r
    → Clash r ts x
    → Clash a (b ∷ ts) x
Clash-cons a b r ts x m c = record {
  failed = c.failed;
  first = c.first;
  second = c.second;
  first_member = among c.first c.first_member;
  second_member = among c.second c.second_member;
  clash = c.clash;
}
  where
    among : (s : SymbolType) → mem s (r ∷ ts) ≡ true → mem s (a ∷ b ∷ ts) ≡ true
    among s h = ground (arith, m.one, same_type-eq r s, same_type-eq a r, same_type-eq b r)

-- The type of a symbol is the top of the types of its markers: one of them, to which all others
-- give way, and the last if none is a definition. It fails only where two markers
-- are definitions of different kinds, and then in an assertion.
pub merge_all-IsTop :
    (a : SymbolType) (ts : List SymbolType)
    → Ensures (IsTop a ts) (Clash a ts) (merge_all (some a) ts)
unfolding merge_all merge
merge_all-IsTop a [] = good (record {
  top = a;
  is_top = refl;
  member = rw (letters a);
  all_yield = (yields_refl a, tt);
  last_undefined = λ u. refl;
})
  where
    letters : (a : SymbolType) → same_type a a ≡ true
    letters a = ground arith
merge_all-IsTop a (b ∷ ts) = elim (Result-cases (merge_seen a b)) [
  | inl (r, e) ↦
      let m = merge_seen-ok a b r e in
      rw e (
        Ensures-weaken (λ top t. IsTop-cons a b r ts top m t) (λ x c. Clash-cons a b r ts x m c)
          (merge_all-IsTop r ts))
  | inr (x, e) ↦ rw e (
      bad (record {
        failed = (merge_seen-err a b x e).0;
        first = a;
        second = b;
        first_member = ground arith;
        second_member = ground arith;
        clash = (merge_seen-err a b x e).1;
      }))
]
