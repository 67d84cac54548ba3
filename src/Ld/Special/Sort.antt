-- ===== src/Ld/Special/Sort.antt =====
-- The order of the constructors and destructors.
use nvptx_tools.Base.{
  ℕ, ◌+◌, ◌≤◌, ◌≡◌, refl, ap, ◌∙◌, ◌⊎◌, Bool, true, false, ◌&&◌, List, [], ◌∷◌, if◌then◌else◌,
  arith, inl, inr, All, Bool-cases, ltb,
}
use nvptx_tools.Libc.{ℤ, pos, negsuc, less, same_int}
use nvptx_tools.Ld.Special.{Cdtor, sorter, insert_cdtor, sort_cdtors}

-- `c` may stand before `d`: it has the higher priority, or the same and no lower sequence.
abbrev pub IsBefore : Cdtor → Cdtor → Type 0
IsBefore c d =
    (less d.priority c.priority ≡ true) ⊎ ((d.priority ≡ c.priority) × (d.sequence ≤ c.sequence))

-- Each element may stand before all behind it.
abbrev pub IsDescending : List Cdtor → Type 0
IsDescending [] = Unit
IsDescending (c ∷ cs) = All (IsBefore c) cs × IsDescending cs

-- The same by `sorter`.
abbrev IsSorted : List Cdtor → Type 0
IsSorted [] = Unit
IsSorted (c ∷ cs) = All (λ d. sorter c d ≡ true) cs × IsSorted cs

-- The elements that pass a test.
abbrev pub count : (Cdtor → Bool) → List Cdtor → ℕ
count p [] = 0
count p (c ∷ cs) = (if p c then 1 else 0) + count p cs

-- The comparison, on priorities and sequences.
abbrev after : ℤ → ℕ → ℤ → ℕ → Bool
after p i q j = if less p q then false else if same_int p q && ltb i j then false else true

after_trans :
    (p q r : ℤ) (i j k : ℕ) → after p i q j ≡ true → after q j r k ≡ true → after p i r k ≡ true
after_trans (pos a) (pos b) (pos c) i j k h g = ground arith
after_trans (pos a) (pos b) (negsuc c) i j k h g = refl
after_trans (pos a) (negsuc b) (pos c) i j k h g = cc
after_trans (pos a) (negsuc b) (negsuc c) i j k h g = refl
after_trans (negsuc a) (pos b) r i j k h g = cc
after_trans (negsuc a) (negsuc b) (pos c) i j k h g = cc
after_trans (negsuc a) (negsuc b) (negsuc c) i j k h g = ground arith

after_total : (p q : ℤ) (i j : ℕ) → after p i q j ≡ false → after q j p i ≡ true
after_total (pos a) (pos b) i j h = ground arith
after_total (pos a) (negsuc b) i j h = cc
after_total (negsuc a) (pos b) i j h = refl
after_total (negsuc a) (negsuc b) i j h = ground arith

sorter_trans : (a b c : Cdtor) → sorter a b ≡ true → sorter b c ≡ true → sorter a c ≡ true
unfolding sorter
sorter_trans a b c h g =
    after_trans a.priority b.priority c.priority a.sequence b.sequence c.sequence h g

sorter_total : (a b : Cdtor) → sorter a b ≡ false → sorter b a ≡ true
unfolding sorter
sorter_total a b h = after_total a.priority b.priority a.sequence b.sequence h

All-sorter :
    (a b : Cdtor) (cs : List Cdtor)
    → sorter a b ≡ true
    → All (λ d. sorter b d ≡ true) cs
    → All (λ d. sorter a d ≡ true) cs
All-sorter a b [] h g = tt
All-sorter a b (c ∷ cs) h g = (sorter_trans a b c h g.0, All-sorter a b cs h g.1)

All-insert_cdtor :
    (P : Cdtor → Type 0) (c : Cdtor) (ds : List Cdtor) → P c → All P ds → All P (insert_cdtor c ds)
unfolding insert_cdtor
All-insert_cdtor P c [] h g = (h, tt)
All-insert_cdtor P c (d ∷ ds) h g = elim (Bool-cases (sorter c d)) [
  | inl first ↦ rw first (h, g)
  | inr later ↦ rw later (g.0, All-insert_cdtor P c ds h g.1)
]

insert_cdtor-IsSorted : (c : Cdtor) (ds : List Cdtor) → IsSorted ds → IsSorted (insert_cdtor c ds)
unfolding insert_cdtor
insert_cdtor-IsSorted c [] h = (tt, tt)
insert_cdtor-IsSorted c (d ∷ ds) h = elim (Bool-cases (sorter c d)) [
  | inl first ↦ rw first ((first, All-sorter c d ds first h.0), h)
  | inr later ↦ rw later (
    All-insert_cdtor (λ e. sorter d e ≡ true) c ds (sorter_total c d later) h.0,
    insert_cdtor-IsSorted c ds h.1,
  )
]

count-insert_cdtor :
    (p : Cdtor → Bool) (c : Cdtor) (ds : List Cdtor)
    → count p (insert_cdtor c ds) ≡ count p (c ∷ ds)
unfolding insert_cdtor
count-insert_cdtor p c [] = refl
count-insert_cdtor p c (d ∷ ds) = elim (Bool-cases (sorter c d)) [
  | inl first ↦ rw first
  | inr later ↦ rw later (omega (arith, count-insert_cdtor p c ds))
]

after-before : (p q : ℤ) (i j : ℕ) → after p i q j ≡ true → (less q p ≡ true) ⊎ ((q ≡ p) × (j ≤ i))
after-before (pos a) (pos b) i j h = elim (Bool-cases (ltb b a)) [
  | inl lower ↦ inl lower
  | inr not_lower ↦ inr (ap pos (ground (arith, h, not_lower)), ground (arith, h, not_lower))
]
after-before (pos a) (negsuc b) i j h = inl refl
after-before (negsuc a) (pos b) i j h = absurd (cc h)
after-before (negsuc a) (negsuc b) i j h = elim (Bool-cases (ltb a b)) [
  | inl lower ↦ inl lower
  | inr not_lower ↦ inr (ap negsuc (ground (arith, h, not_lower)), ground (arith, h, not_lower))
]

sorter-IsBefore : (c d : Cdtor) → sorter c d ≡ true → IsBefore c d
unfolding sorter
sorter-IsBefore c d h = after-before c.priority d.priority c.sequence d.sequence h

sort_cdtors-IsSorted : (cs : List Cdtor) → IsSorted (sort_cdtors cs)
unfolding sort_cdtors
sort_cdtors-IsSorted [] = tt
sort_cdtors-IsSorted (c ∷ cs) = insert_cdtor-IsSorted c (sort_cdtors cs) (sort_cdtors-IsSorted cs)

count-sort_cdtors : (p : Cdtor → Bool) (cs : List Cdtor) → count p (sort_cdtors cs) ≡ count p cs
unfolding sort_cdtors
count-sort_cdtors p [] = refl
count-sort_cdtors p (c ∷ cs) =
    count-insert_cdtor p c (sort_cdtors cs) ∙ omega (arith, count-sort_cdtors p cs)

All-IsBefore : (c : Cdtor) (cs : List Cdtor) → All (λ d. sorter c d ≡ true) cs → All (IsBefore c) cs
All-IsBefore c [] h = tt
All-IsBefore c (d ∷ ds) h = (sorter-IsBefore c d h.0, All-IsBefore c ds h.1)

IsSorted-IsDescending : (cs : List Cdtor) → IsSorted cs → IsDescending cs
IsSorted-IsDescending [] h = tt
IsSorted-IsDescending (c ∷ cs) h = (All-IsBefore c cs h.0, IsSorted-IsDescending cs h.1)

-- In the sorted list, each element has a higher priority than any behind it, or the same priority and no lower
-- sequence; and the list holds the elements of the given list as often as that list.
pub sort_cdtors-IsDescending :
    (cs : List Cdtor)
    → IsDescending (sort_cdtors cs) × ((p : Cdtor → Bool) → count p (sort_cdtors cs) ≡ count p cs)
sort_cdtors-IsDescending cs =
    (IsSorted-IsDescending _ (sort_cdtors-IsSorted cs), λ p. count-sort_cdtors p cs)
