-- ===== src/Ld/Resolve/Files.antt =====
-- Sets of files as lists.
use nvptx_tools.Base.{
  ℕ, ◌≡◌, refl, ◌↔◌, ◌⊎◌, inl, inr, true, false, List, [], ◌∷◌, arith, if◌then◌else◌, Bool-cases,
  zero, suc, ◌+◌, ◌<◌, ◌≤◌, ◌==◌, ==_iff, subst,
}
use nvptx_tools.Ld.Symbol.{FileRef, intrinsic, object}
use nvptx_tools.Ld.Resolve.{same_file, has_file}

pub same_file_iff : (f g : FileRef) → (same_file f g ≡ true) ↔ (f ≡ g)
unfolding same_file
same_file_iff intrinsic intrinsic = (λ _. refl, λ _. refl)
same_file_iff (object i) (object j) = ground arith
same_file_iff _ _ = ground arith

-- No file twice.
abbrev pub IsOnce : List FileRef → Type 0
IsOnce [] = Unit
IsOnce (x ∷ xs) = (has_file xs x ≡ false) × IsOnce xs

abbrev pub insert : FileRef → List FileRef → List FileRef
insert f fs = if has_file fs f then fs else f ∷ fs

pub has_file-insert :
    (f g : FileRef) (fs : List FileRef)
    → (has_file (insert f fs) g ≡ true) ↔ ((has_file fs g ≡ true) ⊎ (f ≡ g))
unfolding has_file
has_file-insert f g fs = elim (Bool-cases (has_file fs f)) [
  | inl old ↦ rw old (λ h. inl h, λ c. elim c [ inl h ↦ h | inr e ↦ rw (← e) old ])
  | inr new ↦ rw new (ground (arith, same_file_iff f g))
]

pub insert-IsOnce : (f : FileRef) (fs : List FileRef) → IsOnce fs → IsOnce (insert f fs)
insert-IsOnce f fs u = elim (Bool-cases (has_file fs f)) [
  | inl old ↦ rw old u
  | inr new ↦ rw new (new, u)
]

-- The objects below `n` that are not in the list.
pub remaining : ℕ → List FileRef → ℕ
remaining zero fs = 0
remaining (suc n) fs = (if has_file fs (object n) then 0 else 1) + remaining n fs

remaining-other :
    (n i : ℕ) (fs : List FileRef) → n < suc i → remaining n (object i ∷ fs) ≡ remaining n fs
unfolding remaining has_file same_file
remaining-other zero i fs h = refl
remaining-other (suc n) i fs h = ground (arith, remaining-other n i fs)

-- Linking one more object leaves one less.
pub remaining-cons :
    (n i : ℕ) (fs : List FileRef)
    → i < n
    → has_file fs (object i) ≡ false
    → suc (remaining n (object i ∷ fs)) ≡ remaining n fs
unfolding remaining has_file same_file
remaining-cons zero i fs h new = absurd (omega arith)
remaining-cons (suc n) i fs h new = elim (Bool-cases (i == n)) [
  | inl same ↦
      let here = subst (λ j. has_file fs (object j) ≡ false) ((==_iff i n).0 same) new in
      ground (arith, remaining-other n i fs, here)
  | inr other ↦ ground (arith, remaining-cons n i fs)
]

pub remaining-le : (n : ℕ) (fs : List FileRef) → remaining n fs ≤ n
unfolding remaining
remaining-le zero fs = omega arith
remaining-le (suc n) fs = ground (arith, remaining-le n fs)
