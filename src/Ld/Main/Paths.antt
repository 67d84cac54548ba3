-- ===== src/Ld/Main/Paths.antt =====
-- The search for libraries in the paths (nvptx-ld.cc, `path_resolve`).
use nvptx_tools.Base.{
  ◌≡◌, refl, ap, subst, Bool, true, false, ◌⊎◌, inl, inr, List, [], ◌∷◌, ◌++◌, Bytes, All,
  Bool-cases,
}
use nvptx_tools.Ld.Main.{path_resolve}

abbrev pub candidate : Bytes → Bytes → Bytes
candidate filename path = path ++ (b'/' ∷ filename)

module _ (exists : Bytes → Bool) (filename : Bytes) where
  abbrev pub Misses : List Bytes → Type 0
  Misses = All (λ path. exists (candidate filename path) ≡ false)

  -- The first path under which the file exists, with the paths before and behind it.
  pub record IsFirst (paths : List Bytes) (found : Bytes) : Type 0 where
    pub earlier : List Bytes
    pub path : Bytes
    pub later : List Bytes
    pub split : paths ≡ earlier ++ path ∷ later
    pub misses : Misses earlier
    pub hit : exists (candidate filename path) ≡ true
    pub found_is : found ≡ candidate filename path

  abbrev pub IsResolved : List Bytes → Bytes → Type 0
  IsResolved paths found = IsFirst paths found ⊎ (Misses paths × (found ≡ []))

  IsResolved-cons :
      (path : Bytes) (paths : List Bytes) (found : Bytes)
      → exists (candidate filename path) ≡ false
      → IsResolved paths found
      → IsResolved (path ∷ paths) found
  IsResolved-cons path paths found absent (inl f) = inl (record {
    earlier = path ∷ f.earlier;
    path = f.path;
    later = f.later;
    split = ap (◌∷◌ path) f.split;
    misses = (absent, f.misses);
    hit = f.hit;
    found_is = f.found_is;
  })
  IsResolved-cons path paths found absent (inr (m, e)) = inr ((absent, m), e)

  IsResolved-first :
      (path : Bytes) (paths : List Bytes)
      → exists (candidate filename path) ≡ true
      → IsResolved (path ∷ paths) (candidate filename path)
  IsResolved-first path paths here = inl (record {
    earlier = [];
    path = path;
    later = paths;
    split = refl;
    misses = tt;
    hit = here;
    found_is = refl;
  })

  -- `path_resolve` returns the file under the first path that has it, or the empty string if none
  -- has it.
  pub path_resolve-IsResolved :
      (paths : List Bytes) → IsResolved paths (path_resolve exists filename paths)
  unfolding path_resolve
  path_resolve-IsResolved [] = inr (tt, refl)
  path_resolve-IsResolved (path ∷ paths) = elim (Bool-cases (exists (candidate filename path))) [
    | inl here ↦ subst (IsResolved (path ∷ paths)) (rw here) (IsResolved-first path paths here)
    | inr absent ↦
        subst (IsResolved (path ∷ paths)) (rw absent)
          (IsResolved-cons path paths _ absent (path_resolve-IsResolved paths))
  ]
