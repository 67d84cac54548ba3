-- ===== src/As/Main/Available.antt =====
-- nvptx-as.cc: `program_available`, which looks for a program in the directories of `PATH`.
use nvptx_tools.Base.{
  ◌≡◌, refl, ap, sym, ◌∙◌, Bool, true, false, ◌&&◌, ◌||◌, Option, none, some, List, [], ◌∷◌, ◌++◌,
  ◌==◌, if◌then◌else◌, Bytes, codes, has_byte, All, Bool-cases, inl, inr,
}
use mathlib.Core.List.{append_assoc, append-nil}

-- A directory with the separator behind it; the empty one is the current directory.
unfoldable pub with_separator : Bytes → Bytes
with_separator [] = codes "./"
with_separator (c ∷ []) = if c == b'/' then c ∷ [] else c ∷ b'/' ∷ []
with_separator (c ∷ d ∷ dir) = c ∷ with_separator (d ∷ dir)

or_false : (b : Bool) → (b || false) ≡ b
or_false true = refl
or_false false = refl

if_true : (b c : Bool) → (if b then true else c) ≡ (b || c)
if_true true c = refl
if_true false c = refl

-- `is_executable` says of which names `access (name, X_OK)` is 0, `is_regular` of which `stat` knows a
-- regular file.
module _ (is_executable is_regular : Bytes → Bool) (progname : Bytes) where
  abbrev pub stands_in : Bytes → Bool
  unfolding with_separator
  stands_in dir =
      let nstore = with_separator dir ++ progname in is_executable nstore && is_regular nstore

  -- The loop: `dir` are the bytes from `startp` to `endp`.
  unfoldable pub search_path : Bytes → Bytes → Bool
  unfolding stands_in
  search_path dir [] = stands_in dir
  search_path dir (c ∷ path) =
      let next = search_path [] path in
      let more = search_path (dir ++ c ∷ []) path in
      if c == b':' then (if stands_in dir then true else next) else more

  -- `temp` is what `getenv ("PATH")` returns.
  unfoldable pub program_available : Option Bytes → Bool
  unfolding search_path
  program_available none = false
  program_available (some temp) = search_path [] temp

  -- Directories with colons between them.
  abbrev pub joined : Bytes → List Bytes → Bytes
  joined dir [] = dir
  joined dir (next ∷ dirs) = dir ++ b':' ∷ joined next dirs

  abbrev pub stands_in_any : List Bytes → Bool
  stands_in_any [] = false
  stands_in_any (dir ∷ dirs) = stands_in dir || stands_in_any dirs

  search_path-append :
      (before dir path : Bytes)
      → has_byte b':' dir ≡ false
      → search_path before (dir ++ path) ≡ search_path (before ++ dir) path
  unfolding search_path has_byte
  search_path-append before [] path h = ap (λ d. search_path d path) (sym (append-nil before))
  search_path-append before (c ∷ dir) path h = elim (Bool-cases (c == b':')) [
    | inl colon ↦ absurd (cc (rw colon at h))
    | inr other ↦ rw other (
        search_path-append (before ++ c ∷ []) dir path (rw other at h)
        ∙ ap (λ d. search_path d path) (append_assoc before (c ∷ []) dir))
  ]

  search_path-joined :
      (dir : Bytes) (dirs : List Bytes)
      → All (λ d. has_byte b':' d ≡ false) (dir ∷ dirs)
      → search_path [] (joined dir dirs) ≡ stands_in_any (dir ∷ dirs)
  unfolding search_path
  search_path-joined dir [] h =
      ap (search_path []) (sym (append-nil dir))
      ∙ search_path-append [] dir [] h.0
      ∙ sym (or_false (stands_in dir))
  search_path-joined dir (next ∷ dirs) h =
      search_path-append [] dir (b':' ∷ joined next dirs) h.0
      ∙ if_true (stands_in dir) (search_path [] (joined next dirs))
      ∙ ap (λ b. stands_in dir || b) (search_path-joined next dirs h.1)

  -- `program_available` finds a program exactly if one of the directories that `PATH` lists, with colons
  -- between them, has it as an executable regular file, the current directory under the empty name.
  pub program_available-joined :
      (dir : Bytes) (dirs : List Bytes)
      → All (λ d. has_byte b':' d ≡ false) (dir ∷ dirs)
      → program_available (some (joined dir dirs)) ≡ stands_in_any (dir ∷ dirs)
  unfolding program_available
  program_available-joined dir dirs h = search_path-joined dir dirs h
