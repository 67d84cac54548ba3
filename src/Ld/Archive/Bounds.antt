-- ===== src/Ld/Archive/Bounds.antt =====
-- The offset of an archive stays inside of the file, and grows with each member.
use nvptx_tools.Base.{
  ℕ, ◌+◌, ◌≤◌, ◌<◌, ◌≡◌, refl, Bool, true, false, Option, none, some, Bytes, length, drop, take,
  arith, length-drop, length-take_of_le, ◌==◌, has_byte, starts_with-Follows, ◌≢◌, ap,
  if◌then◌else◌, zero, suc, Bool-cases, inl, inr, List,
}
use nvptx_tools.Libc.{ℤ, pos, negsuc}
use nvptx_tools.Ld.Archive.{
  Archive, Member, header_size, padded, read_header, skip_index, init_first, init, read_contents,
  next_sized, next_header, next_file, at_end, is_index, ar_name, ar_size, End, exhausted, read_next,
  read_loop, read_members,
}
use nvptx_tools.Ld.Scan.{is_archive, armag}

-- The offset of an archive is inside of its file.
abbrev pub IsInside : Archive → Type 0
IsInside ar = ar.off ≤ length ar.text

-- A member read: it has bytes, they stand in the file behind its header, and the offset, still
-- inside of the same file, is behind them and their padding.
pub record IsNext (ar ar' : Archive) (m : Member) : Type 0 where
  pub same_file : ar'.text ≡ ar.text
  pub off : ar'.off ≡ ar.off + header_size + padded (length m.contents)
  pub inside : IsInside ar'
  pub not_empty : 0 < length m.contents
  pub contents : m.contents ≡ take (length m.contents) (drop (ar.off + header_size) ar.text)

header_inside :
    (ar : Archive) {hdr : Bytes} → read_header ar ≡ some hdr → ar.off + header_size ≤ length ar.text
unfolding read_header
header_inside ar h = ground (arith, length-drop ar.off ar.text)

read_contents-IsNext :
    (ar : Archive) (hdr : Bytes) (l : ℕ) {ar' : Archive} {m : Member}
    → ar.off + header_size ≤ length ar.text
    → 0 < l
    → read_contents ar hdr l ≡ some (ar', m)
    → IsNext ar ar' m
unfolding read_contents
read_contents-IsNext ar hdr l b p h =
    let here = drop (ar.off + header_size) ar.text in
    ground (arith, length-drop (ar.off + header_size) ar.text, length-take_of_le l here)

next_sized-IsNext :
    (ar : Archive) (hdr : Bytes) (size : ℤ) {ar' : Archive} {m : Member}
    → ar.off + header_size ≤ length ar.text
    → next_sized ar hdr size ≡ some (ar', m)
    → IsNext ar ar' m
unfolding next_sized
next_sized-IsNext ar hdr (negsuc n) b h = cc
next_sized-IsNext ar hdr (pos zero) b h = cc
next_sized-IsNext ar hdr (pos (suc l)) b h =
    read_contents-IsNext ar hdr (suc l) b (omega arith) (unless _ h)
  where
    unless :
        {o : Option (Archive × Member)} {r : Archive × Member} (b : Bool)
        → (if b then none else o) ≡ some r
        → o ≡ some r
    unless true h = cc
    unless false h = h

next_header-IsNext :
    (ar : Archive) (hdr : Option Bytes) {ar' : Archive} {m : Member}
    → read_header ar ≡ hdr
    → next_header ar hdr ≡ some (ar', m)
    → IsNext ar ar' m
unfolding next_header
next_header-IsNext ar none e h = cc
next_header-IsNext ar (some hdr) e h = next_sized-IsNext ar hdr (ar_size hdr) (header_inside ar e) h

-- A member that `next_file` returns has at least one byte; its bytes are those behind its header in
-- the file, and the offset, still inside of the file, is behind them and their padding.
pub next_file-IsNext :
    (ar ar' : Archive) (m : Member) → next_file ar ≡ some (ar', m) → IsNext ar ar' m
unfolding next_file
next_file-IsNext ar ar' m h = next_header-IsNext ar (read_header ar) refl h

skip_index-IsInside : (ar ar' : Archive) (size : ℤ) → skip_index ar size ≡ some ar' → IsInside ar'
unfolding skip_index
skip_index-IsInside ar ar' (negsuc n) h = cc
skip_index-IsInside ar ar' (pos l) h = ground arith

init_first-IsInside :
    (ar ar' : Archive) (hdr : Option Bytes)
    → IsInside ar
    → init_first ar hdr ≡ some ar'
    → IsInside ar'
unfolding init_first
init_first-IsInside ar ar' none i h = cc
init_first-IsInside ar ar' (some hdr) i h = elim (Bool-cases (is_index (ar_name hdr))) [
  | inl index ↦ skip_index-IsInside ar ar' (ar_size hdr) (rw index at h)
  | inr member ↦ ground (arith, member)
]

init_opened :
    (text : Bytes) (first : Option Archive) {ar : Archive}
    → ((a : Archive) → first ≡ some a → IsInside a)
    → 8 ≤ length text
    → (if at_end (record { text = text; off = 8 })
        then some (record { text = text; off = 8 })
        else first)
      ≡ some ar
    → IsInside ar
unfolding at_end
init_opened text first {ar} f long h = elim (Bool-cases (8 == length text)) [
  | inl empty ↦ ground (arith, empty)
  | inr more ↦ f ar (rw more at h)
]

is_archive-length : (text : Bytes) → is_archive text ≡ true → 8 ≤ length text
unfolding is_archive has_byte
is_archive-length text h = omega (arith, (starts_with-Follows armag text refl h).1)

-- An archive that `init` opens starts with its offset inside of the file.
pub init-IsInside : (text : Bytes) (ar : Archive) → init text ≡ some ar → IsInside ar
unfolding init
init-IsInside text ar h = elim (Bool-cases (is_archive text)) [
  | inl magic ↦
      let long = is_archive-length text magic in
      let whole : Archive = record { text = text; off = 8 } in
      init_opened text (init_first whole (read_header whole))
        (λ a e. init_first-IsInside whole a (read_header whole) long e) long (rw magic at h)
  | inr other ↦ ground (arith, other)
]

read_next_ends :
    (again : Archive → List Member × End) (ar : Archive) (next : Option (Archive × Member))
    → next_file ar ≡ next
    → ((ar' : Archive) (m : Member) → IsNext ar ar' m → (again ar').1 ≢ exhausted)
    → (read_next again next).1 ≢ exhausted
unfolding read_next
read_next_ends again ar none e h = λ p. cc
read_next_ends again ar (some (ar', m)) e h = h ar' m (next_file-IsNext ar ar' m e)

read_loop_ends :
    (fuel : ℕ) (ar : Archive)
    → IsInside ar
    → length ar.text < ar.off + fuel
    → (read_loop fuel ar).1 ≢ exhausted
unfolding read_loop
read_loop_ends zero ar i h = absurd (omega arith)
read_loop_ends (suc fuel) ar i h = elim (Bool-cases (at_end ar)) [
  | inl done ↦ rw done (λ p. cc)
  | inr more ↦ rw more (
      read_next_ends (read_loop fuel) ar (next_file ar) refl
        (λ ar' m n. read_loop_ends fuel ar' n.inside (shorter ar' m n)))
]
  where
    shorter : (ar' : Archive) (m : Member) → IsNext ar ar' m → length ar'.text < ar'.off + fuel
    shorter ar' m n = omega (arith, ap length n.same_file, n.off)

-- The loop over the members of an archive ends, whatever the file holds: it reaches the end of the
-- file or a member that cannot be read.
pub read_members_ends : (ar : Archive) → IsInside ar → (read_members ar).1 ≢ exhausted
unfolding read_members
read_members_ends ar i = read_loop_ends (suc (length ar.text)) ar i (omega arith)
