-- ===== src/Ld/Archive.antt =====
-- nvptx-ld.cc: `class archive`. The stream `f` stands at `off` between the calls, so an archive is
-- its text and `off`; `flen` is the length of the text.
pub mod Bounds
pub mod Image
use nvptx_tools.Base.{
  ℕ, zero, suc, ◌+◌, ◌%◌, Bool, true, false, ◌||◌, Option, none, some, List, [], ◌∷◌, ◌==◌,
  if◌then◌else◌, ltb, Bytes, length, take, drop,
}
use nvptx_tools.Libc.{ℤ, pos, negsuc, strtol}
use nvptx_tools.Ld.Scan.{is_archive}

pub record Archive : Type 0 where
  pub text : Bytes
  pub off : ℕ

-- `name` and the `len` bytes of `contents`.
pub record Member : Type 0 where
  pub name : Bytes
  pub contents : Bytes

-- `sizeof (struct ar_hdr)`
abbrev pub header_size : ℕ
header_size = 60

-- `fread (&hdr, sizeof hdr, 1, f)`, at `off`.
unfoldable pub read_header : Archive → Option Bytes
read_header ar =
    let here = drop ar.off ar.text in
    if ltb (length here) header_size then none else some (take header_size here)

-- `hdr.ar_name`
abbrev pub ar_name : Bytes → Bytes
ar_name hdr = take 16 hdr

-- `atol (hdr.ar_size)`. The array is not terminated: `ar_fmag`, which follows it, is.
unfoldable pub ar_size : Bytes → ℤ
unfolding strtol
ar_size hdr = (strtol (drop 48 hdr)).0

unfoldable pub at_end : Archive → Bool
at_end ar = ar.off == length ar.text

-- The name of a symbol index begins with '/' or ' '.
unfoldable pub is_index : Bytes → Bool
is_index [] = false
is_index (c ∷ cs) = c == b'/' || c == b' '

unfoldable pub skip_index : Archive → ℤ → Option Archive
skip_index ar (negsuc n) = none
skip_index ar (pos l) =
    let off = ar.off + header_size in
    if ltb (length ar.text) (off + l) then none else some (record ar { off = off + l })

unfoldable pub init_first : Archive → Option Bytes → Option Archive
unfolding skip_index is_index ar_size
init_first ar none = none
init_first ar (some hdr) = if is_index (ar_name hdr) then skip_index ar (ar_size hdr) else some ar

unfoldable pub init : Bytes → Option Archive
unfolding init_first at_end read_header is_archive
init text =
    let ar : Archive = record { text = text; off = 8 } in
    if is_archive text then if at_end ar then some ar else init_first ar (read_header ar) else none

-- The contents, with the byte that pads an odd number of them.
abbrev pub padded : ℕ → ℕ
padded l = l + l % 2

unfoldable pub read_contents : Archive → Bytes → ℕ → Option (Archive × Member)
read_contents ar hdr l =
    let off = ar.off + header_size in
    let here = drop off ar.text in
    if ltb (length here) (padded l)
    then none
    else some
        (record ar { off = off + padded l }, record { name = ar_name hdr; contents = take l here })

unfoldable pub next_sized : Archive → Bytes → ℤ → Option (Archive × Member)
unfolding read_contents
next_sized ar hdr (negsuc n) = none
next_sized ar hdr (pos l) =
    if l == 0 || ltb (length ar.text) l then none else read_contents ar hdr l

unfoldable pub next_header : Archive → Option Bytes → Option (Archive × Member)
unfolding next_sized ar_size
next_header ar none = none
next_header ar (some hdr) = next_sized ar hdr (ar_size hdr)

unfoldable pub next_file : Archive → Option (Archive × Member)
unfolding next_header read_header
next_file ar = next_header ar (read_header ar)

-- How the reading of the members ends.
pub data End : Type 0 where
  complete broken exhausted : End

abbrev pub with_member : Member → List Member × End → List Member × End
with_member m (ms, end) = (m ∷ ms, end)

-- `while (!ar.at_end ())` with `next_file`, on fuel: the members, and how it ends.
unfoldable pub read_next :
    (Archive → List Member × End) → Option (Archive × Member) → List Member × End
read_next again none = ([], broken)
read_next again (some (ar, m)) = with_member m (again ar)

unfoldable pub read_loop : ℕ → Archive → List Member × End
unfolding read_next at_end next_file
read_loop zero ar = ([], exhausted)
read_loop (suc fuel) ar =
    let more = read_next (read_loop fuel) (next_file ar) in
    if at_end ar then ([], complete) else more

-- Each member takes bytes of the text.
unfoldable pub read_members : Archive → List Member × End
unfolding read_loop
read_members ar = read_loop (suc (length ar.text)) ar
