-- ===== src/Ld/Archive/Image.antt =====
-- The archives that hold given members, and what the reader makes of them.
use nvptx_tools.Base.{
  ℕ, zero, suc, ◌+◌, ◌%◌, ◌≤◌, ◌<◌, ◌≡◌, refl, ap, sym, ◌∙◌, true, false, Option, none, some, List,
  [], ◌∷◌, ◌++◌, Bytes, length, drop, take, arith, length-append, length-drop, drop-drop,
  drop-append_length, take-append_length, All, starts_with,
}
use mathlib.Core.List.{append_assoc}
use nvptx_tools.Libc.{pos}
use nvptx_tools.Ld.Archive.{
  Archive, Member, header_size, padded, read_header, ar_name, ar_size, is_index, at_end,
  read_contents, next_sized, next_header, next_file, End, complete, with_member, read_next,
  read_loop, read_members, init, init_first,
}
use nvptx_tools.Ld.Scan.{armag, is_archive}

-- A member as `ar` writes it: its header, its contents, and the padding.
pub record Image : Type 0 where
  pub header : Bytes
  pub contents : Bytes
  pub padding : Bytes

-- The header names the size of the contents, which are not empty, and a newline pads an odd number
-- of them.
pub record IsImage (i : Image) : Type 0 where
  pub header_length : length i.header ≡ header_size
  pub size : ar_size i.header ≡ pos (length i.contents)
  pub not_empty : 0 < length i.contents
  pub padding_length : length i.padding ≡ length i.contents % 2

abbrev pub member_of : Image → Member
member_of i = record { name = ar_name i.header; contents = i.contents }

abbrev pub bytes_of : List Image → Bytes
bytes_of [] = []
bytes_of (i ∷ is) = i.header ++ (i.contents ++ (i.padding ++ bytes_of is))

abbrev pub members_of : List Image → List Member
members_of [] = []
members_of (i ∷ is) = member_of i ∷ members_of is

-- What the file holds from the offset on.
record Holds (ar : Archive) (rest : Bytes) : Type 0 where
  inside : ar.off ≤ length ar.text
  from : drop ar.off ar.text ≡ rest

read_header_at :
    (ar : Archive) (header rest : Bytes)
    → Holds ar (header ++ rest)
    → length header ≡ header_size
    → read_header ar ≡ some header
unfolding read_header
read_header_at ar header rest h n = rw h.from (ground (arith, length-append header rest, taken))
  where
    taken : take header_size (header ++ rest) ≡ header
    taken = ap (λ k. take k (header ++ rest)) (sym n) ∙ take-append_length header rest

-- The file behind a part of it.
behind :
    (ar : Archive) (part rest : Bytes) (n : ℕ)
    → Holds ar (part ++ rest)
    → length part ≡ n
    → drop (ar.off + n) ar.text ≡ rest
behind ar part rest n h e =
    sym (drop-drop ar.off n ar.text)
    ∙ ap (drop n) h.from
    ∙ ap (λ k. drop k (part ++ rest)) (sym e)
    ∙ drop-append_length part rest

abbrev after : Archive → Image → Archive
after ar i = record ar { off = ar.off + header_size + padded (length i.contents) }

after-Holds :
    (ar : Archive) (i : Image) (rest : Bytes)
    → IsImage i
    → Holds ar (i.header ++ (i.contents ++ (i.padding ++ rest)))
    → Holds (after ar i) rest
after-Holds ar i rest v h = record {
  inside = omega (arith, length-drop ar.off ar.text, ap length h.from, all_length);
  from =
      ap (λ k. drop k ar.text) (omega arith)
      ∙ behind ar (i.header ++ (i.contents ++ i.padding)) rest
          (header_size + padded (length i.contents))
          (record { inside = h.inside; from = h.from ∙ sym regroup })
          (omega (
            arith,
            v.header_length,
            v.padding_length,
            length-append i.header (i.contents ++ i.padding),
            length-append i.contents i.padding,
          ));
}
  where
    regroup :
        (i.header ++ (i.contents ++ i.padding)) ++ rest
        ≡ i.header ++ (i.contents ++ (i.padding ++ rest))
    regroup = simp (append_assoc)

    all_length :
        length (i.header ++ (i.contents ++ (i.padding ++ rest)))
        ≡ header_size + padded (length i.contents) + length rest
    all_length = omega (
      arith,
      v.header_length,
      v.padding_length,
      length-append i.header (i.contents ++ (i.padding ++ rest)),
      length-append i.contents (i.padding ++ rest),
      length-append i.padding rest,
    )

read_contents_at :
    (ar : Archive) (i : Image) (rest : Bytes)
    → IsImage i
    → Holds ar (i.header ++ (i.contents ++ (i.padding ++ rest)))
    → read_contents ar i.header (length i.contents) ≡ some (after ar i, member_of i)
unfolding read_contents
read_contents_at ar i rest v h =
    rw (behind ar i.header (i.contents ++ (i.padding ++ rest)) header_size h v.header_length) (
      ground (
        arith,
        v.padding_length,
        length-append i.contents (i.padding ++ rest),
        length-append i.padding rest,
        take-append_length i.contents (i.padding ++ rest),
      ))

next_file_at :
    (ar : Archive) (i : Image) (rest : Bytes)
    → IsImage i
    → Holds ar (i.header ++ (i.contents ++ (i.padding ++ rest)))
    → next_file ar ≡ some (after ar i, member_of i)
unfolding next_file next_header next_sized
next_file_at ar i rest v h =
    rw (read_header_at ar i.header (i.contents ++ (i.padding ++ rest)) h v.header_length)
      (rw v.size (ground (arith, fits, v.not_empty, read_contents_at ar i rest v h)))
  where
    fits : length i.contents ≤ length ar.text
    fits = omega (
      arith,
      length-drop ar.off ar.text,
      ap length h.from,
      length-append i.header (i.contents ++ (i.padding ++ rest)),
      length-append i.contents (i.padding ++ rest),
    )

at_end-Holds : (ar : Archive) → Holds ar [] → at_end ar ≡ true
unfolding at_end
at_end-Holds ar h = ground (arith, h.inside, length-drop ar.off ar.text, ap length h.from)

not_at_end :
    (ar : Archive) (i : Image) (rest : Bytes)
    → IsImage i
    → Holds ar (i.header ++ rest)
    → at_end ar ≡ false
unfolding at_end
not_at_end ar i rest v h = ground (
  arith,
  h.inside,
  v.header_length,
  length-drop ar.off ar.text,
  ap length h.from,
  length-append i.header rest,
)

length-bytes_of : (is : List Image) → All IsImage is → length is ≤ length (bytes_of is)
length-bytes_of [] v = omega arith
length-bytes_of (i ∷ is) v = omega (
  arith,
  v.0.header_length,
  length-append i.header (i.contents ++ (i.padding ++ bytes_of is)),
  length-append i.contents (i.padding ++ bytes_of is),
  length-append i.padding (bytes_of is),
  length-bytes_of is v.1,
)

read_loop_at :
    (fuel : ℕ) (ar : Archive) (is : List Image)
    → All IsImage is
    → length is < fuel
    → Holds ar (bytes_of is)
    → read_loop fuel ar ≡ (members_of is, complete)
unfolding read_loop
read_loop_at zero ar is v n h = absurd (omega arith)
read_loop_at (suc fuel) ar [] v n h = rw (at_end-Holds ar h)
read_loop_at (suc fuel) ar (i ∷ is) v n h =
    rw (not_at_end ar i (i.contents ++ (i.padding ++ bytes_of is)) v.0 h) (
      rw (next_file_at ar i (bytes_of is) v.0 h) (
        unfold read_next in
        ap (with_member (member_of i)) (
          read_loop_at fuel (after ar i) is v.1 (omega arith)
            (after-Holds ar i (bytes_of is) v.0 h))))

-- The first member of an archive with no symbol index.
abbrev pub HasNoIndex : List Image → Type 0
HasNoIndex [] = Unit {0}
HasNoIndex (i ∷ is) = is_index (ar_name i.header) ≡ false

start_Holds : (rest : Bytes) → Holds (record { text = armag ++ rest; off = 8 }) rest
start_Holds rest = record { inside = omega (arith, length-append armag rest); from = refl }

init_images :
    (is : List Image)
    → All IsImage is
    → HasNoIndex is
    → init (armag ++ bytes_of is) ≡ some (record { text = armag ++ bytes_of is; off = 8 })
unfolding init is_archive starts_with init_first
init_images [] v h = unfold at_end in refl
init_images (i ∷ is) v h =
    let ar : Archive = record { text = armag ++ bytes_of (i ∷ is); off = 8 } in
    let rest = i.contents ++ (i.padding ++ bytes_of is) in
    rw (not_at_end ar i rest v.0 (start_Holds (i.header ++ rest))) (
      rw (read_header_at ar i.header rest (start_Holds (i.header ++ rest)) v.0.header_length)
        (rw h))

-- What is read of an archive: `none` if it does not open.
abbrev pub read_archive : Option Archive → Option (List Member × End)
read_archive none = none
read_archive (some ar) = some (read_members ar)

-- The archive of well-formed members, without a symbol index, opens and is read as those members,
-- with their names and contents, in their order, and to its end.
pub read_archive_images :
    (is : List Image)
    → All IsImage is
    → HasNoIndex is
    → read_archive (init (armag ++ bytes_of is)) ≡ some (members_of is, complete)
unfolding read_members
read_archive_images is v h = rw (init_images is v h) (
    ap some (
      read_loop_at (suc (length (armag ++ bytes_of is))) _ is v
        (omega (arith, length-bytes_of is v, length-append armag (bytes_of is)))
        (start_Holds (bytes_of is))))
