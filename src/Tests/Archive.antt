-- ===== src/Tests/Archive.antt =====
-- Runs of the archive reader and of the search for libraries of nvptx-ld.cc on small inputs.
use nvptx_tools.Base.{
  ◌≤◌, ◌≡◌, ◌≢◌, refl, Bool, false, Option, none, some, List, [], ◌∷◌, ◌++◌, Bytes, length, take,
  codes, equal, arith,
}
use nvptx_tools.Hashtab.{Hashtab}
use nvptx_tools.Hashtab.Assoc.{assoc_table}
use nvptx_tools.Libc.{pos}
use nvptx_tools.Ld.Symbol.{Entry}
use nvptx_tools.Ld.Archive.{
  Archive, Member, init, next_file, read_members, complete, exhausted, ar_size, is_index,
}
use nvptx_tools.Ld.Archive.Bounds.{IsNext, init-IsInside, next_file-IsNext, read_members_ends}
use nvptx_tools.Ld.Archive.Image.{
  Image, IsImage, bytes_of, members_of, read_archive, read_archive_images,
}
use nvptx_tools.Ld.Main.{path_resolve}
use nvptx_tools.Ld.Main.Paths.{IsResolved, path_resolve-IsResolved}
use nvptx_tools.Ld.Scan.{armag}

abbrev h : Hashtab Entry
h = assoc_table Entry

abbrev odd_image : Image
odd_image = record {
  header = codes "a.o/            0           0     0     644     3         `\n";
  contents = codes "//a";
  padding = codes "\n";
}

abbrev even_image : Image
even_image = record {
  header = codes "b.o/            0           0     0     644     2         `\n";
  contents = codes "//";
  padding = [];
}

odd_size : ar_size odd_image.header ≡ pos 3
unfolding ar_size
odd_size = refl

even_size : ar_size even_image.header ≡ pos 2
unfolding ar_size
even_size = refl

odd_image-IsImage : IsImage odd_image
odd_image-IsImage = record {
  header_length = refl;
  size = odd_size;
  not_empty = omega arith;
  padding_length = refl;
}

even_image-IsImage : IsImage even_image
even_image-IsImage = record {
  header_length = refl;
  size = even_size;
  not_empty = omega arith;
  padding_length = refl;
}

abbrev images : List Image
images = odd_image ∷ even_image ∷ []

no_index : is_index (take 16 odd_image.header) ≡ false
unfolding is_index
no_index = refl

read_archive_images_example :
    read_archive (init (armag ++ bytes_of images)) ≡ some (members_of images, complete)
read_archive_images_example =
    read_archive_images images (odd_image-IsImage, (even_image-IsImage, tt)) no_index

abbrev library : Bytes
library = armag ++ bytes_of images

abbrev or_none : Option Archive → Archive
or_none none = record { text = []; off = 0 }
or_none (some ar) = ar

abbrev opened : Archive
opened = record { text = library; off = 8 }

is_opened : init library ≡ some opened
unfolding init
is_opened = refl

opened_inside : 8 ≤ length library
opened_inside = init-IsInside library opened is_opened

read_members_ends_example : (read_members opened).1 ≢ exhausted
read_members_ends_example = read_members_ends opened opened_inside

-- Behind the first member, with the byte that pads it.
abbrev second : Archive
second = record { text = library; off = 72 }

abbrev first_member : Member
first_member = record { name = codes "a.o/            "; contents = codes "//a" }

first_read : next_file opened ≡ some (second, first_member)
unfolding next_file
first_read = refl

next_file-IsNext_example : IsNext opened second first_member
next_file-IsNext_example = next_file-IsNext opened second first_member first_read

abbrev exists : Bytes → Bool
exists name = equal name (codes "/lib/libm.a")

path_resolve-IsResolved_example :
    IsResolved exists
      (codes "libm.a")
      (codes "/usr" ∷ codes "/lib" ∷ [])
      (path_resolve exists (codes "libm.a") (codes "/usr" ∷ codes "/lib" ∷ []))
path_resolve-IsResolved_example =
    path_resolve-IsResolved exists (codes "libm.a") (codes "/usr" ∷ codes "/lib" ∷ [])

resolved :
    path_resolve exists (codes "libm.a") (codes "/usr" ∷ codes "/lib" ∷ []) ≡ codes "/lib/libm.a"
unfolding path_resolve equal
resolved = refl
