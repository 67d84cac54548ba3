-- ===== src/Ld/Marker.antt =====
-- nvptx-ld.cc, `process_refs_defs`: how a round of its loop reads the text at `ptx`.
pub mod Rounds
use nvptx_tools.Base.{
  Bool, true, false, Option, none, some, [], ◌∷◌, ◌==◌, if◌then◌else◌, Bytes, codes, drop,
  starts_with, split_line,
}

-- The local `type`: 1 for a DEF, 2 for a DECL. (0, an unknown marker, is `none` below.)
pub data Kind : Type 0 where
  def decl : Kind

pub record Marker : Type 0 where
  pub kind : Kind
  pub name : Bytes
  pub weak : Bool

-- The tests behind "BEGIN GLOBAL ", and the text behind the one that matches.
unfoldable pub marker_type : Bytes → Option Kind × Bytes
marker_type ptx =
    if starts_with (codes "VAR DEF: ") ptx
    then (some def, drop 9 ptx)
    else if starts_with (codes "FUNCTION DEF: ") ptx
    then (some def, drop 14 ptx)
    else if starts_with (codes "VAR DECL: ") ptx
    then (some decl, drop 10 ptx)
    else if starts_with (codes "FUNCTION DECL: ") ptx
    then (some decl, drop 15 ptx)
    else (none, ptx)

-- What a round does: it ends the loop at a NUL, whose successor is returned (`none`: one past the
-- end of the buffer), steps over a byte or an unknown marker, meets a truncated marker, or
-- handles a marker and goes on behind it.
pub data Round : Type 0 where
  finish : Option Bytes → Round
  advance : Bytes → Round
  truncated : Round
  handle : Marker → Bytes → Round

-- The marker line with `type` known and `ptx` at its newline.
unfoldable pub read_weak : Kind → Bytes → Bytes → Round
read_weak kind name ptx =
    if starts_with (codes "\n.weak ") ptx
    then handle (record { kind = kind; name = name; weak = true }) (drop 7 ptx)
    else handle (record { kind = kind; name = name; weak = false }) ptx

unfoldable pub read_name : Option Kind → Option (Bytes × Bytes) → Round
unfolding read_weak
read_name type none = truncated
read_name none (some (name, ptx)) = advance ptx
read_name (some kind) (some (name, ptx)) = read_weak kind name ptx

unfoldable pub read_marker : Bytes → Round
unfolding marker_type read_name split_line
read_marker ptx = let (type, rest) = marker_type ptx in read_name type (split_line rest)

abbrev pub begin_global : Bytes
begin_global = codes "\n// BEGIN GLOBAL "

unfoldable pub round : Bytes → Round
unfolding read_marker
round [] = finish none
round (c ∷ cs) =
    if c == 0
    then finish (some cs)
    else if starts_with begin_global (c ∷ cs)
    then read_marker (drop 17 (c ∷ cs))
    else advance cs
