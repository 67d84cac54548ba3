-- ===== src/Nm/Marker.antt =====
-- nvptx-nm.cc, `process_refs_defs`: how a round of its loop reads the text at `ptx`.
pub mod Rounds
use nvptx_tools.Base.{
  Bool, true, false, Option, none, some, [], ◌∷◌, ◌==◌, if◌then◌else◌, Bytes, codes, drop,
  starts_with, split_line,
}
use nvptx_tools.Nm.Symbol.{SymbolType, var, local_var, function, local_function, undefined}

-- What a marker says, but for "weak".
pub data Kind : Type 0 where
  var_def function_def decl : Kind

pub record Marker : Type 0 where
  pub global : Bool
  pub kind : Kind
  pub name : Bytes
  pub weak : Bool

abbrev pub type_of : Bool → Kind → SymbolType
type_of global var_def = if global then var else local_var
type_of global function_def = if global then function else local_function
type_of global decl = undefined

-- The tests behind "BEGIN ", and the text behind the one that matches.
unfoldable pub marker_kind : Bytes → Option Kind × Bytes
marker_kind ptx =
    if starts_with (codes "VAR DEF: ") ptx
    then (some var_def, drop 9 ptx)
    else if starts_with (codes "FUNCTION DEF: ") ptx
    then (some function_def, drop 14 ptx)
    else if starts_with (codes "VAR DECL: ") ptx
    then (some decl, drop 10 ptx)
    else if starts_with (codes "FUNCTION DECL: ") ptx
    then (some decl, drop 15 ptx)
    else (none, ptx)

-- What a round does, as in the linker: `finish` with the place behind the NUL, if there is one.
pub data Round : Type 0 where
  finish : Option Bytes → Round
  advance : Bytes → Round
  truncated : Round
  handle : Marker → Bytes → Round

unfoldable pub read_weak : Bool → Kind → Bytes → Bytes → Round
read_weak global kind name ptx =
    if starts_with (codes "\n.weak ") ptx
    then handle (record { global = global; kind = kind; name = name; weak = true }) (drop 7 ptx)
    else handle (record { global = global; kind = kind; name = name; weak = false }) ptx

unfoldable pub read_name : Bool → Option Kind → Option (Bytes × Bytes) → Round
unfolding read_weak
read_name global kind none = truncated
read_name global none (some (name, ptx)) = advance ptx
read_name global (some kind) (some (name, ptx)) = read_weak global kind name ptx

unfoldable pub read_marker : Bool → Bytes → Round
unfolding marker_kind read_name split_line
read_marker global ptx =
    let (kind, rest) = marker_kind ptx in read_name global kind (split_line rest)

abbrev pub begin_global : Bytes
begin_global = codes "\n// BEGIN GLOBAL "

abbrev pub begin_local : Bytes
begin_local = codes "\n// BEGIN "

unfoldable pub round : Bytes → Round
unfolding read_marker starts_with
round [] = finish none
round (c ∷ cs) =
    if c == 0
    then finish (some cs)
    else if starts_with begin_global (c ∷ cs)
    then read_marker true (drop 17 (c ∷ cs))
    else if starts_with begin_local (c ∷ cs)
    then read_marker false (drop 10 (c ∷ cs))
    else advance cs
