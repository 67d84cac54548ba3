-- ===== src/Nm/Agreement.antt =====
-- The marker lines that nvptx-nm.cc and nvptx-ld.cc both read: those of global symbols.
use nvptx_tools.Base.{
  ◌≡◌, refl, ap, ◌∙◌, Bool, true, Option, none, some, [], ◌∷◌, ◌==◌, Bytes, codes, drop,
  starts_with, split_line, Bool-cases, inl, inr,
}
use nvptx_tools.Ld.Marker.{
  Kind as LinkerKind, def, decl as linker_decl, Round as LinkerRound, finish as linker_finish,
  advance as linker_advance, truncated as linker_truncated, handle as linker_handle,
  marker_type as linker_marker_type, read_weak as linker_read_weak, read_name as linker_read_name,
  read_marker as linker_read_marker, round as linker_round,
}
use nvptx_tools.Nm.Marker.{
  Kind, var_def, function_def, decl, Round, finish, advance, truncated, handle, marker_kind,
  read_weak, read_name, read_marker, begin_global, begin_local, round,
}

-- What the linker keeps of a marker's kind: a DEF or a DECL.
abbrev pub linker_kind : Kind → LinkerKind
linker_kind var_def = def
linker_kind function_def = def
linker_kind decl = linker_decl

abbrev some_kind : Option Kind → Option LinkerKind
some_kind none = none
some_kind (some k) = some (linker_kind k)

-- A round of the lister, as the linker sees it.
abbrev pub for_linker : Round → LinkerRound
for_linker (finish rest) = linker_finish rest
for_linker (advance rest) = linker_advance rest
for_linker truncated = linker_truncated
for_linker (handle m rest) =
    linker_handle (record { kind = linker_kind m.kind; name = m.name; weak = m.weak }) rest

kind-agree : (p : Bytes) → linker_marker_type p ≡ (some_kind (marker_kind p).0, (marker_kind p).1)
unfolding linker_marker_type marker_kind
kind-agree p = elim (Bool-cases (starts_with (codes "VAR DEF: ") p)) [
  | inl a ↦ rw a
  | inr a ↦ elim (Bool-cases (starts_with (codes "FUNCTION DEF: ") p)) [
    | inl b ↦ rw (a, b)
    | inr b ↦ elim (Bool-cases (starts_with (codes "VAR DECL: ") p)) [
      | inl c ↦ rw (a, b, c)
      | inr c ↦ elim (Bool-cases (starts_with (codes "FUNCTION DECL: ") p)) [
        | inl d ↦ rw (a, b, c, d)
        | inr d ↦ rw (a, b, c, d)
      ]
    ]
  ]
]

weak-agree :
    (g : Bool) (k : Kind) (name p : Bytes)
    → linker_read_weak (linker_kind k) name p ≡ for_linker (read_weak g k name p)
unfolding linker_read_weak read_weak
weak-agree g k name p = elim (Bool-cases (starts_with (codes "\n.weak ") p)) [
  | inl w ↦ rw w
  | inr s ↦ rw s
]

name-agree :
    (g : Bool) (k : Option Kind) (line : Option (Bytes × Bytes))
    → linker_read_name (some_kind k) line ≡ for_linker (read_name g k line)
unfolding linker_read_name read_name
name-agree g k none = refl
name-agree g none (some (name, p)) = refl
name-agree g (some k) (some (name, p)) = weak-agree g k name p

marker-agree : (g : Bool) (p : Bytes) → linker_read_marker p ≡ for_linker (read_marker g p)
unfolding linker_read_marker read_marker
marker-agree g p =
    ap (λ (k, rest). linker_read_name k (split_line rest)) (kind-agree p)
    ∙ name-agree g (marker_kind p).0 (split_line (marker_kind p).1)

-- Where no marker of a local symbol begins, the linker and the lister read the same: the end of the
-- text, a truncated or an unknown marker line, or a marker with the same name, the same "weak", and the
-- kind that the linker keeps, and they go on at the same place.
pub round_agree :
    (p : Bytes)
    → (starts_with begin_local p ≡ starts_with begin_global p)
    → linker_round p ≡ for_linker (round p)
unfolding linker_round round
round_agree [] h = refl
round_agree (c ∷ cs) h = elim (Bool-cases (c == 0)) [
  | inl nul ↦ rw nul
  | inr more ↦ elim (Bool-cases (starts_with begin_global (c ∷ cs))) [
    | inl global ↦ rw (more, global) (marker-agree true (drop 17 (c ∷ cs)))
    | inr other ↦ rw (more, other, h ∙ other)
  ]
]
