-- ===== src/Run/Parts.antt =====
-- nvptx-run.cc: `compile_file`, which gives the parts of the program to the driver one by one.
use nvptx_tools.Base.{
  ℕ, zero, suc, ◌+◌, ◌-◌, ◌≤◌, ◌<◌, ◌≡◌, refl, ap, ◌∙◌, true, false, Option, none, some, ltb, List,
  [], ◌∷◌, ◌++◌, ◌==◌, if◌then◌else◌, Bytes, has_byte, length, length-append, All, arith,
  Bool-cases, inl, inr,
}

-- `INT_MAX`
abbrev pub int_max : ℕ
int_max = 2147483647

-- `strlen`, with the text behind it: a NUL stands behind the file.
unfoldable pub span_part : Bytes → Bytes × Bytes
span_part [] = ([], [])
span_part (c ∷ text) =
    let (part, rest) = span_part text in if c == 0 then ([], c ∷ text) else (c ∷ part, rest)

-- `while (off < len && program[off] == '\0') off++`
unfoldable pub skip_nuls : Bytes → Bytes
skip_nuls [] = []
skip_nuls (c ∷ text) = let rest = skip_nuls text in if c == 0 then rest else c ∷ text

-- The loop, on fuel: the parts that are given to `cuLinkAddData`, each with its offset.
unfoldable pub parts_loop : ℕ → ℕ → Bytes → List (ℕ × Bytes)
unfolding span_part skip_nuls
parts_loop fuel off [] = []
parts_loop zero off (c ∷ text) = []
parts_loop (suc fuel) off (c ∷ text) =
    let (part, rest) = span_part (c ∷ text) in
    let next = skip_nuls rest in
    (off, part) ∷ parts_loop fuel (off + (length (c ∷ text) - length next)) next

-- `int len`, with `len + 1` bytes for the program: none if they do not fit, since what the code does
-- then is not defined. `off` and `l` are at most `len`.
unfoldable pub program_parts : Bytes → Option (List (ℕ × Bytes))
unfolding parts_loop
program_parts program =
    if ltb (length program) int_max then some (parts_loop (length program) 0 program) else none

-- Texts with a NUL behind each, as the linker writes them.
abbrev pub linked : List Bytes → Bytes
linked [] = []
linked (text ∷ texts) = text ++ 0 ∷ linked texts

-- The texts with the places at which they start.
abbrev pub placed : ℕ → List Bytes → List (ℕ × Bytes)
placed off [] = []
placed off (text ∷ texts) = (off, text) ∷ placed (off + length text + 1) texts

-- A text that is not empty and has no NUL.
abbrev pub IsText : Bytes → Type 0
IsText [] = ⊥
IsText (c ∷ text) = has_byte 0 (c ∷ text) ≡ false

span_part-append :
    (text rest : Bytes) → has_byte 0 text ≡ false → span_part (text ++ 0 ∷ rest) ≡ (text, 0 ∷ rest)
unfolding span_part has_byte
span_part-append [] rest h = refl
span_part-append (c ∷ text) rest h = elim (Bool-cases (c == 0)) [
  | inl e ↦ absurd (cc (rw e at h))
  | inr e ↦ rw (e, span_part-append text rest (rw e at h)) refl
]

skip_nuls-linked : (texts : List Bytes) → All IsText texts → skip_nuls (linked texts) ≡ linked texts
unfolding skip_nuls has_byte
skip_nuls-linked [] h = refl
skip_nuls-linked ([] ∷ texts) h = absurd h.0
skip_nuls-linked ((c ∷ text) ∷ texts) h = elim (Bool-cases (c == 0)) [
  | inl e ↦ absurd (cc (rw e at h.0))
  | inr e ↦ rw e refl
]

parts_loop-linked :
    (fuel off : ℕ) (texts : List Bytes)
    → All IsText texts
    → length (linked texts) ≤ fuel
    → parts_loop fuel off (linked texts) ≡ placed off texts
unfolding parts_loop
parts_loop-linked fuel off [] h l = refl
parts_loop-linked fuel off ([] ∷ texts) h l = absurd h.0
parts_loop-linked zero off ((c ∷ text) ∷ texts) h l = absurd (omega arith)
parts_loop-linked (suc fuel) off ((c ∷ text) ∷ texts) h l =
    let cut = span_part-append (c ∷ text) (linked texts) h.0 in
    let skipped : skip_nuls (0 ∷ linked texts) ≡ linked texts = skip_nuls-linked texts h.1 in
    let longer = length-append text (0 ∷ linked texts) in
    let off' = off + (length (c ∷ text ++ 0 ∷ linked texts) - length (linked texts)) in
    let same : off' ≡ off + length (c ∷ text) + 1 = omega (arith, longer) in
    rw (cut, skipped)
      (ap (◌∷◌ (off, c ∷ text)) (
        parts_loop-linked fuel off' texts h.1 (omega (arith, l, longer))
        ∙ ap (λ o. placed o texts) same))

-- If a program file of less than `INT_MAX` bytes holds texts that are not empty and have no NUL, a NUL behind each,
-- as the linker writes its output, then `compile_file` gives exactly these texts, in their order and with the offsets at which they
-- start, to the driver, and ends.
pub program_parts-linked :
    (texts : List Bytes)
    → All IsText texts
    → length (linked texts) < int_max
    → program_parts (linked texts) ≡ some (placed 0 texts)
unfolding program_parts
program_parts-linked texts h l =
    let fits : ltb (length (linked texts)) int_max ≡ true = ground (arith, l) in
    rw fits (ap some (parts_loop-linked (length (linked texts)) 0 texts h (omega arith)))
