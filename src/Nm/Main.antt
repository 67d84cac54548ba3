-- ===== src/Nm/Main.antt =====
-- nvptx-nm.cc, `main`: the options, and the loop over the input files.
pub mod Files
use nvptx_tools.Base.{
  ℕ, zero, suc, Bool, true, false, ◌||◌, ◌⊎◌, inl, inr, Option, none, some, List, [], ◌∷◌, ◌++◌,
  ◌==◌, if◌then◌else◌, Bytes, codes,
}
use nvptx_tools.Hashtab.{Hashtab}
use nvptx_tools.Hashtab.Traversal.{Traversal}
use nvptx_tools.Libc.{ℤ}
use nvptx_tools.Result.{Error, Result, ok, err, ◌>>=◌, open_error}
use nvptx_tools.Options.{Parsed, proceed, exits, handle_options}
use nvptx_tools.Nm.Symbol.{Entry}
use nvptx_tools.Nm.Process.{scan_file}
use nvptx_tools.Nm.Display.{Settings, display_rel_file}

-- The settings before the first option.
abbrev pub initial_settings : Settings
initial_settings = record {
  no_sort = false;
  reverse_sort = false;
  sort_numerically = false;
  quiet = false;
}

unfoldable pub set_output_format : Bytes → Settings → Parsed Settings
set_output_format [] settings = exits 1
set_output_format (c ∷ cs) settings = if c == b'b' || c == b'B' then proceed settings else exits 1

abbrev pub option_quiet : ℕ
option_quiet = 207

-- The `switch` on what `getopt_long` returned. It returns 0 for `--reverse-sort` alone, where it
-- has stored 1 in `reverse_sort`.
unfoldable pub handle_option : ℕ → Bytes → Settings → Parsed Settings
unfolding set_output_format
handle_option o arg settings =
    if o == b'B'
    then set_output_format (codes "bsd") settings
    else if o == option_quiet
    then proceed (record settings { quiet = true })
    else if o == b'f'
    then set_output_format arg settings
    else if o == b'n'
    then proceed (record settings { no_sort = false; sort_numerically = true })
    else if o == b'p'
    then proceed (record settings { no_sort = true; sort_numerically = false })
    else if o == b'r'
    then proceed (record settings { reverse_sort = true })
    else if o == b'h'
    then exits 0
    else if o == b'V'
    then exits 0
    else if o == 0
    then proceed (record settings { reverse_sort = true })
    else exits 1

-- `set_print_width` sets the same width for every file.
abbrev pub print_width : ℕ
print_width = 64

abbrev pub default_inputs : List Bytes → List Bytes
default_inputs [] = codes "a.out" ∷ []
default_inputs (name ∷ names) = name ∷ names

-- `filename_per_file`
abbrev pub has_several : List Bytes → Bool
has_several (x ∷ y ∷ names) = true
has_several _ = false

abbrev pub print_object_filename_bsd : Bool → Bytes → Bytes
print_object_filename_bsd filename_per_file filename =
    if filename_per_file then codes "\n" ++ filename ++ codes ":\n" else []

-- What a run of the tool prints, and how it ends: with the error on its way to `error_out`, or with
-- status 0.
pub record Run : Type 0 where
  pub output : Bytes
  pub failure : Option Error

module _ (H : Hashtab Entry) (traversal : Traversal H) (strcoll : Bytes → Bytes → ℤ) where
  unfoldable pub show_tables : Settings → Bool → Bytes → H.Table × List H.Table → Result Bytes
  unfolding display_rel_file
  show_tables settings filename_per_file name (global, locals) =
      display_rel_file H traversal strcoll settings print_width (global ∷ locals) >>= λ out.
      ok (print_object_filename_bsd filename_per_file name ++ out)

  unfoldable pub show_text : Settings → Bool → Bytes → Option Bytes → Result Bytes
  unfolding scan_file show_tables
  show_text settings filename_per_file name none = err (open_error name)
  show_text settings filename_per_file name (some buf) =
      scan_file H buf >>= show_tables settings filename_per_file name

-- `contents` is the file system.
module _ (H : Hashtab Entry) (traversal : Traversal H) (strcoll : Bytes → Bytes → ℤ)
    (contents : Bytes → Option Bytes) where
  -- The loop over `inputfiles`.
  unfoldable pub show_files : Settings → Bool → List Bytes → Run
  unfolding show_text
  show_files settings filename_per_file [] = record { output = []; failure = none }
  show_files settings filename_per_file (name ∷ names) =
      let rest = show_files settings filename_per_file names in
      elim (show_text H traversal strcoll settings filename_per_file name (contents name)) [
        | ok out ↦ record rest { output = out ++ rest.output }
        | err failure ↦ record { output = []; failure = some failure }
      ]

  unfoldable pub show_inputs : Settings → List Bytes → Run
  unfolding show_files
  show_inputs settings names =
      let inputfiles = default_inputs names in
      show_files settings (has_several inputfiles) inputfiles

  -- `main`, or the status with which an option makes it exit.
  unfoldable pub run_nm : List (ℕ × Bytes) → List Bytes → ℕ ⊎ Run
  unfolding handle_option show_inputs handle_options
  run_nm options names = elim (handle_options handle_option options initial_settings) [
    | proceed settings ↦ inr (show_inputs settings names)
    | exits status ↦ inl status
  ]
