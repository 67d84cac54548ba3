-- ===== src/As/Main.antt =====
-- nvptx-as.cc, `main`: from the options to the output and its verification.
pub mod Available
pub mod Usable
pub mod Switch
pub mod Target
pub mod Execute
pub mod Settled
pub mod Scanned
pub mod Raised
pub mod Ready
pub mod Asked
pub mod Whole
use nvptx_tools.Base.{ℕ, Bool, true, false, Option, none, some, List, [], ◌∷◌, if◌then◌else◌, Bytes}
use nvptx_tools.Hashtab.{Hashtab}
use nvptx_tools.Hashtab.Count.{Count}
use nvptx_tools.Options.{Parsed, proceed, exits, handle_options}
use nvptx_tools.Result.{
  Result, ok, err, ◌>>=◌, ◌>>◌, assert, assertion, output_error, no_input, too_many_inputs,
}
use nvptx_tools.As.Process.{
  VerifyMode, mode_unset, mode_no, mode_yes, mode_libnvjitlink, mode_ptxas_libnvrtc, mode_ptxas,
  Assembled, process,
}
use nvptx_tools.As.Main.Usable.{System, Inhibited, choose_mode}
use nvptx_tools.As.Main.Switch.{Settings, initial_settings, handle_option}
use nvptx_tools.As.Main.Target.{choose_target}
use nvptx_tools.As.Main.Execute.{Verifier, verify_with}

-- What the files hold, each up to its first NUL, and which can be opened for the output.
pub record Files : Type 0 where
  pub stdin : Bytes
  pub contents : Bytes → Option Bytes
  pub opens : Bytes → Bool

-- The modes that an option sets, and those behind the choice.
abbrev pub is_asked : VerifyMode → Bool
is_asked mode_unset = true
is_asked mode_no = true
is_asked mode_yes = true
is_asked verify = false

abbrev pub is_settled : VerifyMode → Bool
is_settled mode_unset = false
is_settled mode_yes = false
is_settled verify = true

unfoldable pub settle : System → Inhibited → Option Bytes → VerifyMode → Result VerifyMode
unfolding choose_mode
settle sys inhibited outname verify =
    assert (is_asked verify)
    >> (choose_mode sys inhibited outname verify >>= λ chosen.
        assert (is_settled chosen) >> ok chosen)

-- The file that is written, the mode in which it is verified, and the architecture.
pub record Finished : Type 0 where
  pub output : Bytes
  pub verify : VerifyMode
  pub target_arg : Option Bytes

abbrev pub verify_named :
    System → Verifier → Settings → Assembled → VerifyMode → Option Bytes → Result Finished
verify_named sys verifier s a verify none = err assertion
verify_named sys verifier s a verify (some outname) =
    choose_target sys verify s.target_arg_force a.preamble_target_arg >>= λ target_arg.
    verify_with verifier verify outname target_arg >>= λ verified.
    ok (record { output = a.output; verify = verify; target_arg = some target_arg })

abbrev pub verify_output : System → Verifier → Settings → Assembled → VerifyMode → Result Finished
verify_output sys verifier s a mode_no =
    ok (record { output = a.output; verify = mode_no; target_arg = none })
verify_output sys verifier s a verify = verify_named sys verifier s a verify s.outname

abbrev pub can_open : Files → Option Bytes → Bool
can_open files none = true
can_open files (some outname) = files.opens outname

abbrev pub open_input : Files → List Bytes → Result Bytes
open_input files [] = ok files.stdin
open_input files (inname ∷ []) = elim (files.contents inname) [
  | none ↦ err no_input
  | some text ↦ ok text
]
open_input files (inname ∷ other ∷ names) = err too_many_inputs

-- What is to be opened: the number of input files is checked first, the output is opened before the
-- input.
unfoldable pub open_files : Files → Option Bytes → List Bytes → Result Bytes
open_files files outname (inname ∷ other ∷ names) = err too_many_inputs
open_files files outname names =
    if can_open files outname then open_input files names else err output_error

module _ (H : Hashtab ℕ) (count : Count H) (sys : System) (verifier : Verifier)
    (files : Files) where
  -- Behind the options.
  unfoldable pub run : Settings → List Bytes → Result Finished
  unfolding process settle open_files
  run s names = open_files files s.outname names >>= λ text. process H count s.verify text >>= λ a.
      settle sys s.inhibited s.outname a.verify >>= λ verify. verify_output sys verifier s a verify

  -- The run of the tool with options and input files, or an early exit with a status.
  unfoldable pub main : List (ℕ × Bytes) → List Bytes → Parsed (Result Finished)
  unfolding handle_options handle_option run
  main options names = elim (handle_options (handle_option sys) options initial_settings) [
    | proceed s ↦ proceed (run s names)
    | exits status ↦ exits status
  ]
