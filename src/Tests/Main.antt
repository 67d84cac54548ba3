-- ===== src/Tests/Main.antt =====
-- Runs of `main` of nvptx-as.cc in a small system.
use nvptx_tools.Base.{
  ℕ, ◌≡◌, refl, Bool, true, false, Option, none, some, List, [], ◌∷◌, Bytes, codes, equal, has_byte,
}
use nvptx_tools.Hashtab.Assoc.{assoc_table}
use nvptx_tools.Hashtab.Count.{assoc_count}
use nvptx_tools.Libc.{pos, print_int}
use nvptx_tools.Options.{Parsed, proceed, exits}
use nvptx_tools.Result.{Result, ok, err}
use nvptx_tools.Result.Ensures.{Ensures}
use nvptx_tools.As.Token.{write_token}
use nvptx_tools.As.Statement.{alloc_stmt}
use nvptx_tools.As.Parse.{append_to}
use nvptx_tools.As.Process.{mode_unset, mode_ptxas_libnvrtc}
use nvptx_tools.As.Main.{Files, Finished, settle, main}
use nvptx_tools.As.Main.Available.{stands_in_any, program_available, program_available-joined}
use nvptx_tools.As.Main.Usable.{System, Inhibited}
use nvptx_tools.As.Main.Settled.{IsSettled, IsRefused, settle-IsSettled}
use nvptx_tools.As.Main.Target.{choose_target}
use nvptx_tools.As.Main.Raised.{IsTarget, IsNoTarget, choose_target-IsTarget}
use nvptx_tools.As.Main.Execute.{succeeded, Verifier, verify_with}
use nvptx_tools.As.Main.Whole.{IsMain, main-IsMain}

abbrev is_ptxas : Bytes → Bool
is_ptxas name = equal name (codes "/cuda/bin/ptxas")

-- `ptxas` and NVRTC of CUDA 12 are there, nvJitLink is too old.
abbrev sys : System
sys = record {
  libnvrtc_init = true;
  libnvjitlink_init = true;
  libnvrtc_version = some (pos 12, pos 9);
  libnvjitlink_version = some (12, 9);
  supported_archs = some (pos 50 ∷ pos 52 ∷ []);
  path = some (codes "/bin::/cuda/bin/");
  is_executable = is_ptxas;
  is_regular = is_ptxas;
}

abbrev nothing_inhibited : Inhibited
nothing_inhibited = record { libnvrtc = false; libnvjitlink = false; ptxas = false }

abbrev directories : List Bytes
directories = codes "" ∷ codes "/cuda/bin/" ∷ []

program_available-joined_example :
    program_available is_ptxas is_ptxas (codes "ptxas") (some (codes "/bin::/cuda/bin/"))
    ≡ stands_in_any is_ptxas is_ptxas (codes "ptxas") (codes "/bin" ∷ directories)
unfolding has_byte
program_available-joined_example =
    program_available-joined is_ptxas is_ptxas (codes "ptxas") (codes "/bin") directories
      (refl, (refl, (refl, tt)))

ptxas_found : program_available is_ptxas is_ptxas (codes "ptxas") sys.path ≡ true
unfolding program_available equal
ptxas_found = refl

settle-IsSettled_example :
    Ensures
      (IsSettled sys nothing_inhibited (some (codes "a.o")) mode_unset)
      (IsRefused sys nothing_inhibited mode_unset)
      (settle sys nothing_inhibited (some (codes "a.o")) mode_unset)
settle-IsSettled_example =
    settle-IsSettled sys nothing_inhibited (some (codes "a.o")) mode_unset refl

with_libnvrtc :
    settle sys nothing_inhibited (some (codes "a.o")) mode_unset ≡ ok mode_ptxas_libnvrtc
unfolding settle equal
with_libnvrtc = refl

choose_target-IsTarget_example :
    Ensures
      (IsTarget sys mode_ptxas_libnvrtc none (codes "sm_30"))
      (IsNoTarget sys (codes "sm_30"))
      (choose_target sys mode_ptxas_libnvrtc none (some (codes "sm_30")))
unfolding has_byte
choose_target-IsTarget_example =
    choose_target-IsTarget sys mode_ptxas_libnvrtc none (codes "sm_30") refl refl

raised_to_lowest :
    choose_target sys mode_ptxas_libnvrtc none (some (codes "sm_30")) ≡ ok (codes "sm_50")
unfolding choose_target print_int
raised_to_lowest = refl

abbrev verifier : Verifier
verifier = record { libnvjitlink_verify = λ outname options. false; execute = λ argv. succeeded }

abbrev files : Files
files = record {
  stdin = codes ".version 6.0\n.target sm_30\n";
  contents = λ name. none;
  opens = λ name. true;
}

abbrev options : List (ℕ × Bytes)
options = (b'o', codes "a.o") ∷ (b'v', []) ∷ []

main-IsMain_example :
    IsMain
      (assoc_table ℕ)
      (assoc_count ℕ)
      sys
      verifier
      files
      options
      []
      (main (assoc_table ℕ) (assoc_count ℕ) sys verifier files options [])
main-IsMain_example = main-IsMain (assoc_table ℕ) (assoc_count ℕ) sys verifier files options []

abbrev outcome : Parsed (Result Finished) → Bytes × Option Bytes
outcome (proceed (ok r)) = (r.output, r.target_arg)
outcome (proceed (err x)) = ([], none)
outcome (exits status) = ([], none)

verified :
    outcome (main (assoc_table ℕ) (assoc_count ℕ) sys verifier files options [])
    ≡ (codes ".version 6.0\n.target sm_30\n", some (codes "sm_50"))
unfolding main equal append_to alloc_stmt write_token choose_target verify_with print_int
verified = refl
