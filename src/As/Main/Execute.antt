-- ===== src/As/Main/Execute.antt =====
-- nvptx-as.cc: `fork_execute`, which runs `ptxas`, and the verification of the output in `main`.
use nvptx_tools.Base.{ℕ, zero, suc, Bool, List, [], ◌∷◌, ◌++◌, if◌then◌else◌, Bytes, codes}
use nvptx_tools.Result.{Result, ok, err, ◌>>=◌, assertion, bad_output, program_failed}
use nvptx_tools.As.Process.{VerifyMode, mode_libnvjitlink, mode_ptxas_libnvrtc, mode_ptxas}

-- What `pex_init`, `pex_run` and `pex_get_status` return: no process, an error, no status, or a status,
-- which is 0, that of a signal, of an exit, or another.
pub data Execution : Type 0 where
  not_started not_run no_status succeeded stopped : Execution
  signalled exited : ℕ → Execution

unfoldable pub collect_wait : Execution → Result ℕ
collect_wait not_started = err program_failed
collect_wait not_run = err program_failed
collect_wait no_status = err program_failed
collect_wait succeeded = ok 0
collect_wait (signalled sig) = err program_failed
collect_wait (exited status) = ok status
collect_wait stopped = ok 0

abbrev pub expect_zero : ℕ → Result (Unit {0})
expect_zero zero = ok tt
expect_zero (suc ret) = err program_failed

unfoldable pub do_wait : Execution → Result (Unit {0})
unfolding collect_wait
do_wait e = collect_wait e >>= expect_zero

-- The two ways to verify: `interface_libnvjitlink_verify`, of a file with options, and the run of a
-- program with its arguments.
pub record Verifier : Type 0 where
  pub libnvjitlink_verify : Bytes → List Bytes → Bool
  pub execute : List Bytes → Execution

unfoldable pub fork_execute : Verifier → List Bytes → Result (Unit {0})
unfolding do_wait
fork_execute verifier argv = do_wait (verifier.execute argv)

abbrev pub link_options : Bytes → List Bytes
link_options target_arg =
    (codes "-arch=" ++ target_arg)
    ∷ codes "-r"
    ∷ codes "-Xptxas=-c"
    ∷ codes "-O0"
    ∷ codes "-Xptxas=-O0"
    ∷ []

abbrev pub ptxas_argv : Bytes → Bytes → List Bytes
ptxas_argv outname target_arg =
    codes "ptxas"
    ∷ codes "-c"
    ∷ codes "-o"
    ∷ codes "/dev/null"
    ∷ outname
    ∷ codes "--gpu-name"
    ∷ target_arg
    ∷ codes "-O0"
    ∷ []

unfoldable pub verify_with : Verifier → VerifyMode → Bytes → Bytes → Result (Unit {0})
unfolding fork_execute
verify_with verifier mode_libnvjitlink outname target_arg =
    if verifier.libnvjitlink_verify outname (link_options target_arg) then ok tt else err bad_output
verify_with verifier mode_ptxas_libnvrtc outname target_arg =
    fork_execute verifier (ptxas_argv outname target_arg)
verify_with verifier mode_ptxas outname target_arg =
    fork_execute verifier (ptxas_argv outname target_arg)
verify_with verifier verify outname target_arg = err assertion
