-- ===== src/As/Main/Target.antt =====
-- nvptx-as.cc, `main`: the architecture that the output is verified for.
use nvptx_tools.Base.{
  ℕ, Bool, not, ◌||◌, Option, none, some, List, [], ◌∷◌, ◌++◌, if◌then◌else◌, Bytes, codes, equal,
  starts_with, drop,
}
use nvptx_tools.Libc.{
  ℤ, pos, less, negate, has_digit, skip_space, read_sign, read_digits, print_int,
}
use nvptx_tools.Result.{
  Result, ok, err, ◌>>◌, assert, assertion, past_the_end, unsupported_target, no_archs,
}
use nvptx_tools.As.Process.{VerifyMode, mode_libnvjitlink, mode_ptxas_libnvrtc, mode_ptxas}
use nvptx_tools.As.Main.Usable.{System}

abbrev pub converted : Bool → Bytes → ℕ × Bytes → Option (ℤ × Bytes)
converted negative digits (n, rest) =
    if has_digit digits then some (negate negative n, rest) else none

-- `%d`, of a number that fits, and what is behind it.
unfoldable pub scan_int : Bytes → Option (ℤ × Bytes)
unfolding skip_space read_sign read_digits
scan_int s =
    let (negative, digits) = read_sign (skip_space s) in
    converted negative digits (read_digits 0 digits)

-- `sscanf (target_arg, "sm_%d%n", &arch, &n)`: the number and what is behind it, or none.
unfoldable pub scan_arch : Bytes → Option (ℤ × Bytes)
unfolding starts_with scan_int
scan_arch text = if starts_with (codes "sm_") text then scan_int (drop 3 text) else none

abbrev pub at_least : List ℤ → Bytes → ℤ → Result Bytes
at_least [] arg arch = err past_the_end
at_least (lowest ∷ archs) arg arch =
    ok (if less arch lowest then codes "sm_" ++ print_int lowest else arg)

unfoldable pub raised : List ℤ → Bytes → Option (ℤ × Bytes) → Result Bytes
raised archs arg none = err unsupported_target
raised archs arg (some (arch, c ∷ rest)) = err unsupported_target
raised archs arg (some (arch, [])) = assert (not (less arch (pos 0))) >> at_least archs arg arch

abbrev pub with_archs : Bytes → Option (List ℤ) → Result Bytes
unfolding raised scan_arch
with_archs arg none = err no_archs
with_archs arg (some archs) = raised archs arg (scan_arch arg)

unfoldable pub target_by_libnvrtc : System → Bytes → Result Bytes
unfolding with_archs
target_by_libnvrtc sys arg =
    if sys.libnvrtc_init then with_archs arg sys.supported_archs else err assertion

-- Kepler architectures are not supported by new versions of `ptxas`.
unfoldable pub target_for_ptxas : Bytes → Bytes
target_for_ptxas arg =
    if equal (codes "sm_30") arg
      || equal (codes "sm_32") arg
      || equal (codes "sm_35") arg
      || equal (codes "sm_37") arg
    then codes "sm_50"
    else arg

abbrev pub target_from : System → VerifyMode → Bytes → Result Bytes
unfolding target_by_libnvrtc target_for_ptxas
target_from sys mode_libnvjitlink arg = target_by_libnvrtc sys arg
target_from sys mode_ptxas_libnvrtc arg = target_by_libnvrtc sys arg
target_from sys mode_ptxas arg = ok (target_for_ptxas arg)
target_from sys verify arg = err assertion

-- `target_arg`, from `target_arg_force` and `preamble_target_arg`.
unfoldable pub choose_target : System → VerifyMode → Option Bytes → Option Bytes → Result Bytes
unfolding target_from
choose_target sys verify (some arg) preamble = ok arg
choose_target sys verify none none = err assertion
choose_target sys verify none (some arg) = target_from sys verify arg
