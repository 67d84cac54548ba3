-- ===== src/As/Main/Usable.antt =====
-- nvptx-as.cc: what the output can be verified with, and the choice between them.
use nvptx_tools.Base.{
  ℕ, suc, ◌-◌, ◌%◌, Bool, false, not, ◌&&◌, ◌||◌, Option, none, some, List, ◌==◌, if◌then◌else◌,
  ltb, Bytes, codes,
}
use nvptx_tools.Libc.{ℤ, pos, negsuc}
use nvptx_tools.Result.{Result, ok, err, not_verifiable, assertion}
use nvptx_tools.As.Process.{
  VerifyMode, mode_unset, mode_no, mode_yes, mode_libnvjitlink, mode_ptxas_libnvrtc, mode_ptxas,
}
use nvptx_tools.As.Main.Available.{program_available}

-- What the calls of the interfaces to NVRTC and nvJitLink and of the system return. A version is
-- none if the call fails, as are the architectures.
pub record System : Type 0 where
  pub libnvrtc_init : Bool
  pub libnvjitlink_init : Bool
  pub libnvrtc_version : Option (ℤ × ℤ)
  pub libnvjitlink_version : Option (ℕ × ℕ)
  pub supported_archs : Option (List ℤ)
  pub path : Option Bytes
  pub is_executable : Bytes → Bool
  pub is_regular : Bytes → Bool

-- What is inhibited.
pub record Inhibited : Type 0 where
  pub libnvrtc : Bool
  pub libnvjitlink : Bool
  pub ptxas : Bool

-- `(unsigned int)`, of 32 bits.
abbrev pub to_unsigned : ℤ → ℕ
to_unsigned (pos n) = n % 4294967296
to_unsigned (negsuc n) = (4294967296 - suc (n % 4294967296)) % 4294967296

unfoldable pub is_libnvrtc_usable : System → Bool → Bool
is_libnvrtc_usable sys inhibit = if inhibit then false else sys.libnvrtc_init

abbrev pub too_old : ℕ → ℕ → Bool
too_old major minor = ltb major 13 || (major == 13 && ltb minor 2)

abbrev pub versions_match : ℕ → ℕ → Option (ℤ × ℤ) → Bool
versions_match major minor none = false
versions_match major minor (some (libnvrtc_major, libnvrtc_minor)) =
    not (not (to_unsigned libnvrtc_major == major) || not (to_unsigned libnvrtc_minor == minor))

abbrev pub version_usable : Option (ℤ × ℤ) → Option (ℕ × ℕ) → Bool
version_usable libnvrtc_version none = false
version_usable libnvrtc_version (some (major, minor)) =
    if too_old major minor then false else versions_match major minor libnvrtc_version

unfoldable pub is_libnvjitlink_usable : System → Bool → Bool
is_libnvjitlink_usable sys inhibit =
    if inhibit
    then false
    else if not sys.libnvjitlink_init
    then false
    else if not sys.libnvrtc_init
    then false
    else version_usable sys.libnvrtc_version sys.libnvjitlink_version

unfoldable pub is_ptxas_usable : System → Bool → Bool
unfolding program_available
is_ptxas_usable sys inhibit =
    if inhibit
    then false
    else program_available sys.is_executable sys.is_regular (codes "ptxas") sys.path

abbrev pub without_verifier : VerifyMode → Result VerifyMode
without_verifier mode_yes = err not_verifiable
without_verifier mode_unset = ok mode_no
without_verifier verify = err assertion

-- In order of preference.
unfoldable pub preferred : System → Inhibited → VerifyMode → Result VerifyMode
unfolding is_libnvrtc_usable is_libnvjitlink_usable is_ptxas_usable
preferred sys inhibit verify =
    let libnvjitlink_usable = is_libnvjitlink_usable sys inhibit.libnvjitlink in
    let ptxas_usable =
      if not libnvjitlink_usable then is_ptxas_usable sys inhibit.ptxas else false in
    let libnvrtc_usable = if ptxas_usable then is_libnvrtc_usable sys inhibit.libnvrtc else false in
    if libnvjitlink_usable
    then ok mode_libnvjitlink
    else if libnvrtc_usable && ptxas_usable
    then ok mode_ptxas_libnvrtc
    else if ptxas_usable
    then ok mode_ptxas
    else without_verifier verify

abbrev pub chosen_for : System → Inhibited → VerifyMode → Result VerifyMode
unfolding preferred
chosen_for sys inhibit mode_unset = preferred sys inhibit mode_unset
chosen_for sys inhibit mode_yes = preferred sys inhibit mode_yes
chosen_for sys inhibit mode_no = ok mode_no
chosen_for sys inhibit verify = err assertion

-- Without an output file nothing is verified.
unfoldable pub choose_mode : System → Inhibited → Option Bytes → VerifyMode → Result VerifyMode
unfolding chosen_for
choose_mode sys inhibit none verify = chosen_for sys inhibit mode_no
choose_mode sys inhibit (some outname) verify = chosen_for sys inhibit verify
