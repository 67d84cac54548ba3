-- ===== src/As/Main/Switch.antt =====
-- nvptx-as.cc, `main`: the options.
use nvptx_tools.Base.{
  ℕ, Bool, true, false, Option, none, some, ◌==◌, if◌then◌else◌, Bytes, codes, equal,
}
use nvptx_tools.Options.{Parsed, proceed, exits}
use nvptx_tools.As.Process.{VerifyMode, mode_unset, mode_no, mode_yes}
use nvptx_tools.As.Main.Usable.{
  System, Inhibited, is_libnvrtc_usable, is_libnvjitlink_usable, is_ptxas_usable,
}

-- What the options set.
pub record Settings : Type 0 where
  pub verbose : Bool
  pub outname : Option Bytes
  pub verify : VerifyMode
  pub inhibited : Inhibited
  pub target_arg_force : Option Bytes

abbrev pub initial_settings : Settings
initial_settings = record {
  verbose = false;
  outname = none;
  verify = mode_unset;
  inhibited = record { libnvrtc = false; libnvjitlink = false; ptxas = false };
  target_arg_force = none;
}

abbrev pub opt_verify : ℕ
opt_verify = 256

abbrev pub opt_no_verify : ℕ
opt_no_verify = 257

abbrev pub opt_query : ℕ
opt_query = 258

abbrev pub opt_inhibit : ℕ
opt_inhibit = 259

abbrev pub set_outname : Bytes → Settings → Option Bytes → Parsed Settings
set_outname arg s (some name) = exits 1
set_outname arg s none = proceed (record s { outname = some arg })

abbrev pub status_of : Bool → ℕ
status_of b = if b then 0 else 1

abbrev pub status_of_archs : {A : Type 0} → Option A → ℕ
status_of_archs none = 1
status_of_archs (some archs) = 0

-- The status of the program behind a query.
unfoldable pub answer_query : System → Bytes → ℕ
unfolding is_libnvrtc_usable is_libnvjitlink_usable is_ptxas_usable
answer_query sys arg =
    if equal arg (codes "libnvjitlink_usable")
    then status_of (is_libnvjitlink_usable sys false)
    else if equal arg (codes "libnvrtc_usable")
    then status_of (is_libnvrtc_usable sys false)
    else if equal arg (codes "libnvrtc_supported_archs")
    then (if sys.libnvrtc_init then status_of_archs sys.supported_archs else 1)
    else if equal arg (codes "ptxas_usable")
    then status_of (is_ptxas_usable sys false)
    else 1

unfoldable pub inhibit_one : Bytes → Settings → Parsed Settings
inhibit_one arg s =
    if equal arg (codes "libnvjitlink")
    then proceed (record s { inhibited = record s.inhibited { libnvjitlink = true } })
    else if equal arg (codes "libnvrtc")
    then proceed (record s { inhibited = record s.inhibited { libnvrtc = true } })
    else if equal arg (codes "ptxas")
    then proceed (record s { inhibited = record s.inhibited { ptxas = true } })
    else exits 1

-- The `switch` on what `getopt_long` returned, with `optarg`. Every failure exits with status 1.
unfoldable pub handle_option : System → ℕ → Bytes → Settings → Parsed Settings
unfolding answer_query inhibit_one
handle_option sys o arg s =
    if o == b'v'
    then proceed (record s { verbose = true })
    else if o == b'o'
    then set_outname arg s s.outname
    else if o == b'm'
    then proceed (record s { target_arg_force = some arg })
    else if o == b'I'
    then proceed s
    else if o == b'h'
    then exits 0
    else if o == b'V'
    then exits 0
    else if o == opt_verify
    then proceed (record s { verify = mode_yes })
    else if o == opt_no_verify
    then proceed (record s { verify = mode_no })
    else if o == opt_query
    then exits (answer_query sys arg)
    else if o == opt_inhibit
    then inhibit_one arg s
    else exits 1
