-- ===== src/As/Main/Asked.antt =====
-- The options of nvptx-as.cc `main`: the modes and the statuses.
use nvptx_tools.Base.{
  ℕ, ◌≤◌, ◌≡◌, refl, Bool, true, false, Option, none, some, List, [], ◌∷◌, ◌==◌, if◌then◌else◌,
  Bytes, codes, equal, arith,
}
use nvptx_tools.Options.{Parsed, proceed, exits, handle_options}
use nvptx_tools.As.Main.{is_asked}
use nvptx_tools.As.Main.Usable.{System, is_libnvrtc_usable, is_libnvjitlink_usable, is_ptxas_usable}
use nvptx_tools.As.Main.Switch.{
  Settings, opt_verify, opt_no_verify, opt_query, opt_inhibit, set_outname, inhibit_one, status_of,
  status_of_archs, answer_query, handle_option,
}

-- The options leave a mode that is asked for, or the program exits with status 0 or 1.
abbrev pub AskedOrExits : Parsed Settings → Type 0
AskedOrExits (proceed s) = is_asked s.verify ≡ true
AskedOrExits (exits status) = status ≤ 1

either_way :
    (b : Bool) (x y : Parsed Settings)
    → AskedOrExits x
    → AskedOrExits y
    → AskedOrExits (if b then x else y)
either_way true x y h g = h
either_way false x y h g = g

set_outname-AskedOrExits :
    (arg : Bytes) (s : Settings) (o : Option Bytes)
    → is_asked s.verify ≡ true
    → AskedOrExits (set_outname arg s o)
set_outname-AskedOrExits arg s none h = h
set_outname-AskedOrExits arg s (some name) h = omega arith

inhibit_one-AskedOrExits :
    (arg : Bytes) (s : Settings) → is_asked s.verify ≡ true → AskedOrExits (inhibit_one arg s)
unfolding inhibit_one
inhibit_one-AskedOrExits arg s h = either_way (equal arg (codes "libnvjitlink")) _ _ h (
    either_way (equal arg (codes "libnvrtc")) _ _ h
      (either_way (equal arg (codes "ptxas")) _ _ h (omega arith)))

status_le : (b : Bool) → status_of b ≤ 1
status_le true = omega arith
status_le false = omega arith

archs_le : {A : Type 0} → (o : Option A) → status_of_archs o ≤ 1
archs_le none = omega arith
archs_le (some x) = omega arith

le_if : (b : Bool) (x y : ℕ) → x ≤ 1 → y ≤ 1 → (if b then x else y) ≤ 1
le_if true x y h g = h
le_if false x y h g = g

answer_query_le : (sys : System) (arg : Bytes) → answer_query sys arg ≤ 1
unfolding answer_query
answer_query_le sys arg =
    le_if (equal arg (codes "libnvjitlink_usable")) _ _
      (status_le (is_libnvjitlink_usable sys false))
      (le_if (equal arg (codes "libnvrtc_usable")) _ _ (status_le (is_libnvrtc_usable sys false)) (
        le_if (equal arg (codes "libnvrtc_supported_archs")) _ _
          (le_if sys.libnvrtc_init _ _ (archs_le sys.supported_archs) (omega arith))
          (le_if (equal arg (codes "ptxas_usable")) _ _ (status_le (is_ptxas_usable sys false))
            (omega arith))))

handle_option-AskedOrExits :
    (sys : System) (o : ℕ) (arg : Bytes) (s : Settings)
    → is_asked s.verify ≡ true
    → AskedOrExits (handle_option sys o arg s)
unfolding handle_option
handle_option-AskedOrExits sys o arg s h = either_way (o == b'v') _ _ h (
    either_way (o == b'o') _ _ (set_outname-AskedOrExits arg s s.outname h) (
      either_way (o == b'm') _ _ h (
        either_way (o == b'I') _ _ h (
          either_way (o == b'h') _ _ (omega arith) (
            either_way (o == b'V') _ _ (omega arith) (
              either_way (o == opt_verify) _ _ refl (
                either_way (o == opt_no_verify) _ _ refl (
                  either_way (o == opt_query) _ _ (answer_query_le sys arg) (
                    either_way (o == opt_inhibit) _ _ (inhibit_one-AskedOrExits arg s h)
                      (omega arith))))))))))

proceeding :
    (p : Parsed Settings) (again : Settings → Parsed Settings)
    → AskedOrExits p
    → ((s : Settings) → is_asked s.verify ≡ true → AskedOrExits (again s))
    → AskedOrExits (elim p [ proceed s ↦ again s | exits status ↦ exits status ])
proceeding (proceed s) again h k = k s h
proceeding (exits status) again h k = h

pub handle_options-AskedOrExits :
    (sys : System) (options : List (ℕ × Bytes)) (s : Settings)
    → is_asked s.verify ≡ true
    → AskedOrExits (handle_options (handle_option sys) options s)
unfolding handle_options
handle_options-AskedOrExits sys [] s h = h
handle_options-AskedOrExits sys ((o, arg) ∷ more) s h =
    proceeding (handle_option sys o arg s) (handle_options (handle_option sys) more)
      (handle_option-AskedOrExits sys o arg s h) (handle_options-AskedOrExits sys more)
