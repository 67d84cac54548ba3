-- ===== src/As/Main/Raised.antt =====
-- The architecture for which nvptx-as.cc `main` verifies the output.
use nvptx_tools.Base.{
  ℕ, ◌≡◌, refl, sym, subst, ◌⊎◌, Bool, true, false, ◌||◌, Option, none, some, List, [], ◌∷◌, ltb,
  Bytes, codes, equal, has_byte, arith, Bool-cases, inl, inr,
}
use nvptx_tools.Libc.{ℤ, pos, negsuc, less, decimal, print_int}
use nvptx_tools.Result.{Error, past_the_end, unsupported_target, no_archs}
use nvptx_tools.Result.Ensures.{Ensures, Ensures-if, good, bad}
use nvptx_tools.As.Process.{
  VerifyMode, mode_unset, mode_no, mode_yes, mode_libnvjitlink, mode_ptxas_libnvrtc, mode_ptxas,
}
use nvptx_tools.As.Main.Usable.{System}
use nvptx_tools.As.Main.Target.{
  scan_arch, at_least, raised, with_archs, target_by_libnvrtc, target_for_ptxas, choose_target,
}
use nvptx_tools.As.Main.Scanned.{scan_arch-decimal, IsScanned, scan_arch-IsScanned}

-- The architecture of the preamble, or the lowest that NVRTC supports if that is higher.
abbrev pub IsRaised : System → Bytes → Bytes → Type 0
IsRaised sys arg target_arg =
    (n : ℕ) × (lowest : ℤ) × (archs : List ℤ) × (sys.supported_archs ≡ some (lowest ∷ archs))
    × (scan_arch arg ≡ some (pos n, []))
    × (((less (pos n) lowest ≡ false) × (target_arg ≡ arg))
        ⊎ ((less (pos n) lowest ≡ true) × (scan_arch target_arg ≡ some (lowest, []))))

-- `sscanf` does not read `sm_` and a number, or there is something behind it.
abbrev pub IsNoArch : Option (ℤ × Bytes) → Type 0
IsNoArch none = Unit
IsNoArch (some (arch, [])) = ⊥
IsNoArch (some (arch, c ∷ rest)) = Unit

-- The list of architectures cannot be had or is empty, or the argument is no architecture.
pub data IsNoTarget (sys : System) (arg : Bytes) (x : Error) : Type 0 where
  without_archs : x ≡ no_archs → sys.supported_archs ≡ none → IsNoTarget sys arg x
  without_lowest : x ≡ past_the_end → sys.supported_archs ≡ some [] → IsNoTarget sys arg x
  unsupported : x ≡ unsupported_target → IsNoArch (scan_arch arg) → IsNoTarget sys arg x

abbrev pub kepler : Bytes → Bool
kepler arg =
    equal (codes "sm_30") arg
    || equal (codes "sm_32") arg
    || equal (codes "sm_35") arg
    || equal (codes "sm_37") arg

abbrev pub IsTargetFrom : System → VerifyMode → Bytes → Bytes → Type 0
IsTargetFrom sys mode_libnvjitlink arg target_arg = IsRaised sys arg target_arg
IsTargetFrom sys mode_ptxas_libnvrtc arg target_arg = IsRaised sys arg target_arg
IsTargetFrom sys mode_ptxas arg target_arg =
    ((kepler arg ≡ true) × (target_arg ≡ codes "sm_50"))
    ⊎ ((kepler arg ≡ false) × (target_arg ≡ arg))
IsTargetFrom sys verify arg target_arg = ⊥

at_least-IsRaised :
    (sys : System) (arg : Bytes) (n : ℕ) (archs : List ℤ)
    → sys.supported_archs ≡ some archs
    → scan_arch arg ≡ some (pos n, [])
    → Ensures (IsRaised sys arg) (IsNoTarget sys arg) (at_least archs arg (pos n))
unfolding decimal print_int
at_least-IsRaised sys arg n [] a s = bad (without_lowest refl a)
at_least-IsRaised sys arg n (negsuc l ∷ archs) a s =
    good (n, negsuc l, archs, a, s, inl (refl, refl))
at_least-IsRaised sys arg n (pos l ∷ archs) a s = elim (Bool-cases (ltb n l)) [
  | inl e ↦ rw e (good (n, pos l, archs, a, s, inr (e, scan_arch-decimal l)))
  | inr e ↦ rw e (good (n, pos l, archs, a, s, inl (e, refl)))
]

scanned-IsRaised :
    (sys : System) (arg : Bytes) (archs : List ℤ) (o : Option (ℤ × Bytes))
    → sys.supported_archs ≡ some archs
    → scan_arch arg ≡ o
    → IsScanned o
    → Ensures (IsRaised sys arg) (IsNoTarget sys arg) (raised archs arg o)
unfolding raised
scanned-IsRaised sys arg archs none a s i = bad (unsupported refl (subst IsNoArch (sym s) tt))
scanned-IsRaised sys arg archs (some (arch, c ∷ rest)) a s i =
    bad (unsupported refl (subst IsNoArch (sym s) tt))
scanned-IsRaised sys arg archs (some (pos n, [])) a s i =
    let natural : ltb n 0 ≡ false = ground arith in
    rw natural (at_least-IsRaised sys arg n archs a s)
scanned-IsRaised sys arg archs (some (negsuc n, [])) a s i = absurd i

target_by_libnvrtc-IsRaised :
    (sys : System) (arg : Bytes)
    → sys.libnvrtc_init ≡ true
    → has_byte b'-' arg ≡ false
    → Ensures (IsRaised sys arg) (IsNoTarget sys arg) (target_by_libnvrtc sys arg)
unfolding target_by_libnvrtc
target_by_libnvrtc-IsRaised sys arg u h =
    Ensures-if sys.libnvrtc_init _ _ (λ i. by_archs sys.supported_archs refl)
      (λ i. absurd (cc (u, i)))
  where
    by_archs :
        (o : Option (List ℤ))
        → sys.supported_archs ≡ o
        → Ensures (IsRaised sys arg) (IsNoTarget sys arg) (with_archs arg o)
    by_archs none e = bad (without_archs refl e)
    by_archs (some archs) e =
        scanned-IsRaised sys arg archs (scan_arch arg) e refl (scan_arch-IsScanned arg h)

-- Whether NVRTC has been initialised for a mode.
abbrev pub IsReady : System → VerifyMode → Type 0
IsReady sys mode_libnvjitlink = sys.libnvrtc_init ≡ true
IsReady sys mode_ptxas_libnvrtc = sys.libnvrtc_init ≡ true
IsReady sys mode_ptxas = Unit
IsReady sys verify = ⊥

abbrev pub IsTarget : System → VerifyMode → Option Bytes → Bytes → Bytes → Type 0
IsTarget sys verify (some forced) arg target_arg = target_arg ≡ forced
IsTarget sys verify none arg target_arg = IsTargetFrom sys verify arg target_arg

-- If the argument of `.target` has no minus and NVRTC is ready where it is used, the choice of the architecture
-- fails no assertion: it is that of the option `-m`; or else, with NVRTC, that of the preamble, or the lowest
-- supported one if that is higher; or else, for `ptxas`, that of the preamble, or `sm_50` for a Kepler one. It
-- fails if the supported ones cannot be had or are none, or if the argument is no architecture.
pub choose_target-IsTarget :
    (sys : System) (verify : VerifyMode) (force : Option Bytes) (arg : Bytes)
    → IsReady sys verify
    → has_byte b'-' arg ≡ false
    → Ensures
        (IsTarget sys verify force arg)
        (IsNoTarget sys arg)
        (choose_target sys verify force (some arg))
unfolding choose_target target_for_ptxas
choose_target-IsTarget sys verify (some forced) arg r h = good refl
choose_target-IsTarget sys mode_libnvjitlink none arg r h = target_by_libnvrtc-IsRaised sys arg r h
choose_target-IsTarget sys mode_ptxas_libnvrtc none arg r h =
    target_by_libnvrtc-IsRaised sys arg r h
choose_target-IsTarget sys mode_ptxas none arg r h = elim (Bool-cases (kepler arg)) [
  | inl e ↦ good (inl (e, rw e refl))
  | inr e ↦ good (inr (e, rw e refl))
]
choose_target-IsTarget sys mode_unset none arg r h = absurd r
choose_target-IsTarget sys mode_no none arg r h = absurd r
choose_target-IsTarget sys mode_yes none arg r h = absurd r
