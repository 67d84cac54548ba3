-- ===== src/As/Main/Settled.antt =====
-- The way in which nvptx-as.cc `main` verifies its output.
use nvptx_tools.Base.{
  ◌≡◌, refl, Bool, true, false, ◌⊎◌, inl, inr, Option, none, some, Bytes, Bool-cases,
}
use nvptx_tools.Result.{Error, Result, ok, ◌>>=◌, ◌>>◌, assert, not_verifiable}
use nvptx_tools.Result.Ensures.{Ensures, good, bad}
use nvptx_tools.As.Process.{
  VerifyMode, mode_unset, mode_no, mode_yes, mode_libnvjitlink, mode_ptxas_libnvrtc, mode_ptxas,
}
use nvptx_tools.As.Main.{is_asked, is_settled, settle}
use nvptx_tools.As.Main.Usable.{
  System, Inhibited, is_libnvrtc_usable, is_libnvjitlink_usable, is_ptxas_usable, preferred,
  without_verifier, choose_mode,
}

abbrev accepted : VerifyMode → Result VerifyMode
accepted chosen = assert (is_settled chosen) >> ok chosen

module _ (sys : System) (inhibited : Inhibited) where
  -- What is usable and is not inhibited.
  abbrev pub LibnvjitlinkIs : Bool → Type 0
  LibnvjitlinkIs b = is_libnvjitlink_usable sys inhibited.libnvjitlink ≡ b

  abbrev pub PtxasIs : Bool → Type 0
  PtxasIs b = is_ptxas_usable sys inhibited.ptxas ≡ b

  abbrev pub LibnvrtcIs : Bool → Type 0
  LibnvrtcIs b = is_libnvrtc_usable sys inhibited.libnvrtc ≡ b

  -- There is an output file, and verification is asked for or left open.
  abbrev pub IsWanted : Option Bytes → VerifyMode → Type 0
  IsWanted none verify = ⊥
  IsWanted (some outname) verify = (verify ≡ mode_unset) ⊎ (verify ≡ mode_yes)

  -- nvJitLink is used if it is usable, or else `ptxas`, with NVRTC if that is usable; nothing is verified
  -- if that is not wanted, or is left open and nothing is usable.
  abbrev pub IsSettled : Option Bytes → VerifyMode → VerifyMode → Type 0
  IsSettled outname verify mode_libnvjitlink = IsWanted outname verify × LibnvjitlinkIs true
  IsSettled outname verify mode_ptxas_libnvrtc =
      IsWanted outname verify × LibnvjitlinkIs false × PtxasIs true × LibnvrtcIs true
  IsSettled outname verify mode_ptxas =
      IsWanted outname verify × LibnvjitlinkIs false × PtxasIs true × LibnvrtcIs false
  IsSettled outname verify mode_no =
      (outname ≡ none)
      ⊎ (verify ≡ mode_no)
      ⊎ ((verify ≡ mode_unset) × LibnvjitlinkIs false × PtxasIs false)
  IsSettled outname verify chosen = ⊥

  -- It is asked for, and nothing is usable.
  abbrev pub IsRefused : VerifyMode → Error → Type 0
  IsRefused verify x =
      (x ≡ not_verifiable) × (verify ≡ mode_yes) × LibnvjitlinkIs false × PtxasIs false

  -- Where it is wanted: `last` is what is done if nothing is usable.
  wanted :
      (outname : Bytes) (verify : VerifyMode)
      → IsWanted (some outname) verify
      → (LibnvjitlinkIs false
          → PtxasIs false
          → Ensures
              (IsSettled (some outname) verify)
              (IsRefused verify)
              (without_verifier verify >>= accepted))
      → Ensures
          (IsSettled (some outname) verify)
          (IsRefused verify)
          (preferred sys inhibited verify >>= accepted)
  unfolding preferred
  wanted outname verify w last =
      elim (Bool-cases (is_libnvjitlink_usable sys inhibited.libnvjitlink)) [
        | inl n ↦ rw n (good (w, n))
        | inr n ↦ elim (Bool-cases (is_ptxas_usable sys inhibited.ptxas)) [
          | inl p ↦ elim (Bool-cases (is_libnvrtc_usable sys inhibited.libnvrtc)) [
            | inl r ↦ rw (n, p, r) (good (w, n, p, r))
            | inr r ↦ rw (n, p, r) (good (w, n, p, r))
          ]
          | inr p ↦ rw (n, p) (last n p)
        ]
      ]

  -- The choice of the way to verify the output fails no assertion: nothing is verified without an output file or
  -- if the options say so; otherwise nvJitLink is used if it is usable, or else `ptxas`, with NVRTC if that is
  -- usable. If nothing is usable, the output is not verified, or the run fails if an option asks for it.
  pub settle-IsSettled :
      (outname : Option Bytes) (verify : VerifyMode)
      → is_asked verify ≡ true
      → Ensures (IsSettled outname verify) (IsRefused verify) (settle sys inhibited outname verify)
  unfolding settle choose_mode
  settle-IsSettled none mode_unset h = good (inl refl)
  settle-IsSettled none mode_no h = good (inl refl)
  settle-IsSettled none mode_yes h = good (inl refl)
  settle-IsSettled (some outname) mode_no h = good (inr (inl refl))
  settle-IsSettled (some outname) mode_unset h =
      wanted outname mode_unset (inl refl) (λ n p. good (inr (inr (refl, n, p))))
  settle-IsSettled (some outname) mode_yes h =
      wanted outname mode_yes (inr refl) (λ n p. bad (refl, refl, n, p))
  settle-IsSettled outname mode_libnvjitlink h = absurd (cc h)
  settle-IsSettled outname mode_ptxas_libnvrtc h = absurd (cc h)
  settle-IsSettled outname mode_ptxas h = absurd (cc h)
