-- ===== src/As/Main/Ready.antt =====
-- What nvptx-as.cc `main` has at hand when it verifies its output, and what the verifiers accept.
use nvptx_tools.Base.{
  ℕ, zero, suc, ◌≡◌, refl, ap, subst, ◌∙◌, ◌⊎◌, Bool, true, false, Option, none, some, List, [],
  ◌∷◌, ◌++◌, Bytes, has_byte, arith, inl, inr,
}
use nvptx_tools.Hashtab.{Hashtab}
use nvptx_tools.Hashtab.Count.{Count}
use nvptx_tools.Result.{Error, ok, bad_output, program_failed}
use nvptx_tools.Result.Ensures.{Ensures, good, bad}
use nvptx_tools.As.Token.{
  Kind, single, k_symbol, k_label, k_ident, k_dotted, k_number, k_string, k_comment, Token,
}
use nvptx_tools.As.Token.Plain.{is_symbol_kind, IsPlain, ArePlain, tokenize-ArePlain}
use nvptx_tools.As.Preamble.{IsPreamble, Found, is_symbol}
use nvptx_tools.As.Process.{
  VerifyMode, mode_unset, mode_no, mode_yes, mode_libnvjitlink, mode_ptxas_libnvrtc, mode_ptxas,
  Assembled,
}
use nvptx_tools.As.Process.Correct.{IsChecked, IsArgument, IsProcessed}
use nvptx_tools.As.Main.{is_asked}
use nvptx_tools.As.Main.Usable.{System, is_libnvrtc_usable, is_libnvjitlink_usable}
use nvptx_tools.As.Main.Execute.{
  Execution, not_started, not_run, no_status, succeeded, stopped, signalled, exited, Verifier,
  link_options, ptxas_argv, collect_wait, do_wait, fork_execute,
}

-- The argument of a preamble of tokens that `tokenize` made has no minus.
found-IsPlain :
    {test : Token → Bool} {ts : List Token} {t : Token} {rest : List Token}
    → Found test ts t rest
    → ArePlain ts
    → IsPlain t.kind t.text × ArePlain rest
found-IsPlain {t = t} {rest} f h = behind f.comments (subst ArePlain f.parted h)
  where
    behind : (cs : List Token) → ArePlain (cs ++ t ∷ rest) → IsPlain t.kind t.text × ArePlain rest
    behind [] h = h
    behind (c ∷ cs) h = behind cs h.1

symbol_kind :
    (kind : Kind) (space end : Bool) (text : Bytes)
    → is_symbol (record { kind = kind; space = space; end = end; text = text }) ≡ true
    → is_symbol_kind kind ≡ true
symbol_kind (single c) space end text h = absurd (cc h)
symbol_kind k_symbol space end text h = refl
symbol_kind k_label space end text h = absurd (cc h)
symbol_kind k_ident space end text h = absurd (cc h)
symbol_kind k_dotted space end text h = absurd (cc h)
symbol_kind k_number space end text h = absurd (cc h)
symbol_kind k_string space end text h = absurd (cc h)
symbol_kind k_comment space end text h = absurd (cc h)

argument-plain :
    (toks : List Token) (arg : Bytes)
    → IsPreamble toks arg
    → ArePlain toks
    → has_byte b'-' arg ≡ false
argument-plain toks arg p h =
    let h1 = (found-IsPlain p.has_version h).1 in
    let h2 = (found-IsPlain p.has_number h1).1 in
    let h3 = (found-IsPlain p.has_target h2).1 in
    let plain = (found-IsPlain p.has_argument h3).0 in
    let t = p.argument.0 in
    ap (has_byte b'-') p.arg_is
    ∙ plain (symbol_kind t.kind t.space t.end t.text p.has_argument.passes)

-- What `main` needs of the input behind `process`: nothing is to be verified, or the preamble has an
-- argument without a minus.
abbrev pub IsVerifiable : Assembled → Type 0
IsVerifiable a =
    (a.verify ≡ mode_no)
    ⊎ ((arg : Bytes) × (a.preamble_target_arg ≡ some arg) × (has_byte b'-' arg ≡ false))

checked-plain :
    (toks : List Token) (o : Option Bytes)
    → IsChecked toks o
    → ArePlain toks
    → (arg : Bytes) × (o ≡ some arg) × (has_byte b'-' arg ≡ false)
checked-plain toks none c h = absurd c
checked-plain toks (some arg) c h = (arg, refl, argument-plain toks arg c h)

module _ (H : Hashtab ℕ) (count : Count H) where
  pub processed-IsVerifiable :
      (verify : VerifyMode) (text : Bytes) (a : Assembled)
      → is_asked verify ≡ true
      → IsProcessed H count verify text a
      → (is_asked a.verify ≡ true) × IsVerifiable a
  processed-IsVerifiable verify [] a h (m, p, o) = (ap is_asked m, inl m)
  processed-IsVerifiable verify (c ∷ text) a h (toks, e, i) =
      (ap is_asked i.kept ∙ h, verifiable verify i.argument h i.kept)
    where
      plain : ArePlain toks
      plain = tokenize-ArePlain (c ∷ text) toks e

      verifiable :
          (m : VerifyMode)
          → IsArgument m toks a.preamble_target_arg
          → is_asked m ≡ true
          → a.verify ≡ m
          → IsVerifiable a
      verifiable mode_no x g k = inl k
      verifiable mode_unset x g k = inr (checked-plain toks a.preamble_target_arg x plain)
      verifiable mode_yes x g k = inr (checked-plain toks a.preamble_target_arg x plain)
      verifiable mode_libnvjitlink x g k = absurd (cc g)
      verifiable mode_ptxas_libnvrtc x g k = absurd (cc g)
      verifiable mode_ptxas x g k = absurd (cc g)

pub libnvjitlink_ready :
    (sys : System) (b : Bool) → is_libnvjitlink_usable sys b ≡ true → sys.libnvrtc_init ≡ true
unfolding is_libnvjitlink_usable
libnvjitlink_ready sys b h = ground (arith, h)

pub libnvrtc_ready :
    (sys : System) (b : Bool) → is_libnvrtc_usable sys b ≡ true → sys.libnvrtc_init ≡ true
unfolding is_libnvrtc_usable
libnvrtc_ready sys b h = ground (arith, h)

-- What the verifier accepts.
abbrev pub IsSuccess : Execution → Type 0
IsSuccess e = collect_wait e ≡ ok 0

abbrev pub IsAccepted : Verifier → VerifyMode → Bytes → Bytes → Type 0
IsAccepted verifier mode_libnvjitlink outname target_arg =
    verifier.libnvjitlink_verify outname (link_options target_arg) ≡ true
IsAccepted verifier mode_ptxas_libnvrtc outname target_arg =
    IsSuccess (verifier.execute (ptxas_argv outname target_arg))
IsAccepted verifier mode_ptxas outname target_arg =
    IsSuccess (verifier.execute (ptxas_argv outname target_arg))
IsAccepted verifier verify outname target_arg = ⊥

-- The verifier does not accept it.
abbrev pub IsRejected : Verifier → VerifyMode → Bytes → Bytes → Error → Type 0
IsRejected verifier mode_libnvjitlink outname target_arg x =
    (x ≡ bad_output) × (verifier.libnvjitlink_verify outname (link_options target_arg) ≡ false)
IsRejected verifier mode_ptxas_libnvrtc outname target_arg x =
    (x ≡ program_failed) × ¬ IsSuccess (verifier.execute (ptxas_argv outname target_arg))
IsRejected verifier mode_ptxas outname target_arg x =
    (x ≡ program_failed) × ¬ IsSuccess (verifier.execute (ptxas_argv outname target_arg))
IsRejected verifier verify outname target_arg x = ⊥

pub fork_execute-IsSuccess :
    (verifier : Verifier) (argv : List Bytes)
    → Ensures
        (λ r. IsSuccess (verifier.execute argv))
        (λ x. (x ≡ program_failed) × ¬ IsSuccess (verifier.execute argv))
        (fork_execute verifier argv)
unfolding fork_execute do_wait collect_wait
fork_execute-IsSuccess verifier argv = waited (verifier.execute argv)
  where
    waited :
        (e : Execution)
        → Ensures (λ r. IsSuccess e) (λ x. (x ≡ program_failed) × ¬ IsSuccess e) (do_wait e)
    waited not_started = bad (refl, λ h. absurd (cc h))
    waited not_run = bad (refl, λ h. absurd (cc h))
    waited no_status = bad (refl, λ h. absurd (cc h))
    waited succeeded = good refl
    waited stopped = good refl
    waited (signalled sig) = bad (refl, λ h. absurd (cc h))
    waited (exited zero) = good refl
    waited (exited (suc status)) = bad (refl, λ h. absurd (cc h))
