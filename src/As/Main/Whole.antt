-- ===== src/As/Main/Whole.antt =====
-- What nvptx-as.cc `main` does, and the ways in which it fails.
use nvptx_tools.Base.{
  ℕ, ◌≤◌, ◌<◌, ◌≡◌, refl, sym, subst, true, false, Option, none, some, List, [], ◌∷◌, Bytes,
  has_byte, length, arith, inl, inr,
}
use nvptx_tools.Hashtab.{Hashtab}
use nvptx_tools.Hashtab.Count.{Count}
use nvptx_tools.Options.{Parsed, proceed, exits, handle_options}
use nvptx_tools.Result.{
  Result-cases, Error, Result, ok, err, output_error, no_input, too_many_inputs,
}
use nvptx_tools.Result.Ensures.{
  Ensures-err, Ensures, good, bad, Ensures-bind, Ensures-weaken, Ensures-if, Ensures-traced,
}
use nvptx_tools.As.Process.{
  VerifyMode, mode_unset, mode_no, mode_yes, mode_libnvjitlink, mode_ptxas_libnvrtc, mode_ptxas,
  Assembled, process,
}
use nvptx_tools.As.Process.Correct.{IsProcessed, IsFailure, process-IsProcessed}
use nvptx_tools.As.Main.{
  Files, Finished, is_asked, verify_output, verify_named, can_open, open_files, run, main,
}
use nvptx_tools.As.Main.Usable.{System, Inhibited}
use nvptx_tools.As.Main.Target.{choose_target}
use nvptx_tools.As.Main.Switch.{Settings, initial_settings, handle_option}
use nvptx_tools.As.Main.Settled.{IsWanted, IsSettled, IsRefused, settle-IsSettled}
use nvptx_tools.As.Main.Raised.{IsReady, IsTarget, IsNoTarget, choose_target-IsTarget}
use nvptx_tools.As.Main.Execute.{Verifier, link_options, ptxas_argv, verify_with}
use nvptx_tools.As.Main.Ready.{
  IsVerifiable, processed-IsVerifiable, libnvjitlink_ready, libnvrtc_ready, IsAccepted, IsRejected,
  fork_execute-IsSuccess,
}
use nvptx_tools.As.Main.Asked.{AskedOrExits, handle_options-AskedOrExits}

-- There are several inputs, the output does not open, or the input does not.
pub data IsFileError (files : Files) (outname : Option Bytes) (names : List Bytes) (x : Error)
    : Type 0 where
  at_inputs : x ≡ too_many_inputs → 1 < length names → IsFileError files outname names x
  at_outname : x ≡ output_error → can_open files outname ≡ false → IsFileError files outname names x
  at_input :
      (inname : Bytes)
      → x ≡ no_input
      → names ≡ inname ∷ []
      → files.contents inname ≡ none
      → IsFileError files outname names x

-- The failures at the output: at the architecture, and where the verifier does not accept it.
pub data IsOutputFailure (sys : System) (verifier : Verifier) (verify : VerifyMode) (s : Settings)
    (a : Assembled) (x : Error) : Type 0 where
  at_target :
      (arg : Bytes)
      → a.preamble_target_arg ≡ some arg
      → IsNoTarget sys arg x
      → IsOutputFailure sys verifier verify s a x
  at_verifier :
      (outname arg target_arg : Bytes)
      → s.outname ≡ some outname
      → a.preamble_target_arg ≡ some arg
      → IsTarget sys verify s.target_arg_force arg target_arg
      → IsRejected verifier verify outname target_arg x
      → IsOutputFailure sys verifier verify s a x

open_files-IsFileError :
    (files : Files) (outname : Option Bytes) (names : List Bytes)
    → Ensures (λ text. Unit {0}) (IsFileError files outname names) (open_files files outname names)
unfolding open_files
open_files-IsFileError files outname [] =
    Ensures-if (can_open files outname) _ _ (λ h. good tt) (λ h. bad (at_outname refl h))
open_files-IsFileError files outname (inname ∷ []) =
    Ensures-if (can_open files outname) _ _ (λ h. opened (files.contents inname) refl)
      (λ h. bad (at_outname refl h))
  where
    opened :
        (o : Option Bytes)
        → files.contents inname ≡ o
        → Ensures
            (λ text. Unit {0})
            (IsFileError files outname (inname ∷ []))
            (elim o [ none ↦ err no_input | some text ↦ ok text ])
    opened none e = bad (at_input inname refl refl e)
    opened (some text) e = good tt
open_files-IsFileError files outname (inname ∷ other ∷ names) = bad (at_inputs refl (omega arith))

module _ (H : Hashtab ℕ) (count : Count H) (sys : System) (verifier : Verifier) where
  -- The output is not verified, or the verifier accepts it for the architecture.
  abbrev pub IsVerified : Settings → Assembled → VerifyMode → Option Bytes → Type 0
  IsVerified s a mode_no target = target ≡ none
  IsVerified s a verify none = ⊥
  IsVerified s a verify (some target_arg) =
      (outname : Bytes) × (arg : Bytes) × (s.outname ≡ some outname)
      × (a.preamble_target_arg ≡ some arg)
      × IsTarget sys verify s.target_arg_force arg target_arg
      × IsAccepted verifier verify outname target_arg

  -- What is written is what `process` makes of the input, and it is verified in the way that the options
  -- and the system settle.
  pub record IsFinished (files : Files) (s : Settings) (names : List Bytes) (r : Finished)
      : Type 0 where
    pub text : Bytes
    pub opened : open_files files s.outname names ≡ ok text
    pub assembled : Assembled
    pub processed : process H count s.verify text ≡ ok assembled
    pub sound : IsProcessed H count s.verify text assembled
    pub same_output : r.output ≡ assembled.output
    pub settled : IsSettled sys s.inhibited s.outname assembled.verify r.verify
    pub verified : IsVerified s assembled r.verify r.target_arg

  argument_of :
      (inhibited : Inhibited) (o : Option Bytes) (a : Assembled)
      → IsVerifiable a
      → IsWanted sys inhibited o a.verify
      → (arg : Bytes) × (a.preamble_target_arg ≡ some arg) × (has_byte b'-' arg ≡ false)
  argument_of inhibited none a v w = absurd w
  argument_of inhibited (some outname) a (inl e) (inl w) = absurd (cc (e, w))
  argument_of inhibited (some outname) a (inl e) (inr w) = absurd (cc (e, w))
  argument_of inhibited (some outname) a (inr v) w = v

  verify_with-IsAccepted :
      (verify : VerifyMode) (outname target_arg : Bytes)
      → IsReady sys verify
      → Ensures
          (λ u. IsAccepted verifier verify outname target_arg)
          (IsRejected verifier verify outname target_arg)
          (verify_with verifier verify outname target_arg)
  unfolding verify_with
  verify_with-IsAccepted mode_libnvjitlink outname target_arg r =
      Ensures-if (verifier.libnvjitlink_verify outname (link_options target_arg)) _ _ (λ h. good h)
        (λ h. bad (refl, h))
  verify_with-IsAccepted mode_ptxas_libnvrtc outname target_arg r =
      fork_execute-IsSuccess verifier (ptxas_argv outname target_arg)
  verify_with-IsAccepted mode_ptxas outname target_arg r =
      fork_execute-IsSuccess verifier (ptxas_argv outname target_arg)
  verify_with-IsAccepted mode_unset outname target_arg r = absurd r
  verify_with-IsAccepted mode_no outname target_arg r = absurd r
  verify_with-IsAccepted mode_yes outname target_arg r = absurd r

  abbrev Done : Settings → Assembled → VerifyMode → Finished → Type 0
  Done s a verify r =
      (r.output ≡ a.output) × (r.verify ≡ verify) × IsVerified s a verify r.target_arg

  IsVerified-mode :
      (verify : VerifyMode) (s : Settings) (a : Assembled) (outname arg target_arg : Bytes)
      → IsReady sys verify
      → s.outname ≡ some outname
      → a.preamble_target_arg ≡ some arg
      → IsTarget sys verify s.target_arg_force arg target_arg
      → IsAccepted verifier verify outname target_arg
      → IsVerified s a verify (some target_arg)
  IsVerified-mode mode_libnvjitlink s a outname arg target_arg r e f t h =
      (outname, arg, e, f, t, h)
  IsVerified-mode mode_ptxas_libnvrtc s a outname arg target_arg r e f t h =
      (outname, arg, e, f, t, h)
  IsVerified-mode mode_ptxas s a outname arg target_arg r e f t h = (outname, arg, e, f, t, h)
  IsVerified-mode mode_unset s a outname arg target_arg r e f t h = absurd r
  IsVerified-mode mode_no s a outname arg target_arg r e f t h = absurd r
  IsVerified-mode mode_yes s a outname arg target_arg r e f t h = absurd r

  verify_named-Done :
      (verify : VerifyMode) (s : Settings) (a : Assembled) (o : Option Bytes)
      → s.outname ≡ o
      → IsReady sys verify
      → IsVerifiable a
      → IsWanted sys s.inhibited o a.verify
      → Ensures
          (Done s a verify)
          (IsOutputFailure sys verifier verify s a)
          (verify_named sys verifier s a verify o)
  verify_named-Done verify s a none e r v w = absurd w
  verify_named-Done verify s a (some outname) e r v w =
      let (arg, f, plain) = argument_of s.inhibited (some outname) a v w in
      let chosen =
        subst
          (λ o.
            Ensures (IsTarget sys verify s.target_arg_force arg) (IsNoTarget sys arg)
              (choose_target sys verify s.target_arg_force o))
          (sym f) (choose_target-IsTarget sys verify s.target_arg_force arg r plain) in
      Ensures-bind (Ensures-weaken (λ t i. i) (λ x h. at_target arg f h) chosen) (λ target_arg t.
        Ensures-bind
          (Ensures-weaken (λ u i. i) (λ x h. at_verifier outname arg target_arg e f t h)
            (verify_with-IsAccepted verify outname target_arg r))
          (λ u i. good (refl, refl, IsVerified-mode verify s a outname arg target_arg r e f t i)))

  verify_output-Done :
      (verify : VerifyMode) (s : Settings) (a : Assembled)
      → IsVerifiable a
      → IsSettled sys s.inhibited s.outname a.verify verify
      → Ensures
          (Done s a verify)
          (IsOutputFailure sys verifier verify s a)
          (verify_output sys verifier s a verify)
  verify_output-Done mode_no s a v c = good (refl, refl, refl)
  verify_output-Done mode_libnvjitlink s a v (w, n) =
      verify_named-Done mode_libnvjitlink s a s.outname refl
        (libnvjitlink_ready sys s.inhibited.libnvjitlink n) v w
  verify_output-Done mode_ptxas_libnvrtc s a v (w, n, p, u) =
      verify_named-Done mode_ptxas_libnvrtc s a s.outname refl
        (libnvrtc_ready sys s.inhibited.libnvrtc u) v w
  verify_output-Done mode_ptxas s a v (w, n, p, u) =
      verify_named-Done mode_ptxas s a s.outname refl tt v w
  verify_output-Done mode_unset s a v c = absurd c
  verify_output-Done mode_yes s a v c = absurd c

  -- The failures of a run: at the files, at the text of the input, where no verifier is usable, and at the
  -- output.
  pub data IsMainFailure (files : Files) (s : Settings) (names : List Bytes) (x : Error)
      : Type 0 where
    at_files : IsFileError files s.outname names x → IsMainFailure files s names x
    in_text :
        (text : Bytes)
        → open_files files s.outname names ≡ ok text
        → process H count s.verify text ≡ err x
        → IsFailure H count s.verify text x
        → IsMainFailure files s names x
    at_choice :
        (text : Bytes) (a : Assembled)
        → open_files files s.outname names ≡ ok text
        → process H count s.verify text ≡ ok a
        → IsRefused sys s.inhibited a.verify x
        → IsMainFailure files s names x
    at_output :
        (text : Bytes) (a : Assembled) (verify : VerifyMode)
        → open_files files s.outname names ≡ ok text
        → process H count s.verify text ≡ ok a
        → IsSettled sys s.inhibited s.outname a.verify verify
        → IsOutputFailure sys verifier verify s a x
        → IsMainFailure files s names x

  run-IsFinished :
      (files : Files) (s : Settings) (names : List Bytes)
      → is_asked s.verify ≡ true
      → Ensures
          (IsFinished files s names)
          (IsMainFailure files s names)
          (run H count sys verifier files s names)
  unfolding run
  run-IsFinished files s names h = elim (Result-cases (open_files files s.outname names)) [
    | inr (x, e) ↦
        rw e (bad (at_files (Ensures-err (open_files-IsFileError files s.outname names) e)))
    | inl (text, e) ↦ rw e (
        Ensures-bind
          (Ensures-weaken (λ a h. h) (λ x h. in_text text e h.0 h.1)
            (Ensures-traced (process-IsProcessed H count s.verify text)))
          (λ a (g, p).
            let (asked, v) = processed-IsVerifiable H count s.verify text a h p in
            Ensures-bind
              (Ensures-weaken (λ m c. c) (λ x f. at_choice text a e g f)
                (settle-IsSettled sys s.inhibited s.outname a.verify asked))
              (λ m c.
                Ensures-weaken
                  (λ r (o, k, d). record {
                    text = text;
                    opened = e;
                    assembled = a;
                    processed = g;
                    sound = p;
                    same_output = o;
                    settled = subst (IsSettled sys s.inhibited s.outname a.verify) (sym k) c;
                    verified = subst (λ mode. IsVerified s a mode r.target_arg) (sym k) d;
                  })
                  (λ x f. at_output text a m e g c f) (verify_output-Done m s a v c))))
  ]

  -- An early exit, or the run behind the options.
  abbrev pub IsMain : Files → List (ℕ × Bytes) → List Bytes → Parsed (Result Finished) → Type 0
  IsMain files options names (exits status) = status ≤ 1
  IsMain files options names (proceed r) =
      (s : Settings) × (handle_options (handle_option sys) options initial_settings ≡ proceed s)
      × Ensures (IsFinished files s names) (IsMainFailure files s names) r

  -- For each interface to the library's hash table and each system, verifier and set of files: the tool exits early
  -- with status 0 or 1, or no assertion behind `tokenize` fails. It fails if there are several inputs, if the output or
  -- the input does not open, at a text (if `tokenize` fails, or with an error of the preamble, of the parser, of the
  -- order or at a string without quotes), if verification is asked for and nothing is usable, if the supported
  -- architectures cannot be had or are none, if the argument is no architecture, or where the verifier does not accept
  -- the output; or else what it writes is what `process` makes of the input, verified in the way that the options and
  -- the system settle, for the chosen architecture.
  pub main-IsMain :
      (files : Files) (options : List (ℕ × Bytes)) (names : List Bytes)
      → IsMain files options names (main H count sys verifier files options names)
  unfolding main
  main-IsMain files options names =
      behind (handle_options (handle_option sys) options initial_settings) refl
        (handle_options-AskedOrExits sys options initial_settings refl)
    where
      behind :
          (p : Parsed Settings)
          → handle_options (handle_option sys) options initial_settings ≡ p
          → AskedOrExits p
          → IsMain files options names (elim p [
            | proceed s ↦ proceed (run H count sys verifier files s names)
            | exits status ↦ exits status
          ])
      behind (proceed s) e h = (s, e, run-IsFinished files s names h)
      behind (exits status) e h = h
