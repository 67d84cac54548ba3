-- ===== src/As/Preamble.antt =====
-- nvptx-as.cc: `verify_preamble`.
use nvptx_tools.Base.{
  ◌≡◌, refl, ap, Bool, true, false, not, ◌&&◌, Option, none, List, [], ◌∷◌, ◌++◌, ◌==◌,
  if◌then◌else◌, Bytes, codes, equal, All, Bool-cases, ◌⊎◌, inl, inr,
}
use nvptx_tools.Result.{
  Error, Result, ok, err, ◌>>=◌, ◌>>◌, assert, is_some, past_the_end, missing_version,
  malformed_version, missing_target, malformed_target, target_list,
}
use nvptx_tools.Result.Ensures.{Ensures, good, bad, Ensures-weaken, Ensures-bind}
use nvptx_tools.As.Token.{single, k_symbol, Token, is_comment, is_dotted, is_number}

-- `while (tok->kind == K_comment) tok++`
unfoldable pub skip_comments : List Token → List Token
skip_comments [] = []
skip_comments (t ∷ ts) = let rest = skip_comments ts in if is_comment t.kind then rest else t ∷ ts

-- `is_keyword`, of a token that begins with a character.
unfoldable pub is_keyword : Token → Bytes → Bool
is_keyword t name = elim t.text [ [] ↦ false | c ∷ cs ↦ equal cs name ]

abbrev pub is_directive : Bytes → Token → Bool
is_directive name t = is_dotted t.kind && is_keyword t name

abbrev pub is_symbol : Token → Bool
is_symbol t = elim t.kind [ k_symbol ↦ true | _ ↦ false ]

abbrev pub is_comma : Token → Bool
is_comma t = elim t.kind [ single c ↦ c == b',' | _ ↦ false ]

-- A token that passes a test is taken. The token of the end stands behind all others.
abbrev pub take_first : (Token → Bool) → Error → List Token → Result (Token × List Token)
take_first test failure [] = err past_the_end
take_first test failure (t ∷ ts) = if test t then ok (t, ts) else err failure

unfoldable pub expect : (Token → Bool) → Error → List Token → Result (Token × List Token)
unfolding skip_comments
expect test failure ts = take_first test failure (skip_comments ts)

abbrev pub is_number_token : Token → Bool
is_number_token t = is_number t.kind

abbrev pub not_list : Token → List Token → Result Bytes
not_list arg [] = err past_the_end
not_list arg (t ∷ ts) = if is_comma t then err target_list else ok arg.text

-- `preamble_target_arg` is that before the call; the result is that behind it.
unfoldable pub verify_preamble : Option Bytes → List Token → Result Bytes
unfolding expect is_keyword
verify_preamble preamble_target_arg toks = do
  (version, toks) ← expect (is_directive (codes "version")) missing_version toks
  (number, toks) ← expect is_number_token malformed_version toks
  (target, toks) ← expect (is_directive (codes "target")) missing_target toks
  (arg, toks) ← expect is_symbol malformed_target toks
  assert (not (is_some preamble_target_arg)) >> not_list arg toks

-- A token that passes a test, behind comments, with the tokens behind it.
pub record Found (test : Token → Bool) (ts : List Token) (t : Token) (rest : List Token)
    : Type 0 where
  pub comments : List Token
  pub are_comments : All (λ c. is_comment c.kind ≡ true) comments
  pub parted : ts ≡ comments ++ t ∷ rest
  pub no_comment : is_comment t.kind ≡ false
  pub passes : test t ≡ true

skip_comments-Found :
    (test : Token → Bool) (failure : Error) (ts : List Token)
    → Ensures
        (λ r. Found test ts r.0 r.1)
        (λ x. (x ≡ failure) ⊎ (x ≡ past_the_end))
        (expect test failure ts)
unfolding expect skip_comments
skip_comments-Found test failure [] = bad (inr refl)
skip_comments-Found test failure (t ∷ ts) = elim (Bool-cases (is_comment t.kind)) [
  | inl comment ↦ rw comment (
      Ensures-weaken
        (λ r f. record {
          comments = t ∷ f.comments;
          are_comments = (comment, f.are_comments);
          parted = ap (◌∷◌ t) f.parted;
          no_comment = f.no_comment;
          passes = f.passes;
        })
        (λ x e. e) (skip_comments-Found test failure ts))
  | inr other ↦ elim (Bool-cases (test t)) [
    | inl passes ↦
        rw (other, passes)
          (good (record {
            comments = [];
            are_comments = tt;
            parted = refl;
            no_comment = other;
            passes = passes;
          }))
    | inr fails ↦ rw (other, fails) (bad (inl refl))
  ]
]

-- A preamble: `.version`, a number, `.target` and a symbol, each behind any comments, and no comma
-- right behind the symbol, which is the argument.
pub record IsPreamble (toks : List Token) (arg : Bytes) : Type 0 where
  pub version : Token × List Token
  pub number : Token × List Token
  pub target : Token × List Token
  pub argument : Token × List Token
  pub has_version : Found (is_directive (codes "version")) toks version.0 version.1
  pub has_number : Found is_number_token version.1 number.0 number.1
  pub has_target : Found (is_directive (codes "target")) number.1 target.0 target.1
  pub has_argument : Found is_symbol target.1 argument.0 argument.1
  pub next : Token
  pub more : List Token
  pub behind : argument.1 ≡ next ∷ more
  pub no_comma : is_comma next ≡ false
  pub arg_is : arg ≡ argument.0.text

-- The messages, and a read behind the last token.
pub data IsFault (x : Error) : Type 0 where
  no_version : x ≡ missing_version → IsFault x
  bad_version : x ≡ malformed_version → IsFault x
  no_target : x ≡ missing_target → IsFault x
  bad_target : x ≡ malformed_target → IsFault x
  a_list : x ≡ target_list → IsFault x
  no_token : x ≡ past_the_end → IsFault x

found :
    (test : Token → Bool) (failure : Error) (ts : List Token)
    → ((x : Error) → x ≡ failure → IsFault x)
    → Ensures (λ r. Found test ts r.0 r.1) IsFault (expect test failure ts)
found test failure ts f =
    Ensures-weaken (λ r h. h) (λ x e. fault_of x e) (skip_comments-Found test failure ts)
  where
    fault_of : (x : Error) → (x ≡ failure) ⊎ (x ≡ past_the_end) → IsFault x
    fault_of x (inl e) = f x e
    fault_of x (inr e) = no_token e

ended :
    (toks : List Token) (v n t a : Token × List Token)
    → Found (is_directive (codes "version")) toks v.0 v.1
    → Found is_number_token v.1 n.0 n.1
    → Found (is_directive (codes "target")) n.1 t.0 t.1
    → Found is_symbol t.1 a.0 a.1
    → Ensures (IsPreamble toks) IsFault (not_list a.0 a.1)
ended toks v n t (a, []) hv hn ht ha = bad (no_token refl)
ended toks v n t (a, c ∷ rest) hv hn ht ha = elim (Bool-cases (is_comma c)) [
  | inl comma ↦ rw comma (bad (a_list refl))
  | inr other ↦ rw other (
      good (record {
        version = v;
        number = n;
        target = t;
        argument = (a, c ∷ rest);
        has_version = hv;
        has_number = hn;
        has_target = ht;
        has_argument = ha;
        next = c;
        more = rest;
        behind = refl;
        no_comma = other;
        arg_is = refl;
      }))
]

-- `verify_preamble` on a first file accepts tokens only if they begin with `.version`, a number,
-- `.target` and a symbol, each behind any comments, with no comma right behind the symbol, whose text
-- it keeps; or it fails with one of its messages or at the end of the tokens.
pub verify_preamble-IsPreamble :
    (toks : List Token) → Ensures (IsPreamble toks) IsFault (verify_preamble none toks)
unfolding verify_preamble
verify_preamble-IsPreamble toks =
    Ensures-bind (found (is_directive (codes "version")) missing_version toks (λ x e. no_version e))
      (λ v hv.
        Ensures-bind (found is_number_token malformed_version v.1 (λ x e. bad_version e)) (λ n hn.
          Ensures-bind
            (found (is_directive (codes "target")) missing_target n.1 (λ x e. no_target e))
            (λ t ht.
              Ensures-bind (found is_symbol malformed_target t.1 (λ x e. bad_target e))
                (λ a ha. ended toks v n t a hv hn ht ha))))
