-- ===== src/As/Parse/Words.antt =====
-- What nvptx-as.cc keeps of each token: its kind and its text. The spaces and the ends of line change.
use nvptx_tools.Base.{
  suc, ◌<◌, ◌≤◌, ◌≡◌, refl, ap, sym, ◌∙◌, Bool, true, false, ◌||◌, Option, none, some, List, [],
  ◌∷◌, ◌++◌, if◌then◌else◌, Bytes, length, length-append, All, ◌⊎◌, arith, Bool-cases, inl, inr,
}
use nvptx_tools.Result.{Error, Result, ok, ◌>>=◌, past_the_end, expected_identifier}
use nvptx_tools.Result.Ensures.{Ensures, good, bad, Ensures-bind, Ensures-weaken, Ensures-if}
use nvptx_tools.As.Token.{Kind, Token, is_comment, is_end}
use nvptx_tools.As.Statement.{without_space}
use nvptx_tools.As.Parse.{is_single, clear_space, set_end, take_line, take_comments}
use nvptx_tools.As.Parse.Insn.{take_semi, take_pred}
use nvptx_tools.As.Parse.Init.{take_value, clear_second, clear_first}
use nvptx_tools.As.Parse.File.{
  take_prefix, is_map, Head, Heading, take_head, with_name, with_keyword, written_space, next_space,
  paren_space, ends_head, skip_strange,
}

abbrev pub Word : Type 0
Word = Kind × Bytes

abbrev pub word : Token → Word
word t = (t.kind, t.text)

abbrev pub words : List Token → List Word
words [] = []
words (t ∷ ts) = (t.kind, t.text) ∷ words ts

pub words-append : (xs ys : List Token) → words (xs ++ ys) ≡ words xs ++ words ys
words-append [] ys = refl
words-append (x ∷ xs) ys = ap (◌∷◌ (x.kind, x.text)) (words-append xs ys)

pub length-words : (xs : List Token) → length (words xs) ≡ length xs
length-words [] = refl
length-words (x ∷ xs) = ap suc (length-words xs)

pub words-without_space : (xs : List Token) → words (without_space xs) ≡ words xs
words-without_space [] = refl
words-without_space (x ∷ xs) = refl

-- The errors of the parser: a read behind the last token, and a variable without a name.
pub data IsParseError (x : Error) : Type 0 where
  beyond : x ≡ past_the_end → IsParseError x
  nameless : x ≡ expected_identifier → IsParseError x

-- Tokens taken from the front.
abbrev pub Cut : List Token → List Token × List Token → Type 0
Cut toks r = words toks ≡ words r.0 ++ words r.1

abbrev EnsuresCut : List Token → Result (List Token × List Token) → Type 0
EnsuresCut toks r = Ensures (Cut toks) IsParseError r

cons-Cut :
    (t u : Token) (ts : List Token) (r : Result (List Token × List Token))
    → word t ≡ word u
    → EnsuresCut ts r
    → EnsuresCut (t ∷ ts) (r >>= λ (taken, rest). ok (u ∷ taken, rest))
cons-Cut t u ts r e h = Ensures-bind h (λ (taken, rest) c. good (rw (e, c)))

-- At least one token.
pub take_line-Cut :
    (toks : List Token)
    → Ensures (λ r. Cut toks r × (length r.1 < length toks)) IsParseError (take_line toks)
unfolding take_line
take_line-Cut [] = bad (beyond refl)
take_line-Cut (t ∷ ts) =
    Ensures-if t.end _ _ (λ e. good (refl, omega arith))
      (λ e. Ensures-bind (take_line-Cut ts) (λ r (c, l). good (ap (◌∷◌ (word t)) c, omega arith)))

pub Cut-length :
    (toks : List Token) (r : List Token × List Token) → Cut toks r → length r.1 ≤ length toks
Cut-length toks r c =
    omega (
      arith,
      length-words toks,
      length-words r.1,
      ap length c,
      length-append (words r.0) (words r.1),
    )

pub take_comments-Cut : (toks : List Token) → EnsuresCut toks (take_comments toks)
unfolding take_comments
take_comments-Cut [] = bad (beyond refl)
take_comments-Cut (t ∷ ts) = elim (Bool-cases (is_comment t.kind)) [
  | inl e ↦ rw e (cons-Cut t t ts (take_comments ts) refl (take_comments-Cut ts))
  | inr e ↦ rw e (good refl)
]

pub take_semi-Cut : (comma : Bool) (toks : List Token) → EnsuresCut toks (take_semi comma toks)
unfolding take_semi
take_semi-Cut comma [] = bad (beyond refl)
take_semi-Cut comma (t ∷ ts) = elim (Bool-cases (is_single b';' t)) [
  | inl e ↦ rw e (good (same comma))
  | inr e ↦ rw e (
      cons-Cut t (if comma then clear_space t else t) ts (take_semi (is_single b',' t) ts)
        (same_word comma) (take_semi-Cut (is_single b',' t) ts))
]
  where
    same_word : (b : Bool) → word t ≡ word (if b then clear_space t else t)
    same_word true = refl
    same_word false = refl

    same : (b : Bool) → Cut (t ∷ ts) (set_end (if b then clear_space t else t) ∷ [], ts)
    same true = refl
    same false = refl

pub take_pred-Cut : (toks : List Token) → EnsuresCut toks (take_pred toks)
unfolding take_pred
take_pred-Cut [] = bad (beyond refl)
take_pred-Cut (t ∷ []) = elim (Bool-cases (is_single b'!' t)) [
  | inl e ↦ rw e (bad (beyond refl))
  | inr e ↦ rw e (good refl)
]
take_pred-Cut (t ∷ u ∷ ts) = elim (Bool-cases (is_single b'!' t)) [
  | inl e ↦ rw e (good refl)
  | inr e ↦ rw e (good refl)
]

pub take_value-Cut :
    (toks : List Token)
    → Ensures (λ v. Cut toks (v.body ++ v.separator ∷ [], v.rest)) IsParseError (take_value toks)
unfolding take_value
take_value-Cut [] = bad (beyond refl)
take_value-Cut (t ∷ ts) = elim (Bool-cases (is_single b',' t || is_single b';' t)) [
  | inl e ↦ rw e (good refl)
  | inr e ↦ rw e (Ensures-bind (take_value-Cut ts) (λ v c. good (ap (◌∷◌ (word t)) c)))
]

pub words-clear_second : (toks : List Token) → words (clear_second toks) ≡ words toks
words-clear_second [] = refl
words-clear_second (t ∷ []) = refl
words-clear_second (t ∷ u ∷ ts) = elim (Bool-cases (is_single b'{' t)) [
  | inl e ↦ rw e
  | inr e ↦ rw e
]

pub clear_first-words :
    (toks : List Token) → Ensures (λ r. words r ≡ words toks) IsParseError (clear_first toks)
clear_first-words [] = bad (beyond refl)
clear_first-words (t ∷ ts) = good refl

pub take_prefix-Cut :
    (toks : List Token)
    → Ensures (λ p. Cut toks (p.comments, p.rest)) IsParseError (take_prefix toks)
unfolding take_prefix
take_prefix-Cut [] = bad (beyond refl)
take_prefix-Cut (t ∷ ts) = elim (Bool-cases (is_comment t.kind)) [
  | inl e ↦ elim (Bool-cases (is_map t)) [
    | inl m ↦ rw (e, m) (good refl)
    | inr m ↦ rw (e, m) (Ensures-bind (take_prefix-Cut ts) (λ p c. good (ap (◌∷◌ (word t)) c)))
  ]
  | inr e ↦ rw e (good refl)
]

word-written_space : (space : Option Bool) (t : Token) → word (written_space space t) ≡ word t
word-written_space none t = refl
word-written_space (some b) t = refl

word-paren_space : (t : Token) → word (paren_space t) ≡ word t
word-paren_space t = elim (Bool-cases (is_single b'(' t)) [ inl e ↦ rw e | inr e ↦ rw e ]

ends_head-kept :
    (space : Option Bool) (t : Token)
    → ends_head (paren_space (written_space space t)) ≡ ends_head t
ends_head-kept space t = elim (Bool-cases (is_single b'(' (written_space space t))) [
  | inl e ↦ rw e (written space)
  | inr e ↦ rw e (written space)
]
  where
    written : (o : Option Bool) → ends_head (written_space o t) ≡ ends_head t
    written none = refl
    written (some b) = refl

-- The tokens of a head do not end it.
pub record IsHeading (toks : List Token) (r : Heading) : Type 0 where
  pub cut : Cut toks (r.tokens, r.stop ∷ r.rest)
  pub open_tokens : All (λ t. ends_head t ≡ false) r.tokens

pub take_head-IsHeading :
    (space : Option Bool) (h : Head) (toks : List Token)
    → Ensures (IsHeading toks) IsParseError (take_head space h toks)
unfolding take_head
take_head-IsHeading space h [] = bad (beyond refl)
take_head-IsHeading space h (t ∷ ts) = elim (Bool-cases (ends_head t)) [
  | inl e ↦ rw e (
      good (record {
        cut = ap (λ w. w ∷ words ts) (sym (word-written_space space t));
        open_tokens = tt;
      }))
  | inr e ↦ rw e (
      Ensures-bind (take_head-IsHeading (next_space t ts) (with_name t (with_keyword t h)) ts)
        (λ r i. good (record {
          cut =
              ap (λ w. w ∷ words ts)
                (sym (word-paren_space (written_space space t) ∙ word-written_space space t))
              ∙ ap (◌∷◌ (word (paren_space (written_space space t)))) i.cut;
          open_tokens = (ends_head-kept space t ∙ e, i.open_tokens);
        })))
]

-- The tokens at which a loop over the file stops.
abbrev pub IsAtEnd : List Token → Type 0
IsAtEnd [] = ⊥
IsAtEnd (t ∷ ts) = is_end t.kind ≡ true

-- Of tokens on a line: only the last may be the last of its line.
abbrev pub IsLine : List Token → Type 0
IsLine [] = Unit
IsLine (t ∷ []) = Unit
IsLine (t ∷ u ∷ ts) = (t.end ≡ false) × IsLine (u ∷ ts)

IsLine-cons : (t : Token) (ts : List Token) → t.end ≡ false → IsLine ts → IsLine (t ∷ ts)
IsLine-cons t [] e h = tt
IsLine-cons t (u ∷ ts) e h = (e, h)

-- Tokens are dropped, or the end is reached.
pub record IsSkipped (toks rest : List Token) : Type 0 where
  pub dropped : List Token
  pub cut : Cut toks (dropped, rest)
  pub line : IsLine dropped
  pub goes_on : IsAtEnd rest ⊎ (length rest < length toks)

pub skip_strange-IsSkipped :
    (toks : List Token) → Ensures (IsSkipped toks) IsParseError (skip_strange toks)
unfolding skip_strange
skip_strange-IsSkipped [] = bad (beyond refl)
skip_strange-IsSkipped (t ∷ ts) =
    Ensures-if (is_end t.kind) _ _
      (λ e. good (record { dropped = []; cut = refl; line = tt; goes_on = inl e }))
      (λ e.
        Ensures-if t.end _ _
          (λ l.
            good (record { dropped = t ∷ []; cut = refl; line = tt; goes_on = inr (omega arith) }))
          (λ l. Ensures-weaken (λ rest s. later l rest s) (λ x h. h) (skip_strange-IsSkipped ts)))
  where
    later : t.end ≡ false → (rest : List Token) → IsSkipped ts rest → IsSkipped (t ∷ ts) rest
    later l rest s = record {
      dropped = t ∷ s.dropped;
      cut = ap (◌∷◌ (word t)) s.cut;
      line = IsLine-cons t s.dropped l s.line;
      goes_on = elim s.goes_on [ inl e ↦ inl e | inr l ↦ inr (omega arith) ];
    }
