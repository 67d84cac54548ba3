-- ===== src/As/Token/Fuel.antt =====
-- How the loop of nvptx-as.cc `tokenize` goes on from each token.
use nvptx_tools.Base.{
  ℕ, zero, suc, ◌≤◌, ◌<◌, ◌≡◌, ◌≢◌, refl, ap, Bool, true, false, not, ◌&&◌, ◌||◌, Option, none,
  some, [], ◌∷◌, ◌==◌, if◌then◌else◌, ltb, Bytes, length, drop, arith,
}
use nvptx_tools.Result.{Result, ok, err, out_of_fuel}
use nvptx_tools.Result.Ensures.{Ensures, good, bad, Ensures-bind}
use nvptx_tools.As.Token.{
  Kind, k_symbol, k_ident, k_dotted, k_number, between, char_at, span_ident, span_line, span_block,
  span_string, behind, Close, at_newline, closed, at_nul, Lexeme, block_lexeme, ident_lexeme,
  string_lexeme, read_lexeme, skip_white, after_gap, next_lexeme, is_end, token_loop,
}

length-drop_one : (p : Bytes) → length (drop 1 p) ≤ length p
length-drop_one [] = omega arith
length-drop_one (c ∷ p) = omega arith

span_ident-length :
    (kind : Kind) (last : ℕ) (p : Bytes) → length (span_ident kind last p).1 ≤ length p
unfolding span_ident
span_ident-length kind last [] = omega arith
span_ident-length kind last (c ∷ p) = ground (arith, span_ident-length kind c p)

span_line-length : (p : Bytes) → length (span_line p).1 ≤ length p
unfolding span_line
span_line-length [] = omega arith
span_line-length (c ∷ p) = ground (arith, span_line-length p)

span_block-length : (p : Bytes) → length (span_block p).0.1 ≤ length p
unfolding span_block
span_block-length [] = omega arith
span_block-length (c ∷ p) = ground (arith, span_block-length p, length-drop_one p)

-- A block comment that is not at a NUL takes a byte.
span_block-shorter :
    (c : ℕ) (p : Bytes) → (c == 0) ≡ false → length (span_block (c ∷ p)).0.1 ≤ length p
unfolding span_block
span_block-shorter c p h = ground (arith, span_block-length p, length-drop_one p)

if_both {ℓ κ} :
    {A : Type ℓ} (P : A → Type κ) (b : Bool) (x y : A) → P x → P y → P (if b then x else y)
if_both P true x y h g = h
if_both P false x y h g = g

Leaves : ℕ → Option (Bytes × Bytes) → Type 0
Leaves n none = Unit
Leaves n (some (word, rest)) = length rest ≤ n

Leaves-behind :
    (part : Bytes) (n k : ℕ) (r : Option (Bytes × Bytes))
    → n ≤ k
    → Leaves n r
    → Leaves k (behind part r)
unfolding Leaves
Leaves-behind part n k none l h = tt
Leaves-behind part n k (some (word, rest)) l h = omega (arith, l, h)

span_string-Leaves : (p : Bytes) → Leaves (length p) (span_string p)
unfolding span_string Leaves
span_string-Leaves [] = omega arith
span_string-Leaves (c ∷ []) =
    if_both (Leaves 1) (c == 0) _ _ (omega arith)
      (if_both (Leaves 1) (c == b'\\') _ _ tt (omega arith))
span_string-Leaves (c ∷ d ∷ p) =
    let n = length (c ∷ d ∷ p) in
    if_both (Leaves n) (c == 0) _ _ (omega arith) (
      if_both (Leaves n) (c == b'"') _ _ (omega arith) (
        if_both (Leaves n) (c == b'\\') _ _
          (Leaves-behind (c ∷ d ∷ []) (length p) n (span_string p) (omega arith)
            (span_string-Leaves p))
          (Leaves-behind (c ∷ []) (length (d ∷ p)) n (span_string (d ∷ p)) (omega arith)
            (span_string-Leaves (d ∷ p)))))

skip_white-length : (nc ws eol : Bool) (p : Bytes) → length (skip_white nc ws eol p).rest ≤ length p
unfolding skip_white
skip_white-length nc ws eol [] = omega arith
skip_white-length nc ws eol (c ∷ p) =
    ground (arith, skip_white-length nc nc true p, skip_white-length nc nc eol p)

-- A token leaves no more than the text behind its first character.
abbrev IsBehind : ℕ → Result Lexeme → Type 0
IsBehind n r = Ensures (λ lex. length lex.rest ≤ n) (λ x. x ≢ out_of_fuel) r

block_lexeme-rest : (ws : Bool) (s : (Bytes × Bytes) × Close) → (block_lexeme ws s).rest ≡ s.0.1
block_lexeme-rest ws ((line, rest), at_newline) = refl
block_lexeme-rest ws ((line, rest), closed) = refl
block_lexeme-rest ws ((line, rest), at_nul) = refl

ident-IsBehind :
    (kind k : Kind) (ws : Bool) (c last : ℕ) (p : Bytes)
    → IsBehind (length p) (ok (ident_lexeme kind ws c (span_ident k last p)))
ident-IsBehind kind k ws c last p = good (
    if_both (λ (lex : Lexeme). length lex.rest ≤ length p) (char_at (span_ident k last p).1 == b':')
      _ _ (omega (arith, length-drop_one (span_ident k last p).1, span_ident-length k last p))
      (span_ident-length k last p))

string-IsBehind :
    (ws : Bool) (c n : ℕ) (r : Option (Bytes × Bytes))
    → Leaves n r
    → IsBehind n (string_lexeme ws c r)
unfolding Leaves
string-IsBehind ws c n none h = bad (λ e. absurd (cc e))
string-IsBehind ws c n (some (word, rest)) h = good h

read_lexeme-IsBehind :
    (nc ws : Bool) (c : ℕ) (p : Bytes) → IsBehind (length p) (read_lexeme nc ws c p)
unfolding read_lexeme
read_lexeme-IsBehind nc ws c p =
    let n = length p in
    let here : length p ≤ n = omega arith in
    let line : length (span_line (drop 1 p)).1 ≤ n =
      omega (arith, span_line-length (drop 1 p), length-drop_one p) in
    let block : length (block_lexeme ws (span_block (drop 1 p))).rest ≤ n = omega (
      arith,
      ap length (block_lexeme-rest ws (span_block (drop 1 p))),
      span_block-length (drop 1 p),
      length-drop_one p,
    ) in
    if_both (IsBehind n) (ltb 127 c) _ _ (bad (λ e. absurd (cc e))) (
      if_both (IsBehind n) (c == b'/') _ _
        (if_both (IsBehind n) (char_at p == b'/') _ _ (good line)
          (if_both (IsBehind n) (char_at p == b'*') _ _ (good block) (good here)))
        (if_both (IsBehind n) (c == b'"') _ _
          (string-IsBehind ws c n (span_string p) (span_string-Leaves p))
          (if_both (IsBehind n) (c == b'.' && not (between b'0' b'9' (char_at p))) _ _
            (ident-IsBehind k_dotted k_dotted nc c c p)
            (if_both (IsBehind n) (c == b'.' || between b'0' b'9' c) _ _
              (ident-IsBehind k_number k_number ws c c p)
              (if_both (IsBehind n) (c == b'$' || c == b'%') _ _
                (ident-IsBehind k_ident k_ident ws c c p)
                (if_both (IsBehind n) (between b'a' b'z' c || between b'A' b'Z' c || c == b'_') _ _
                  (ident-IsBehind k_symbol k_symbol ws c c p) (good here)))))))

-- How the loop goes on from a token: the text gets shorter, or it stays at a NUL in a block comment,
-- or the token is the last.
pub data Continues (p : Bytes) (lex : Lexeme) : Type 0 where
  shorter : length lex.rest < length p → Continues p lex
  last_token : is_end lex.kind ≡ true → Continues p lex

abbrev pub NextContinues : Bytes → Result (Bool × Lexeme) → Type 0
NextContinues p r = Ensures (λ s. Continues p s.1) (λ x. x ≢ out_of_fuel) r

after_gap-Continues :
    (p : Bytes) (nc ws eol : Bool) (q : Bytes)
    → length q ≤ length p
    → NextContinues p (after_gap nc (record { ws = ws; eol = eol; rest = q }))
unfolding after_gap
after_gap-Continues p nc ws eol [] h = unfold read_lexeme in good (last_token refl)
after_gap-Continues p nc ws eol (c ∷ q) h =
    Ensures-bind (read_lexeme-IsBehind nc ws c q) (λ lex l. good (shorter (omega arith)))

pub next_lexeme-Continues :
    (ic nc : Bool) (p : Bytes)
    → (ic && char_at p == 0) ≡ false
    → NextContinues p (next_lexeme ic nc p)
unfolding next_lexeme
next_lexeme-Continues true nc [] h = cc
next_lexeme-Continues true nc (c ∷ p) h = good (
    shorter (
      omega (
        arith,
        ap length (block_lexeme-rest false (span_block (c ∷ p))),
        span_block-shorter c p h,
      )))
next_lexeme-Continues false nc p h =
    let gap = skip_white nc false false p in
    after_gap-Continues p nc gap.ws gap.eol gap.rest (skip_white-length nc false false p)

span_block-stays : (p : Bytes) → (char_at p == 0) ≡ true → span_block p ≡ (([], p), at_nul)
unfolding span_block
span_block-stays [] h = refl
span_block-stays (c ∷ p) h = rw h

-- Within a block comment, at a NUL, the loop does not end: no fuel is enough.
pub never_ends :
    (fuel : ℕ) (nc : Bool) (p : Bytes)
    → (char_at p == 0) ≡ true
    → token_loop fuel true nc p ≡ err out_of_fuel
unfolding token_loop next_lexeme
never_ends zero nc p h = refl
never_ends (suc fuel) nc p h = rw (span_block-stays p h) (rw (never_ends fuel false p h))
