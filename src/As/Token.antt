-- ===== src/As/Token.antt =====
-- nvptx-as.cc: `tokenize`, which cuts a text into tokens, and `write_token`.
pub mod Fuel
pub mod Stuck
pub mod Ended
pub mod Strings
pub mod Plain
use nvptx_tools.Base.{
  ℕ, zero, suc, ◌+◌, ◌%◌, Bool, true, false, not, ◌&&◌, ◌||◌, Option, none, some, List, [], ◌∷◌,
  ◌++◌, ◌==◌, if◌then◌else◌, ltb, Bytes, codes, length, take, drop,
}
use nvptx_tools.Result.{Result, ok, err, ◌>>=◌, non_ascii, past_the_end, out_of_fuel}

-- `single c` is the kind of a token of the one character `c`; `single 0` is that of the end.
pub data Kind : Type 0 where
  single : ℕ → Kind
  k_symbol k_label k_ident k_dotted k_number k_string k_comment : Kind

-- `text` is the `len` bytes at `ptr`.
pub record Token : Type 0 where
  pub kind : Kind
  pub space : Bool
  pub end : Bool
  pub text : Bytes

-- `*ptr`; a NUL stands behind the text.
abbrev pub char_at : Bytes → ℕ
char_at [] = 0
char_at (c ∷ p) = c

abbrev pub between : ℕ → ℕ → ℕ → Bool
between low high c = not (ltb c low) && not (ltb high c)

abbrev pub is_number : Kind → Bool
is_number k_number = true
is_number _ = false

abbrev pub is_dotted : Kind → Bool
is_dotted k_dotted = true
is_dotted _ = false

-- The tests of the loop under `ident`; `last` is `ptr[-1]`.
unfoldable pub is_ident : Kind → ℕ → ℕ → Bool
is_ident kind last c =
    between b'A' b'Z' c
    || between b'a' b'z' c
    || between b'0' b'9' c
    || c == b'_'
    || c == b'$'
    || (c == b'.' && not (is_dotted kind))
    || ((c == b'+' || c == b'-')
        && (is_number kind && (last == b'e' || last == b'E' || last == b'p' || last == b'P')))

unfoldable pub span_ident : Kind → ℕ → Bytes → Bytes × Bytes
unfolding is_ident
span_ident kind last [] = ([], [])
span_ident kind last (c ∷ p) =
    let (word, rest) = span_ident kind c p in
    if is_ident kind last c then (c ∷ word, rest) else ([], c ∷ p)

-- A line comment goes on to the end of its line.
unfoldable pub span_line : Bytes → Bytes × Bytes
span_line [] = ([], [])
span_line (c ∷ p) =
    let (line, rest) = span_line p in
    if c == 0 then ([], c ∷ p) else if c == b'\n' then ([], c ∷ p) else (c ∷ line, rest)

-- How a line of a block comment ends: `in_comment` is 1 for the first and the last.
pub data Close : Type 0 where
  at_newline closed at_nul : Close

unfoldable pub span_block : Bytes → (Bytes × Bytes) × Close
span_block [] = (([], []), at_nul)
span_block (c ∷ p) =
    let ((line, rest), close) = span_block p in
    if c == 0
    then (([], c ∷ p), at_nul)
    else if c == b'\n'
    then (([], p), at_newline)
    else if c == b'*' && char_at p == b'/'
    then (([], drop 1 p), closed)
    else ((c ∷ line, rest), close)

abbrev pub behind : Bytes → Option (Bytes × Bytes) → Option (Bytes × Bytes)
behind part none = none
behind part (some (word, rest)) = some (part ++ word, rest)

-- A quoted string, with its last quote. A backslash before the final NUL takes the NUL with it.
unfoldable pub span_string : Bytes → Option (Bytes × Bytes)
span_string [] = some ([], [])
span_string (c ∷ []) =
    if c == 0 then some ([], c ∷ []) else if c == b'\\' then none else some (c ∷ [], [])
span_string (c ∷ d ∷ p) =
    let plain = behind (c ∷ []) (span_string (d ∷ p)) in
    let escaped = behind (c ∷ d ∷ []) (span_string p) in
    if c == 0
    then some ([], c ∷ d ∷ p)
    else if c == b'"'
    then some (c ∷ [], d ∷ p)
    else if c == b'\\'
    then escaped
    else plain

-- A token cut from the text, with the text behind it and `in_comment & 1`.
pub record Lexeme : Type 0 where
  pub kind : Kind
  pub space : Bool
  pub text : Bytes
  pub rest : Bytes
  pub in_comment : Bool

-- `len` has 16 bits.
abbrev pub lexeme : Kind → Bool → Bytes → Bytes → Lexeme
lexeme kind ws word rest = record {
  kind = kind;
  space = ws;
  text = take (length word % 65536) word;
  rest = rest;
  in_comment = false;
}

abbrev pub without_last : Bytes → Bytes
without_last [] = []
without_last (c ∷ []) = []
without_last (c ∷ d ∷ p) = c ∷ without_last (d ∷ p)

-- Under `block_comment`.
abbrev pub block_lexeme : Bool → (Bytes × Bytes) × Close → Lexeme
block_lexeme ws ((line, rest), at_newline) = record (lexeme k_comment ws line rest) {
  in_comment = true;
}
block_lexeme ws ((line, rest), closed) = lexeme k_comment ws line rest
block_lexeme ws ((line, rest), at_nul) = record (lexeme k_comment ws (without_last line) rest) {
  in_comment = true;
}

-- Under `ident`, with the first character.
abbrev pub ident_lexeme : Kind → Bool → ℕ → Bytes × Bytes → Lexeme
ident_lexeme kind ws c (word, rest) =
    if char_at rest == b':'
    then lexeme k_label ws (c ∷ word ++ b':' ∷ []) (drop 1 rest)
    else lexeme kind ws (c ∷ word) rest

abbrev pub string_lexeme : Bool → ℕ → Option (Bytes × Bytes) → Result Lexeme
string_lexeme ws c none = err past_the_end
string_lexeme ws c (some (word, rest)) = ok (lexeme k_string ws (c ∷ word) rest)

-- The `switch` on the character behind the white space.
unfoldable pub read_lexeme : Bool → Bool → ℕ → Bytes → Result Lexeme
unfolding span_ident span_line span_block span_string
read_lexeme not_comment ws c p =
    if ltb 127 c
    then err (non_ascii c)
    else if c == b'/'
    then (if char_at p == b'/'
        then (let (line, rest) = span_line (drop 1 p) in ok (lexeme k_comment ws line rest))
        else if char_at p == b'*'
        then ok (block_lexeme ws (span_block (drop 1 p)))
        else ok (lexeme (single c) ws (c ∷ []) p))
    else if c == b'"'
    then string_lexeme ws c (span_string p)
    else if c == b'.' && not (between b'0' b'9' (char_at p))
    then ok (ident_lexeme k_dotted not_comment c (span_ident k_dotted c p))
    else if c == b'.' || between b'0' b'9' c
    then ok (ident_lexeme k_number ws c (span_ident k_number c p))
    else if c == b'$' || c == b'%'
    then ok (ident_lexeme k_ident ws c (span_ident k_ident c p))
    else if between b'a' b'z' c || between b'A' b'Z' c || c == b'_'
    then ok (ident_lexeme k_symbol ws c (span_ident k_symbol c p))
    else ok (lexeme (single c) ws (c ∷ []) p)

abbrev pub is_white : ℕ → Bool
is_white c = c == b' ' || c == b'\t' || c == b'\r' || c == 11

-- The white space in front of a token: `ws`, `eol`, and the text behind it.
pub record Gap : Type 0 where
  pub ws : Bool
  pub eol : Bool
  pub rest : Bytes

unfoldable pub skip_white : Bool → Bool → Bool → Bytes → Gap
skip_white not_comment ws eol [] = record { ws = ws; eol = eol; rest = [] }
skip_white not_comment ws eol (c ∷ p) =
    let line = skip_white not_comment not_comment true p in
    let blank = skip_white not_comment not_comment eol p in
    if c == b'\n'
    then line
    else if is_white c
    then blank
    else record { ws = ws; eol = eol; rest = c ∷ p }

-- A token read: whether an end of line stands before it, and the token.
unfoldable pub after_gap : Bool → Gap → Result (Bool × Lexeme)
unfolding read_lexeme
after_gap not_comment gap =
    read_lexeme not_comment gap.ws (char_at gap.rest) (drop 1 gap.rest) >>= λ lex. ok (gap.eol, lex)

unfoldable pub next_lexeme : Bool → Bool → Bytes → Result (Bool × Lexeme)
unfolding after_gap skip_white span_block
next_lexeme true not_comment p = ok (true, block_lexeme false (span_block p))
next_lexeme false not_comment p = after_gap not_comment (skip_white not_comment false false p)

abbrev pub is_comment : Kind → Bool
is_comment k_comment = true
is_comment _ = false

abbrev pub is_end : Kind → Bool
is_end (single zero) = true
is_end _ = false

-- `end` of a token is set when the next token is read.
abbrev pub token_of : Lexeme → Bool → Token
token_of lex eol = record { kind = lex.kind; space = lex.space; end = eol; text = lex.text }

abbrev pub cons_token : Bool → Lexeme → Bool × List Token → Bool × List Token
cons_token eol lex (next_eol, tokens) = (eol, token_of lex next_eol ∷ tokens)

abbrev pub go_on :
    (Bool → Bool → Bytes → Result (Bool × List Token)) → Bool × Lexeme → Result (Bool × List Token)
go_on again (eol, lex) =
    let more = again lex.in_comment (not (is_comment lex.kind)) lex.rest in
    if is_end lex.kind
    then ok (eol, token_of lex false ∷ [])
    else (more >>= λ r. ok (cons_token eol lex r))

-- The loop, on fuel: the tokens up to the end, and whether an end of line stands before the first.
unfoldable pub token_loop : ℕ → Bool → Bool → Bytes → Result (Bool × List Token)
unfolding next_lexeme
token_loop zero in_comment not_comment p = err out_of_fuel
token_loop (suc fuel) in_comment not_comment p =
    next_lexeme in_comment not_comment p >>= go_on (token_loop fuel)

unfoldable pub tokenize : Bytes → Result (List Token)
unfolding token_loop
tokenize text = token_loop (suc (length text)) false false text >>= λ r. ok r.1

-- The bytes of a string with each backslash doubled.
unfoldable pub encode : Bytes → Bytes
encode [] = []
encode (c ∷ p) = if c == b'\\' then c ∷ c ∷ encode p else c ∷ encode p

-- The loop of a string reads past a text that has not both quotes.
abbrev pub token_text : Kind → Bytes → Result Bytes
token_text k_string [] = err past_the_end
token_text k_string (c ∷ []) = err past_the_end
token_text k_string (c ∷ d ∷ text) = ok (b'"' ∷ encode (without_last (d ∷ text)) ++ b'"' ∷ [])
token_text _ text = ok text

unfoldable pub write_token : Token → Result Bytes
unfolding encode
write_token tok = token_text tok.kind tok.text >>= λ text.
    ok ((if tok.space then b' ' ∷ [] else []) ++ text ++ (if tok.end then b'\n' ∷ [] else []))
