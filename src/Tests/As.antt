-- ===== src/Tests/As.antt =====
-- Runs of `tokenize`, `write_token`, `verify_preamble` and `symbol_order_deps` of nvptx-as.cc on small
-- inputs.
use nvptx_tools.Base.{
  ℕ, zero, suc, ◌≡◌, ◌⊎◌, refl, Bool, true, false, none, some, List, [], ◌∷◌, ◌++◌, Bytes, codes,
  has_byte, equal,
}
use nvptx_tools.Result.{Result, ok, err, out_of_fuel}
use nvptx_tools.Result.Ensures.{Ensures}
use nvptx_tools.As.Token.{
  Kind, Token, single, k_symbol, k_dotted, k_number, k_comment, span_string, token_loop, tokenize,
  write_token,
}
use nvptx_tools.As.Token.Fuel.{never_ends}
use nvptx_tools.As.Token.Stuck.{Ends, IsStuck, tokenize-Ends}
use nvptx_tools.As.Token.Strings.{string_token, span_string-write_token}
use nvptx_tools.As.Preamble.{IsPreamble, IsFault, verify_preamble, verify_preamble-IsPreamble}
use nvptx_tools.As.Statement.{Stmt, alloc_stmt, rev_stmts, write_stmts, append_all}
use nvptx_tools.As.Order.{Order, order_symbols}

abbrev text : Bytes
text = codes "// a\n.version 6.0\n.target sm_30\n"

abbrev token : Kind → Bool → Bool → Bytes → Token
token kind space end word = record { kind = kind; space = space; end = end; text = word }

abbrev tokens : List Token
tokens =
    token k_comment false true (codes " a")
    ∷ token k_dotted false false (codes ".version")
    ∷ token k_number true true (codes "6.0")
    ∷ token k_dotted true false (codes ".target")
    ∷ token k_symbol true true (codes "sm_30")
    ∷ token (single 0) true false (0 ∷ [])
    ∷ []

tokenized : tokenize text ≡ ok tokens
unfolding tokenize
tokenized = refl

tokenize-Ends_example : Ends (tokenize text) ⊎ IsStuck false false text
tokenize-Ends_example = tokenize-Ends text

never_ends_example : token_loop 100 true false [] ≡ err out_of_fuel
never_ends_example = never_ends 100 false [] refl

-- A block comment that is not closed.
endless : tokenize (codes "/* a") ≡ err out_of_fuel
unfolding tokenize
endless = refl

verify_preamble-IsPreamble_example :
    Ensures (IsPreamble tokens) IsFault (verify_preamble none tokens)
verify_preamble-IsPreamble_example = verify_preamble-IsPreamble tokens

verified : verify_preamble none tokens ≡ ok (codes "sm_30")
unfolding verify_preamble equal
verified = refl

abbrev body : Bytes
body = codes "a\\b"

span_string-write_token_example :
    (inner : Bytes) × (write_token (string_token body) ≡ ok (b'"' ∷ inner))
    × (span_string (inner ++ (b';' ∷ [])) ≡ some (inner, b';' ∷ []))
unfolding has_byte
span_string-write_token_example = span_string-write_token body [] b';' refl refl

-- The initializer of the first symbol names the second.
abbrev deps_of : ℕ → List ℕ
deps_of zero = 1 ∷ []
deps_of (suc k) = []

abbrev out_of : Result Order → List ℕ
out_of (ok st) = st.symbols_out
out_of (err e) = []

second_first : out_of (order_symbols deps_of 2) ≡ 1 ∷ 0 ∷ []
unfolding order_symbols
second_first = refl

abbrev insn : Stmt
insn =
    alloc_stmt 3
      (token k_symbol true false (codes "ret") ∷ token (single b';') false true (codes ";") ∷ [])

abbrev remark : Stmt
remark = alloc_stmt 5 (token k_comment false true (codes " b") ∷ [])

written : write_stmts (rev_stmts (append_all (insn ∷ remark ∷ []) [])) ≡ ok (codes "ret;\n// b\n")
unfolding write_stmts rev_stmts alloc_stmt write_token
written = refl
