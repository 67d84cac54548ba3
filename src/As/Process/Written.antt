-- ===== src/As/Process/Written.antt =====
-- The statements that nvptx-as.cc `process` writes, and their words.
use nvptx_tools.Base.{ℕ, ◌≡◌, refl, ap, sym, ◌∙◌, Bool, List, [], ◌∷◌, ◌++◌, Bytes}
use mathlib.Core.List.{append_assoc, append-nil}
use nvptx_tools.Result.{Result, ok, err, ◌>>=◌, past_the_end}
use nvptx_tools.Result.Ensures.{Ensures, good, bad, Ensures-bind}
use nvptx_tools.As.Token.{
  Kind, single, k_symbol, k_label, k_ident, k_dotted, k_number, k_string, k_comment, Token,
  token_text, write_token,
}
use nvptx_tools.As.Statement.{
  Stmt, rev_onto, rev_stmts, write_tokens, write_stmt, write_stmts, followed_by, write_stmts-append,
}
use nvptx_tools.As.Parse.{Symbol, State, to_decls, to_fns, to_symbol, stmts_at}
use nvptx_tools.As.Parse.Words.{Word, words}
use nvptx_tools.As.Parse.Held.{stmt_words, held}
use nvptx_tools.As.Process.{write_symbols, write_all}

-- Writing fails only at a string token without its quotes.
abbrev pub Written : Result Bytes → Type 0
Written r = Ensures (λ out. Unit) (λ x. x ≡ past_the_end) r

token_text-Written : (kind : Kind) (text : Bytes) → Written (token_text kind text)
token_text-Written k_string [] = bad refl
token_text-Written k_string (c ∷ []) = bad refl
token_text-Written k_string (c ∷ d ∷ text) = good tt
token_text-Written (single c) text = good tt
token_text-Written k_symbol text = good tt
token_text-Written k_label text = good tt
token_text-Written k_ident text = good tt
token_text-Written k_dotted text = good tt
token_text-Written k_number text = good tt
token_text-Written k_comment text = good tt

write_token-Written : (t : Token) → Written (write_token t)
unfolding write_token
write_token-Written t = Ensures-bind (token_text-Written t.kind t.text) (λ text h. good tt)

write_tokens-Written : (comment : Bool) (ts : List Token) → Written (write_tokens comment ts)
unfolding write_tokens
write_tokens-Written comment [] = good tt
write_tokens-Written comment (t ∷ ts) =
    Ensures-bind (write_token-Written t)
      (λ out h. Ensures-bind (write_tokens-Written comment ts) (λ rest g. good tt))

write_stmt-Written : (s : Stmt) → Written (write_stmt s)
unfolding write_stmt
write_stmt-Written s = Ensures-bind (write_tokens-Written _ s.tokens) (λ out h. good tt)

write_stmts-Written : (stmts : List Stmt) → Written (write_stmts stmts)
unfolding write_stmts
write_stmts-Written [] = good tt
write_stmts-Written (s ∷ stmts) =
    Ensures-bind (write_stmt-Written s)
      (λ out h. Ensures-bind (write_stmts-Written stmts) (λ rest g. good tt))

-- The statements of the symbols, in their order, and all statements that are written.
abbrev pub symbols_stmts : List Symbol → List ℕ → List Stmt
symbols_stmts symbols [] = []
symbols_stmts symbols (e ∷ es) = rev_stmts (stmts_at e symbols) ++ symbols_stmts symbols es

abbrev pub all_stmts : {T : Type 0} → State T → List ℕ → List Stmt
all_stmts st es = rev_stmts st.decls ++ symbols_stmts st.symbols es ++ rev_stmts st.fns

write_symbols_lem :
    (symbols : List Symbol) (es : List ℕ)
    → write_symbols symbols es ≡ write_stmts (symbols_stmts symbols es)
unfolding write_symbols write_stmts
write_symbols_lem symbols [] = refl
write_symbols_lem symbols (e ∷ es) =
    ap (followed_by (write_stmts (rev_stmts (stmts_at e symbols)))) (write_symbols_lem symbols es)
    ∙ sym (write_stmts-append (rev_stmts (stmts_at e symbols)) (symbols_stmts symbols es))

pub write_all_lem :
    {T : Type 0} → (st : State T) (es : List ℕ) → write_all st es ≡ write_stmts (all_stmts st es)
unfolding write_all
write_all_lem st es =
    let decls = write_stmts (rev_stmts st.decls) in
    let fns = write_stmts (rev_stmts st.fns) in
    let symbols = symbols_stmts st.symbols es in
    three decls (write_symbols st.symbols es) fns
    ∙ ap (λ r. followed_by (followed_by decls r) fns) (write_symbols_lem st.symbols es)
    ∙ ap (λ r. followed_by r fns) (sym (write_stmts-append (rev_stmts st.decls) symbols))
    ∙ sym (write_stmts-append (rev_stmts st.decls ++ symbols) (rev_stmts st.fns))
  where
    three :
        (a b c : Result Bytes)
        → (a >>= λ x. b >>= λ y. c >>= λ z. ok (x ++ y ++ z)) ≡ followed_by (followed_by a b) c
    three (err x) b c = refl
    three (ok a) (err x) c = refl
    three (ok a) (ok b) (err x) = refl
    three (ok a) (ok b) (ok c) = refl

pub write_all-Written : {T : Type 0} → (st : State T) (es : List ℕ) → Written (write_all st es)
write_all-Written st es = rw (write_all_lem st es) (write_stmts-Written (all_stmts st es))

-- The words of statements in the order in which they are written.
abbrev pub forward_words : List Stmt → List Word
forward_words [] = []
forward_words (s ∷ stmts) = words s.tokens ++ forward_words stmts

forward-append :
    (xs ys : List Stmt) → forward_words (xs ++ ys) ≡ forward_words xs ++ forward_words ys
forward-append [] ys = refl
forward-append (x ∷ xs) ys =
    ap (λ l. words x.tokens ++ l) (forward-append xs ys)
    ∙ sym (append_assoc (words x.tokens) (forward_words xs) (forward_words ys))

forward-rev_onto :
    (ss prev : List Stmt) → forward_words (rev_onto ss prev) ≡ stmt_words ss ++ forward_words prev
unfolding rev_onto
forward-rev_onto [] prev = refl
forward-rev_onto (s ∷ ss) prev =
    forward-rev_onto ss (s ∷ prev)
    ∙ sym (append_assoc (stmt_words ss) (words s.tokens) (forward_words prev))

forward-rev_stmts : (ss : List Stmt) → forward_words (rev_stmts ss) ≡ stmt_words ss
unfolding rev_stmts
forward-rev_stmts ss = forward-rev_onto ss [] ∙ append-nil (stmt_words ss)

-- The words of the symbols in an order.
abbrev pub words_in_order : {T : Type 0} → List ℕ → State T → List Word
words_in_order [] st = []
words_in_order (e ∷ es) st = held (to_symbol e) st ++ words_in_order es st

forward-symbols :
    {T : Type 0}
    → (es : List ℕ) (st : State T)
    → forward_words (symbols_stmts st.symbols es) ≡ words_in_order es st
forward-symbols [] st = refl
forward-symbols (e ∷ es) st =
    let first = rev_stmts (stmts_at e st.symbols) in
    forward-append first (symbols_stmts st.symbols es)
    ∙ ap (λ l. l ++ forward_words (symbols_stmts st.symbols es))
        (forward-rev_stmts (stmts_at e st.symbols))
    ∙ ap (λ l. held (to_symbol e) st ++ l) (forward-symbols es st)

pub forward-all_stmts :
    {T : Type 0}
    → (es : List ℕ) (st : State T)
    → forward_words (all_stmts st es) ≡ held to_decls st ++ words_in_order es st ++ held to_fns st
forward-all_stmts es st =
    let symbols = symbols_stmts st.symbols es in
    let fns = rev_stmts st.fns in
    forward-append (rev_stmts st.decls ++ symbols) fns
    ∙ ap (λ l. l ++ forward_words fns) (forward-append (rev_stmts st.decls) symbols)
    ∙ rw (forward-rev_stmts st.decls, forward-symbols es st, forward-rev_stmts st.fns) refl
