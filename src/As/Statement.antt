-- ===== src/As/Statement.antt =====
-- nvptx-as.cc: the statements, `rev_stmts`, and `write_stmts`.
use nvptx_tools.Base.{
  ℕ, ◌%◌, ◌≡◌, refl, ap, sym, ◌∙◌, Bool, false, List, [], ◌∷◌, ◌++◌, ◌==◌, if◌then◌else◌, Bytes,
  codes, inl, inr,
}
use mathlib.Core.List.{append_assoc, append-nil}
use nvptx_tools.Result.{Result, Result-cases, ok, err, ◌>>=◌}
use nvptx_tools.As.Token.{Token, write_token}

-- `tokens` are those from `tokens` to `tokens_end`; the list of statements stands for `next`.
pub record Stmt : Type 0 where
  pub vis : ℕ
  pub tokens : List Token

abbrev pub v_comment : ℕ
v_comment = 5

abbrev pub v_pred : ℕ
v_pred = 6

-- `vis & V_mask`
abbrev pub masked : ℕ → ℕ
masked vis = vis % 8

abbrev pub without_space : List Token → List Token
without_space [] = []
without_space (t ∷ ts) = record t { space = false } ∷ ts

unfoldable pub alloc_stmt : ℕ → List Token → Stmt
alloc_stmt vis tokens = record { vis = vis; tokens = without_space tokens }

abbrev pub append_stmt : Stmt → List Stmt → List Stmt
append_stmt s stmts = s ∷ stmts

-- The loop of `rev_stmts`.
unfoldable pub rev_onto : List Stmt → List Stmt → List Stmt
rev_onto [] prev = prev
rev_onto (s ∷ stmts) prev = rev_onto stmts (s ∷ prev)

unfoldable pub rev_stmts : List Stmt → List Stmt
unfolding rev_onto
rev_stmts stmts = rev_onto stmts []

unfoldable pub write_tokens : Bool → List Token → Result Bytes
write_tokens comment [] = ok []
write_tokens comment (t ∷ ts) = do
  word ← write_token t
  rest ← write_tokens comment ts
  ok ((if comment then codes "//" else []) ++ word ++ rest)

unfoldable pub write_stmt : Stmt → Result Bytes
unfolding write_tokens
write_stmt s = write_tokens (masked s.vis == v_comment) s.tokens >>= λ out.
    ok (out ++ (if masked s.vis == v_pred then b' ' ∷ [] else []))

unfoldable pub write_stmts : List Stmt → Result Bytes
unfolding write_stmt
write_stmts [] = ok []
write_stmts (s ∷ stmts) = do out ← write_stmt s; rest ← write_stmts stmts; ok (out ++ rest)

-- Statements appended one behind the other.
abbrev pub append_all : List Stmt → List Stmt → List Stmt
append_all [] stmts = stmts
append_all (s ∷ more) stmts = append_all more (append_stmt s stmts)

abbrev pub followed_by : Result Bytes → Result Bytes → Result Bytes
followed_by first second = first >>= λ out. second >>= λ rest. ok (out ++ rest)

rev_onto-append : (stmts prev : List Stmt) → rev_onto stmts prev ≡ rev_stmts stmts ++ prev
unfolding rev_stmts rev_onto
rev_onto-append [] prev = refl
rev_onto-append (s ∷ stmts) prev =
    rev_onto-append stmts (s ∷ prev)
    ∙ sym (append_assoc (rev_stmts stmts) (s ∷ []) prev)
    ∙ ap (λ l. l ++ prev) (sym (rev_onto-append stmts (s ∷ [])))

rev_stmts-append_all :
    (more stmts : List Stmt) → rev_stmts (append_all more stmts) ≡ rev_stmts stmts ++ more
unfolding rev_stmts rev_onto
rev_stmts-append_all [] stmts = sym (append-nil (rev_stmts stmts))
rev_stmts-append_all (s ∷ more) stmts =
    rev_stmts-append_all more (s ∷ stmts)
    ∙ ap (λ l. l ++ more) (rev_onto-append stmts (s ∷ []))
    ∙ append_assoc (rev_stmts stmts) (s ∷ []) more

pub write_stmts-append :
    (xs ys : List Stmt) → write_stmts (xs ++ ys) ≡ followed_by (write_stmts xs) (write_stmts ys)
unfolding write_stmts
write_stmts-append [] ys = elim (Result-cases (write_stmts ys)) [
  | inl (out, e) ↦ rw e
  | inr (x, e) ↦ rw e
]
write_stmts-append (s ∷ xs) ys =
    ap (followed_by (write_stmt s)) (write_stmts-append xs ys)
    ∙ associate (write_stmt s) (write_stmts xs) (write_stmts ys)
  where
    associate :
        (a b c : Result Bytes) → followed_by a (followed_by b c) ≡ followed_by (followed_by a b) c
    associate (err x) b c = refl
    associate (ok a) (err x) c = refl
    associate (ok a) (ok b) (err x) = refl
    associate (ok a) (ok b) (ok c) = ap ok (sym (append_assoc a b c))

-- Statements that are appended to a list are written, once the list is reversed, behind those that the
-- list had, in the order in which they were appended; the first token that cannot be written is the
-- error.
pub write_stmts-append_all :
    (more stmts : List Stmt)
    → write_stmts (rev_stmts (append_all more stmts))
      ≡ followed_by (write_stmts (rev_stmts stmts)) (write_stmts more)
write_stmts-append_all more stmts =
    ap write_stmts (rev_stmts-append_all more stmts) ∙ write_stmts-append (rev_stmts stmts) more
