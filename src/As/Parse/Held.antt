-- ===== src/As/Parse/Held.antt =====
-- The words that the lists of the parser of nvptx-as.cc hold, and the chunks that go to them.
use nvptx_tools.Base.{
  ℕ, zero, suc, ◌<◌, ◌≡◌, refl, ap, sym, ◌∙◌, Bool, true, false, Option, none, some, List, [], ◌∷◌,
  ◌++◌, ◌==◌, if◌then◌else◌, Bytes, length, All, arith,
}
use mathlib.Core.List.{append_assoc, append-nil}
use nvptx_tools.As.Statement.{Stmt}
use nvptx_tools.As.Parse.{
  Symbol, State, Dest, to_decls, to_fns, to_symbol, update_at, with_stmt, with_dep, new_symbol,
  append_to, stmts_at,
}
use nvptx_tools.As.Parse.Words.{Word, words}

-- The statements are listed in reverse.
abbrev pub stmt_words : List Stmt → List Word
stmt_words [] = []
stmt_words (s ∷ ss) = stmt_words ss ++ words s.tokens

-- The words that a list holds.
abbrev pub held : {T : Type 0} → Dest → State T → List Word
held to_decls st = stmt_words st.decls
held to_fns st = stmt_words st.fns
held (to_symbol i) st = stmt_words (stmts_at i st.symbols)

abbrev pub same_dest : Dest → Dest → Bool
same_dest to_decls to_decls = true
same_dest to_fns to_fns = true
same_dest (to_symbol i) (to_symbol j) = i == j
same_dest _ _ = false

-- Words that go to a list, or are dropped.
abbrev pub Chunk : Type 0
Chunk = Option Dest × List Word

abbrev pub all_words : List Chunk → List Word
all_words [] = []
all_words ((d, ws) ∷ cs) = ws ++ all_words cs

abbrev pub part_for : Dest → Chunk → List Word
part_for d (none, ws) = []
part_for d (some e, ws) = if same_dest e d then ws else []

-- The words that go to a list, in their order.
abbrev pub words_to : Dest → List Chunk → List Word
words_to d [] = []
words_to d (c ∷ cs) = part_for d c ++ words_to d cs

pub all_words-append : (xs ys : List Chunk) → all_words (xs ++ ys) ≡ all_words xs ++ all_words ys
all_words-append [] ys = refl
all_words-append ((d, ws) ∷ xs) ys =
    ap (λ l. ws ++ l) (all_words-append xs ys) ∙ sym (append_assoc ws (all_words xs) (all_words ys))

pub words_to-append :
    (d : Dest) (xs ys : List Chunk) → words_to d (xs ++ ys) ≡ words_to d xs ++ words_to d ys
words_to-append d [] ys = refl
words_to-append d (c ∷ xs) ys =
    ap (λ l. part_for d c ++ l) (words_to-append d xs ys)
    ∙ sym (append_assoc (part_for d c) (words_to d xs) (words_to d ys))

pub length-update_at :
    (i : ℕ) (f : Symbol → Symbol) (ss : List Symbol) → length (update_at i f ss) ≡ length ss
unfolding update_at
length-update_at i f [] = refl
length-update_at zero f (s ∷ ss) = refl
length-update_at (suc i) f (s ∷ ss) = ap suc (length-update_at i f ss)

pub All-update_at :
    (P : Symbol → Type 0) (i : ℕ) (f : Symbol → Symbol) (ss : List Symbol)
    → ((s : Symbol) → P s → P (f s))
    → All P ss
    → All P (update_at i f ss)
unfolding update_at
All-update_at P i f [] h g = tt
All-update_at P zero f (s ∷ ss) h g = (h s g.0, g.1)
All-update_at P (suc i) f (s ∷ ss) h g = (g.0, All-update_at P i f ss h g.1)

pub held_after_stmt :
    (i j : ℕ) (stmt : Stmt) (ss : List Symbol)
    → i < length ss
    → stmt_words (stmts_at j (update_at i (with_stmt stmt) ss))
      ≡ stmt_words (stmts_at j ss) ++ (if i == j then words stmt.tokens else [])
unfolding update_at
held_after_stmt i j stmt [] h = absurd (omega arith)
held_after_stmt zero zero stmt (s ∷ ss) h = refl
held_after_stmt zero (suc j) stmt (s ∷ ss) h =
    let other : false ≡ (0 == suc j) = ground arith in
    sym (append-nil (stmt_words (stmts_at j ss)))
    ∙ ap (λ b. stmt_words (stmts_at j ss) ++ (if b then words stmt.tokens else [])) other
held_after_stmt (suc i) zero stmt (s ∷ ss) h =
    let other : false ≡ (suc i == 0) = ground arith in
    sym (append-nil (stmt_words s.stmts))
    ∙ ap (λ b. stmt_words s.stmts ++ (if b then words stmt.tokens else [])) other
held_after_stmt (suc i) (suc j) stmt (s ∷ ss) h =
    held_after_stmt i j stmt ss (omega arith)
    ∙ ap (λ b. stmt_words (stmts_at j ss) ++ (if b then words stmt.tokens else [])) (ground arith)

pub held_after_dep :
    (i j d : ℕ) (ss : List Symbol) → stmts_at j (update_at i (with_dep d) ss) ≡ stmts_at j ss
unfolding update_at
held_after_dep i j d [] = refl
held_after_dep zero zero d (s ∷ ss) = refl
held_after_dep zero (suc j) d (s ∷ ss) = refl
held_after_dep (suc i) zero d (s ∷ ss) = refl
held_after_dep (suc i) (suc j) d (s ∷ ss) = held_after_dep i j d ss

pub held_after_new :
    (j : ℕ) (k : Bytes) (ss : List Symbol) → stmts_at j (ss ++ new_symbol k ∷ []) ≡ stmts_at j ss
held_after_new zero k [] = refl
held_after_new (suc j) k [] = refl
held_after_new zero k (s ∷ ss) = refl
held_after_new (suc j) k (s ∷ ss) = held_after_new j k ss

-- A list that exists.
abbrev pub HasPlace : {T : Type 0} → Dest → State T → Type 0
HasPlace (to_symbol i) st = i < length st.symbols
HasPlace _ st = Unit

module _ {T : Type 0} where
  pub held_after_append :
      (d e : Dest) (stmt : Stmt) (st : State T)
      → HasPlace d st
      → held e (append_to d stmt st) ≡ held e st ++ part_for e (some d, words stmt.tokens)
  unfolding append_to
  held_after_append to_decls to_decls stmt st h = refl
  held_after_append to_decls to_fns stmt st h = sym (append-nil _)
  held_after_append to_decls (to_symbol j) stmt st h = sym (append-nil _)
  held_after_append to_fns to_decls stmt st h = sym (append-nil _)
  held_after_append to_fns to_fns stmt st h = refl
  held_after_append to_fns (to_symbol j) stmt st h = sym (append-nil _)
  held_after_append (to_symbol i) to_decls stmt st h = sym (append-nil _)
  held_after_append (to_symbol i) to_fns stmt st h = sym (append-nil _)
  held_after_append (to_symbol i) (to_symbol j) stmt st h = held_after_stmt i j stmt st.symbols h

pub All-snoc {ℓ} :
    {A : Type ℓ} (P : A → Type 0) (xs : List A) (x : A) → All P xs → P x → All P (xs ++ x ∷ [])
All-snoc P [] x h g = (g, tt)
All-snoc P (y ∷ ys) x h g = (h.0, All-snoc P ys x h.1 g)

pub All-weaken {ℓ} :
    {A : Type ℓ} (P Q : A → Type 0) (xs : List A) → ((x : A) → P x → Q x) → All P xs → All Q xs
All-weaken P Q [] f h = tt
All-weaken P Q (x ∷ xs) f h = (f x h.0, All-weaken P Q xs f h.1)

-- Each dependence is the place of a symbol.
abbrev pub AreKnown : ℕ → List Symbol → Type 0
AreKnown n ss = All (λ s. All (λ d. d < n) s.deps) ss

-- Words that go to no list may be dropped.
abbrev pub IsFate : (List Word → Type 0) → Chunk → Type 0
IsFate Lost (none, ws) = Lost ws
IsFate Lost (some d, ws) = Unit

-- No words may.
abbrev pub Nothing : List Word → Type 0
Nothing ws = ⊥

pub All-append {ℓ} :
    {A : Type ℓ} (P : A → Type 0) (xs ys : List A) → All P xs → All P ys → All P (xs ++ ys)
All-append P [] ys h g = g
All-append P (x ∷ xs) ys h g = (h.0, All-append P xs ys h.1 g)
