-- ===== src/As/Parse/Moves.antt =====
-- What the parser of nvptx-as.cc does with the tokens that it takes: each goes to one statement list,
-- behind what the list has, or is dropped.
pub mod Bodies
pub mod Heads
pub mod Whole
use nvptx_tools.Base.{
  ℕ, zero, suc, ◌+◌, ◌<◌, ◌≤◌, ◌≡◌, refl, ap, sym, subst, ◌∙◌, Bool, true, false, Option, none,
  some, List, [], ◌∷◌, ◌++◌, ◌==◌, if◌then◌else◌, Bytes, length, length-append, All, equal, arith,
  Bool-cases, Option-cases, inl, inr,
}
use mathlib.Core.List.{append_assoc, append-nil}
use nvptx_tools.Hashtab.{Hashtab}
use nvptx_tools.Hashtab.Count.{Count}
use nvptx_tools.As.Token.{Token}
use nvptx_tools.As.Statement.{Stmt, alloc_stmt, without_space}
use nvptx_tools.As.Parse.{
  Symbol, State, Dest, to_decls, to_fns, to_symbol, update_at, with_stmt, with_dep, new_symbol,
  append_to, put, add_dep, found_or_new, symbol_hash_lookup, stmts_at,
}
use nvptx_tools.As.Parse.Words.{Word, words, words-append, words-without_space}
use nvptx_tools.As.Parse.Held.{
  All-append, All-snoc, All-update_at, All-weaken, AreKnown, Chunk, HasPlace, IsFate, Nothing,
  all_words, all_words-append, held, held_after_append, held_after_dep, held_after_new,
  held_after_stmt, length-update_at, part_for, same_dest, stmt_words, words_to, words_to-append,
}

module _ (H : Hashtab ℕ) where
  -- The table and the dependences hold places of symbols, and the table has as many entries as there are
  -- symbols.
  pub record IsSound (st : State H.Table) : Type 0 where
    pub in_table : (k : Bytes) (i : ℕ) → H.find st.symbol_table k ≡ some i → i < length st.symbols
    pub known : AreKnown (length st.symbols) st.symbols
    pub counted : (C : Count H) → C.elements st.symbol_table ≡ length st.symbols

  -- From one state and text to another: the words taken are those of the chunks, and each list gets
  -- those that go to it, behind what it has.
  -- `Lost` says which words may be dropped.
  pub record Parsed (Lost : List Word → Type 0) (st st' : State H.Table) (from rest : List Word)
      : Type 0 where
    pub chunks : List Chunk
    pub taken : from ≡ all_words chunks ++ rest
    pub fates : All (IsFate Lost) chunks
    pub placed : (d : Dest) → held d st' ≡ held d st ++ words_to d chunks
    pub sound : IsSound st'
    pub grown : length st.symbols ≤ length st'.symbols

  pub Parsed-none :
      {Lost : List Word → Type 0} (st : State H.Table) (ws : List Word)
      → IsSound st
      → Parsed Lost st st ws ws
  Parsed-none st ws s = record {
    chunks = [];
    fates = tt;
    taken = refl;
    placed = λ d. sym (append-nil (held d st));
    sound = s;
    grown = omega arith;
  }

  pub Parsed-drop :
      {Lost : List Word → Type 0} (st : State H.Table) (dropped from rest : List Word)
      → IsSound st
      → Lost dropped
      → from ≡ dropped ++ rest
      → Parsed Lost st st from rest
  Parsed-drop st dropped from rest s lost e = record {
    chunks = (none, dropped) ∷ [];
    fates = (lost, tt);
    taken = e ∙ ap (λ l. l ++ rest) (sym (append-nil dropped));
    placed = λ d. sym (append-nil (held d st));
    sound = s;
    grown = omega arith;
  }

  pub Parsed-trans :
      {Lost : List Word → Type 0} {st st1 st2 : State H.Table} {from mid rest : List Word}
      → Parsed Lost st st1 from mid
      → Parsed Lost st1 st2 mid rest
      → Parsed Lost st st2 from rest
  Parsed-trans {Lost} {st} {st1} {st2} {rest = rest} p q = record {
    chunks = p.chunks ++ q.chunks;
    fates = All-append (IsFate Lost) p.chunks q.chunks p.fates q.fates;
    taken =
        p.taken
        ∙ ap (λ l. all_words p.chunks ++ l) q.taken
        ∙ sym (append_assoc (all_words p.chunks) (all_words q.chunks) rest)
        ∙ ap (λ l. l ++ rest) (sym (all_words-append p.chunks q.chunks));
    placed = λ d.
        q.placed d
        ∙ ap (λ l. l ++ words_to d q.chunks) (p.placed d)
        ∙ append_assoc (held d st) (words_to d p.chunks) (words_to d q.chunks)
        ∙ ap (λ l. held d st ++ l) (sym (words_to-append d p.chunks q.chunks));
    sound = q.sound;
    grown = omega (arith, p.grown, q.grown);
  }

  pub Parsed-same :
      {Lost : List Word → Type 0} {st st' : State H.Table} {from from' rest rest' : List Word}
      → from' ≡ from
      → rest ≡ rest'
      → Parsed Lost st st' from rest
      → Parsed Lost st st' from' rest'
  Parsed-same {Lost} {st} {st'} {from} {from'} {rest} e f p =
      subst (λ r. Parsed Lost st st' from' r) f (subst (λ l. Parsed Lost st st' l rest) (sym e) p)

  append_to-IsSound :
      (d : Dest) (stmt : Stmt) (st : State H.Table) → IsSound st → IsSound (append_to d stmt st)
  unfolding append_to
  append_to-IsSound to_decls stmt st s = record {
    in_table = s.in_table;
    known = s.known;
    counted = s.counted;
  }
  append_to-IsSound to_fns stmt st s = record {
    in_table = s.in_table;
    known = s.known;
    counted = s.counted;
  }
  append_to-IsSound (to_symbol i) stmt st s =
      let same = length-update_at i (with_stmt stmt) st.symbols in
      record {
        in_table = λ k j h. let l = s.in_table k j h in omega arith;
        known =
            subst (λ n. AreKnown n (update_at i (with_stmt stmt) st.symbols)) (sym same)
              (All-update_at _ i (with_stmt stmt) st.symbols (λ x h. h) s.known);
        counted = λ C. s.counted C ∙ sym same;
      }

  append_to-length :
      (d : Dest) (stmt : Stmt) (st : State H.Table)
      → length (append_to d stmt st).symbols ≡ length st.symbols
  unfolding append_to
  append_to-length to_decls stmt st = refl
  append_to-length to_fns stmt st = refl
  append_to-length (to_symbol i) stmt st = length-update_at i (with_stmt stmt) st.symbols

  pub Parsed-put :
      {Lost : List Word → Type 0} (d : Dest) (vis : ℕ) (toks : List Token) (st : State H.Table)
      (from rest : List Word)
      → HasPlace d st
      → IsSound st
      → from ≡ words toks ++ rest
      → Parsed Lost st (put d vis toks st) from rest
  unfolding alloc_stmt
  Parsed-put d vis toks st from rest h s e =
      let stmt = alloc_stmt vis toks in
      record {
        chunks = (some d, words toks) ∷ [];
        fates = (tt, tt);
        taken = e ∙ ap (λ l. l ++ rest) (sym (append-nil (words toks)));
        placed = λ e.
            held_after_append d e stmt st h
            ∙ ap (λ l. held e st ++ l)
                (ap (λ l. part_for e (some d, l)) (words-without_space toks)
                  ∙ sym (append-nil (part_for e (some d, words toks))));
        sound = append_to-IsSound d stmt st s;
        grown = omega (arith, append_to-length d stmt st);
      }

  pub put-HasPlace :
      (d e : Dest) (vis : ℕ) (toks : List Token) (st : State H.Table)
      → HasPlace e st
      → HasPlace e (put d vis toks st)
  put-HasPlace d to_decls vis toks st h = tt
  put-HasPlace d to_fns vis toks st h = tt
  put-HasPlace d (to_symbol i) vis toks st h =
      omega (arith, append_to-length d (alloc_stmt vis toks) st)

  -- A dependence that is a place.
  pub Parsed-dep :
      {Lost : List Word → Type 0} (i d : ℕ) (st : State H.Table) (ws : List Word)
      → IsSound st
      → d < length st.symbols
      → Parsed Lost st (add_dep i d st) ws ws
  Parsed-dep i d st ws s l =
      let same = length-update_at i (with_dep d) st.symbols in
      record {
        chunks = [];
        fates = tt;
        taken = refl;
        placed = λ e. held_dep e ∙ sym (append-nil (held e st));
        sound = record {
          in_table = λ k j h. let m = s.in_table k j h in omega arith;
          known =
              subst (λ n. AreKnown n (update_at i (with_dep d) st.symbols)) (sym same)
                (All-update_at _ i (with_dep d) st.symbols
                  (λ x h. All-snoc (λ j. j < length st.symbols) x.deps d h l) s.known);
          counted = λ C. s.counted C ∙ sym same;
        };
        grown = omega (arith, same);
      }
    where
      held_dep : (e : Dest) → held e (add_dep i d st) ≡ held e st
      held_dep to_decls = refl
      held_dep to_fns = refl
      held_dep (to_symbol j) = ap stmt_words (held_after_dep i j d st.symbols)

  with_new : Bytes → State H.Table → State H.Table
  with_new k st = record st {
    symbol_table = H.put st.symbol_table k (length st.symbols);
    symbols = st.symbols ++ new_symbol k ∷ [];
  }

  new-Parsed :
      {Lost : List Word → Type 0} (k : Bytes) (st : State H.Table) (ws : List Word)
      → IsSound st
      → H.find st.symbol_table k ≡ none
      → Parsed Lost st (with_new k st) ws ws
  unfolding with_new
  new-Parsed k st ws s absent =
      let longer = length-append st.symbols (new_symbol k ∷ []) in
      record {
        chunks = [];
        fates = tt;
        taken = refl;
        placed = λ e. held_new e ∙ sym (append-nil (held e st));
        sound = record {
          in_table = λ j i h. place j i h;
          known =
              All-snoc _ st.symbols (new_symbol k)
                (All-weaken _ _ st.symbols
                  (λ x. All-weaken _ _ x.deps (λ d l. omega (arith, longer))) s.known)
                tt;
          counted = λ C.
              C.elements-put st.symbol_table k (length st.symbols) absent
              ∙ omega (arith, longer, s.counted C);
        };
        grown = omega (arith, longer);
      }
    where
      held_new : (e : Dest) → held e (with_new k st) ≡ held e st
      held_new to_decls = refl
      held_new to_fns = refl
      held_new (to_symbol j) = ap stmt_words (held_after_new j k st.symbols)

      place :
          (j : Bytes) (i : ℕ)
          → H.find (H.put st.symbol_table k (length st.symbols)) j ≡ some i
          → i < length (st.symbols ++ new_symbol k ∷ [])
      place j i h =
          let n = length st.symbols in
          let p : (if equal k j then some n else H.find st.symbol_table j) ≡ some i =
            sym (H.find-put st.symbol_table k j n) ∙ h in
          let longer = length-append st.symbols (new_symbol k ∷ []) in
          elim (Bool-cases (equal k j)) [
            | inl same ↦ let q : n ≡ i = cc (rw same at p) in omega (arith, longer)
            | inr other ↦ let q = s.in_table j i (rw other at p) in omega (arith, longer)
          ]

  -- A symbol looked up, or made: its place.
  pub lookup-Parsed :
      {Lost : List Word → Type 0} (k : Bytes) (st : State H.Table) (ws : List Word)
      → IsSound st
      → Parsed Lost st (symbol_hash_lookup H k st).1 ws ws
        × ((symbol_hash_lookup H k st).0 < length (symbol_hash_lookup H k st).1.symbols)
  unfolding symbol_hash_lookup with_new
  lookup-Parsed {Lost} k st ws s = found (H.find st.symbol_table k) refl
    where
      found :
          (o : Option ℕ)
          → H.find st.symbol_table k ≡ o
          → Parsed Lost st (found_or_new H k st o).1 ws ws
            × ((found_or_new H k st o).0 < length (found_or_new H k st o).1.symbols)
      found none e =
          (new-Parsed k st ws s e, omega (arith, length-append st.symbols (new_symbol k ∷ [])))
      found (some i) e = (Parsed-none st ws s, s.in_table k i e)

  pub Parsed-weaken :
      {Lost More : List Word → Type 0} {st st' : State H.Table} {from rest : List Word}
      → ((ws : List Word) → Lost ws → More ws)
      → Parsed Lost st st' from rest
      → Parsed More st st' from rest
  Parsed-weaken {Lost} {More} f p = record {
    chunks = p.chunks;
    fates = All-weaken (IsFate Lost) (IsFate More) p.chunks fate p.fates;
    taken = p.taken;
    placed = p.placed;
    sound = p.sound;
    grown = p.grown;
  }
    where
      fate : (c : Chunk) → IsFate Lost c → IsFate More c
      fate (none, ws) h = f ws h
      fate (some d, ws) h = tt
