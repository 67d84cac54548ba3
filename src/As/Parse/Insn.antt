-- ===== src/As/Parse/Insn.antt =====
-- nvptx-as.cc: `parse_insn`, which parses the body of a function.
use nvptx_tools.Base.{
  ℕ, zero, suc, ◌+◌, ◌%◌, Bool, true, false, List, [], ◌∷◌, ◌==◌, if◌then◌else◌, codes, length,
}
use nvptx_tools.Result.{Result, ok, err, ◌>>=◌, past_the_end, out_of_fuel}
use nvptx_tools.As.Token.{k_label, Token, is_comment}
use nvptx_tools.As.Preamble.{is_directive, is_keyword}
use nvptx_tools.As.Statement.{v_comment, v_pred}
use nvptx_tools.As.Parse.{
  State, to_decls, to_fns, put, is_single, clear_space, set_end, cons_first, take_comments, v_dot,
  v_insn, v_label, parse_line_nosemi, put_line,
}

-- `for (; tok->kind != ';'; tok++)`, with the `;`. No space stands behind a comma.
unfoldable pub take_semi : Bool → List Token → Result (List Token × List Token)
take_semi comma [] = err past_the_end
take_semi comma (t ∷ ts) =
    let t' = if comma then clear_space t else t in
    let rest = take_semi (is_single b',' t) ts in
    if is_single b';' t then ok (set_end t' ∷ [], ts) else (rest >>= λ r. ok (cons_first t' r))

-- Behind a `@`.
unfoldable pub take_pred : List Token → Result (List Token × List Token)
take_pred [] = err past_the_end
take_pred (t ∷ []) = if is_single b'!' t then err past_the_end else ok (clear_space t ∷ [], [])
take_pred (t ∷ u ∷ ts) =
    if is_single b'!' t
    then ok (clear_space t ∷ clear_space u ∷ [], ts)
    else ok (clear_space t ∷ [], u ∷ ts)

abbrev pub is_label : Token → Bool
is_label t = elim t.kind [ k_label ↦ true | _ ↦ false ]

-- `unsigned` wraps at 2 ^ 32.
abbrev pub deeper : ℕ → ℕ
deeper depth = (depth + 1) % 4294967296

abbrev pub shallower : ℕ → ℕ
shallower depth = (depth + 4294967295) % 4294967296

module _ {T : Type 0} where
  abbrev pub at_depth : ℕ → Result (State T × List Token) → Result (ℕ × State T × List Token)
  at_depth depth r = r >>= λ (st, rest). ok (depth, st, rest)

  abbrev pub put_insn :
      ℕ → Token → State T → List Token × List Token → Result (State T × List Token)
  put_insn vis t st (body, rest) = put_line to_fns vis (t ∷ body) st rest

  -- The `switch` on the kind of a token.
  unfoldable pub parse_token : ℕ → State T → Token → List Token → Result (ℕ × State T × List Token)
  unfolding take_comments take_semi take_pred put_line
  parse_token depth st t ts =
      if is_comment t.kind
      then at_depth depth
          (take_comments ts >>= λ (cs, rest). ok (put to_fns v_comment (t ∷ cs) st, rest))
      else if is_single b'{' t
      then at_depth (deeper depth) (put_insn v_insn t st ([], ts))
      else if is_single b'}' t
      then at_depth (shallower depth) (put_insn v_insn t st ([], ts))
      else if is_label t
      then at_depth depth (put_insn v_label (set_end t) st ([], ts))
      else if is_single b'@' t
      then at_depth depth (take_pred ts >>= put_insn v_pred t st)
      else at_depth depth (take_semi false ts >>= put_insn v_insn t st)

  -- A round of the loop: the depth behind it, the state and the tokens left.
  unfoldable pub parse_stmt : ℕ → State T → List Token → Result (ℕ × State T × List Token)
  unfolding parse_token parse_line_nosemi is_keyword
  parse_stmt depth st [] = err past_the_end
  parse_stmt depth st (t ∷ ts) =
      if is_directive (codes "file") t
      then at_depth depth (parse_line_nosemi v_dot to_decls st (t ∷ ts))
      else if is_directive (codes "loc") t
      then at_depth depth (parse_line_nosemi v_dot to_fns st (t ∷ ts))
      else parse_token depth st t ts

  abbrev pub while_deep :
      (ℕ → State T → List Token → Result (State T × List Token))
      → ℕ × State T × List Token
      → Result (State T × List Token)
  while_deep again (depth, st, rest) =
      let more = again depth st rest in if depth == 0 then ok (st, rest) else more

  -- `do ... while (depth)`, on fuel.
  unfoldable pub insn_loop : ℕ → ℕ → State T → List Token → Result (State T × List Token)
  unfolding parse_stmt
  insn_loop zero depth st toks = err out_of_fuel
  insn_loop (suc fuel) depth st toks = parse_stmt depth st toks >>= while_deep (insn_loop fuel)

  unfoldable pub parse_insn : State T → List Token → Result (State T × List Token)
  unfolding insn_loop
  parse_insn st toks = insn_loop (suc (length toks)) 0 st toks
