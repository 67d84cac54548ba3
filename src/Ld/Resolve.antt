-- ===== src/Ld/Resolve.antt =====
-- nvptx-ld.cc, `main`: the loop under the label `resolve`.
-- The `pprev` of a file is not null exactly while the file is in `to_add`.
pub mod Round
pub mod Loop
pub mod Linking
pub mod Invariant
pub mod Queue
pub mod Files
use nvptx_tools.Base.{
  ℕ, zero, suc, Bool, true, false, not, ◌||◌, Option, none, some, List, [], ◌∷◌, ◌++◌, ◌==◌,
  if◌then◌else◌, Bytes, length,
}
use nvptx_tools.Hashtab.{Hashtab}
use nvptx_tools.Result.{
  Result, ok, err, ◌>>=◌, ◌>>◌, assert, is_some, unresolved_symbol, write_error, null_pointer,
  out_of_fuel,
}
use nvptx_tools.Ld.Symbol.{
  Entry, FileRef, intrinsic, object, State, is_starred, entry_of, write, contains,
  dequeue_unresolved,
}
use nvptx_tools.Ld.Process.{process_refs_defs, link}

-- `fhe1 == fhe2`
unfoldable pub same_file : FileRef → FileRef → Bool
same_file intrinsic intrinsic = true
same_file (object i) (object j) = i == j
same_file _ _ = false

unfoldable pub has_file : List FileRef → FileRef → Bool
unfolding same_file
has_file [] f = false
has_file (x ∷ xs) f = same_file x f || has_file xs f

abbrev pub nth : List Bytes → ℕ → Option Bytes
nth [] i = none
nth (x ∷ xs) zero = some x
nth (x ∷ xs) (suc i) = nth xs i

-- `fhe->data`; that of `file_hash_entry_intrinsic` is NULL.
unfoldable pub file_data : List Bytes → FileRef → Option Bytes
file_data objects intrinsic = none
file_data objects (object i) = nth objects i

-- The state of the loop. `linked` holds the files of the "Linking ..." messages, the latest first.
pub record Linker (T : Type 0) : Type 0 where
  pub symbols : State T
  pub outfile : Bytes
  pub linked : List FileRef

-- `ignored` is `unresolved_ignore`; `writes` says whether `fwrite` of a file succeeds.
module _ (H : Hashtab Entry) (objects : List Bytes) (ignored : List Bytes)
    (writes : FileRef → Bool) where
  -- A special symbol is dequeued by hand.
  unfoldable pub take_starred : Bytes → State H.Table → Result (State H.Table)
  take_starred k st =
      if is_starred k
      then dequeue_unresolved H k
          (write H k (record (entry_of H st.table k) { included = true }) st)
      else ok st

  abbrev pub add_file : FileRef → List FileRef → List FileRef
  add_file fhe to_add = if has_file to_add fhe then to_add else fhe ∷ to_add

  -- The test on `fhe = e->def`.
  unfoldable pub resolve_def :
      Bytes → Option FileRef → State H.Table → List FileRef → Result (State H.Table × List FileRef)
  resolve_def k (some fhe) st to_add = ok (st, add_file fhe to_add)
  resolve_def k none st to_add =
      if contains ignored k
      then (dequeue_unresolved H k st >>= λ st'. ok (st', to_add))
      else err (unresolved_symbol k)

  -- The body of the `for` loop over the queue.
  unfoldable pub resolve_symbol :
      Bytes → State H.Table → List FileRef → Result (State H.Table × List FileRef)
  unfolding take_starred resolve_def
  resolve_symbol k st to_add = do
    assert (not (entry_of H st.table k).included)
    assert (entry_of H st.table k).referenced
    st' ← take_starred k st
    resolve_def k (entry_of H st'.table k).def st' to_add

  -- The `for` loop. The loop follows `e->next`, which a dequeueing of `e` itself leaves alone, so
  -- it visits the queue as it stands at the start.
  unfoldable pub resolve_symbols :
      List Bytes → State H.Table → List FileRef → Result (State H.Table × List FileRef)
  unfolding resolve_symbol
  resolve_symbols [] st to_add = ok (st, to_add)
  resolve_symbols (k ∷ ks) st to_add =
      resolve_symbol k st to_add >>= λ (st', to_add'). resolve_symbols ks st' to_add'

  -- `process_refs_defs`, the check of its result, and the write.
  unfoldable pub link_data : FileRef → Option Bytes → Linker H.Table → Result (Linker H.Table)
  link_data fhe none s = err null_pointer
  link_data fhe (some text) s = process_refs_defs H link fhe text s.symbols >>= λ (symbols, rest).
      assert (not (is_some rest))
      >> (if writes fhe
          then ok (record {
            symbols = symbols;
            outfile = s.outfile ++ (text ++ 0 ∷ []);
            linked = fhe ∷ s.linked;
          })
          else err write_error)

  unfoldable pub link_files : List FileRef → Linker H.Table → Result (Linker H.Table)
  unfolding link_data file_data
  link_files [] s = ok s
  link_files (fhe ∷ fs) s = link_data fhe (file_data objects fhe) s >>= link_files fs

  -- A round of the `while` loop, on a queue that is not empty.
  unfoldable pub resolve_round : Linker H.Table → Result (Linker H.Table)
  unfolding resolve_symbols link_files
  resolve_round s = resolve_symbols s.symbols.unresolved s.symbols [] >>= λ (symbols, to_add).
      link_files to_add (record s { symbols = symbols })

  -- `while (unresolved)`, on fuel; `again` is the rest of the loop after a round.
  unfoldable pub resolve_while :
      (Linker H.Table → Result (Linker H.Table))
      → List Bytes
      → Linker H.Table
      → Result (Linker H.Table)
  unfolding resolve_round
  resolve_while again [] s = ok s
  resolve_while again (k ∷ ks) s = resolve_round s >>= again

  unfoldable pub resolve_loop : ℕ → Linker H.Table → Result (Linker H.Table)
  unfolding resolve_while
  resolve_loop zero s = resolve_while (λ _. err out_of_fuel) s.symbols.unresolved s
  resolve_loop (suc fuel) s = resolve_while (resolve_loop fuel) s.symbols.unresolved s

  -- A round links an object file that was not linked before, or is the last.
  unfoldable pub resolve : Linker H.Table → Result (Linker H.Table)
  unfolding resolve_loop
  resolve s = resolve_loop (suc (length objects)) s
