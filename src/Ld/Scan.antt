-- ===== src/Ld/Scan.antt =====
-- nvptx-ld.cc, `main`: scanning the input files and the members of the archives.
pub mod Marker
pub mod Text
pub mod Name
pub mod Sound
pub mod Inputs
pub mod Run
pub mod Intrinsics
use nvptx_tools.Base.{
  ℕ, zero, suc, ◌+◌, ◌/◌, ◌%◌, ◌<◌, Bool, true, false, not, Option, none, some, List, [], ◌∷◌, ◌++◌,
  if◌then◌else◌, ltb, Bytes, codes, length, starts_with,
}
use nvptx_tools.Hashtab.{Hashtab}
use nvptx_tools.Libc.{decimal}
use nvptx_tools.Result.{Result, ok, err, ◌>>=◌, ◌>>◌, assert, is_some, open_error}
use nvptx_tools.Ld.Symbol.{
  Entry, FileRef, object, State, entry_of, symbol_hash_lookup, write, enqueue_as_unresolved,
}
use nvptx_tools.Ld.Process.{process_refs_defs, scan}

-- `objects` holds the texts of the `file_hash_entry`s so far, in the order of their creation.
pub record Scanner (T : Type 0) : Type 0 where
  pub symbols : State T
  pub objects : List Bytes
  pub libraries : List Bytes

-- The special symbol of an input file: "*inputfile %zu %s".
unfoldable pub sym_name : ℕ → Bytes → Bytes
unfolding decimal
sym_name inputfile_num name = codes "*inputfile " ++ (decimal inputfile_num ++ (b' ' ∷ name))

abbrev pub armag : Bytes
armag = codes "!<arch>\n"

unfoldable pub is_archive : Bytes → Bool
unfolding starts_with
is_archive text = starts_with armag text

module _ (H : Hashtab Entry) where
  -- `file_hash_new`, `process_refs_defs` and the check of its result.
  unfoldable pub scan_text : Bytes → Scanner H.Table → Result (Scanner H.Table)
  unfolding process_refs_defs
  scan_text text s =
      process_refs_defs H scan (object (length s.objects)) text s.symbols >>= λ (st, rest).
      assert (not (is_some rest))
      >> ok (record s { symbols = st; objects = s.objects ++ text ∷ [] })

  -- The registration of an input file, the latest object, under its special symbol.
  unfoldable pub register : ℕ → Bytes → State H.Table → Result (State H.Table)
  unfolding symbol_hash_lookup enqueue_as_unresolved
  register fhe k st = do
    let st' = record st { table = (symbol_hash_lookup H st.table k true).0 }
    let e = entry_of H st'.table k
    assert (not (is_some e.def))
    enqueue_as_unresolved H k (write H k (record e { def = some (object fhe) }) st')

  unfoldable pub scan_object : ℕ → Bytes → Bytes → Scanner H.Table → Result (Scanner H.Table)
  unfolding scan_text register sym_name
  scan_object inputfile_num name text s = scan_text text s >>= λ s'.
      register (length s.objects) (sym_name inputfile_num name) s'.symbols >>= λ st.
      ok (record s' { symbols = st })

  -- An input file: its content, or `none` if it cannot be opened.
  unfoldable pub scan_input : ℕ → Bytes → Option Bytes → Scanner H.Table → Result (Scanner H.Table)
  unfolding scan_object is_archive
  scan_input inputfile_num name none s = err (open_error name)
  scan_input inputfile_num name (some text) s =
      if is_archive text
      then ok (record s { libraries = s.libraries ++ name ∷ [] })
      else scan_object inputfile_num name text s

  -- The loop over `inputfiles`; `contents` is the file system.
  unfoldable pub scan_inputs :
      (Bytes → Option Bytes) → ℕ → List Bytes → Scanner H.Table → Result (Scanner H.Table)
  unfolding scan_input
  scan_inputs contents inputfile_num [] s = ok s
  scan_inputs contents inputfile_num (name ∷ names) s =
      scan_input inputfile_num name (contents name) s
      >>= scan_inputs contents (suc inputfile_num) names

  -- The loop over the members of an archive.
  unfoldable pub scan_members : List Bytes → Scanner H.Table → Result (Scanner H.Table)
  unfolding scan_text
  scan_members [] s = ok s
  scan_members (text ∷ texts) s = scan_text text s >>= scan_members texts
