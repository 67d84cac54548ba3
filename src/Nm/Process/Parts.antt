-- ===== src/Nm/Process/Parts.antt =====
-- nvptx-nm.cc, `main`: the loop over the NUL-separated parts of a file.
use nvptx_tools.Base.{
  ℕ, zero, suc, ◌<◌, ◌≡◌, refl, ap, sym, subst, ◌∙◌, true, false, Option, none, some, List, [], ◌∷◌,
  ◌++◌, Bytes, length, after_nul, arith, Bool-cases, ◌==◌, inl, inr,
}
use mathlib.Core.List.{append_assoc, append-nil}
use nvptx_tools.Hashtab.{Hashtab}
use nvptx_tools.Result.{Result, ok}
use nvptx_tools.Result.Ensures.{Ensures, good, Ensures-bind, Ensures-weaken}
use nvptx_tools.Nm.Symbol.{SymbolType, Entry, entry_of}
use nvptx_tools.Nm.Symbol.Merge.{merge_all}
use nvptx_tools.Nm.Symbol.Table.{type_of-empty}
use nvptx_tools.Nm.Marker.{Marker}
use nvptx_tools.Nm.Process.{Tables, scan_rest, scan_parts, scan_file}
use nvptx_tools.Nm.Process.Fold.{listing, types_of}
use nvptx_tools.Nm.Process.Ends.{
  merge_all-append, types_of-append, IsScanError, PartScanned, process_refs_defs-PartScanned,
}

abbrev pub starts_from : (Bytes → List Bytes) → Option Bytes → List Bytes
starts_from more none = []
starts_from more (some q) = more q

-- The text from the start of each part on: behind each NUL a part starts.
abbrev pub part_starts : ℕ → Bytes → List Bytes
part_starts zero p = []
part_starts (suc n) p = p ∷ starts_from (part_starts n) (after_nul p)

abbrev pub parts : Bytes → List Bytes
parts buf = part_starts (suc (length buf)) buf

abbrev pub markers_of : List Bytes → List Marker
markers_of [] = []
markers_of (p ∷ ps) = (listing p).markers ++ markers_of ps

after_nul-length : (p : Bytes) {q : Bytes} → after_nul p ≡ some q → length q < length p
unfolding after_nul
after_nul-length [] h = cc
after_nul-length (c ∷ cs) {q} h = elim (Bool-cases (c == 0)) [
  | inl nul ↦ ground (arith, nul)
  | inr more ↦ let s = after_nul-length cs {q = q} (rw more at h) in omega arith
]

module _ (H : Hashtab Entry) where
  abbrev pub type_in : H.Table → Bytes → Option SymbolType
  type_in t k = (entry_of H t k).type

  -- One local table for each part, with the types of the part's local symbols.
  abbrev pub AreLocals : List Bytes → List H.Table → Type 0
  AreLocals [] [] = Unit
  AreLocals (p ∷ ps) (t ∷ ts) =
      ((k : Bytes) → merge_all none (types_of false k (listing p).markers) ≡ ok (type_in t k))
      × AreLocals ps ts
  AreLocals _ _ = ⊥

  -- A file scanned from its parts on: the global symbols have the merge of their types in all parts.
  pub record FileScanned (ps : List Bytes) (before : H.Table) (locals : List H.Table)
      (r : H.Table × List H.Table) : Type 0 where
    pub global :
        (k : Bytes)
        → merge_all (type_in before k) (types_of true k (markers_of ps)) ≡ ok (type_in r.0 k)
    pub new_tables : List H.Table
    pub tables : r.1 ≡ locals ++ new_tables
    pub local : AreLocals ps new_tables

  abbrev start_of : H.Table → Tables H.Table
  start_of g = record { global = g; local = H.empty }

  local_types :
      (p : Bytes) (g : H.Table) (r : Tables H.Table × Option Bytes)
      → PartScanned H p (start_of g) r
      → (k : Bytes)
      → merge_all none (types_of false k (listing p).markers) ≡ ok (type_in r.0.local k)
  local_types p g r s k =
      ap (λ a. merge_all a (types_of false k (listing p).markers)) (sym (type_of-empty H k))
      ∙ s.becomes false k

  FileScanned-cons :
      (p : Bytes) (ps : List Bytes) (g : H.Table) (locals : List H.Table) (t : Tables H.Table)
      (r : H.Table × List H.Table)
      → ((k : Bytes)
          → merge_all (type_in g k) (types_of true k (listing p).markers) ≡ ok (type_in t.global k))
      → ((k : Bytes)
          → merge_all none (types_of false k (listing p).markers) ≡ ok (type_in t.local k))
      → FileScanned ps t.global (locals ++ t.local ∷ []) r
      → FileScanned (p ∷ ps) g locals r
  FileScanned-cons p ps g locals t r here local f = record {
    global = λ k.
        ap (merge_all (type_in g k)) (types_of-append true k (listing p).markers (markers_of ps))
        ∙ merge_all-append (type_in g k) (types_of true k (listing p).markers)
            (types_of true k (markers_of ps)) (here k)
        ∙ f.global k;
    new_tables = t.local ∷ f.new_tables;
    tables = f.tables ∙ append_assoc locals (t.local ∷ []) f.new_tables;
    local = (local, f.local);
  }

  nothing_more : (g : H.Table) (locals : List H.Table) → FileScanned [] g locals (g, locals)
  unfolding merge_all
  nothing_more g locals = record {
    global = λ k. refl;
    new_tables = [];
    tables = sym (append-nil locals);
    local = tt;
  }

  scan_rest-FileScanned :
      (again : Bytes → H.Table → List H.Table → Result (H.Table × List H.Table))
      (more : Bytes → List Bytes) (locals : List H.Table) (t : Tables H.Table) (rest : Option Bytes)
      → ((q : Bytes)
          → rest ≡ some q
          → (g : H.Table) (ls : List H.Table)
          → Ensures (FileScanned (more q) g ls) IsScanError (again q g ls))
      → Ensures
          (FileScanned (starts_from more rest) t.global (locals ++ t.local ∷ []))
          IsScanError
          (scan_rest H again locals (t, rest))
  unfolding scan_rest
  scan_rest-FileScanned again more locals t none h =
      good (nothing_more t.global (locals ++ t.local ∷ []))
  scan_rest-FileScanned again more locals t (some q) h = h q refl t.global (locals ++ t.local ∷ [])

  scan_parts-FileScanned :
      (fuel : ℕ) (buf : Bytes) (g : H.Table) (locals : List H.Table)
      → length buf < fuel
      → Ensures
          (FileScanned (part_starts fuel buf) g locals)
          IsScanError
          (scan_parts H fuel buf g locals)
  unfolding scan_parts
  scan_parts-FileScanned zero buf g locals h = absurd (omega arith)
  scan_parts-FileScanned (suc fuel) buf g locals h =
      Ensures-bind (process_refs_defs-PartScanned H buf (start_of g)) (λ (t, rest) s.
        Ensures-weaken
          (λ r f.
            FileScanned-cons buf (starts_from (part_starts fuel) (after_nul buf)) g locals t r
              (s.becomes true) (local_types buf g (t, rest) s)
              (subst
                (λ o.
                  FileScanned (starts_from (part_starts fuel) o) t.global (locals ++ t.local ∷ [])
                    r)
                s.rest f))
          (λ x e. e)
          (scan_rest-FileScanned (scan_parts H fuel) (part_starts fuel) locals t rest (λ q e g' ls.
            scan_parts-FileScanned fuel q g' ls
              (let shorter = after_nul-length buf {q = q} (sym s.rest ∙ e) in omega arith))))

  -- The scan of a file ends. Each global symbol has the merge of the types of its markers in all
  -- parts, in their order; there is one local table for each part, in which each local symbol has the
  -- merge of the types of its markers in that part; or the scan fails, at a truncated marker line, a
  -- "weak" symbol that is not global, or markers of a symbol that do not agree.
  pub scan_file-FileScanned :
      (buf : Bytes) → Ensures (FileScanned (parts buf) H.empty []) IsScanError (scan_file H buf)
  unfolding scan_file
  scan_file-FileScanned buf = scan_parts-FileScanned (suc (length buf)) buf H.empty [] (omega arith)
