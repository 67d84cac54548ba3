-- ===== src/Ld/Resolve/Invariant.antt =====
-- What holds between the rounds of the `while` loop.
use nvptx_tools.Base.{
  and_true, or_right, true-false, ℕ, ◌+◌, ◌≤◌, ◌≡◌, refl, ap, sym, subst, ◌∙◌, Bool, true, false,
  ◌&&◌, ◌||◌, ◌⊎◌, Option, none, some, List, [], ◌∷◌, arith, Bool-cases, Bytes, equal, equal_iff,
  inl, inr, All,
}
use nvptx_tools.Hashtab.{Hashtab}
use nvptx_tools.Result.{is_some}
use nvptx_tools.Ld.Symbol.{Entry, FileRef, object, State, entry_of, is_starred}
use nvptx_tools.Ld.Symbol.Valid.{IsValid, Grows, Extends}
use nvptx_tools.Ld.Marker.{Marker, Kind, def, decl}
use nvptx_tools.Ld.Process.Listing.{listing, ended}
use nvptx_tools.Ld.Process.Link.{Linked}
use nvptx_tools.Ld.Process.File.{
  is_def, strong_defs, strong_seen, seen-Grows, IsCovered, AllHandled, Handled, IsCovered-Extends,
  AllHandled-Extends, FileLinked,
}
use nvptx_tools.Ld.Resolve.{Linker, has_file, same_file, nth, file_data}
use nvptx_tools.Ld.Resolve.Files.{IsOnce, same_file_iff}

-- The markers hold a DEF of the symbol.
abbrev pub defines : Bytes → List Marker → Bool
defines k [] = false
defines k (m ∷ ms) = is_def m.kind && equal m.name k || defines k ms

-- The strong DEFs of a symbol in a file, and in a list of files.
abbrev pub strong_in : Bytes → Option Bytes → ℕ
strong_in k none = 0
strong_in k (some text) = strong_defs k (listing text).markers

module _ (objects : List Bytes) where
  abbrev pub strong_total : Bytes → List FileRef → ℕ
  strong_total k [] = 0
  strong_total k (f ∷ fs) = strong_in k (file_data objects f) + strong_total k fs

  -- An object file of the input, with its text.
  pub record IsObject (f : FileRef) : Type 0 where
    pub index : ℕ
    pub text : Bytes
    pub is_object : f ≡ object index
    pub has_text : nth objects index ≡ some text

  -- One file has one text.
  same_text : (f g : FileRef) (o : IsObject f) (p : IsObject g) → f ≡ g → o.text ≡ p.text
  same_text f g o p e = cc (o.is_object, p.is_object, o.has_text, p.has_text)

  pub file_data-IsObject : (f : FileRef) (o : IsObject f) → file_data objects f ≡ some o.text
  unfolding file_data
  file_data-IsObject f o = rw o.is_object o.has_text

Handled-def : (kind : Kind) (e : Entry) → is_def kind ≡ true → Handled kind e → e.included ≡ true
Handled-def def e d h = h
Handled-def decl e d h = cc

module _ (H : Hashtab Entry) (objects : List Bytes) where
  -- The texts are those that were scanned, without NUL and truncated markers, and a symbol that is
  -- not included has its file from the scan: one that defines it, or for which it stands.
  pub record IsPrepared (t : H.Table) : Type 0 where
    pub texts :
        (i : ℕ) (text : Bytes)
        → nth objects i ≡ some text
        → ((listing text).ending ≡ ended none) × All (IsCovered H t) (listing text).markers
    pub sourced :
        (k : Bytes) (f : FileRef)
        → (entry_of H t k).def ≡ some f
        → (entry_of H t k).included ≡ false
        → (o : IsObject objects f) × ((is_starred k ≡ true)
            ⊎ (defines k (listing o.text).markers ≡ true))

  pub record Inv (s : Linker H.Table) : Type 0 where
    pub valid : IsValid H s.symbols
    pub prepared : IsPrepared s.symbols.table
    -- The file of a symbol that is not included is not linked.
    pub unlinked :
        (k : Bytes) (f : FileRef)
        → (entry_of H s.symbols.table k).def ≡ some f
        → (entry_of H s.symbols.table k).included ≡ false
        → has_file s.linked f ≡ false
    pub once : IsOnce s.linked
    pub handled :
        (i : ℕ) (text : Bytes)
        → nth objects i ≡ some text
        → has_file s.linked (object i) ≡ true
        → AllHandled H s.symbols.table (listing text).markers
    pub strong :
        (k : Bytes) → strong_total objects k s.linked ≤ strong_seen (entry_of H s.symbols.table k)

  pub before : (e e' : Entry) → Grows e e' → e'.included ≡ false → e.included ≡ false
  before e e' g h = ground (arith, g.included)

  IsPrepared-Extends : (t t' : H.Table) → Extends H t t' → IsPrepared t → IsPrepared t'
  IsPrepared-Extends t t' x p = record {
    texts = λ i text n. let (e, c) = p.texts i text n in (e, IsCovered-Extends H t t' _ x c);
    sourced = λ k f d out. p.sourced k f (sym (x k).same_def ∙ d) (before _ _ (x k) out);
  }

  -- A step that links no file keeps the invariant.
  pub Inv-Linked :
      (s : Linker H.Table) (st : State H.Table)
      → Inv s
      → Linked H s.symbols st
      → Inv (record s { symbols = st })
  Inv-Linked s st v l = record {
    valid = l.valid;
    prepared = IsPrepared-Extends _ _ l.extends v.prepared;
    unlinked =
        λ k f d out. v.unlinked k f (sym (l.extends k).same_def ∙ d) (before _ _ (l.extends k) out);
    once = v.once;
    handled = λ i text n h. AllHandled-Extends H _ _ _ l.extends (v.handled i text n h);
    strong = λ k. omega (arith, v.strong k, seen-Grows _ _ (l.extends k));
  }

  -- A DEF among handled markers is included.
  included_of_defines :
      (t : H.Table) (k : Bytes) (ms : List Marker)
      → AllHandled H t ms
      → defines k ms ≡ true
      → (entry_of H t k).included ≡ true
  included_of_defines t k [] h d = cc
  included_of_defines t k (m ∷ ms) h d = elim (Bool-cases (is_def m.kind && equal m.name k)) [
    | inl here ↦
        let (kind, name) = and_true here in
        subst (λ j. (entry_of H t j).included ≡ true) ((equal_iff m.name k).0 name)
          (Handled-def m.kind _ kind h.0)
    | inr later ↦ included_of_defines t k ms h.1 (or_right later d)
  ]

  -- Every special symbol is included: so after the `for` loop.
  abbrev pub IsUnstarred : H.Table → Type 0
  IsUnstarred t =
      (k : Bytes)
      → is_starred k ≡ true
      → is_some (entry_of H t k).def ≡ true
      → (entry_of H t k).included ≡ true

  pub IsUnstarred-Extends : (t t' : H.Table) → Extends H t t' → IsUnstarred t → IsUnstarred t'
  IsUnstarred-Extends t t' x u k star d =
      (x k).included (u k star (ap is_some (sym (x k).same_def) ∙ d))

  -- Once an object is linked, every symbol that has it for its file is included.
  included_by_object :
      (t : H.Table) (f : FileRef) (o : IsObject objects f) (k : Bytes)
      → IsPrepared t
      → IsUnstarred t
      → AllHandled H t (listing o.text).markers
      → (entry_of H t k).def ≡ some f
      → (entry_of H t k).included ≡ false
      → ⊥
  included_by_object t f o k p u h d out =
      let (o', source) = p.sourced k f d out in
      elim source [
        | inl star ↦ true-false (u k star (ap is_some d)) out
        | inr defined ↦
            let same = same_text objects f f o' o refl in
            true-false
              (included_of_defines t k (listing o.text).markers h
                (subst (λ text. defines k (listing text).markers ≡ true) same defined))
              out
      ]

  -- The invariant behind the linking of one object.
  pub Inv-FileLinked :
      (s : Linker H.Table) (st : State H.Table) (f : FileRef) (o : IsObject objects f) (out : Bytes)
      → Inv s
      → IsUnstarred s.symbols.table
      → has_file s.linked f ≡ false
      → FileLinked H s.symbols (listing o.text).markers st
      → Inv (record { symbols = st; outfile = out; linked = f ∷ s.linked })
  unfolding has_file
  Inv-FileLinked s st f o out v u new l =
      let x = l.linked.extends in
      let w = Inv-Linked s st v l.linked in
      record {
        valid = l.linked.valid;
        prepared = w.prepared;
        unlinked = λ k g d no. elim (Bool-cases (same_file f g)) [
          | inl same ↦ absurd (
              included_by_object st.table f o k w.prepared (IsUnstarred-Extends _ _ x u) l.handled
                (d ∙ ap some (sym ((same_file_iff f g).0 same))) no)
          | inr other ↦ rw other (w.unlinked k g d no)
        ];
        once = (new, v.once);
        handled = λ i text n h. elim (Bool-cases (same_file f (object i))) [
          | inl same ↦
              subst (λ t. AllHandled H st.table (listing t).markers)
                (same_text objects f (object i) o
                  (record { index = i; text = text; is_object = refl; has_text = n })
                  ((same_file_iff f (object i)).0 same))
                l.handled
          | inr other ↦ w.handled i text n (or_right other h)
        ];
        strong = λ k.
            omega
              (arith, l.strong k, v.strong k, ap (strong_in k) (file_data-IsObject objects f o));
      }
