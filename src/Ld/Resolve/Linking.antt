-- ===== src/Ld/Resolve/Linking.antt =====
-- Linking the files of `to_add`.
use nvptx_tools.Base.{
  ℕ, zero, suc, ◌+◌, ◌<◌, length, arith, ◌≡◌, refl, ap, sym, subst, ◌∙◌, Bool, false, not, ◌⊎◌,
  Option, none, some, List, [], ◌∷◌, ◌++◌, Bytes, inl, inr, All,
}
use mathlib.Core.List.{append_assoc, append-nil}
use nvptx_tools.Hashtab.{Hashtab}
use nvptx_tools.Result.{Error, is_some, write_error}
use nvptx_tools.Ld.Symbol.{Entry, FileRef, State}
use nvptx_tools.Result.Ensures.{
  Ensures, good, bad, Ensures-bind, Ensures-weaken, Ensures-assert, Ensures-if,
}
use nvptx_tools.Ld.Symbol.Valid.{IsValid, Extends, Grows-refl, Grows-trans}
use nvptx_tools.Ld.Process.{process_refs_defs, link}
use nvptx_tools.Ld.Process.Listing.{listing, conclude, process_refs_defs-replay}
use nvptx_tools.Ld.Process.File.{IsMultiple, FileLinked, link_file}
use nvptx_tools.Ld.Resolve.{Linker, nth, has_file, file_data, link_data, link_files}
use nvptx_tools.Ld.Resolve.Files.{IsOnce, same_file_iff, remaining, remaining-cons}
use nvptx_tools.Ld.Resolve.Invariant.{
  IsObject, IsPrepared, Inv, IsUnstarred, IsUnstarred-Extends, Inv-FileLinked, file_data-IsObject,
}

-- The failures of linking: a second strong DEF, or a failed write.
abbrev pub IsLinkError : Error → Type 0
IsLinkError x = IsMultiple x ⊎ (x ≡ write_error)

module _ (objects : List Bytes) where
  abbrev text_of : Option Bytes → Bytes
  text_of none = []
  text_of (some text) = text ++ 0 ∷ []

  -- What linking a list of files, the latest first, leaves in the output file.
  abbrev pub written : List FileRef → Bytes
  written [] = []
  written (f ∷ fs) = written fs ++ text_of (file_data objects f)

  written-append : (fs gs : List FileRef) → written (fs ++ gs) ≡ written gs ++ written fs
  written-append [] gs = sym (append-nil (written gs))
  written-append (f ∷ fs) gs = rw (written-append fs gs) (append_assoc (written gs) (written fs) _)

  -- More files are linked, each written in its turn.
  pub record Progress {T : Type 0} (s s' : Linker T) : Type 0 where
    pub new_files : List FileRef
    pub linked : s'.linked ≡ new_files ++ s.linked
    pub output : s'.outfile ≡ s.outfile ++ written new_files

  pub Progress-refl : {T : Type 0} (s : Linker T) → Progress s s
  Progress-refl s = record { new_files = []; linked = refl; output = sym (append-nil s.outfile) }

  pub Progress-trans : {T : Type 0} {a b c : Linker T} → Progress a b → Progress b c → Progress a c
  Progress-trans {a = a} f g = record {
    new_files = g.new_files ++ f.new_files;
    linked =
        g.linked
        ∙ ap (◌++◌ g.new_files) f.linked
        ∙ sym (append_assoc g.new_files f.new_files a.linked);
    output =
        g.output
        ∙ ap (λ o. o ++ written g.new_files) f.output
        ∙ append_assoc a.outfile (written f.new_files) (written g.new_files)
        ∙ ap (◌++◌ a.outfile) (sym (written-append g.new_files f.new_files));
  }

nth-lt : (xs : List Bytes) (i : ℕ) {x : Bytes} → nth xs i ≡ some x → i < length xs
nth-lt [] i h = cc
nth-lt (x ∷ xs) zero h = omega arith
nth-lt (x ∷ xs) (suc i) h = omega (arith, nth-lt xs i h)

still-IsNew :
    (f : FileRef) (fs linked : List FileRef)
    → has_file fs f ≡ false
    → All (λ g. has_file linked g ≡ false) fs
    → All (λ g. has_file (f ∷ linked) g ≡ false) fs
unfolding has_file
still-IsNew f [] linked n a = tt
still-IsNew f (g ∷ fs) linked n a = (
  ground (arith, same_file_iff f g, same_file_iff g f),
  still-IsNew f fs linked (ground arith) a.1,
)

module _ (H : Hashtab Entry) (objects ignored : List Bytes) (writes : FileRef → Bool) where
  -- What the linking of files keeps and adds.
  pub record Step (s s' : Linker H.Table) : Type 0 where
    pub inv : Inv H objects s'
    pub extends : Extends H s.symbols.table s'.symbols.table
    pub progress : Progress objects s s'

  abbrev TextLinked : Linker H.Table → Bytes → State H.Table × Option Bytes → Type 0
  TextLinked s text r = FileLinked H s.symbols (listing text).markers r.0 × (r.1 ≡ none)

  link_text :
      (f : FileRef) (text : Bytes) (s : Linker H.Table)
      → IsValid H s.symbols
      → IsPrepared H objects s.symbols.table
      → (o : IsObject objects f) → o.text ≡ text
      → Ensures (TextLinked s text) IsMultiple (process_refs_defs H link f text s.symbols)
  link_text f text s v p o e =
      let (end, covered) = p.texts o.index text (o.has_text ∙ ap some e) in
      subst (Ensures (TextLinked s text) IsMultiple)
        (sym (process_refs_defs-replay H link f text s.symbols))
        (Ensures-bind (link_file H f (listing text).markers s.symbols v covered) (λ st l.
          subst (λ x. Ensures (TextLinked s text) IsMultiple (conclude x st)) (sym end)
            (good (l, refl))))

  link_data-Step :
      (f : FileRef) (s : Linker H.Table) (o : IsObject objects f)
      → Inv H objects s
      → IsUnstarred H objects s.symbols.table
      → has_file s.linked f ≡ false
      → Ensures
          (λ s'. Step s s' × (s'.linked ≡ f ∷ s.linked))
          IsLinkError
          (link_data H objects ignored writes f (some o.text) s)
  unfolding link_data
  link_data-Step f s o v u new =
      Ensures-bind
        (Ensures-weaken (λ r l. l) (λ x m. inl m) (link_text f o.text s v.valid v.prepared o refl))
        (λ (st, rest) (l, end). Ensures-assert _ _ (ap (λ r. not (is_some r)) end) (
          Ensures-if _ _ _
            (λ fine. good (
              record {
                inv = Inv-FileLinked H objects s st f o _ v u new l;
                extends = l.linked.extends;
                progress = record {
                  new_files = f ∷ [];
                  linked = refl;
                  output =
                      ap (λ d. s.outfile ++ text_of objects d)
                        (sym (file_data-IsObject objects f o));
                };
              },
              refl,
            ))
            (λ full. bad (inr refl))))

  pub Step-trans : (a b c : Linker H.Table) → Step a b → Step b c → Step a c
  Step-trans a b c f g = record {
    inv = g.inv;
    extends = λ k. Grows-trans _ _ _ (f.extends k) (g.extends k);
    progress = Progress-trans objects f.progress g.progress;
  }

  abbrev pub left : Linker H.Table → ℕ
  left s = remaining (length objects) s.linked

  linked_less :
      (f : FileRef) (s s' : Linker H.Table)
      → IsObject objects f
      → has_file s.linked f ≡ false
      → s'.linked ≡ f ∷ s.linked
      → suc (left s') ≡ left s
  linked_less f s s' o new e =
      rw (e, o.is_object)
        (remaining-cons (length objects) o.index s.linked (nth-lt objects o.index o.has_text)
          (subst (λ g. has_file s.linked g ≡ false) o.is_object new))

  -- The files of a list, linked in its order; each leaves one less.
  pub link_files-Step :
      (fs : List FileRef) (s : Linker H.Table)
      → Inv H objects s
      → IsUnstarred H objects s.symbols.table
      → IsOnce fs
      → All (IsObject objects) fs
      → All (λ f. has_file s.linked f ≡ false) fs
      → Ensures
          (λ s'. Step s s' × (left s' + length fs ≡ left s))
          IsLinkError
          (link_files H objects ignored writes fs s)
  unfolding link_files
  link_files-Step [] s v u once os new = good (
    record { inv = v; extends = λ k. Grows-refl _; progress = Progress-refl objects s },
    omega arith,
  )
  link_files-Step (f ∷ fs) s v u once os new =
      Ensures-bind
        (subst
          (λ d.
            Ensures (λ s'. Step s s' × (s'.linked ≡ f ∷ s.linked)) IsLinkError
              (link_data H objects ignored writes f d s))
          (sym (file_data-IsObject objects f os.0)) (link_data-Step f s os.0 v u new.0))
        (λ s1 l.
          Ensures-weaken
            (λ s' r.
              (Step-trans s s1 s' l.0 r.0, omega (arith, r.1, linked_less f s s1 os.0 new.0 l.1)))
            (λ x e. e)
            (link_files-Step fs s1 l.0.inv (IsUnstarred-Extends H objects _ _ l.0.extends u) once.1
              os.1 (rw l.1 (still-IsNew f fs s.linked once.0 new.1))))
