-- ===== src/Ld/Special/Table.antt =====
-- What `handle_special_purpose_functions` leaves in the symbol table, and when it fails.
use nvptx_tools.Base.{
  ℕ, suc, ◌≡◌, ◌⊎◌, inl, inr, refl, ap, ◌∙◌, true, false, not, List, [], ◌∷◌, arith, All, Bytes,
  codes, equal, equal_refl, starts_with, some,
}
use nvptx_tools.Hashtab.{Hashtab}
use nvptx_tools.Result.{Error, bad_special_function}
use nvptx_tools.Ld.Symbol.{Entry, intrinsic, entry_of, contains, define_intrinsic}
use nvptx_tools.Ld.Symbol.Table.{entry_of-put}
use nvptx_tools.Result.Ensures.{
  Ensures, good, bad, Ensures-bind, Ensures-weaken, Ensures-assert, Ensures-if,
}
use nvptx_tools.Ld.Special.{
  Cdtor, cdtor, classify, externs, validate, print_list, print_lists, ctor_list, dtor_list,
  handle_special_purpose_functions,
}

-- A name that is of neither kind, or whose priority is not valid.
abbrev pub IsInvalid : Bytes → Type 0
IsInvalid name =
    ((starts_with (codes "_GLOBAL__I_") name ≡ false)
      × (starts_with (codes "_GLOBAL__D_") name ≡ false))
    ⊎ ((i : ℕ) × (validate (cdtor name i) ≡ false))

-- The failure at one of the names, which is not valid.
abbrev pub IsBadName : List Bytes → Error → Type 0
IsBadName names x =
    (name : Bytes) × (x ≡ bad_special_function name) × (contains names name ≡ true) × IsInvalid name

abbrev IsNamed : List Bytes → Cdtor → Type 0
IsNamed names c = (contains names c.name ≡ true) × ((i : ℕ) × (cdtor c.name i ≡ c))

abbrev AreNamed : List Bytes → List Cdtor → Type 0
AreNamed names = All (IsNamed names)

AreNamed-cons :
    (name : Bytes) (names : List Bytes) (cs : List Cdtor)
    → AreNamed names cs
    → AreNamed (name ∷ names) cs
unfolding contains
AreNamed-cons name names [] h = tt
AreNamed-cons name names (c ∷ cs) ((h, i), g) =
    let more : contains (name ∷ names) c.name ≡ true = ground arith in
    ((more, i), AreNamed-cons name names cs g)

IsBadName-cons :
    (name : Bytes) (names : List Bytes) (x : Error) → IsBadName names x → IsBadName (name ∷ names) x
unfolding contains
IsBadName-cons name names x (k, e, h, v) =
    let more : contains (name ∷ names) k ≡ true = ground arith in (k, e, more, v)

here : (name : Bytes) (names : List Bytes) → contains (name ∷ names) name ≡ true
unfolding contains
here name names = ground (arith, equal_refl name)

abbrev AreBothNamed : List Bytes → List Cdtor × List Cdtor → Type 0
AreBothNamed names lists = AreNamed names lists.0 × AreNamed names lists.1

cdtor-name : (name : Bytes) (i : ℕ) → (cdtor name i).name ≡ name
unfolding cdtor
cdtor-name name i = refl

classify-AreBothNamed :
    (i j : ℕ) (names : List Bytes)
    → Ensures (AreBothNamed names) (IsBadName names) (classify i j names)
unfolding classify
classify-AreBothNamed i j [] = good (tt, tt)
classify-AreBothNamed i j (name ∷ names) =
    Ensures-if (starts_with (codes "_GLOBAL__I_") name) _ _
      (λ b.
        Ensures-bind
          (Ensures-weaken (λ l h. h) (IsBadName-cons name names)
            (classify-AreBothNamed (suc i) j names))
          (λ l h.
            good ((named i, AreNamed-cons name names l.0 h.0), AreNamed-cons name names l.1 h.1)))
      (λ b.
        Ensures-if (starts_with (codes "_GLOBAL__D_") name) _ _
          (λ d.
            Ensures-bind
              (Ensures-weaken (λ l h. h) (IsBadName-cons name names)
                (classify-AreBothNamed i (suc j) names))
              (λ l h.
                good
                  (AreNamed-cons name names l.0 h.0, (named j, AreNamed-cons name names l.1 h.1))))
          (λ d. bad (name, refl, here name names, inl (b, d))))
  where
    named : (n : ℕ) → IsNamed (name ∷ names) (cdtor name n)
    named n =
        (rw (cdtor-name name n) (here name names), (n, ap (λ k. cdtor k n) (cdtor-name name n)))

externs-Ensures :
    (names : List Bytes) (cs : List Cdtor)
    → AreNamed names cs
    → Ensures (λ _. Unit {0}) (IsBadName names) (externs cs)
unfolding externs
externs-Ensures names [] h = good tt
externs-Ensures names (c ∷ cs) ((h, (i, e)), g) =
    Ensures-if (validate c) _ _ (λ v. Ensures-bind (externs-Ensures names cs g) (λ out u. good tt))
      (λ v. bad (c.name, refl, h, inr (i, ap validate e ∙ v)))

print_list-Ensures :
    (names : List Bytes) (heading list : Bytes) (cs : List Cdtor)
    → AreNamed names cs
    → Ensures (λ _. Unit {0}) (IsBadName names) (print_list heading list cs)
unfolding print_list
print_list-Ensures names heading list cs h =
    Ensures-bind (externs-Ensures names cs h) (λ out u. good tt)

-- An entry with a strong DEF of the linker's own.
pub record IsOwn (e : Entry) : Type 0 where
  pub included : e.included ≡ true
  pub strong_def : e.strong_def ≡ some intrinsic

module _ (H : Hashtab Entry) where
  -- One more symbol of the linker's own, and no other change.
  record Owns (k : Bytes) (t t' : H.Table) : Type 0 where
    own : IsOwn (entry_of H t' k)
    others : (j : Bytes) → equal k j ≡ false → entry_of H t' j ≡ entry_of H t j

  define_intrinsic-Owns :
      {E : Error → Type 0} (k : Bytes) (t : H.Table)
      → (entry_of H t k).included ≡ false
      → Ensures (Owns k t) E (define_intrinsic H k t)
  unfolding define_intrinsic
  define_intrinsic-Owns k t out = Ensures-assert (not (entry_of H t k).included) _ (rw out refl) (
      good (record {
        own =
            rw (entry_of-put H t k k _)
              (rw (equal_refl k) (record { included = refl; strong_def = refl }));
        others = λ j n. rw (entry_of-put H t k j _) (rw n refl);
      }))

  -- What is done to the table: the two lists are the linker's own.
  pub record ListsDefined (t t' : H.Table) : Type 0 where
    pub ctors : IsOwn (entry_of H t' ctor_list)
    pub dtors : IsOwn (entry_of H t' dtor_list)
    pub others :
        (j : Bytes)
        → equal ctor_list j ≡ false
        → equal dtor_list j ≡ false
        → entry_of H t' j ≡ entry_of H t j

  lists_differ : (equal ctor_list dtor_list ≡ false) × (equal dtor_list ctor_list ≡ false)
  unfolding equal
  lists_differ = (refl, refl)

  both_Owned : (t t1 t2 : H.Table) → Owns ctor_list t t1 → Owns dtor_list t1 t2 → ListsDefined t t2
  both_Owned t t1 t2 f g = record {
    ctors = rw (g.others ctor_list lists_differ.1) f.own;
    dtors = g.own;
    others = λ j h k. g.others j k ∙ f.others j h;
  }

  print_lists-ListsDefined :
      (names : List Bytes) (lists : List Cdtor × List Cdtor) (t : H.Table)
      → AreBothNamed names lists
      → (entry_of H t ctor_list).included ≡ false
      → (entry_of H t dtor_list).included ≡ false
      → Ensures (λ r. ListsDefined t r.0) (IsBadName names) (print_lists H lists t)
  unfolding print_lists
  print_lists-ListsDefined names (ctors, dtors) t h c d =
      Ensures-bind (print_list-Ensures names (codes "Constructors") ctor_list ctors h.0) (λ first u.
        Ensures-bind (define_intrinsic-Owns ctor_list t c) (λ t1 f.
          Ensures-bind (print_list-Ensures names (codes "Destructors") dtor_list dtors h.1)
            (λ second v.
              Ensures-bind
                (define_intrinsic-Owns dtor_list t1
                  (ap (λ e. e.included) (f.others dtor_list lists_differ.0) ∙ d))
                (λ t2 g. good (both_Owned t t1 t2 f g)))))

  -- What is returned: without names, the same table and no text.
  abbrev pub IsOutcome : List Bytes → H.Table → H.Table × Bytes → Type 0
  IsOutcome [] t r = r ≡ (t, [])
  IsOutcome (name ∷ names) t r = ListsDefined t r.0

  -- If `__CTOR_LIST__` and `__DTOR_LIST__` are not included, `handle_special_purpose_functions`
  -- returns the table as it is, and no text, if there are no names; else it includes both with a
  -- strong DEF, changes no other entry, and fails only at one of the names that is of neither kind or
  -- has no valid priority. No assertion fails.
  pub handle_special_purpose_functions-ListsDefined :
      (names : List Bytes) (t : H.Table)
      → (entry_of H t ctor_list).included ≡ false
      → (entry_of H t dtor_list).included ≡ false
      → Ensures (IsOutcome names t) (IsBadName names) (handle_special_purpose_functions H names t)
  unfolding handle_special_purpose_functions
  handle_special_purpose_functions-ListsDefined [] t c d = good refl
  handle_special_purpose_functions-ListsDefined (name ∷ names) t c d =
      Ensures-bind (classify-AreBothNamed 0 0 (name ∷ names))
        (λ lists h. print_lists-ListsDefined (name ∷ names) lists t h c d)
