-- ===== src/Ld/Scan/Intrinsics.antt =====
-- The table that `define_intrinsics` makes, with which the scan starts.
use nvptx_tools.Base.{
  true-false, ◌≡◌, refl, ap, sym, ◌∙◌, Bool, true, false, not, ◌||◌, ◌⊎◌, none, some, List, [], ◌∷◌,
  arith, Bytes, inl, inr, All, equal, equal_iff,
}
use nvptx_tools.Hashtab.{Hashtab}
use nvptx_tools.Ld.Symbol.{
  Entry, FileRef, intrinsic, fresh, is_starred, entry_of, contains, define_intrinsic, define_all,
  define_intrinsics, intrins,
}
use nvptx_tools.Ld.Symbol.Table.{IsUnique, put_pointwise, entry_of-empty}
use nvptx_tools.Result.Ensures.{Ensures, good, Ensures-bind, Ensures-weaken, Ensures-assert}
use nvptx_tools.Ld.Symbol.Valid.{IsConsistent}
use nvptx_tools.Ld.Process.Link.{put_elsewhere}
use nvptx_tools.Ld.Scan.{Scanner, sym_name}
use nvptx_tools.Ld.Scan.Name.{sym_name-starred}
use nvptx_tools.Ld.Scan.Marker.{IsScanned}
use nvptx_tools.Ld.Scan.Run.{Grown, differ}

module _ (H : Hashtab Entry) where
  -- The entry of an intrinsic function.
  intrinsic_entry : Entry
  intrinsic_entry = record fresh {
    def = some intrinsic;
    strong_def = some intrinsic;
    included = true;
  }

  -- Every entry is fresh, or that of an intrinsic.
  abbrev IsInitial : Bytes → Entry → Type 0
  IsInitial j e = (e ≡ fresh) ⊎ ((e ≡ intrinsic_entry) × (is_starred j ≡ false))

  abbrev IsNew : H.Table → Bytes → Type 0
  IsNew t k = (entry_of H t k ≡ fresh) × (is_starred k ≡ false)

  define_intrinsic-IsInitial :
      (k : Bytes) (t : H.Table)
      → ((j : Bytes) → IsInitial j (entry_of H t j))
      → IsNew t k
      → Ensures
          (λ t'.
            ((j : Bytes) → IsInitial j (entry_of H t' j))
            × ((j : Bytes) → equal k j ≡ false → entry_of H t' j ≡ entry_of H t j))
          (λ _. ⊥)
          (define_intrinsic H k t)
  unfolding define_intrinsic intrinsic_entry
  define_intrinsic-IsInitial k t i (new, plain) =
      let e = record (entry_of H t k) {
        def = some intrinsic;
        strong_def = some intrinsic;
        included = true;
      } in
      let is =
        ap
          (λ (x : Entry). record x {
            def = some intrinsic;
            strong_def = some intrinsic;
            included = true;
          })
          new in
      Ensures-assert _ _ (ap (λ x. not x.included) new) (
        good (
          put_pointwise H IsInitial t k e (inr (is, plain)) (λ j _. i j),
          λ j ne. put_elsewhere H t k j e ne,
        ))

  still-IsNew :
      (k : Bytes) (ks : List Bytes) (t t' : H.Table)
      → contains ks k ≡ false
      → ((j : Bytes) → equal k j ≡ false → entry_of H t' j ≡ entry_of H t j)
      → All (IsNew t) ks
      → All (IsNew t') ks
  unfolding contains
  still-IsNew k [] t t' n same a = tt
  still-IsNew k (j ∷ ks) t t' n same a =
      let (ne, later) = or_false (equal j k) n in
      (
        (same j (differ k j (λ e. both ne ((equal_iff j k).1 (sym e)))) ∙ a.0.0, a.0.1),
        still-IsNew k ks t t' later same a.1,
      )
    where
      or_false : (a : Bool) {b : Bool} → (a || b) ≡ false → (a ≡ false) × (b ≡ false)
      or_false a {b} h = ground arith

      both : {b : Bool} → b ≡ false → b ≡ true → ⊥
      both h g = cc

  define_all-IsInitial :
      (ks : List Bytes) (t : H.Table)
      → ((j : Bytes) → IsInitial j (entry_of H t j))
      → All (IsNew t) ks
      → IsUnique ks
      → Ensures (λ t'. (j : Bytes) → IsInitial j (entry_of H t' j)) (λ _. ⊥) (define_all H ks t)
  unfolding define_all
  define_all-IsInitial [] t i a u = good i
  define_all-IsInitial (k ∷ ks) t i a u =
      Ensures-bind (define_intrinsic-IsInitial k t i a.0)
        (λ t' r. define_all-IsInitial ks t' r.0 (still-IsNew k ks t t' u.0 r.1 a.1) u.1)

  IsInitial-IsConsistent :
      (j : Bytes) (e : Entry) → IsInitial j e → IsConsistent j e × IsScanned e × (e.queued ≡ false)
  unfolding intrinsic_entry
  IsInitial-IsConsistent j e (inl new) = rw new (
    record {
      waiting = λ h. cc;
      defined = λ h. cc;
      settled = λ h. cc;
      strong_included = λ h. cc;
      starred = λ _. (λ h. cc, λ h. cc);
    },
    record { only_intrinsic = λ h. cc; active = λ h. cc },
    refl,
  )
  IsInitial-IsConsistent j e (inr (is, plain)) = rw is (
    record {
      waiting = λ h. cc;
      defined = λ h. refl;
      settled = λ h. cc;
      strong_included = λ h. refl;
      starred = λ star. absurd (true-false star plain);
    },
    record { only_intrinsic = λ h. (refl, refl); active = λ h. cc },
    refl,
  )

  no_file :
      (k : Bytes) (f : FileRef) (e : Entry)
      → IsInitial k e
      → e.def ≡ some f
      → e.included ≡ false
      → ⊥
  unfolding intrinsic_entry
  no_file k f e (inl new) d out = cc
  no_file k f e (inr (is, plain)) d out = cc

  no_starred : (k : Bytes) (e : Entry) → IsInitial k e → is_starred k ≡ true → e.def ≡ none
  no_starred k e (inl new) star = rw new
  no_starred k e (inr (is, plain)) star = absurd (true-false star plain)

  abbrev pub scanner_of : H.Table → Scanner H.Table
  scanner_of t = record {
    symbols = record { table = t; unresolved = []; special_purpose_functions = [] };
    objects = [];
    libraries = [];
  }

  Initial-Grown :
      (t : H.Table) → ((j : Bytes) → IsInitial j (entry_of H t j)) → Grown H 0 (scanner_of t)
  unfolding contains
  Initial-Grown t i = record {
    inv = record {
      scan_inv = record {
        valid = record {
          queue = λ k. sym (IsInitial-IsConsistent k _ (i k)).2;
          unique = tt;
          entries = λ k. (IsInitial-IsConsistent k _ (i k)).0;
        };
        scanned = λ k. (IsInitial-IsConsistent k _ (i k)).1;
      };
      prepared = record {
        texts = λ n text h. cc;
        sourced = λ k f d out. absurd (no_file k f (entry_of H t k) (i k) d out);
      };
    };
    unused =
        λ j name h. no_starred (sym_name j name) _ (i (sym_name j name)) (sym_name-starred j name);
  }

  -- On the empty table `define_intrinsics` fails no assertion, and its table, with an empty queue
  -- and no files, is sound and gives no special symbol a file.
  pub define_intrinsics-Grown :
      Ensures (λ t. Grown H 0 (scanner_of t)) (λ _. ⊥) (define_intrinsics H H.empty)
  unfolding define_intrinsics contains is_starred equal
  define_intrinsics-Grown =
      Ensures-weaken Initial-Grown (λ x e. e)
        (define_all-IsInitial intrins H.empty (λ j. inl (entry_of-empty H j))
          (
            (entry_of-empty H _, refl),
            ((entry_of-empty H _, refl), ((entry_of-empty H _, refl), tt)),
          )
          (refl, (refl, (refl, tt))))
