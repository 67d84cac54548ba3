-- ===== src/Ld/Resolve/Loop.antt =====
-- The `while` loop of the resolve loop (nvptx-ld.cc, `main`): its rounds, and the invariant and the
-- measure of a round.
use nvptx_tools.Base.{
  or_right, or_true, true-false, ℕ, zero, suc, ◌<◌, length, arith, ◌≡◌, refl, ap, sym, subst, ◌∙◌,
  Bool, true, false, ◌⊎◌, List, [], ◌∷◌, Bytes, inl, inr, All, Bool-cases, equal, equal_iff,
  equal_refl,
}
use mathlib.Core.List.{append-nil}
use nvptx_tools.Hashtab.{Hashtab}
use nvptx_tools.Result.{Error, Result, is_some}
use nvptx_tools.Ld.Symbol.{Entry, FileRef, State, entry_of, contains}
use nvptx_tools.Result.Ensures.{Ensures, good, Ensures-bind, Ensures-weaken}
use nvptx_tools.Ld.Symbol.Valid.{IsValid, Extends, Grows-refl, Grows-trans}
use nvptx_tools.Ld.Resolve.{
  Linker, has_file, link_files, resolve_round, resolve_while, resolve_loop, resolve,
}
use nvptx_tools.Ld.Resolve.Files.{same_file_iff, remaining-le}
use nvptx_tools.Ld.Resolve.Round.{Unresolved, Taken, IsNeeded}
use nvptx_tools.Ld.Resolve.Queue.{resolve_symbols-Taken}
use nvptx_tools.Ld.Resolve.Invariant.{IsObject, Inv, IsUnstarred, Inv-Linked}
use nvptx_tools.Ld.Resolve.Linking.{
  IsLinkError, Step, Step-trans, Progress-refl, left, link_files-Step,
}

All-contains :
    (P : Bytes → Type 0) (ks : List Bytes) (k : Bytes) → All P ks → contains ks k ≡ true → P k
unfolding contains
All-contains P [] k a h = cc
All-contains P (x ∷ ks) k a h = elim (Bool-cases (equal x k)) [
  | inl here ↦ subst P ((equal_iff x k).0 here) a.0
  | inr there ↦ All-contains P ks k a.1 (or_right there h)
]

All_of_contains :
    (P : Bytes → Type 0) (ks : List Bytes) → ((k : Bytes) → contains ks k ≡ true → P k) → All P ks
unfolding contains
All_of_contains P [] h = tt
All_of_contains P (x ∷ ks) h =
    (h x (rw (equal_refl x)), All_of_contains P ks (λ k c. h k (rw c (or_true (equal x k)))))

All_of_has_file :
    (P : FileRef → Type 0) (fs : List FileRef)
    → ((f : FileRef) → has_file fs f ≡ true → P f)
    → All P fs
unfolding has_file
All_of_has_file P [] h = tt
All_of_has_file P (x ∷ fs) h =
    (h x (rw ((same_file_iff x x).1 refl)), All_of_has_file P fs (λ f c. h f (rw c (or_true _))))

empty_of_contains : (ks : List Bytes) → ((k : Bytes) → contains ks k ≡ true → ⊥) → ks ≡ []
unfolding contains
empty_of_contains [] h = refl
empty_of_contains (k ∷ ks) h = absurd (h k (rw (equal_refl k)))

no_files : (f : FileRef) → has_file [] f ≡ true → ⊥
unfolding has_file
no_files f h = cc

module _ (H : Hashtab Entry) (objects ignored : List Bytes) (writes : FileRef → Bool) where
  -- The failures of a run from `s`.
  abbrev pub Fails : Linker H.Table → Error → Type 0
  Fails s x = Unresolved H objects ignored writes s.symbols x ⊎ IsLinkError x

  -- After the `for` loop no special symbol waits.
  Taken-IsUnstarred :
      (st st' : State H.Table) (fs : List FileRef)
      → IsValid H st
      → Taken H objects ignored writes st st.unresolved [] st' fs
      → IsUnstarred H objects st'.table
  Taken-IsUnstarred st st' fs v t k star d = elim (Bool-cases (entry_of H st.table k).included) [
    | inl in_ ↦ (t.linked.extends k).included in_
    | inr out ↦
        let waits =
          ((v.entries k).starred star).1 (ap is_some (sym (t.linked.extends k).same_def) ∙ d) out in
        (All-contains _ st.unresolved k t.turns (v.queue k ∙ waits)).0 star
  ]

  -- If it adds no file, the queue is empty.
  Taken-empty :
      (st st' : State H.Table)
      → IsValid H st
      → Taken H objects ignored writes st st.unresolved [] st' []
      → st'.unresolved ≡ []
  Taken-empty st st' v t = empty_of_contains st'.unresolved λ k c.
      let waits = sym (t.linked.valid.queue k) ∙ c in
      elim (Bool-cases (contains st.unresolved k)) [
        | inl old ↦ elim (All-contains _ st.unresolved k t.turns old).1 [
          | inl gone ↦ true-false waits gone
          | inr (f, d, h) ↦ no_files f h
        ]
        | inr new ↦
            true-false (sym (ap (λ e. e.queued) (t.rest k new)) ∙ waits) (sym (v.queue k) ∙ new)
      ]

  -- The files to add are objects that are not linked.
  needed :
      (s : Linker H.Table) (f : FileRef)
      → Inv H objects s
      → IsNeeded H objects ignored writes s.symbols f
      → IsObject objects f × (has_file s.linked f ≡ false)
  needed s f v (k, d, out) = ((v.prepared.sourced k f d out).0, v.unlinked k f d out)

  -- A round keeps the invariant, and empties the queue or leaves one file less.
  abbrev RoundDone : Linker H.Table → Linker H.Table → Type 0
  RoundDone s s' =
      Step H objects ignored writes s s'
      × ((s'.symbols.unresolved ≡ [])
          ⊎ (left H objects ignored writes s' < left H objects ignored writes s))

  after_symbols :
      (s : Linker H.Table) (st : State H.Table) (fs : List FileRef)
      → Inv H objects s
      → Taken H objects ignored writes s.symbols s.symbols.unresolved [] st fs
      → (f : FileRef) → has_file fs f ≡ true
      → IsObject objects f × (has_file s.linked f ≡ false)
  after_symbols s st fs v t f h = elim (t.source f h) [
    | inl none_ ↦ absurd (no_files f none_)
    | inr need ↦ needed s f v need
  ]

  files-Done :
      (s : Linker H.Table) (st : State H.Table) (fs : List FileRef)
      → Inv H objects s
      → Taken H objects ignored writes s.symbols s.symbols.unresolved [] st fs
      → Ensures
          (RoundDone s)
          (Fails s)
          (link_files H objects ignored writes fs (record s { symbols = st }))
  files-Done s st [] v t =
      unfold link_files in
      good (
        record {
          inv = Inv-Linked H objects s st v t.linked;
          extends = t.linked.extends;
          progress = record { new_files = []; linked = refl; output = sym (append-nil s.outfile) };
        },
        inl (Taken-empty s.symbols st v.valid t),
      )
  files-Done s st (f ∷ fs) v t =
      let each = after_symbols s st (f ∷ fs) v t in
      Ensures-weaken
        (λ s' (r, n). (
          record {
            inv = r.inv;
            extends = λ k. Grows-trans _ _ _ (t.linked.extends k) (r.extends k);
            progress = record {
              new_files = r.progress.new_files;
              linked = r.progress.linked;
              output = r.progress.output;
            };
          },
          inr (omega arith),
        ))
        (λ x e. inr e)
        (link_files-Step H objects ignored writes (f ∷ fs) (record s { symbols = st })
          (Inv-Linked H objects s st v t.linked) (Taken-IsUnstarred s.symbols st (f ∷ fs) v.valid t)
          (t.once tt) (All_of_has_file _ (f ∷ fs) (λ g h. (each g h).0))
          (All_of_has_file _ (f ∷ fs) (λ g h. (each g h).1)))

  round-Done :
      (s : Linker H.Table)
      → Inv H objects s
      → Ensures (RoundDone s) (Fails s) (resolve_round H objects ignored writes s)
  unfolding resolve_round
  round-Done s v =
      Ensures-bind
        (Ensures-weaken (λ r t. t) (λ x u. inl u)
          (resolve_symbols-Taken H objects ignored writes s.symbols.unresolved s.symbols [] v.valid
            v.valid.unique (All_of_contains _ _ (λ k c. sym (v.valid.queue k) ∙ c))))
        (λ (st, fs) t. files-Done s st fs v t)

  -- What a run from `s` gives.
  pub record Resolved (s s' : Linker H.Table) : Type 0 where
    pub step : Step H objects ignored writes s s'
    pub no_more : s'.symbols.unresolved ≡ []

  Fails-before :
      (s s1 : Linker H.Table) (x : Error)
      → Extends H s.symbols.table s1.symbols.table
      → Fails s1 x
      → Fails s x
  Fails-before s s1 x e (inr l) = inr l
  Fails-before s s1 x e (inl u) = inl (record {
    key = u.key;
    error = u.error;
    no_file = ap is_some (sym (e u.key).same_def) ∙ u.no_file;
    not_ignored = u.not_ignored;
  })

  while-Resolved :
      (again : Linker H.Table → Result (Linker H.Table)) (q : List Bytes) (s : Linker H.Table)
      → Inv H objects s
      → s.symbols.unresolved ≡ q
      → ((s1 : Linker H.Table) → RoundDone s s1 → Ensures (Resolved s1) (Fails s1) (again s1))
      → Ensures (Resolved s) (Fails s) (resolve_while H objects ignored writes again q s)
  unfolding resolve_while
  while-Resolved again [] s v e k = good (record {
    step = record { inv = v; extends = λ j. Grows-refl _; progress = Progress-refl objects s };
    no_more = e;
  })
  while-Resolved again (x ∷ q) s v e k = Ensures-bind (round-Done s v) (λ s1 r.
      Ensures-weaken
        (λ s' t. record {
          step = Step-trans H objects ignored writes s s1 s' r.0 t.step;
          no_more = t.no_more;
        })
        (λ y f. Fails-before s s1 y r.0.extends f) (k s1 r))

  while_empty :
      (again : Linker H.Table → Result (Linker H.Table)) (q : List Bytes) (s : Linker H.Table)
      → Inv H objects s
      → s.symbols.unresolved ≡ []
      → q ≡ []
      → Ensures (Resolved s) (Fails s) (resolve_while H objects ignored writes again q s)
  unfolding resolve_while
  while_empty again [] s v e h = good (record {
    step = record { inv = v; extends = λ j. Grows-refl _; progress = Progress-refl objects s };
    no_more = e;
  })
  while_empty again (x ∷ q) s v e h = cc

  loop_empty :
      (fuel : ℕ) (s : Linker H.Table)
      → Inv H objects s
      → s.symbols.unresolved ≡ []
      → Ensures (Resolved s) (Fails s) (resolve_loop H objects ignored writes fuel s)
  unfolding resolve_loop
  loop_empty zero s v e = while_empty _ s.symbols.unresolved s v e e
  loop_empty (suc fuel) s v e = while_empty _ s.symbols.unresolved s v e e

  loop-Resolved :
      (fuel : ℕ) (s : Linker H.Table)
      → Inv H objects s
      → left H objects ignored writes s < fuel
      → Ensures (Resolved s) (Fails s) (resolve_loop H objects ignored writes fuel s)
  unfolding resolve_loop
  loop-Resolved zero s v h = absurd (omega arith)
  loop-Resolved (suc fuel) s v h =
      while-Resolved (resolve_loop H objects ignored writes fuel) s.symbols.unresolved s v refl
        (λ s1 (r, c). elim c [
          | inl empty ↦ loop_empty fuel s1 r.inv empty
          | inr less ↦ loop-Resolved fuel s1 r.inv (omega arith)
        ])

  -- From a state with the invariant the loop ends with an empty queue, or fails in one of three
  -- ways: it meets a symbol that no file defines, a second strong DEF, or a failed write.
  pub resolve-Resolved :
      (s : Linker H.Table)
      → Inv H objects s
      → Ensures (Resolved s) (Fails s) (resolve H objects ignored writes s)
  unfolding resolve
  resolve-Resolved s v =
      loop-Resolved (suc (length objects)) s v
        (omega (arith, remaining-le (length objects) s.linked))
