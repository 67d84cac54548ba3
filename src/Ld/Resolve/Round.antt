-- ===== src/Ld/Resolve/Round.antt =====
-- The `for` loop over the queue.
use nvptx_tools.Base.{
  false-true, ◌≡◌, refl, ap, sym, ◌∙◌, Bool, true, false, ◌||◌, ◌⊎◌, Option, none, some, List, [],
  ◌∷◌, arith, Bool-cases, Bytes, equal, equal_iff, inl, inr, All,
}
use nvptx_tools.Hashtab.{Hashtab}
use nvptx_tools.Result.{Error, is_some, unresolved_symbol}
use nvptx_tools.Ld.Symbol.{
  Entry, FileRef, State, entry_of, is_starred, contains, dequeue_unresolved,
}
use nvptx_tools.Result.Ensures.{
  Ensures, good, bad, Ensures-bind, Ensures-weaken, Ensures-assert, Ensures-if,
}
use nvptx_tools.Ld.Symbol.Valid.{
  IsConsistent, IsValid, Grows, Extends, pull-IsValid, put-Extends, not_of_false,
}
use nvptx_tools.Ld.Process.Link.{
  Linked, Linked-refl, Linked-trans, dequeue-Linked, included, at-put, put_elsewhere,
}
use nvptx_tools.Ld.Resolve.Files.{IsOnce, has_file-insert, insert-IsOnce}
use nvptx_tools.Ld.Resolve.{has_file, add_file, take_starred, resolve_def, resolve_symbol}

pub or_false : {a b : Bool} → (a || b) ≡ false → (a ≡ false) × (b ≡ false)
or_false {a} {b} h = ground arith

pub equal_comm_false : (j k : Bytes) → equal j k ≡ false → equal k j ≡ false
equal_comm_false j k h = ground (arith, equal_iff j k, equal_iff k j)

module _ (H : Hashtab Entry) (objects ignored : List Bytes) (writes : FileRef → Bool) where
  abbrev pub at : State H.Table → Bytes → Entry
  at st k = entry_of H st.table k

  -- Only the entry of `k` changed.
  abbrev pub Elsewhere : Bytes → State H.Table → State H.Table → Type 0
  Elsewhere k st st' = (j : Bytes) → equal k j ≡ false → at st' j ≡ at st j

  -- A symbol of the queue without a file, in no list to ignore.
  pub record Unresolved (st : State H.Table) (x : Error) : Type 0 where
    pub key : Bytes
    pub error : x ≡ unresolved_symbol key
    pub no_file : is_some (at st key).def ≡ false
    pub not_ignored : contains ignored key ≡ false

  take_starred-Linked :
      (st : State H.Table) (k : Bytes)
      → IsValid H st
      → (at st k).queued ≡ true
      → Ensures
          (λ st'.
            Linked H st st'
            × Elsewhere k st st'
            × (is_starred k ≡ true → (at st' k).included ≡ true)
            × (is_starred k ≡ false → at st' k ≡ at st k))
          (λ _. ⊥)
          (take_starred H objects ignored writes k st)
  unfolding take_starred included
  take_starred-Linked st k v q =
      let c = v.entries k in
      let (out, ref) = c.waiting q in
      Ensures-if _ _ _
        (λ star.
          Ensures-weaken
            (λ s l.
              (l.0, l.2, λ _. ap (λ e. e.included) l.1, λ plain. absurd (false-true plain star)))
            (λ _ h. h) (dequeue-Linked H st k v ((c.starred star).0 ref) out ref))
        (λ plain.
          good (Linked-refl H st v, λ j _. refl, λ star. absurd (false-true plain star), λ _. refl))

  ignore-Linked :
      (st : State H.Table) (k : Bytes)
      → IsValid H st
      → is_starred k ≡ false
      → (at st k).queued ≡ true
      → is_some (at st k).def ≡ false
      → Ensures
          (λ st'. Linked H st st' × Elsewhere k st st' × ((at st' k).queued ≡ false))
          (λ _. ⊥)
          (dequeue_unresolved H k st)
  unfolding dequeue_unresolved
  ignore-Linked st k v plain q none_ =
      let c = v.entries k in
      let (out, ref) = c.waiting q in
      let e' = record (at st k) { queued = false } in
      Ensures-assert _ _ ref (
        Ensures-assert _ _ q (
          good (
            record {
              valid = pull-IsValid H st k e' v refl (record {
                waiting = λ h. cc;
                defined = c.defined;
                settled = λ _ _ _. none_;
                strong_included = c.strong_included;
                starred = λ star. absurd (false-true plain star);
              });
              extends = put-Extends H st.table k e' (record {
                same_def = refl;
                included = λ h. h;
                referenced = λ h. h;
                strong = λ _. refl;
              });
            },
            λ j ne. put_elsewhere H st.table k j e' ne,
            ap (λ e. e.queued) (at-put H st k e'),
          )))

  -- A symbol of the queue after its turn: dropped from the queue, or with its file in `to_add`.
  pub data Outcome (k : Bytes) (e e' : Entry) (to_add : List FileRef) : List FileRef → Type 0 where
    dropped : e'.queued ≡ false → Outcome k e e' to_add to_add
    added :
        (f : FileRef)
        → e.def ≡ some f
        → Outcome k e e' to_add (add_file H objects ignored writes f to_add)

  pub record Turn (k : Bytes) (st st' : State H.Table) (to_add to_add' : List FileRef)
      : Type 0 where
    pub linked : Linked H st st'
    pub elsewhere : Elsewhere k st st'
    pub star : is_starred k ≡ true → (at st' k).included ≡ true
    pub outcome : Outcome k (at st k) (at st' k) to_add to_add'

  -- After `take_starred`, with the file of the symbol at hand.
  resolve_def-Turn :
      (k : Bytes) (def : Option FileRef) (st s : State H.Table) (to_add : List FileRef)
      → (at st k).queued ≡ true
      → IsConsistent k (at st k)
      → (at s k).def ≡ def
      → Linked H st s
      → Elsewhere k st s
      → (is_starred k ≡ true → (at s k).included ≡ true)
      → (is_starred k ≡ false → at s k ≡ at st k)
      → Ensures
          (λ (st', to_add'). Turn k st st' to_add to_add')
          (Unresolved st)
          (resolve_def H objects ignored writes k def s to_add)
  unfolding resolve_def
  resolve_def-Turn k (some f) st s to_add q c d l w star plain = good (record {
    linked = l;
    elsewhere = w;
    star = star;
    outcome = added f (sym (l.extends k).same_def ∙ d);
  })
  resolve_def-Turn k none st s to_add q c d l w star plain =
      let no_def = ap is_some (sym (l.extends k).same_def ∙ d) in
      let (out, ref) = c.waiting q in
      elim (Bool-cases (is_starred k)) [
        | inl is ↦ absurd (false-true no_def ((c.starred is).0 ref))
        | inr isnt ↦
            Ensures-if _ _ _
              (λ ign.
                Ensures-bind
                  (Ensures-weaken (λ s' r. r) (λ x h. absurd h)
                    (ignore-Linked s k l.valid isnt (ap (λ e. e.queued) (plain isnt) ∙ q)
                      (ap is_some d)))
                  (λ s' r. good (record {
                    linked = Linked-trans H st s s' l r.0;
                    elsewhere = λ j ne. r.1 j ne ∙ w j ne;
                    star = λ is. absurd (false-true isnt is);
                    outcome = dropped r.2;
                  })))
              (λ not_ign.
                bad (record { key = k; error = refl; no_file = no_def; not_ignored = not_ign }))
      ]

  pub resolve_symbol-Turn :
      (k : Bytes) (st : State H.Table) (to_add : List FileRef)
      → IsValid H st
      → (at st k).queued ≡ true
      → Ensures
          (λ (st', to_add'). Turn k st st' to_add to_add')
          (Unresolved st)
          (resolve_symbol H objects ignored writes k st to_add)
  unfolding resolve_symbol
  resolve_symbol-Turn k st to_add v q =
      let c = v.entries k in
      let (out, ref) = c.waiting q in
      Ensures-assert _ _ (not_of_false _ out) (
        Ensures-assert _ _ ref (
          Ensures-bind (Ensures-weaken (λ s l. l) (λ x h. absurd h) (take_starred-Linked st k v q))
            (λ s l. resolve_def-Turn k _ st s to_add q c refl l.0 l.1 l.2 l.3)))

  -- What the loop did to a symbol of the queue.
  abbrev pub IsTaken : State H.Table → State H.Table → List FileRef → Bytes → Type 0
  IsTaken st st' to_add k =
      (is_starred k ≡ true → (at st' k).included ≡ true)
      × ((at st' k).queued ≡ false
          ⊎ ((f : FileRef) × ((at st k).def ≡ some f) × (has_file to_add f ≡ true)))

  -- The file of a symbol that is not included.
  abbrev pub IsNeeded : State H.Table → FileRef → Type 0
  IsNeeded st f = (k : Bytes) × ((at st k).def ≡ some f) × ((at st k).included ≡ false)

  pub record Taken (st : State H.Table) (ks : List Bytes) (to_add : List FileRef)
      (st' : State H.Table) (to_add' : List FileRef) : Type 0 where
    pub linked : Linked H st st'
    pub turns : All (IsTaken st st' to_add') ks
    pub once : IsOnce to_add → IsOnce to_add'
    pub keeps : (f : FileRef) → has_file to_add f ≡ true → has_file to_add' f ≡ true
    pub source :
        (f : FileRef) → has_file to_add' f ≡ true → (has_file to_add f ≡ true) ⊎ IsNeeded st f
    pub rest : (j : Bytes) → contains ks j ≡ false → at st' j ≡ at st j

  pub queued-Elsewhere :
      (k : Bytes) (ks : List Bytes) (st s : State H.Table)
      → contains ks k ≡ false
      → Elsewhere k st s
      → All (λ j. (at st j).queued ≡ true) ks
      → All (λ j. (at s j).queued ≡ true) ks
  unfolding contains
  queued-Elsewhere k [] st s n w q = tt
  queued-Elsewhere k (j ∷ ks) st s n w q =
      let (ne, n') = or_false n in
      (
        ap (λ e. e.queued) (w j (equal_comm_false j k ne)) ∙ q.0,
        queued-Elsewhere k ks st s n' w q.1,
      )

  not_included_before : (e e' : Entry) → Grows e e' → e'.included ≡ false → e.included ≡ false
  not_included_before e e' g h = ground (arith, g.included)

  pub IsTaken-later :
      (st s st' : State H.Table) (to_add to_add' : List FileRef) (ks : List Bytes)
      → Extends H st.table s.table
      → All (IsTaken s st' to_add') ks
      → All (IsTaken st st' to_add') ks
  IsTaken-later st s st' to_add to_add' [] x t = tt
  IsTaken-later st s st' to_add to_add' (k ∷ ks) x t = (
    (t.0.0, elim t.0.1 [ inl d ↦ inl d | inr (f, d, h) ↦ inr (f, sym (x k).same_def ∙ d, h) ]),
    IsTaken-later st s st' to_add to_add' ks x t.1,
  )

  pub IsNeeded-before :
      (st s : State H.Table) (f : FileRef)
      → Extends H st.table s.table
      → IsNeeded s f
      → IsNeeded st f
  IsNeeded-before st s f x (k, d, i) = (k, sym (x k).same_def ∙ d, not_included_before _ _ (x k) i)

  pub turn_source :
      (k : Bytes) (e' : Entry) (st : State H.Table) (to_add to_add' : List FileRef) (f : FileRef)
      → (at st k).included ≡ false
      → Outcome k (at st k) e' to_add to_add'
      → has_file to_add' f ≡ true
      → (has_file to_add f ≡ true) ⊎ IsNeeded st f
  turn_source k e' st to_add to_add' f out (dropped _) h = inl h
  turn_source k e' st to_add to_add' f out (added g d) h = elim ((has_file-insert g f to_add).0 h) [
    | inl old ↦ inl old
    | inr new ↦ inr (k, d ∙ ap some new, out)
  ]

  pub Outcome-keeps :
      {k : Bytes} {e e' : Entry} {to_add to_add' : List FileRef} (f : FileRef)
      → Outcome k e e' to_add to_add'
      → has_file to_add f ≡ true
      → has_file to_add' f ≡ true
  Outcome-keeps f (dropped _) h = h
  Outcome-keeps {to_add} f (added g d) h = (has_file-insert g f to_add).1 (inl h)

  pub Outcome-IsOnce :
      {k : Bytes} {e e' : Entry} {to_add to_add' : List FileRef}
      → Outcome k e e' to_add to_add'
      → IsOnce to_add
      → IsOnce to_add'
  Outcome-IsOnce (dropped _) u = u
  Outcome-IsOnce {to_add} (added g d) u = insert-IsOnce g to_add u

  pub Outcome-taken :
      {k : Bytes} {e e' : Entry} {to_add to_add' : List FileRef}
      → Outcome k e e' to_add to_add'
      → (e'.queued ≡ false) ⊎ ((f : FileRef) × (e.def ≡ some f) × (has_file to_add' f ≡ true))
  Outcome-taken (dropped q) = inl q
  Outcome-taken {to_add} (added g d) = inr (g, d, (has_file-insert g g to_add).1 (inr refl))
