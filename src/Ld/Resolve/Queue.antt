-- ===== src/Ld/Resolve/Queue.antt =====
-- The whole `for` loop over the queue, by induction on the queue.
use nvptx_tools.Base.{
  ◌≡◌, refl, ap, sym, ◌∙◌, Bool, true, false, List, [], ◌∷◌, Bytes, inl, inr, All,
}
use nvptx_tools.Hashtab.{Hashtab}
use nvptx_tools.Result.{Error, is_some}
use nvptx_tools.Ld.Symbol.{Entry, FileRef, State, contains}
use nvptx_tools.Ld.Symbol.Table.{IsUnique}
use nvptx_tools.Result.Ensures.{Ensures, good, Ensures-bind, Ensures-weaken}
use nvptx_tools.Ld.Symbol.Valid.{IsValid}
use nvptx_tools.Ld.Process.Link.{Linked, Linked-refl, Linked-trans}
use nvptx_tools.Ld.Resolve.{resolve_symbols}
use nvptx_tools.Ld.Resolve.Round.{
  at, Unresolved, Turn, Taken, resolve_symbol-Turn, queued-Elsewhere, IsTaken-later,
  IsNeeded-before, turn_source, Outcome-keeps, Outcome-IsOnce, Outcome-taken, or_false,
}

module _ (H : Hashtab Entry) (objects ignored : List Bytes) (writes : FileRef → Bool) where
  Unresolved-before :
      (st s : State H.Table) (x : Error)
      → Linked H st s
      → Unresolved H objects ignored writes s x
      → Unresolved H objects ignored writes st x
  Unresolved-before st s x l u = record {
    key = u.key;
    error = u.error;
    no_file = ap is_some (sym (l.extends u.key).same_def) ∙ u.no_file;
    not_ignored = u.not_ignored;
  }

  Taken-cons :
      (k : Bytes) (ks : List Bytes) (st s st' : State H.Table) (ta ta1 ta' : List FileRef)
      → contains ks k ≡ false
      → (at H objects ignored writes st k).included ≡ false
      → Turn H objects ignored writes k st s ta ta1
      → Taken H objects ignored writes s ks ta1 st' ta'
      → Taken H objects ignored writes st (k ∷ ks) ta st' ta'
  unfolding contains
  Taken-cons k ks st s st' ta ta1 ta' n out t r =
      let last = r.rest k n in
      record {
        linked = Linked-trans H st s st' t.linked r.linked;
        turns = (
          (
            λ star. ap (λ e. e.included) last ∙ t.star star,
            elim (Outcome-taken H objects ignored writes t.outcome) [
              | inl q ↦ inl (ap (λ e. e.queued) last ∙ q)
              | inr (f, d, h) ↦ inr (f, d, r.keeps f h)
            ],
          ),
          IsTaken-later H objects ignored writes st s st' ta1 ta' ks t.linked.extends r.turns,
        );
        once = λ u. r.once (Outcome-IsOnce H objects ignored writes t.outcome u);
        keeps = λ f h. r.keeps f (Outcome-keeps H objects ignored writes f t.outcome h);
        source = λ f h. elim (r.source f h) [
          | inl early ↦ turn_source H objects ignored writes k _ st ta ta1 f out t.outcome early
          | inr late ↦ inr (IsNeeded-before H objects ignored writes st s f t.linked.extends late)
        ];
        rest = λ j m. let (ne, m') = or_false m in r.rest j m' ∙ t.elsewhere j ne;
      }

  -- Every symbol of the queue is dropped or has its file in `to_add`; the loop fails only at a
  -- symbol that no file defines and that is not to be ignored.
  pub resolve_symbols-Taken :
      (ks : List Bytes) (st : State H.Table) (ta : List FileRef)
      → IsValid H st
      → IsUnique ks
      → All (λ k. (at H objects ignored writes st k).queued ≡ true) ks
      → Ensures
          (λ (st', ta'). Taken H objects ignored writes st ks ta st' ta')
          (Unresolved H objects ignored writes st)
          (resolve_symbols H objects ignored writes ks st ta)
  unfolding resolve_symbols
  resolve_symbols-Taken [] st ta v u q = good (record {
    linked = Linked-refl H st v;
    turns = tt;
    once = λ h. h;
    keeps = λ f h. h;
    source = λ f h. inl h;
    rest = λ j h. refl;
  })
  resolve_symbols-Taken (k ∷ ks) st ta v u q =
      Ensures-bind (resolve_symbol-Turn H objects ignored writes k st ta v q.0) (λ (s, ta1) t.
        Ensures-weaken
          (λ (st', ta') r.
            Taken-cons k ks st s st' ta ta1 ta' u.0 ((v.entries k).waiting q.0).0 t r)
          (λ x e. Unresolved-before st s x t.linked e)
          (resolve_symbols-Taken ks s ta1 t.linked.valid u.1
            (queued-Elsewhere H objects ignored writes k ks st s u.0 t.elsewhere q.1)))
