-- ===== src/Ld/Symbol/Valid.antt =====
-- The well-formedness of the symbol table and its queue, and what the queue operations keep.
use nvptx_tools.Base.{
  ◌≡◌, refl, ap, sym, subst, ◌∙◌, Bool, true, false, not, ◌∷◌, arith, if◌then◌else◌, Bytes, equal,
  equal_iff,
}
use nvptx_tools.Hashtab.{Hashtab}
use nvptx_tools.Result.{is_some}
use nvptx_tools.Ld.Symbol.{Entry, State, entry_of, is_starred, write, contains, erase}
use nvptx_tools.Ld.Symbol.Table.{IsUnique, contains-erase, erase-IsUnique, entry_of-put}

-- What an entry of a well-formed table satisfies: a queued symbol is referenced and not included,
-- an included one has a file, a referenced one that waits no more and is not included has none
-- (it was ignored), and one with a strong DEF is included. A special symbol has a file when it is
-- referenced, and waits until it is included.
pub record IsConsistent (k : Bytes) (e : Entry) : Type 0 where
  pub waiting : e.queued ≡ true → (e.included ≡ false) × (e.referenced ≡ true)
  pub defined : e.included ≡ true → is_some e.def ≡ true
  pub settled : e.referenced ≡ true → e.included ≡ false → e.queued ≡ false → is_some e.def ≡ false
  pub strong_included : is_some e.strong_def ≡ true → e.included ≡ true
  pub starred :
      is_starred k ≡ true
      → (e.referenced ≡ true → is_some e.def ≡ true)
        × (is_some e.def ≡ true → e.included ≡ false → e.queued ≡ true)

module _ (H : Hashtab Entry) where
  -- The queue holds each queued symbol once, and nothing else.
  pub record IsValid (st : State H.Table) : Type 0 where
    pub queue : (k : Bytes) → contains st.unresolved k ≡ (entry_of H st.table k).queued
    pub unique : IsUnique st.unresolved
    pub entries : (k : Bytes) → IsConsistent k (entry_of H st.table k)

  put-IsConsistent :
      (t : H.Table) (k : Bytes) (e : Entry)
      → IsConsistent k e
      → ((j : Bytes) → IsConsistent j (entry_of H t j))
      → (j : Bytes) → IsConsistent j (entry_of H (H.put t k e) j)
  put-IsConsistent t k e c all j =
      rw (entry_of-put H t k j e) (by_key (equal k j) (equal_iff k j).0)
    where
      by_key : (b : Bool) → (b ≡ true → k ≡ j) → IsConsistent j (if b then e else entry_of H t j)
      by_key true same = subst (λ i. IsConsistent i e) (same refl) c
      by_key false same = all j

  pub write-IsValid :
      (st : State H.Table) (k : Bytes) (e : Entry)
      → IsValid st
      → e.queued ≡ (entry_of H st.table k).queued
      → IsConsistent k e
      → IsValid (write H k e st)
  write-IsValid st k e v q c = record {
    queue = λ j. ground (arith, v.queue j, v.queue k, entry_of-put H st.table k j e, equal_iff k j);
    unique = v.unique;
    entries = put-IsConsistent st.table k e c v.entries;
  }

  pub push-IsValid :
      (st : State H.Table) (k : Bytes) (e : Entry)
      → IsValid st
      → (entry_of H st.table k).queued ≡ false
      → e.queued ≡ true
      → IsConsistent k e
      → IsValid (record st { table = H.put st.table k e; unresolved = k ∷ st.unresolved })
  unfolding contains
  push-IsValid st k e v old new c = record {
    queue = λ j. ground (arith, v.queue j, v.queue k, entry_of-put H st.table k j e, equal_iff k j);
    unique = (v.queue k ∙ old, v.unique);
    entries = put-IsConsistent st.table k e c v.entries;
  }

  pub pull-IsValid :
      (st : State H.Table) (k : Bytes) (e : Entry)
      → IsValid st
      → e.queued ≡ false
      → IsConsistent k e
      → IsValid (record st { table = H.put st.table k e; unresolved = erase k st.unresolved })
  pull-IsValid st k e v new c = record {
    queue = λ j. ground (
      arith,
      v.queue j,
      contains-erase k j st.unresolved v.unique,
      entry_of-put H st.table k j e,
      equal_iff k j,
    );
    unique = erase-IsUnique k st.unresolved v.unique;
    entries = put-IsConsistent st.table k e c v.entries;
  }

-- What linking keeps of an entry: its file, that it is included or referenced, and its strong DEF.
pub record Grows (e e' : Entry) : Type 0 where
  pub same_def : e'.def ≡ e.def
  pub included : e.included ≡ true → e'.included ≡ true
  pub referenced : e.referenced ≡ true → e'.referenced ≡ true
  pub strong : is_some e.strong_def ≡ true → e'.strong_def ≡ e.strong_def

pub Grows-refl : (e : Entry) → Grows e e
Grows-refl e = record {
  same_def = refl;
  included = λ h. h;
  referenced = λ h. h;
  strong = λ h. refl;
}

pub Grows-trans : (a b c : Entry) → Grows a b → Grows b c → Grows a c
Grows-trans a b c f g = record {
  same_def = g.same_def ∙ f.same_def;
  included = λ h. g.included (f.included h);
  referenced = λ h. g.referenced (f.referenced h);
  strong = λ h. g.strong (ap is_some (f.strong h) ∙ h) ∙ f.strong h;
}

module _ (H : Hashtab Entry) where
  abbrev pub Extends : H.Table → H.Table → Type 0
  Extends t t' = (k : Bytes) → Grows (entry_of H t k) (entry_of H t' k)

  pub put-Extends :
      (t : H.Table) (k : Bytes) (e : Entry) → Grows (entry_of H t k) e → Extends t (H.put t k e)
  put-Extends t k e g j = rw (entry_of-put H t k j e) (by_key (equal k j) (equal_iff k j).0)
    where
      by_key :
          (b : Bool) → (b ≡ true → k ≡ j) → Grows (entry_of H t j) (if b then e else entry_of H t j)
      by_key true same = subst (λ i. Grows (entry_of H t i) e) (same refl) g
      by_key false same = Grows-refl _

  -- A table with the same entries is as good.
  pub IsValid-same :
      (st : State H.Table) (t : H.Table)
      → ((j : Bytes) → entry_of H t j ≡ entry_of H st.table j)
      → IsValid H st
      → IsValid H (record st { table = t })
  IsValid-same st t same v = record {
    queue = λ j. v.queue j ∙ sym (ap (λ e. e.queued) (same j));
    unique = v.unique;
    entries = λ j. subst (IsConsistent j) (sym (same j)) (v.entries j);
  }

pub not_of_false : (b : Bool) → b ≡ false → not b ≡ true
not_of_false b h = rw h
