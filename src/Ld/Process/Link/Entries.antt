-- ===== src/Ld/Process/Link/Entries.antt =====
-- Linking markers: what holds of an entry, and how a step changes the table.
use nvptx_tools.Base.{
  ◌≡◌, refl, ◌∙◌, Bool, true, false, not, ◌&&◌, ◌||◌, ◌⊎◌, some, arith, Bytes, equal_refl,
}
use nvptx_tools.Hashtab.{Hashtab}
use nvptx_tools.Result.{Error, is_some, multiple_definitions}
use nvptx_tools.Ld.Symbol.{Entry, FileRef, State, entry_of}
use nvptx_tools.Ld.Symbol.Table.{entry_of-put}
use nvptx_tools.Ld.Symbol.Valid.{IsConsistent, IsValid, Grows-refl, Grows-trans, Extends}
use nvptx_tools.Ld.Marker.{Marker, def}

-- The only failure of a DEF of `k`: a second strong one.
pub record Duplicate (k : Bytes) (weak : Bool) (e : Entry) (x : Error) : Type 0 where
  pub error : x ≡ multiple_definitions k
  pub is_strong : weak ≡ false
  pub was_included : e.included ≡ true
  pub was_strong : is_some e.strong_def ≡ true

-- The failure of a marker.
abbrev pub Fails : Marker → Entry → Error → Type 0
Fails m e x = (m.kind ≡ def) × Duplicate m.name m.weak e x

-- What a DEF from `fhe` leaves.
pub record Defined (fhe : FileRef) (weak : Bool) (e e' : Entry) : Type 0 where
  pub is_included : e'.included ≡ true
  pub recorded : weak ≡ false → (is_some e.strong_def ≡ false) × (e'.strong_def ≡ some fhe)

-- A symbol that linking needs no more, or that waits to be resolved.
abbrev pub IsReached : Entry → Type 0
IsReached e = (e.included ≡ true) ⊎ (e.referenced ≡ true)

pub once_strong : (weak strong : Bool) → (weak || not strong) ≡ true → weak ≡ false → strong ≡ false
once_strong weak strong h w = ground arith

pub second_strong :
    (k : Bytes) (weak : Bool) (e : Entry)
    → e.included ≡ true
    → (weak || not (is_some e.strong_def)) ≡ false
    → Duplicate k weak e (multiple_definitions k)
second_strong k weak e i h = record {
  error = refl;
  is_strong = (both h).0;
  was_included = i;
  was_strong = (both h).1;
}
  where
    both : {a b : Bool} → (a || not b) ≡ false → (a ≡ false) × (b ≡ true)
    both {a} {b} h = ground arith

pub still_queued :
    {k : Bytes} (e : Entry)
    → IsConsistent k e
    → is_some e.def ≡ true
    → e.included ≡ false
    → e.referenced ≡ true
    → e.queued ≡ true
still_queued e c d out ref = ground (arith, c.settled)

pub not_queued :
    {k : Bytes} (e : Entry) → IsConsistent k e → e.referenced ≡ false → e.queued ≡ false
not_queued e c new = ground (arith, c.waiting)

pub not_strong :
    {k : Bytes} (e : Entry) → IsConsistent k e → e.included ≡ false → is_some e.strong_def ≡ false
not_strong e c out = ground (arith, c.strong_included)

pub no_strong : (weak strong : Bool) → (not strong && not weak) ≡ true → strong ≡ true → ⊥
no_strong weak strong h s = ground arith

pub is_first :
    (weak strong : Bool) → (not strong && not weak) ≡ false → weak ≡ false → strong ≡ false → ⊥
is_first weak strong h w s = ground arith

pub has_def : {k : Bytes} (e : Entry) → IsConsistent k e → (not e.included || is_some e.def) ≡ true
has_def e c = ground (arith, c.defined)

module _ (H : Hashtab Entry) where
  abbrev at : State H.Table → Bytes → Entry
  at st k = entry_of H st.table k

  -- The state after a step is well formed, and grew.
  pub record Linked (st st' : State H.Table) : Type 0 where
    pub valid : IsValid H st'
    pub extends : Extends H st.table st'.table

  pub Linked-refl : (st : State H.Table) → IsValid H st → Linked st st
  Linked-refl st v = record { valid = v; extends = λ k. Grows-refl (at st k) }

  pub Linked-trans : (a b c : State H.Table) → Linked a b → Linked b c → Linked a c
  Linked-trans a b c f g = record {
    valid = g.valid;
    extends = λ k. Grows-trans (at a k) (at b k) (at c k) (f.extends k) (g.extends k);
  }

  pub at-put : (st : State H.Table) (k : Bytes) (e : Entry) → entry_of H (H.put st.table k e) k ≡ e
  at-put st k e = entry_of-put H st.table k k e ∙ rw (equal_refl k)
