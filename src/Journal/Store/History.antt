-- ===== src/Journal/Store/History.antt =====
-- The log of a case, and what keeps it a log.
use optimaler_status.Base.{
  ℕ, suc, ◌+◌, ◌≡◌, refl, false, ◌||◌, String, List, [], ◌∷◌, ◌++◌, length, All, arith, str_eq,
  eq_iff, if◌then◌else◌,
}
use optimaler_status.Base.Dict.{put, get-put, contains}
use optimaler_status.Journal.Events.{Event}
use optimaler_status.Journal.Store.{Store, read, knows, set_default}

-- The sequence numbers count up from n.
abbrev pub InSequence : ℕ → List Event → Type 0
InSequence n [] = Unit
InSequence n (e ∷ es) = (e.sequence ≡ n) × InSequence (suc n) es

abbrev pub HasUniqueEventIds : List Event → Type 0
HasUniqueEventIds [] = Unit
HasUniqueEventIds (e ∷ es) = (knows e.event_id es ≡ false) × HasUniqueEventIds es

abbrev pub IsOf : String → Event → Type 0
IsOf case_id e = e.case_id ≡ case_id

-- The log of one case.
pub record IsHistory (case_id : String) (events : List Event) : Type 0 where
  pub in_sequence : InSequence 0 events
  pub unique : HasUniqueEventIds events
  pub own : All (IsOf case_id) events

abbrev pub IsJournal : Store → Type 0
IsJournal store = (case_id : String) → IsHistory case_id (read store case_id)

pub read-put :
    (store : Store) (key other : String) (events : List Event)
    → read (put store key events) other ≡ (if str_eq key other then events else read store other)
unfolding read
read-put store key other events = ground (arith, get-put store key other events)

-- Opening a case shows no event.
pub read-set_default :
    (store : Store) (key other : String) → read (set_default store key) other ≡ read store other
unfolding set_default contains read
read-set_default store key other = ground (arith, get-put store key other [], eq_iff key other)

InSequence-append :
    (n : ℕ) (es : List Event) (e : Event)
    → InSequence n es
    → e.sequence ≡ n + length es
    → InSequence n (es ++ e ∷ [])
InSequence-append n [] e h k = (omega (arith, k), tt)
InSequence-append n (x ∷ es) e h k = (h.0, InSequence-append (suc n) es e h.1 (omega (arith, k)))

knows-append :
    (id : String) (es : List Event) (e : Event)
    → knows id (es ++ e ∷ []) ≡ knows id es || str_eq e.event_id id
unfolding knows
knows-append id [] e = ground arith
knows-append id (x ∷ es) e = ground (arith, knows-append id es e)

HasUniqueEventIds-append :
    (es : List Event) (e : Event)
    → HasUniqueEventIds es
    → knows e.event_id es ≡ false
    → HasUniqueEventIds (es ++ e ∷ [])
unfolding knows
HasUniqueEventIds-append [] e h k = (refl, tt)
HasUniqueEventIds-append (x ∷ es) e h k = (
  ground (
    arith,
    knows-append x.event_id es e,
    h.0,
    k,
    eq_iff e.event_id x.event_id,
    eq_iff x.event_id e.event_id,
  ),
  HasUniqueEventIds-append es e h.1 (ground (arith, k)),
)

All-append :
    (P : Event → Type 0) (es : List Event) (e : Event) → All P es → P e → All P (es ++ e ∷ [])
All-append P [] e h k = (k, tt)
All-append P (x ∷ es) e h k = (h.0, All-append P es e h.1 k)

pub IsHistory-append :
    (c : String) (es : List Event) (e : Event)
    → IsHistory c es
    → e.sequence ≡ length es
    → knows e.event_id es ≡ false
    → e.case_id ≡ c
    → IsHistory c (es ++ e ∷ [])
IsHistory-append c es e h n k o = record {
  in_sequence = InSequence-append 0 es e h.in_sequence (omega (arith, n));
  unique = HasUniqueEventIds-append es e h.unique k;
  own = All-append (IsOf c) es e h.own o;
}
