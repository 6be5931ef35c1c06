-- ===== src/Journal/Projection/Order.antt =====
-- The order in which the events are handed over does not matter, and a new event is one step.
use mathlib.Core.List.{Permᴰ}
use optimaler_status.Base.{
  ℕ, suc, ◌<◌, ◌≡◌, refl, sym, ap, ap₂, ◌∙◌, String, List, [], ◌∷◌, ◌++◌, length, length-append,
  All, arith,
}
use optimaler_status.Base.Sorting.{sorted, insert, sorted-perm, IsOrder, Apart, Distinct}
use optimaler_status.Journal.Events.{EventType, Event}
use optimaler_status.Journal.Store.History.{InSequence, IsHistory}
use optimaler_status.Journal.Projection.{
  CaseState, write, apply_event, fold_events, sequence_le, initial, derive_case_state,
}

sequence_le-IsOrder : IsOrder sequence_le
sequence_le-IsOrder = record {
  total = λ a b h. ground (arith, h);
  trans = λ a b c h k. ground (arith, h, k);
}

abbrev Later : ℕ → Event → Type 0
Later n e = n < e.sequence

All-Later : (m n : ℕ) (events : List Event) → m < n → InSequence n events → All (Later m) events
All-Later m n [] h k = tt
All-Later m n (e ∷ events) h k =
    (omega (arith, h, k.0), All-Later m (suc n) events (omega (arith, h)) k.1)

sequence-Apart : (a b : Event) → a.sequence < b.sequence → Apart sequence_le a b
sequence-Apart a b h = (ground (arith, h), ground (arith, h))

All-Apart :
    (a : Event) (events : List Event)
    → All (Later a.sequence) events
    → All (Apart sequence_le a) events
All-Apart a [] h = tt
All-Apart a (e ∷ events) h = (sequence-Apart a e h.0, All-Apart a events h.1)

InSequence-Distinct :
    (n : ℕ) (events : List Event) → InSequence n events → Distinct sequence_le events
InSequence-Distinct n [] h = tt
InSequence-Distinct n (e ∷ events) h = (
  All-Apart e events (All-Later e.sequence (suc n) events (omega (arith, h.0)) h.1),
  InSequence-Distinct (suc n) events h.1,
)

length-perm : {xs ys : List Event} → Permᴰ xs ys → length xs ≡ length ys
length-perm Permᴰ.nil = refl
length-perm (Permᴰ.cons e p) = ap suc (length-perm p)
length-perm (Permᴰ.swap e f) = refl
length-perm (Permᴰ.trans p q) = length-perm p ∙ length-perm q

-- The events of a case give one state, in whatever order a store hands them over.
pub derive_case_state-perm :
    (case_id : String) {events shuffled : List Event}
    → Permᴰ events shuffled
    → IsHistory case_id events
    → derive_case_state case_id events ≡ derive_case_state case_id shuffled
unfolding derive_case_state
derive_case_state-perm case_id {events} p h =
    ap₂ (λ n es. fold_events (initial case_id n) es) (length-perm p)
      (sorted-perm sequence_le sequence_le-IsOrder p (InSequence-Distinct 0 events h.in_sequence))

insert_first :
    (e : Event) (events : List Event)
    → All (Later e.sequence) events
    → insert sequence_le e events ≡ e ∷ events
unfolding insert
insert_first e [] h = refl
insert_first e (x ∷ events) h = ground (arith, h.0)

pub sorted-InSequence :
    (n : ℕ) (events : List Event) → InSequence n events → sorted sequence_le events ≡ events
unfolding sorted
sorted-InSequence n [] h = refl
sorted-InSequence n (e ∷ events) h =
    ap (insert sequence_le e) (sorted-InSequence (suc n) events h.1)
    ∙ insert_first e events (All-Later e.sequence (suc n) events (omega (arith, h.0)) h.1)

fold-append :
    (s : CaseState) (events : List Event) (e : Event)
    → fold_events s (events ++ e ∷ []) ≡ apply_event e (fold_events s events)
unfolding fold_events
fold-append s [] e = refl
fold-append s (x ∷ events) e = fold-append (apply_event x s) events e

abbrev pub with_count : ℕ → CaseState → CaseState
with_count n s = record s { event_count = n }

write-with_count :
    (t : EventType) (e : Event) (n : ℕ) (s : CaseState)
    → write t e (with_count n s) ≡ with_count n (write t e s)
unfolding write
write-with_count EventType.received e n s = refl
write-with_count EventType.redacted e n s = refl
write-with_count EventType.extracted e n s = refl
write-with_count EventType.evidence_assembled e n s = refl
write-with_count EventType.anomaly_scored e n s = refl
write-with_count EventType.tier_decided e n s = refl
write-with_count EventType.routed e n s = refl
write-with_count EventType.drafted e n s = refl
write-with_count EventType.confirmed e n s = refl
write-with_count EventType.overridden e n s = refl
write-with_count EventType.notified e n s = refl

fold-with_count :
    (n : ℕ) (s : CaseState) (events : List Event)
    → fold_events (with_count n s) events ≡ with_count n (fold_events s events)
unfolding fold_events apply_event
fold-with_count n s [] = refl
fold-with_count n s (e ∷ events) =
    ap (λ x. fold_events x events) (write-with_count e.type e n _)
    ∙ fold-with_count n (apply_event e s) events

pub InSequence-prefix :
    (n : ℕ) (events more : List Event) → InSequence n (events ++ more) → InSequence n events
InSequence-prefix n [] more h = tt
InSequence-prefix n (e ∷ events) more h = (h.0, InSequence-prefix (suc n) events more h.1)

-- For the log of a case, a new event at its end is one step of the state: the fields that the
-- event writes, its time and type, and the number of events; nothing is folded anew.
pub derive_case_state-append :
    (case_id : String) (events : List Event) (e : Event)
    → IsHistory case_id (events ++ e ∷ [])
    → derive_case_state case_id (events ++ e ∷ [])
      ≡ with_count (suc (length events)) (apply_event e (derive_case_state case_id events))
unfolding derive_case_state
derive_case_state-append case_id events e h =
    let before = InSequence-prefix 0 events (e ∷ []) h.in_sequence in
    let start = initial case_id (length events) in
    let grown : length (events ++ e ∷ []) ≡ suc (length events) =
      omega (arith, length-append events (e ∷ [])) in
    ap₂ (λ n es. fold_events (with_count n start) es) grown
      (sorted-InSequence 0 (events ++ e ∷ []) h.in_sequence)
    ∙ fold-with_count (suc (length events)) start (events ++ e ∷ [])
    ∙ ap (with_count (suc (length events))) (
        fold-append start events e
        ∙ ap (λ es. apply_event e (fold_events start es)) (sym (sorted-InSequence 0 events before)))
