-- ===== src/Review/State/Overrides.antt =====
-- About the overrides of a case, and a log that ends with one.
use optimaler_status.Base.{
  ℕ, suc, ◌≡◌, refl, sym, ap, ◌∙◌, Bool, true, some, String, List, [], ◌∷◌, ◌++◌, length, leb, All,
  arith, subst, Bool-cases, inl, inr,
}
use optimaler_status.Base.Sorting.{insert, sorted}
use optimaler_status.Journal.Events.{EventType, Event}
use optimaler_status.Journal.Store.History.{InSequence, IsHistory}
use optimaler_status.Journal.Projection.{
  CaseState, Override, write, apply_event, fold_events, initial, derive_case_state,
}
use optimaler_status.Journal.Projection.Order.{
  with_count, sorted-InSequence, InSequence-prefix, derive_case_state-append,
}
use optimaler_status.Review.State.Moves.{IsMoved, apply_override-IsMoved}
use optimaler_status.Review.State.{
  ReviewState, Position, sequence_le, apply_override, apply_overrides, start_of, is_sampled,
  review_of, review_state,
}

module _ {A : Type 0} (le : A → A → Bool) (last : A) where
  insert-append :
      (x : A) (ys : List A)
      → le x last ≡ true
      → insert le x (ys ++ last ∷ []) ≡ insert le x ys ++ last ∷ []
  unfolding insert
  insert-append x [] h = rw h refl
  insert-append x (y ∷ ys) h = elim (Bool-cases (le x y)) [
    | inl b ↦ rw b refl
    | inr b ↦ rw b (ap (λ l. y ∷ l) (insert-append x ys h))
  ]

  sorted-append :
      (xs : List A)
      → All (λ (x : A). le x last ≡ true) xs
      → sorted le (xs ++ last ∷ []) ≡ sorted le xs ++ last ∷ []
  unfolding sorted insert
  sorted-append [] h = refl
  sorted-append (x ∷ xs) h =
      ap (insert le x) (sorted-append xs h.1) ∙ insert-append x (sorted le xs) h.0

-- No override comes after n.
abbrev Until : ℕ → List Override → Type 0
Until n overrides = All (λ (o : Override). leb o.sequence n ≡ true) overrides

Until-append :
    (n : ℕ) (overrides : List Override) (o : Override)
    → Until n overrides
    → leb o.sequence n ≡ true
    → Until n (overrides ++ o ∷ [])
Until-append n [] o h k = (k, tt)
Until-append n (p ∷ overrides) o h k = (h.0, Until-append n overrides o h.1 k)

write-Until :
    (t : EventType) (n : ℕ) (e : Event) (s : CaseState)
    → leb e.sequence n ≡ true
    → Until n s.overrides
    → Until n (write t e s).overrides
unfolding write
write-Until EventType.received n e s h k = k
write-Until EventType.redacted n e s h k = k
write-Until EventType.extracted n e s h k = k
write-Until EventType.evidence_assembled n e s h k = k
write-Until EventType.anomaly_scored n e s h k = k
write-Until EventType.tier_decided n e s h k = k
write-Until EventType.routed n e s h k = k
write-Until EventType.drafted n e s h k = k
write-Until EventType.confirmed n e s h k = k
write-Until EventType.overridden n e s h k = Until-append n s.overrides _ k h
write-Until EventType.notified n e s h k = k

fold_events-Until :
    (n : ℕ) (s : CaseState) (events : List Event)
    → All (λ (e : Event). leb e.sequence n ≡ true) events
    → Until n s.overrides
    → Until n (fold_events s events).overrides
unfolding fold_events apply_event
fold_events-Until n s [] h k = k
fold_events-Until n s (e ∷ events) h k =
    fold_events-Until n (apply_event e s) events h.1 (write-Until e.type n e _ h.0 k)

InSequence-last :
    (n : ℕ) (events : List Event) (e : Event)
    → InSequence n (events ++ e ∷ [])
    → leb n e.sequence ≡ true
InSequence-last n [] e h = ground (arith, h.0)
InSequence-last n (x ∷ events) e h = ground (arith, InSequence-last (suc n) events e h.1)

InSequence-before :
    (n : ℕ) (events : List Event) (e : Event)
    → InSequence n (events ++ e ∷ [])
    → All (λ (x : Event). leb x.sequence e.sequence ≡ true) events
InSequence-before n [] e h = tt
InSequence-before n (x ∷ events) e h = (
  ground (arith, InSequence-last n (x ∷ events) e h, h.0),
  InSequence-before (suc n) events e h.1,
)

apply_overrides-append :
    (p : Position) (overrides : List Override) (o : Override)
    → apply_overrides p (overrides ++ o ∷ []) ≡ apply_override o (apply_overrides p overrides)
unfolding apply_overrides
apply_overrides-append p [] o = refl
apply_overrides-append p (q ∷ overrides) o = apply_overrides-append (apply_override q p) overrides o

-- What the humans made of the machine's answer.
abbrev pub position : ReviewState → Position
position s = record { tier = s.tier; unit_id = s.unit_id; escalated = s.escalated }

abbrev pub override_of : Event → Override
override_of e = record {
  payload = e.payload;
  occurred_at = e.occurred_at;
  unit_id = e.actor.unit_id;
  sequence = e.sequence;
}

derived-Until :
    (case_id : String) (events : List Event) (e : Event)
    → IsHistory case_id (events ++ e ∷ [])
    → Until e.sequence (derive_case_state case_id events).overrides
unfolding derive_case_state
derived-Until case_id events e h =
    let before = InSequence-prefix 0 events (e ∷ []) h.in_sequence in
    let folded : List Event → Type 0 =
      λ es. Until e.sequence (fold_events (initial case_id (length events)) es).overrides in
    subst folded (sym (sorted-InSequence 0 events before)) (
      fold_events-Until e.sequence (initial case_id (length events)) events
        (InSequence-before 0 events e h.in_sequence) tt)

-- The position is a step on, as the override's field and target mean it, and the fields that no override writes are the same.
pub record IsStep (o : Override) (before after : ReviewState) : Type 0 where
  pub moved : position after ≡ apply_override o (position before)
  pub meant : IsMoved o.payload (position before) (position after)
  pub machine_tier : after.machine_tier ≡ before.machine_tier
  pub machine_unit_id : after.machine_unit_id ≡ before.machine_unit_id
  pub confirmed_at : after.confirmed_at ≡ before.confirmed_at
  pub sampled : after.sampled ≡ before.sampled
  pub flagged : after.flagged ≡ before.flagged
  pub dispatch : after.dispatch ≡ before.dispatch

review_of-write :
    (case_id : String) (n : ℕ) (c : CaseState) (e : Event)
    → Until e.sequence c.overrides
    → IsStep (override_of e) (review_of case_id c) (
        review_of case_id (
          with_count n (
            write EventType.overridden e
              (record c { last_event_at = some e.occurred_at; last_event_type = some e.type }))))
unfolding review_of write is_sampled
review_of-write case_id n c e h =
    let moved =
      ap (λ os. apply_overrides (start_of c) os)
        (sorted-append sequence_le (override_of e) c.overrides h)
      ∙ apply_overrides-append (start_of c) (sorted sequence_le c.overrides) (override_of e) in
    let before = apply_overrides (start_of c) (sorted sequence_le c.overrides) in
    record {
      moved = moved;
      meant =
          subst (IsMoved e.payload before) (sym moved)
            (apply_override-IsMoved (override_of e) before);
      machine_tier = refl;
      machine_unit_id = refl;
      confirmed_at = refl;
      sampled = refl;
      flagged = refl;
      dispatch = refl;
    }

-- In the log of a case, an override at the end, whatever overrides stand before it, moves the case on
-- from where the humans had put it: to the unit of its target, or to none, where its field is unit;
-- to the tier of its target, if that is an int, where its field is tier or escalation, the latter
-- escalating the case; and nowhere for any other field. The machine's tier and unit, the
-- confirmation, the draw and the flag stay as they were.
pub review_state-override :
    (case_id : String) (events : List Event) (e : Event)
    → IsHistory case_id (events ++ e ∷ [])
    → e.type ≡ EventType.overridden
    → IsStep (override_of e) (review_state case_id events) (review_state case_id (events ++ e ∷ []))
unfolding review_state apply_event
review_state-override case_id events e h t =
    let c = derive_case_state case_id events in
    let n = suc (length events) in
    let Step : CaseState → Type 0 =
      λ d. IsStep (override_of e) (review_of case_id c) (review_of case_id d) in
    let marked = record c { last_event_at = some e.occurred_at; last_event_type = some e.type } in
    let grown =
      derive_case_state-append case_id events e h ∙ ap (λ k. with_count n (write k e marked)) t in
    subst Step (sym grown) (review_of-write case_id n c e (derived-Until case_id events e h))
