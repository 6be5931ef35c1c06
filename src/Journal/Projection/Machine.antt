-- ===== src/Journal/Projection/Machine.antt =====
-- What the machine did, apart from what a human did about it.
use optimaler_status.Base.{
  ◌≡◌, refl, sym, ap, ◌∙◌, Bool, true, false, none, List, [], ◌∷◌, keep, Bool-cases, inl, inr,
}
use optimaler_status.Journal.Events.{EventType, Event}
use optimaler_status.Journal.Projection.{CaseState, write, apply_event, fold_events}

-- The events of the pipeline; the others are drafts, confirmations, overrides and notices.
abbrev pub is_machine : EventType → Bool
is_machine EventType.drafted = false
is_machine EventType.confirmed = false
is_machine EventType.overridden = false
is_machine EventType.notified = false
is_machine _ = true

abbrev pub is_machine_event : Event → Bool
is_machine_event e = is_machine e.type

-- The state without the human's half and without the last event's time and type.
abbrev pub machine_half : CaseState → CaseState
machine_half s = record s {
  last_event_at = none;
  last_event_type = none;
  drafts = [];
  confirmed_at = none;
  confirmed_unit_id = none;
  confirmation = none;
  overrides = [];
}

write_half :
    (t : EventType) (e : Event) (s : CaseState)
    → machine_half (write t e s) ≡ machine_half (write t e (machine_half s))
unfolding write
write_half EventType.received e s = refl
write_half EventType.redacted e s = refl
write_half EventType.extracted e s = refl
write_half EventType.evidence_assembled e s = refl
write_half EventType.anomaly_scored e s = refl
write_half EventType.tier_decided e s = refl
write_half EventType.routed e s = refl
write_half EventType.drafted e s = refl
write_half EventType.confirmed e s = refl
write_half EventType.overridden e s = refl
write_half EventType.notified e s = refl

write_human :
    (t : EventType) (e : Event) (s : CaseState)
    → is_machine t ≡ false
    → machine_half (write t e s) ≡ machine_half s
unfolding write
write_human EventType.received e s h = absurd (cc h)
write_human EventType.redacted e s h = absurd (cc h)
write_human EventType.extracted e s h = absurd (cc h)
write_human EventType.evidence_assembled e s h = absurd (cc h)
write_human EventType.anomaly_scored e s h = absurd (cc h)
write_human EventType.tier_decided e s h = absurd (cc h)
write_human EventType.routed e s h = absurd (cc h)
write_human EventType.drafted e s h = refl
write_human EventType.confirmed e s h = refl
write_human EventType.overridden e s h = refl
write_human EventType.notified e s h = refl

-- Two states with the same machine half stay so.
half_congruent :
    (e : Event) (s u : CaseState)
    → machine_half s ≡ machine_half u
    → machine_half (apply_event e s) ≡ machine_half (apply_event e u)
unfolding apply_event
half_congruent e s u h =
    write_half e.type e _
    ∙ ap (λ x. machine_half (write e.type e x)) h
    ∙ sym (write_half e.type e _)

machine_half_from :
    (s u : CaseState) (events : List Event)
    → machine_half s ≡ machine_half u
    → machine_half (fold_events s events)
      ≡ machine_half (fold_events u (keep is_machine_event events))
unfolding fold_events keep
machine_half_from s u [] h = h
machine_half_from s u (e ∷ events) h = elim (Bool-cases (is_machine e.type)) [
  | inl p ↦
      rw p (machine_half_from (apply_event e s) (apply_event e u) events (half_congruent e s u h))
  | inr p ↦ rw p (machine_half_from (apply_event e s) u events (write_human e.type e _ p ∙ h))
]

-- What the machine did is a fold of the pipeline's events alone: drafts, confirmations, overrides
-- and notices, wherever they stand in the log, change no field that the machine's events write,
-- the tier and the addressee among them.
pub fold_events-machine :
    (s : CaseState) (events : List Event)
    → machine_half (fold_events s events)
      ≡ machine_half (fold_events s (keep is_machine_event events))
fold_events-machine s events = machine_half_from s s events refl
