-- ===== src/Review/Actions/Escalation/Totality.antt =====
-- About a case that can be escalated.
use optimaler_status.Base.{
  ℕ, ◌≡◌, ◌≢◌, refl, ap, true, false, Option, none, some, String, List, [], ◌∷◌, All, arith,
}
use optimaler_status.Base.Int.{ℤ, pos, negsuc}
use optimaler_status.Python.Float.{eq}
use optimaler_status.Python.Value.{int, py_eq}
use optimaler_status.Python.Result.{ok}
use optimaler_status.Contracts.Common.{VersionStamp}
use optimaler_status.Journal.Events.{ActorKind, Event, Actor, notification_invariants}
use optimaler_status.Journal.Store.{Store, event_of, read, knows, next_sequence, make_event, emit}
use optimaler_status.Journal.Store.History.{IsOf, IsHistory}
use optimaler_status.Journal.Store.Writers.{emit-Appended}
use optimaler_status.Review.State.{is_open, review_state, ReviewState}
use optimaler_status.Review.Actions.{
  acting, case_id_of, arguments_of, override_arguments, is_full_review, escalate_case, int_value,
  strip, is_filled,
}
use optimaler_status.Review.Actions.Stripping.{reason_or_default_filled}
use optimaler_status.Review.Actions.Escalation.{
  wanted, before, IsEscalated, escalate_case-IsEscalated,
}

case_id_of_total :
    (case_id : String) (events : List Event)
    → All (IsOf case_id) events
    → events ≢ []
    → case_id_of events ≡ ok case_id
case_id_of_total case_id [] own h = absurd (h refl)
case_id_of_total case_id (e ∷ events) own h = ap ok own.0

tier_changes :
    (tier : Option ℤ) → is_full_review tier ≡ false → py_eq (int_value tier) (int (pos 3)) ≡ false
unfolding py_eq eq
tier_changes none h = refl
tier_changes (some (pos n)) h = ground (arith, h)
tier_changes (some (negsuc n)) h = ground (arith, h)

module _ (versions : VersionStamp) (unit_id reason : String) (at : Option ℕ) where
  override_arguments_total :
      (s : ReviewState)
      → is_open s ≡ true
      → is_full_review s.tier ≡ false
      → is_filled (strip unit_id) ≡ true
      → override_arguments s (wanted versions unit_id reason at)
        ≡ ok (
            arguments_of s
              (wanted versions unit_id reason at)
              (record { kind = ActorKind.caseworker; unit_id = some (strip unit_id) }))
  unfolding override_arguments acting
  override_arguments_total s waits below named =
      rw (waits, reason_or_default_filled reason, tier_changes s.tier below, named) refl

  module _ (fresh : String) (now : ℕ) (store : Store) (case_id : String) where
    abbrev case_before : ReviewState
    case_before = before versions unit_id reason at fresh now store case_id

    emit_total :
        (actor : Actor)
        → knows fresh (read store case_id) ≡ false
        → (after : Store) × (e : Event) × (emit fresh now
              (arguments_of case_before (wanted versions unit_id reason at) actor)
              store
            ≡ (after, ok e))
    unfolding make_event notification_invariants review_state
    emit_total actor unknown =
        let a = arguments_of case_before (wanted versions unit_id reason at) actor in
        let event = event_of fresh now (next_sequence store case_id) a in
        let returned = emit-Appended fresh now a store event refl unknown in
        ((emit fresh now a store).0, event, ap (λ r. ((emit fresh now a store).0, r)) returned.0)

    -- On the log of a case that has an event, is open and is not in full review, by a unit that is not blank and with
    -- a fresh id, escalate_case returns an event, and the case is open and in full review,
    -- escalated, in the journal that it leaves; its unit and the machine's tier are as they were.
    pub escalate_case_total :
        IsHistory case_id (read store case_id)
        → read store case_id ≢ []
        → is_open (review_state case_id (read store case_id)) ≡ true
        → is_full_review (review_state case_id (read store case_id)).tier ≡ false
        → is_filled (strip unit_id) ≡ true
        → knows fresh (read store case_id) ≡ false
        → (after : Store) × (e : Event) × (escalate_case fresh now versions unit_id reason at
              (read store case_id)
              store
            ≡ (after, ok e))
          × IsEscalated
              (review_state case_id (read store case_id))
              (review_state case_id (read after case_id))
    unfolding escalate_case
    escalate_case_total history filled waits below named unknown =
        let actor : Actor = record {
          kind = ActorKind.caseworker;
          unit_id = some (strip unit_id);
        } in
        let (after, e, emitted) = emit_total actor unknown in
        let returned : escalate_case fresh now versions unit_id reason at (read store case_id) store
            ≡ (after, ok e) =
          rw
            (
              case_id_of_total case_id (read store case_id) history.own filled,
              below,
              override_arguments_total case_before waits below named,
            )
            emitted in
        (
          after,
          e,
          returned,
          escalate_case-IsEscalated versions unit_id reason at fresh now store case_id history
              returned,
        )
