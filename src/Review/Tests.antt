-- ===== src/Review/Tests.antt =====
-- Runs of the states of cases under review, and of their queues.
use mathlib.Core.Logic.{◌↔◌}
use mathlib.Core.List.{Memᴰ}
use optimaler_status.Base.{
  ◌≡◌, ◌≢◌, refl, false, true, some, none, String, List, [], ◌∷◌, ◌++◌, ◌-◌, ℕ, is_member,
}
use optimaler_status.Base.Int.{pos}
use optimaler_status.Python.Float.{finite}
use optimaler_status.Python.Value.{null, bool, int, str, field, end, Fields}
use optimaler_status.Contracts.Common.{VersionStamp}
use optimaler_status.Journal.Events.{EventType, ActorKind, Event}
use optimaler_status.Journal.Store.{Store}
use optimaler_status.Review.State.{ReviewState, is_open, review_state}
use optimaler_status.Review.State.Overrides.{override_of, IsStep, review_state-override}
use optimaler_status.Journal.Store.{knows}
use optimaler_status.Journal.Store.History.{IsHistory}
use optimaler_status.Python.Result.{Result, ok}
use optimaler_status.Python.Text.{is_space}
use optimaler_status.Journal.Store.{read}
use optimaler_status.Review.Actions.{escalate_case, default_reason}
use optimaler_status.Review.Actions.Escalation.{IsEscalated}
use optimaler_status.Review.Actions.Escalation.Totality.{escalate_case_total}
use optimaler_status.Review.Actions.{is_filled, is_full_review, strip}
use optimaler_status.Review.Queues.{
  Hours, build_index, queue_id, queue_states, queue_ids, clearing_queue,
}
use optimaler_status.Review.Queues.Partition.{queue_states-Partition}

abbrev stamp : VersionStamp
stamp = record {
  schema_version = "0.1.0";
  taxonomy_version = none;
  rules_version = none;
  decision_table_version = none;
  thresholds_version = none;
  prompt_version = none;
  model_id = none;
  feature_set_version = none;
}

abbrev event : String → String → ℕ → EventType → Fields → Event
event event_id case_id n type payload = record {
  event_id = event_id;
  case_id = case_id;
  sequence = n;
  type = type;
  occurred_at = n;
  actor = record { kind = ActorKind.system; unit_id = none };
  versions = stamp;
  payload = payload;
  informational_only = none;
  template_id = none;
}

-- Sent to another unit by a human.
abbrev sent : List Event
sent =
    event "a" "case-1" 0 EventType.received end
    ∷ event "b" "case-1" 1 EventType.tier_decided (field "tier" (int (pos 1)) end)
    ∷ event "c" "case-1" 2 EventType.routed (field "unit_id" (str "rente") end)
    ∷ event "d" "case-1" 3 EventType.overridden
        (field "field" (str "unit") (field "to" (str "reha") end))
    ∷ []

abbrev escalation : Event
escalation =
    event "e" "case-1" 4 EventType.overridden
      (field "field" (str "escalation") (field "to" (int (pos 3)) end))

abbrev moved : List Event
moved = sent ++ escalation ∷ []

-- Received later, and for the same unit.
abbrev younger : List Event
younger =
    event "b" "case-2" 1 EventType.received end
    ∷ event "c" "case-2" 2 EventType.routed (field "unit_id" (str "reha") end)
    ∷ []

abbrev unrouted : List Event
unrouted = event "a" "case-3" 0 EventType.received end ∷ []

abbrev closed : List Event
closed =
    event "a" "case-4" 0 EventType.received end
    ∷ event "b" "case-4" 1 EventType.routed (field "unit_id" (str "reha") end)
    ∷ event "c" "case-4" 2 EventType.confirmed end
    ∷ []

abbrev store : Store
store = ("case-2", younger) ∷ ("case-4", closed) ∷ ("case-1", moved) ∷ ("case-3", unrouted) ∷ []

abbrev index : List ReviewState
index = build_index store

-- One hour for each unit of the clock.
abbrev hours : Hours
hours now received = finite (pos (now - received))

abbrev moved_state : ReviewState
moved_state = review_state "case-1" moved

machine_run : moved_state.machine_tier ≡ some (pos 1)
unfolding review_state
machine_run = refl

tier_run : moved_state.tier ≡ some (pos 3)
unfolding review_state
tier_run = refl

unit_run : moved_state.unit_id ≡ some "reha"
unfolding review_state
unit_run = refl

-- The older case comes first, and the closed one is away.
queue_run :
    queue_states hours 9 index (some "reha") ≡ moved_state ∷ review_state "case-2" younger ∷ []
unfolding queue_states build_index review_state
queue_run = refl

ids_run : queue_ids index ≡ "reha" ∷ clearing_queue ∷ []
unfolding queue_ids build_index review_state
ids_run = refl

queue_states-Partition_example : Memᴰ moved_state (queue_states hours 9 index (some "reha")) ↔ (
    Memᴰ moved_state index
    × (is_open moved_state ≡ true)
    × (moved_state.unit_id ≡ some "reha")
    × (is_member (queue_id (some "reha")) (queue_ids index) ≡ true))
queue_states-Partition_example = queue_states-Partition hours 9 index moved_state (some "reha")

moved-IsHistory : IsHistory "case-1" moved
unfolding knows
moved-IsHistory = record {
  in_sequence = (refl, (refl, (refl, (refl, (refl, tt)))));
  unique = (refl, (refl, (refl, (refl, (refl, tt)))));
  own = (refl, (refl, (refl, (refl, (refl, tt)))));
}

review_state-override_example :
    IsStep (override_of escalation) (review_state "case-1" sent) moved_state
review_state-override_example = review_state-override "case-1" sent escalation moved-IsHistory refl

abbrev waiting : Store
waiting = ("case-1", sent) ∷ []

sent-IsHistory : IsHistory "case-1" (read waiting "case-1")
unfolding knows read
sent-IsHistory = record {
  in_sequence = (refl, (refl, (refl, (refl, tt))));
  unique = (refl, (refl, (refl, (refl, tt))));
  own = (refl, (refl, (refl, (refl, tt))));
}

abbrev outcome : Store × Result Event
outcome = escalate_case "e" 9 stamp " reha " "" none (read waiting "case-1") waiting

-- By whom, and why.
abbrev escalated : Event
escalated =
    record (event "e" "case-1" 4 EventType.overridden (
      field "envelope_id" null (
        field "field" (str "escalation") (
          field "from" (int (pos 1)) (
            field "to" (int (pos 3)) (
              field "reason" (str default_reason) (
                field "machine_tier" (int (pos 1)) (
                  field "machine_unit_id" (str "rente") (field "sampled" (bool false) end))))))))) {
                    actor = record { kind = ActorKind.caseworker; unit_id = some "reha" };
                    occurred_at = 9;
                  }

escalate_case_run : outcome ≡ (("case-1", sent ++ escalated ∷ []) ∷ [], ok escalated)
unfolding escalate_case read is_space
escalate_case_run = refl

waiting_nonempty : read waiting "case-1" ≢ []
unfolding read
waiting_nonempty h = cc h

waiting_open : is_open (review_state "case-1" (read waiting "case-1")) ≡ true
unfolding review_state read
waiting_open = refl

waiting_below : is_full_review (review_state "case-1" (read waiting "case-1")).tier ≡ false
unfolding review_state read
waiting_below = refl

unit_filled : is_filled (strip " reha ") ≡ true
unfolding strip is_space
unit_filled = refl

id_unknown : knows "e" (read waiting "case-1") ≡ false
unfolding knows read
id_unknown = refl

escalate_case_total_example :
    (after : Store) × (e : Event) × (outcome ≡ (after, ok e))
    × IsEscalated
        (review_state "case-1" (read waiting "case-1"))
        (review_state "case-1" (read after "case-1"))
escalate_case_total_example =
    escalate_case_total stamp " reha " "" none "e" 9 waiting "case-1" sent-IsHistory
      waiting_nonempty waiting_open waiting_below unit_filled id_unknown
