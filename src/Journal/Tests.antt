-- ===== src/Journal/Tests.antt =====
-- Runs of the journal, and its theorems at inputs that meet their hypotheses.
use mathlib.Core.List.{Permᴰ}
use optimaler_status.Base.{
  ℕ, ◌≡◌, refl, true, none, some, String, List, [], ◌∷◌, keep, ◌+◌, ◌==◌, if◌then◌else◌, Bool, true,
}
use optimaler_status.Base.Int.{pos}
use optimaler_status.Base.Sorting.{sorted}
use optimaler_status.Python.Result.{Result, ok, err, value_error}
use optimaler_status.Python.Value.{int, str, field, end, Fields}
use optimaler_status.Contracts.Common.{VersionStamp}
use optimaler_status.Journal.Events.{EventType, ActorKind, Event}
use optimaler_status.Journal.Store.{
  EventArguments, read, knows, check_appendable, append, append_all, emit,
}
use optimaler_status.Journal.Store.History.{IsHistory, IsJournal}
use optimaler_status.Journal.Store.Append.{Outcome, append-Outcome}
use optimaler_status.Journal.Store.Growth.{append_all-IsJournal}
use optimaler_status.Python.Text.{Text}
use optimaler_status.Journal.Files.{Json, content, is_written, read_file, append_file}
use optimaler_status.Journal.Files.Refinement.{IsStorable, append_files, append_files-Agrees}
use optimaler_status.Journal.Files.Separator.{separator_unreadable}
use optimaler_status.Journal.Projection.{fold_events, initial, derive_case_state}
use optimaler_status.Journal.Projection.Order.{derive_case_state-perm}
use optimaler_status.Journal.Projection.Machine.{machine_half, fold_events-machine}

abbrev stamp : VersionStamp
stamp = record {
  schema_version = "0.1.0";
  taxonomy_version = none;
  rules_version = none;
  decision_table_version = none;
  thresholds_version = none;
  prompt_version = none;
  model_id = none;
  feature_set_version = none;
}

abbrev event : String → ℕ → EventType → Fields → Event
event id n type payload = record {
  event_id = id;
  case_id = "case-1";
  sequence = n;
  type = type;
  occurred_at = n;
  actor = record { kind = ActorKind.system; unit_id = none };
  versions = stamp;
  payload = payload;
  informational_only = none;
  template_id = none;
}

abbrev received : Event
received = event "a" 0 EventType.received (field "channel" (str "email") end)

abbrev decided : Event
decided = event "b" 1 EventType.tier_decided (field "tier" (int (pos 3)) end)

abbrev overridden : Event
overridden = event "c" 2 EventType.overridden (field "tier" (int (pos 1)) end)

abbrev rival : Event
rival = event "d" 1 EventType.notified end

abbrev log : List Event
log = received ∷ decided ∷ overridden ∷ []

log-IsHistory : IsHistory "case-1" log
unfolding knows
log-IsHistory = record {
  in_sequence = (refl, (refl, (refl, tt)));
  unique = (refl, (refl, (refl, tt)));
  own = (refl, (refl, (refl, tt)));
}

-- The rival comes too late, the pipeline's events are there.
log_run : read (append_all [] (received ∷ decided ∷ rival ∷ overridden ∷ [])) "case-1" ≡ log
unfolding append_all read check_appendable
log_run = refl

tier_run : (derive_case_state "case-1" log).tier ≡ some (pos 3)
unfolding derive_case_state sorted
tier_run = refl

abbrev notice : EventArguments
notice = record {
  case_id = "case-1";
  type = EventType.notified;
  versions = stamp;
  payload = end;
  actor = record { kind = ActorKind.system; unit_id = none };
  occurred_at = none;
  informational_only = some true;
  template_id = none;
}

-- A notice without a template is refused by the validator, and one with it is not.
notice_refused : (emit "x" 5 notice []).1 ≡ err value_error
unfolding emit
notice_refused = refl

append-Outcome_example : Outcome received [] (append received [])
append-Outcome_example = append-Outcome received []

append_all-IsJournal_example : IsJournal (append_all [] (received ∷ decided ∷ rival ∷ []))
append_all-IsJournal_example = append_all-IsJournal (received ∷ decided ∷ rival ∷ [])

abbrev titled : EventArguments
titled = record notice { template_id = some "receipt" }

derive_case_state-perm_example :
    derive_case_state "case-1" log
    ≡ derive_case_state "case-1" (decided ∷ received ∷ overridden ∷ [])
derive_case_state-perm_example =
    derive_case_state-perm "case-1" (Permᴰ.swap refl refl) log-IsHistory

fold_events-machine_example :
    machine_half (fold_events (initial "case-1" 3) log)
    ≡ machine_half (fold_events (initial "case-1" 3) (received ∷ decided ∷ []))
unfolding keep
fold_events-machine_example = fold_events-machine (initial "case-1" 3) log

-- JSON of one digit, the sequence number.
abbrev load_digit : Text → Result Event
load_digit (c ∷ []) =
    if c == 48 then ok received else if c == 49 then ok decided else err value_error
load_digit _ = err value_error

abbrev digits : Json
digits = record { dump = λ e. (48 + e.sequence) ∷ []; load = load_digit }

abbrev any_id : String → Bool
any_id c = true

received-IsStorable : IsStorable digits any_id received
unfolding is_written
received-IsStorable = (refl, record { one_line = (refl, tt); written = refl; loads = refl })

decided-IsStorable : IsStorable digits any_id decided
unfolding is_written
decided-IsStorable = (refl, record { one_line = (refl, tt); written = refl; loads = refl })

append_files-Agrees_example :
    ((append_file digits any_id decided (append_files digits any_id [] (received ∷ []))).1
      ≡ (append decided (append_all [] (received ∷ []))).1)
    × (read_file digits any_id (append_files digits any_id [] (received ∷ [])) "case-1"
        ≡ ok (read (append_all [] (received ∷ [])) "case-1"))
append_files-Agrees_example =
    append_files-Agrees digits any_id (received ∷ []) decided "case-1" (received-IsStorable, tt)
      decided-IsStorable refl

-- JSON with a line separator in it.
abbrev separated : Json
separated = record { dump = λ e. 123 ∷ 8232 ∷ 125 ∷ []; load = load_digit }

separator_unreadable_example :
    ((append_file separated any_id received []).1 ≡ ok received)
    × (read_file separated any_id (append_file separated any_id received []).0 "case-1"
        ≡ err value_error)
    × ((append_file separated any_id decided (append_file separated any_id received []).0).1
        ≡ err value_error)
unfolding content is_written
separator_unreadable_example =
    separator_unreadable separated any_id [] received decided (123 ∷ []) (125 ∷ []) value_error refl
      refl refl refl (refl, tt) refl refl refl
