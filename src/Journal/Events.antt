-- ===== src/Journal/Events.antt =====
-- schemas/events.py: an entry of the journal, and its validator.
use optimaler_status.Base.{ℕ, Bool, true, false, Option, none, some, String, str_eq, not}
use optimaler_status.Python.Result.{Result, ok, value_error, require, ◌>>◌}
use optimaler_status.Python.Value.{Fields}
use optimaler_status.Contracts.Common.{VersionStamp}

pub data EventType : Type 0 where
  received redacted extracted evidence_assembled anomaly_scored tier_decided routed drafted
        confirmed overridden notified :
      EventType

pub data ActorKind : Type 0 where
  system caseworker : ActorKind

pub record Actor : Type 0 where
  pub kind : ActorKind
  pub unit_id : Option String

pub record Event : Type 0 where
  pub event_id : String
  pub case_id : String
  pub sequence : ℕ
  pub type : EventType
  pub occurred_at : ℕ
  pub actor : Actor
  pub versions : VersionStamp
  pub payload : Fields
  pub informational_only : Option Bool
  pub template_id : Option String

-- informational_only is True
abbrev pub is_true : Option Bool → Bool
is_true (some true) = true
is_true _ = false

-- bool(template_id)
abbrev pub is_set : Option String → Bool
is_set (some t) = not (str_eq t "")
is_set none = false

unfoldable pub notification_invariants : Event → Result (Unit {0})
notification_invariants e = elim e.type [
  | EventType.notified ↦
      require (is_true e.informational_only) value_error
      >> require (is_set e.template_id) value_error
  | _ ↦ ok tt
]
