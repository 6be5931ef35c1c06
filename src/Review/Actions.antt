-- ===== src/Review/Actions.antt =====
-- engine/review/actions.py: the corrections that a human journals.
pub mod Escalation
pub mod Stripping
use Prim.Native.Char.{Char, code}
use optimaler_status.Base.{
  ℕ, Bool, true, false, ◌||◌, not, Option, none, some, String, List, [], ◌∷◌, str_eq, if◌then◌else◌,
}
use optimaler_status.Base.Int.{ℤ, pos, eqb_ℤ}
use optimaler_status.Python.Text.{is_space}
use optimaler_status.Python.Value.{Value, null, bool, int, str, Fields, end, field, py_eq}
use optimaler_status.Python.Result.{Result, ok, err, review_action_error, require, ◌>>=◌, ◌>>◌}
use optimaler_status.Contracts.Common.{VersionStamp}
use optimaler_status.Journal.Events.{EventType, ActorKind, Actor, Event}
use optimaler_status.Journal.Store.{Store, EventArguments, emit}
use optimaler_status.Review.State.{ReviewState, is_open, review_state}

unfoldable pub left_strip : String → String
unfolding is_space
left_strip String.[] = String.[]
left_strip (String.◌∷◌ c s) = if is_space (code c) then left_strip s else String.◌∷◌ c s

-- A character before a stripped rest.
abbrev pub before_stripped : Char → String → String
before_stripped c String.[] = if is_space (code c) then String.[] else String.◌∷◌ c String.[]
before_stripped c (String.◌∷◌ d s) = String.◌∷◌ c (String.◌∷◌ d s)

unfoldable pub right_strip : String → String
unfolding is_space
right_strip String.[] = String.[]
right_strip (String.◌∷◌ c s) = before_stripped c (right_strip s)

-- s.strip()
unfoldable pub strip : String → String
unfolding left_strip right_strip
strip s = right_strip (left_strip s)

abbrev pub is_filled : String → Bool
is_filled String.[] = false
is_filled (String.◌∷◌ c s) = true

abbrev pub refuse_unless : Bool → Result (Unit {0})
refuse_unless test = require test review_action_error

-- _actor
unfoldable pub acting : String → Result Actor
unfolding strip
acting unit_id =
    refuse_unless (is_filled (strip unit_id))
    >> ok (record { kind = ActorKind.caseworker; unit_id = some (strip unit_id) })

-- _case_id
abbrev pub case_id_of : List Event → Result String
case_id_of [] = err review_action_error
case_id_of (e ∷ events) = ok e.case_id

-- field in OVERRIDE_FIELDS
abbrev pub is_override_field : String → Bool
is_override_field name = str_eq name "unit" || (str_eq name "tier" || str_eq name "escalation")

abbrev pub str_value : Option String → Value
str_value none = null
str_value (some s) = str s

abbrev pub int_value : Option ℤ → Value
int_value none = null
int_value (some n) = int n

abbrev pub from_value : ReviewState → String → Value
from_value s name = if str_eq name "unit" then str_value s.unit_id else int_value s.tier

-- What the caller of an action gives; config.version_stamp() is among it.
pub record Correction : Type 0 where
  pub versions : VersionStamp
  pub unit_id : String
  pub name : String
  pub to_value : Value
  pub reason : String
  pub at : Option ℕ

abbrev pub payload_of : ReviewState → Correction → String → Fields
payload_of s c reason = field "envelope_id" (str_value s.case_state.envelope_id) (
    field "field" (str c.name) (
      field "from" (from_value s c.name) (
        field "to" c.to_value (
          field "reason" (str reason) (
            field "machine_tier" (int_value s.machine_tier) (
              field "machine_unit_id" (str_value s.machine_unit_id)
                (field "sampled" (bool s.sampled) end)))))))

abbrev pub arguments_of : ReviewState → Correction → Actor → EventArguments
arguments_of s c actor = record {
  case_id = s.case_id;
  type = EventType.overridden;
  versions = c.versions;
  payload = payload_of s c (strip c.reason);
  actor = actor;
  occurred_at = c.at;
  informational_only = none;
  template_id = none;
}

-- The guards of override_case, and the arguments that emit gets.
unfoldable pub override_arguments : ReviewState → Correction → Result EventArguments
unfolding py_eq strip acting
override_arguments s c =
    refuse_unless (is_open s)
    >> (refuse_unless (is_override_field c.name)
        >> (refuse_unless (is_filled (strip c.reason))
            >> (refuse_unless (not (py_eq (from_value s c.name) c.to_value))
                >> (acting c.unit_id >>= λ actor. ok (arguments_of s c actor)))))

abbrev pub emit_given : String → ℕ → Store → Result EventArguments → Store × Result Event
emit_given fresh now store (err e) = (store, err e)
emit_given fresh now store (ok a) = emit fresh now a store

unfoldable pub override_case : String → ℕ → Correction → List Event → Store → Store × Result Event
unfolding review_state override_arguments emit
override_case fresh now c events store =
    emit_given fresh now store
      (case_id_of events >>= λ case_id. override_arguments (review_state case_id events) c)

-- tier == ESCALATION_TIER
abbrev pub is_full_review : Option ℤ → Bool
is_full_review none = false
is_full_review (some n) = eqb_ℤ n (pos 3)

abbrev pub default_reason : String
default_reason =
    "Manuelle Eskalation zur vollstaendigen Pruefung durch die bearbeitende Einheit (P-4, par. 88 Abs. 5 Nr. 3 AO analog)."

-- reason.strip() or ESCALATION_DEFAULT_REASON
abbrev pub reason_or_default : String → String
reason_or_default reason = if is_filled (strip reason) then strip reason else default_reason

abbrev pub escalation : VersionStamp → String → String → Option ℕ → Correction
escalation versions unit_id reason at = record {
  versions = versions;
  unit_id = unit_id;
  name = "escalation";
  to_value = int (pos 3);
  reason = reason_or_default reason;
  at = at;
}

unfoldable pub escalate_case :
    String
    → ℕ
    → VersionStamp
    → String
    → String
    → Option ℕ
    → List Event
    → Store
    → Store × Result Event
unfolding review_state override_arguments emit strip
escalate_case fresh now versions unit_id reason at events store = emit_given fresh now store (
    case_id_of events >>= λ case_id.
    let s = review_state case_id events in
    refuse_unless (not (is_full_review s.tier))
    >> override_arguments s (escalation versions unit_id reason at))
