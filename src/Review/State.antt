-- ===== src/Review/State.antt =====
-- engine/review/state.py: the state of a case under review, folded out of its journal.
pub mod Moves
pub mod Overrides
use optimaler_status.Base.{
  ℕ, Bool, true, false, ◌||◌, not, Option, none, some, String, List, [], ◌∷◌, leb, is_some,
  if◌then◌else◌,
}
use optimaler_status.Base.Int.{ℤ, pos, eqb_ℤ}
use optimaler_status.Base.Sorting.{sorted}
use optimaler_status.Python.Float.{finite, eq}
use optimaler_status.Python.Value.{
  Value, null, bool, int, float, str, seq, mapping, nil, cons, Fields, end, field, field_of, py_eq,
}
use optimaler_status.Decide.Sample.{journaled, is_audit_sample_reason}
use optimaler_status.Journal.Events.{Event}
use optimaler_status.Journal.Projection.{CaseState, Override, as_int, derive_case_state}

pub record ReviewState : Type 0 where
  pub case_id : String
  pub case_state : CaseState
  pub machine_tier : Option ℤ
  pub machine_unit_id : Option String
  pub tier : Option ℤ
  pub unit_id : Option String
  pub confirmed : Bool
  pub confirmed_at : Option ℕ
  pub escalated : Bool
  pub sampled : Bool
  pub flagged : Bool
  pub overrides : List Override
  pub dispatch : Option Fields

-- ReviewState.open
abbrev pub is_open : ReviewState → Bool
is_open s = not s.confirmed

-- What the loop over the overrides changes.
pub record Position : Type 0 where
  pub tier : Option ℤ
  pub unit_id : Option String
  pub escalated : Bool

-- _as_str_or_none
unfoldable pub as_str_or_none : Option Value → Option String
as_str_or_none (some (str (String.◌∷◌ c s))) = some (String.◌∷◌ c s)
as_str_or_none _ = none

-- _as_dict_or_none
unfoldable pub as_dict_or_none : Option Value → Option Fields
as_dict_or_none (some (mapping fields)) = some fields
as_dict_or_none _ = none

-- override.get("field") == name
abbrev pub is_field : String → Option Value → Bool
is_field name none = false
is_field name (some v) = py_eq v (str name)

abbrev pub moved_to : Option ℤ → Option ℤ → Option ℤ
moved_to none tier = tier
moved_to (some n) tier = some n

-- The body of the loop over the overrides.
unfoldable pub apply_override : Override → Position → Position
unfolding field_of py_eq as_str_or_none as_int
apply_override o p =
    let which = field_of o.payload "field" in
    let target = field_of o.payload "to" in
    if is_field "unit" which
    then record p { unit_id = as_str_or_none target }
    else (if is_field "tier" which || is_field "escalation" which
        then record p {
          tier = moved_to (as_int target) p.tier;
          escalated = p.escalated || is_field "escalation" which;
        }
        else p)

unfoldable pub apply_overrides : Position → List Override → Position
unfolding apply_override
apply_overrides p [] = p
apply_overrides p (o ∷ overrides) = apply_overrides (apply_override o p) overrides

abbrev pub sequence_le : Override → Override → Bool
sequence_le a b = leb a.sequence b.sequence

-- bool(value)
unfoldable pub is_truthy : Option Value → Bool
unfolding eq
is_truthy none = false
is_truthy (some null) = false
is_truthy (some (bool b)) = b
is_truthy (some (int n)) = not (eqb_ℤ n (pos 0))
is_truthy (some (float x)) = not (eq x (finite (pos 0)))
is_truthy (some (str String.[])) = false
is_truthy (some (str (String.◌∷◌ c s))) = true
is_truthy (some (seq nil)) = false
is_truthy (some (seq (cons v items))) = true
is_truthy (some (mapping end)) = false
is_truthy (some (mapping (field k v fields))) = true

-- mapping or {}
abbrev pub or_empty : Option Fields → Fields
or_empty none = end
or_empty (some fields) = fields

-- reason.get(key)
abbrev pub value_or_null : Option Value → Value
value_or_null none = null
value_or_null (some v) = v

unfoldable pub any_sampled : List Fields → Bool
unfolding is_audit_sample_reason field_of
any_sampled [] = false
any_sampled (reason ∷ reasons) =
    is_audit_sample_reason (journaled (value_or_null (field_of reason "kind")))
      (value_or_null (field_of reason "rule_id"))
    || any_sampled reasons

unfoldable pub is_sampled : CaseState → Bool
unfolding any_sampled
is_sampled c = any_sampled c.reasons

abbrev pub start_of : CaseState → Position
start_of c = record { tier = c.tier; unit_id = c.routed_unit_id; escalated = false }

-- review_state, on the state that the events give.
unfoldable pub review_of : String → CaseState → ReviewState
unfolding sorted apply_overrides is_sampled is_truthy as_dict_or_none field_of
review_of case_id c =
    let p = apply_overrides (start_of c) (sorted sequence_le c.overrides) in
    record {
      case_id = case_id;
      case_state = c;
      machine_tier = c.tier;
      machine_unit_id = c.routed_unit_id;
      tier = p.tier;
      unit_id = p.unit_id;
      confirmed = is_some c.confirmed_at;
      confirmed_at = c.confirmed_at;
      escalated = p.escalated;
      sampled = is_sampled c;
      flagged = is_truthy (field_of (or_empty c.anomaly) "flagged");
      overrides = c.overrides;
      dispatch = as_dict_or_none (field_of (or_empty c.confirmation) "dispatch");
    }

unfoldable pub review_state : String → List Event → ReviewState
unfolding derive_case_state review_of
review_state case_id events = review_of case_id (derive_case_state case_id events)
