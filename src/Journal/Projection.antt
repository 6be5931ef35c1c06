-- ===== src/Journal/Projection.antt =====
-- engine/journal/projection.py: the state of a case, folded out of its events.
pub mod Order
pub mod Machine
use optimaler_status.Base.{
  ℕ, Bool, true, false, Option, none, some, String, List, [], ◌∷◌, ◌++◌, length, leb,
}
use optimaler_status.Base.Int.{ℤ}
use optimaler_status.Base.Dict.{Dict}
use optimaler_status.Base.Sorting.{sorted}
use optimaler_status.Python.Value.{
  Value, null, bool, int, float, str, seq, mapping, Items, nil, cons, Fields, end, field, field_of,
}
use optimaler_status.Journal.Events.{EventType, Actor, Event}

-- An entry of `overrides`: the payload with the three keys that are written over it.
pub record Override : Type 0 where
  pub payload : Fields
  pub occurred_at : ℕ
  pub unit_id : Option String
  pub sequence : ℕ

pub record CaseState : Type 0 where
  pub case_id : String
  pub event_count : ℕ
  pub received_at : Option ℕ
  pub last_event_at : Option ℕ
  pub last_event_type : Option EventType
  pub envelope_id : Option String
  pub channel : Option String
  pub procedure_hint : Option String
  pub procedure_id : Option String
  pub derivation : Fields
  pub classifier : Fields
  pub routing_arbitration : Fields
  pub sealed_count : Option ℤ
  pub text_sealed_counts : Dict ℤ
  pub redaction_verified : Option Bool
  pub text_layer : Fields
  pub extracted_fields : List String
  pub extraction_verification : Fields
  pub spans : List Fields
  pub discarded_count : Option ℤ
  pub routing : List Fields
  pub completeness_verdict : Option String
  pub gaps : List Fields
  pub clear_cut : Option Bool
  pub anomaly : Option Fields
  pub tier : Option ℤ
  pub pre_downgrade_tier : Option ℤ
  pub routed_unit_id : Option String
  pub reasons : List Fields
  pub shadow_downgrades : List Fields
  pub drafts : List Fields
  pub confirmed_at : Option ℕ
  pub confirmed_unit_id : Option String
  pub confirmation : Option Fields
  pub overrides : List Override

unfoldable pub as_str : Option Value → Option String
as_str (some (str s)) = some s
as_str _ = none

unfoldable pub as_int : Option Value → Option ℤ
as_int (some (int n)) = some n
as_int _ = none

unfoldable pub as_bool : Option Value → Option Bool
as_bool (some (bool b)) = some b
as_bool _ = none

unfoldable pub strings_of : Items → List String
strings_of nil = []
strings_of (cons (str s) vs) = s ∷ strings_of vs
strings_of (cons _ vs) = strings_of vs

unfoldable pub as_str_list : Option Value → List String
unfolding strings_of
as_str_list (some (seq vs)) = strings_of vs
as_str_list _ = []

unfoldable pub as_dict : Option Value → Fields
as_dict (some (mapping fs)) = fs
as_dict _ = end

unfoldable pub counts_of : Fields → Dict ℤ
counts_of end = []
counts_of (field k (int n) fs) = (k, n) ∷ counts_of fs
counts_of (field k _ fs) = counts_of fs

unfoldable pub as_count_map : Option Value → Dict ℤ
unfolding counts_of
as_count_map (some (mapping fs)) = counts_of fs
as_count_map _ = []

unfoldable pub dicts_of : Items → List Fields
dicts_of nil = []
dicts_of (cons (mapping fs) vs) = fs ∷ dicts_of vs
dicts_of (cons _ vs) = dicts_of vs

unfoldable pub as_dict_list : Option Value → List Fields
unfolding dicts_of
as_dict_list (some (seq vs)) = dicts_of vs
as_dict_list _ = []

-- The branch for an event type: the fields that the event writes.
unfoldable pub write : EventType → Event → CaseState → CaseState
unfolding field_of as_str as_int as_bool as_str_list as_dict as_count_map as_dict_list
write EventType.received e s = record s {
  received_at = some e.occurred_at;
  envelope_id = as_str (field_of e.payload "envelope_id");
  channel = as_str (field_of e.payload "channel");
  procedure_hint = as_str (field_of e.payload "procedure_hint");
}
write EventType.redacted e s = record s {
  sealed_count = as_int (field_of e.payload "sealed_count");
  text_sealed_counts = as_count_map (field_of e.payload "text_sealed_counts");
  redaction_verified = as_bool (field_of e.payload "redaction_verified");
  text_layer = as_dict (field_of e.payload "text_layer");
}
write EventType.extracted e s = record s {
  extracted_fields = as_str_list (field_of e.payload "fields");
  discarded_count = as_int (field_of e.payload "discarded_count");
  extraction_verification = as_dict (field_of e.payload "verification");
  spans = as_dict_list (field_of e.payload "spans");
}
write EventType.evidence_assembled e s = record s {
  routing = as_dict_list (field_of e.payload "routing");
  derivation = as_dict (field_of e.payload "procedure");
  procedure_id = as_str (field_of (as_dict (field_of e.payload "procedure")) "procedure_id");
  classifier = as_dict (field_of e.payload "classifier");
  routing_arbitration = as_dict (field_of e.payload "routing_arbitration");
  completeness_verdict = as_str (field_of e.payload "completeness_verdict");
  gaps = as_dict_list (field_of e.payload "gaps");
  clear_cut = as_bool (field_of e.payload "clear_cut");
}
write EventType.anomaly_scored e s = record s { anomaly = some e.payload }
write EventType.tier_decided e s = record s {
  tier = as_int (field_of e.payload "tier");
  pre_downgrade_tier = as_int (field_of e.payload "pre_downgrade_tier");
  reasons = as_dict_list (field_of e.payload "reasons");
  shadow_downgrades = as_dict_list (field_of e.payload "downgrades");
}
write EventType.routed e s = record s { routed_unit_id = as_str (field_of e.payload "unit_id") }
write EventType.drafted e s = record s { drafts = s.drafts ++ e.payload ∷ [] }
write EventType.confirmed e s = record s {
  confirmed_at = some e.occurred_at;
  confirmed_unit_id = e.actor.unit_id;
  confirmation = some e.payload;
}
write EventType.overridden e s = record s {
  overrides =
      s.overrides
      ++ record {
        payload = e.payload;
        occurred_at = e.occurred_at;
        unit_id = e.actor.unit_id;
        sequence = e.sequence;
      }
        ∷ [];
}
write EventType.notified e s = s

-- The body of the loop.
unfoldable pub apply_event : Event → CaseState → CaseState
unfolding write
apply_event e s =
    write e.type e (record s { last_event_at = some e.occurred_at; last_event_type = some e.type })

unfoldable pub fold_events : CaseState → List Event → CaseState
unfolding apply_event
fold_events s [] = s
fold_events s (e ∷ events) = fold_events (apply_event e s) events

abbrev pub sequence_le : Event → Event → Bool
sequence_le a b = leb a.sequence b.sequence

abbrev pub initial : String → ℕ → CaseState
initial case_id count = record {
  case_id = case_id;
  event_count = count;
  received_at = none;
  last_event_at = none;
  last_event_type = none;
  envelope_id = none;
  channel = none;
  procedure_hint = none;
  procedure_id = none;
  derivation = end;
  classifier = end;
  routing_arbitration = end;
  sealed_count = none;
  text_sealed_counts = [];
  redaction_verified = none;
  text_layer = end;
  extracted_fields = [];
  extraction_verification = end;
  spans = [];
  discarded_count = none;
  routing = [];
  completeness_verdict = none;
  gaps = [];
  clear_cut = none;
  anomaly = none;
  tier = none;
  pre_downgrade_tier = none;
  routed_unit_id = none;
  reasons = [];
  shadow_downgrades = [];
  drafts = [];
  confirmed_at = none;
  confirmed_unit_id = none;
  confirmation = none;
  overrides = [];
}

unfoldable pub derive_case_state : String → List Event → CaseState
unfolding fold_events
derive_case_state case_id events =
    fold_events (initial case_id (length events)) (sorted sequence_le events)
