-- ===== src/Evidence/Completeness/Evaluate.antt =====
-- The gaps of an item, and the verdict over them.
pub mod Verdict
pub mod Discreet
pub mod Birthdate
pub mod Totality
use mathlib.Core.List.{map}
use optimaler_status.Base.{
  ℕ, Bool, true, false, ◌||◌, Option, none, some, String, List, [], ◌∷◌, if◌then◌else◌, bind_option,
}
use optimaler_status.Base.Dict
use optimaler_status.Base.Dict.{Dict}
use optimaler_status.Python.Text.{Text, is_empty, strip}
use optimaler_status.Python.Result.{Result, ok, err, ◌>>=◌}
use optimaler_status.Contracts.Common.{Span}
use optimaler_status.Contracts.Evidence.{
  RequirementStatus, missing, invalid, GapItem, CompletenessVerdict, complete, incomplete,
  not_evaluable, CompletenessEvidence,
}
use optimaler_status.Redact.Placeholders.{Placeholder, parse_placeholder}
use optimaler_status.Redact.Witness.{Witness, resolve}
use optimaler_status.Extract.Records.{ExtractionRecord}
use optimaler_status.Evidence.Completeness.Messages.{
  Failure, GapDetail, document_unchecked, value_missing, unresolved, failed, Gap,
}
use optimaler_status.Evidence.Completeness.Checks.{Parsers, Validation}
use optimaler_status.Evidence.Completeness.CrossField.{validation_problem}

pub data RequirementKind : Type 0 where
  field_kind document_kind : RequirementKind

pub record Requirement : Type 0 where
  pub requirement_id : String
  pub kind : RequirementKind
  pub description : String
  pub validation : Option Validation

pub record RequirementList : Type 0 where
  pub procedure_id : String
  pub version : String
  pub requirements : List Requirement

-- What a run is given besides the records: the parsers, the payload paths of the fields, the witness
-- and the sealed fields.
pub record Setting : Type 0 where
  pub parsers : Parsers
  pub paths : Dict String
  pub witness : Option Witness
  pub sealed : List String

-- What a value is worth that was parsed as a placeholder, or not.
abbrev pub behind_placeholder : Option Witness → Text → Option Placeholder → Option Text
behind_placeholder witness value none = some value
behind_placeholder witness value (some p) = bind_option witness (λ w. resolve w value)

-- _resolve
unfoldable pub resolve_value : Option Witness → Text → Result (Option Text)
unfolding parse_placeholder resolve
resolve_value witness value =
    parse_placeholder value >>= λ o. ok (behind_placeholder witness value o)

-- {record.field: record for record in records}
unfoldable pub by_field : Dict ExtractionRecord → List ExtractionRecord → Dict ExtractionRecord
unfolding Dict.put
by_field found [] = found
by_field found (r ∷ records) = by_field (Dict.put found r.field r) records

abbrev pub with_value : String → Option Text → Dict Text → Dict Text
with_value key none values = values
with_value key (some value) values = (key, value) ∷ values

-- The values that resolve, by their fields.
unfoldable pub resolve_all : Option Witness → Dict ExtractionRecord → Result (Dict Text)
unfolding resolve_value
resolve_all witness [] = ok []
resolve_all witness ((key, r) ∷ records) = resolve_value witness r.value >>= λ o.
    resolve_all witness records >>= λ values. ok (with_value key o values)

abbrev pub gap : Setting → Requirement → RequirementStatus → Option Span → GapDetail → Gap
gap s q status span detail = record {
  requirement_id = q.requirement_id;
  status = status;
  span = span;
  detail = detail;
  path = Dict.get s.paths q.requirement_id;
}

-- The gap of a failed validation.
abbrev pub failure_gap : Setting → Requirement → ExtractionRecord → Option Failure → Option Gap
failure_gap s q r none = none
failure_gap s q r (some f) = some (gap s q invalid r.span (failed f))

-- The checks of a value that was resolved, or not.
unfoldable pub check_resolved :
    Setting → Dict Text → Requirement → ExtractionRecord → Option Text → Result (Option Gap)
unfolding validation_problem
check_resolved s values q r none = ok (some (gap s q invalid r.span unresolved))
check_resolved s values q r (some value) =
    validation_problem s.parsers q.validation value values s.sealed q.requirement_id >>= λ f.
    ok (failure_gap s q r f)

-- The checks of a field's record.
unfoldable pub check_record :
    Setting → Dict Text → Requirement → Option ExtractionRecord → Result (Option Gap)
unfolding strip resolve_value check_resolved
check_record s values q none = ok (some (gap s q missing none (value_missing q.description)))
check_record s values q (some r) =
    let resolved = resolve_value s.witness r.value >>= check_resolved s values q r in
    if is_empty (strip r.value)
    then ok (some (gap s q missing none (value_missing q.description)))
    else resolved

-- _check_requirement
unfoldable pub check_requirement :
    Setting
    → Dict Text
    → Requirement
    → Option ExtractionRecord
    → RequirementKind
    → Result (Option Gap)
unfolding check_record
check_requirement s values q found document_kind =
    ok (some (gap s q missing none (document_unchecked q.description)))
check_requirement s values q found field_kind = check_record s values q found

abbrev pub with_gap : Option Gap → List Gap → List Gap
with_gap none gaps = gaps
with_gap (some g) gaps = g ∷ gaps

-- The gaps of the requirements, in their order.
unfoldable pub check_all :
    Setting → Dict Text → Dict ExtractionRecord → List Requirement → Result (List Gap)
unfolding check_requirement Dict.get
check_all s values found [] = ok []
check_all s values found (q ∷ requirements) =
    check_requirement s values q (Dict.get found q.requirement_id) q.kind >>= λ g.
    check_all s values found requirements >>= λ gaps. ok (with_gap g gaps)

unfoldable pub gaps_of : Setting → List ExtractionRecord → List Requirement → Result (List Gap)
unfolding by_field resolve_all check_all
gaps_of s records requirements =
    let found = by_field [] records in
    resolve_all s.witness found >>= λ values. check_all s values found requirements

-- A gap as the contract has it, with a renderer of the details.
abbrev pub rendered : (Gap → String) → Gap → GapItem
rendered render g = record {
  requirement_id = g.requirement_id;
  status = g.status;
  span = g.span;
  detail = some (render g);
}

abbrev pub verdict_of : List Gap → CompletenessVerdict
verdict_of [] = complete
verdict_of (g ∷ gaps) = incomplete

unfoldable pub evaluate_completeness :
    (Gap → String)
    → Setting
    → List ExtractionRecord
    → Option RequirementList
    → Option String
    → Result CompletenessEvidence
unfolding gaps_of
evaluate_completeness render s records none procedure_id = ok (record {
  procedure_id = procedure_id;
  verdict = not_evaluable;
  gaps = [];
  requirements_version = "unknown";
})
evaluate_completeness render s records (some list) procedure_id =
    gaps_of s records list.requirements >>= λ gaps. ok (record {
      procedure_id = some list.procedure_id;
      verdict = verdict_of gaps;
      gaps = map (rendered render) gaps;
      requirements_version = list.version;
    })
