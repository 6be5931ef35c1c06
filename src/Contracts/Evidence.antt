-- ===== src/Contracts/Evidence.antt =====
-- schemas/evidence.py: what the evidence plane hands to the decision plane.
use optimaler_status.Base.{ℕ, String, Option, List}
use optimaler_status.Python.Float.{Float}
use optimaler_status.Contracts.Common.{Span, VersionStamp}

pub data RoutingSource : Type 0 where
  rule classifier : RoutingSource

pub record RoutingSuggestion : Type 0 where
  pub unit_id : String
  pub source : RoutingSource
  pub rule_ids : List String
  pub confidence : Float
  pub evidence_span : Option Span

pub data RequirementStatus : Type 0 where
  present missing invalid : RequirementStatus

pub record GapItem : Type 0 where
  pub requirement_id : String
  pub status : RequirementStatus
  pub span : Option Span
  pub detail : Option String

pub data CompletenessVerdict : Type 0 where
  complete incomplete not_evaluable : CompletenessVerdict

-- CompletenessVerdict.value
abbrev pub verdict_value : CompletenessVerdict → String
verdict_value complete = "complete"
verdict_value incomplete = "incomplete"
verdict_value not_evaluable = "not_evaluable"

pub record CompletenessEvidence : Type 0 where
  pub procedure_id : Option String
  pub verdict : CompletenessVerdict
  pub gaps : List GapItem
  pub requirements_version : String

pub data DerivationSource : Type 0 where
  hint content none_found : DerivationSource

-- engine/evidence/derive.py: what the channel's hint was worth
pub data HintStatus : Type 0 where
  absent known unknown : HintStatus

-- What the sentence of a derivation is rendered from.
pub data DerivationDetail : Type 0 where
  several_procedures : List String → DerivationDetail
  hint_contradicts : String → List String → DerivationDetail
  taken_from_hint : String → DerivationDetail
  derived_from_content : String → HintStatus → Option String → DerivationDetail
  no_procedure : HintStatus → Option String → DerivationDetail

pub record DerivationOutcome : Type 0 where
  pub source : DerivationSource
  pub candidates : List String
  pub detail : Option DerivationDetail

pub data ResolvedBy : Type 0 where
  priority unresolved : ResolvedBy

-- What the sentence of a conflict is rendered from: the shared priority, or the winner and the
-- runner-up with their priorities.
pub data ConflictDetail : Type 0 where
  same_priority : ℕ → ConflictDetail
  outranked : String → ℕ → String → ℕ → ConflictDetail

pub record RoutingConflict : Type 0 where
  pub unit_ids : List String
  pub resolved_by : ResolvedBy
  pub detail : Option ConflictDetail

pub record EvidenceRecord : Type 0 where
  pub envelope_id : String
  pub case_id : String
  pub routing : List RoutingSuggestion
  pub derivation : Option DerivationOutcome
  pub conflicts : List RoutingConflict
  pub completeness : CompletenessEvidence
  pub extraction_min_confidence : Option Float
  pub extraction_discarded_count : ℕ
  pub created_at : ℕ
  pub versions : VersionStamp
