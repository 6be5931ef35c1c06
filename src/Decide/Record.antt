-- ===== src/Decide/Record.antt =====
-- `decide`: rows, downgrades, audit sample, and the error rail around them.
use optimaler_status.Base.{
  ℕ, Bool, true, false, ◌&&◌, Option, none, some, String, List, [], ◌∷◌, ◌++◌, if◌then◌else◌,
}
use optimaler_status.Python.Result.{Result, Error, ok, err, ◌>>=◌}
use optimaler_status.Contracts.Common.{Tier, full_human_review, max_tier, VersionStamp}
use optimaler_status.Contracts.Config.{
  DecisionTable, AgencyRiskConfig, ProcedureFlags, ScorerMode, log_only, enforcing,
}
use optimaler_status.Contracts.Anomaly.{AnomalyEvidence}
use optimaler_status.Contracts.Evidence.{RoutingSource, EvidenceRecord}
use optimaler_status.Contracts.Decision.{
  ReasonKind, AuditSample, audit_draw, evaluation_failed, DecisionReason, DecisionRecord, post_init,
}
use optimaler_status.Decide.Fields.{resolve_qualifying_fields, routed_unit}
use optimaler_status.Decide.Rows.{evaluate_rows}
use optimaler_status.Decide.Downgrades.{evaluate_downgrades, apply_outcomes, outcome_reasons}
use optimaler_status.Decide.Sample.{
  Digest, evaluate_audit_sample, is_sampleable, audit_sample_rule_id,
}

-- The arguments of `decide`. `versions` has been defaulted, and `now` is the clock's reading.
pub record Inputs : Type 0 where
  pub evidence : EvidenceRecord
  pub anomaly : Option AnomalyEvidence
  pub table : DecisionTable
  pub risk : AgencyRiskConfig
  pub flags : Option ProcedureFlags
  pub clear_cut : Bool
  pub versions : VersionStamp
  pub now : ℕ
  pub routing_sources : List RoutingSource
  pub audit_salt : Option String

abbrev pub is_enforcing : ScorerMode → Bool
is_enforcing enforcing = true
is_enforcing log_only = false

unfoldable pub version_stamp : DecisionTable → AgencyRiskConfig → VersionStamp → VersionStamp
version_stamp table risk base = record base {
  decision_table_version = some table.version;
  thresholds_version = some risk.version;
}

-- Whether the draw moves an item of this tier.
abbrev pub is_drawn : Option AuditSample → Tier → Bool
is_drawn none tier = false
is_drawn (some s) tier = s.sampled && is_sampleable tier

abbrev pub sample_reason : AuditSample → DecisionReason
sample_reason s = record {
  kind = ReasonKind.sampled;
  rule_id = audit_sample_rule_id;
  detail = audit_draw s;
}

abbrev pub sample_reasons : Option AuditSample → Tier → List DecisionReason
sample_reasons none tier = []
sample_reasons (some s) tier = if s.sampled && is_sampleable tier then sample_reason s ∷ [] else []

abbrev pub sampled_tier : Option AuditSample → Tier → Tier
sampled_tier sample tier = if is_drawn sample tier then max_tier tier full_human_review else tier

-- The record that the try block builds, before its validation.
abbrev pub new_record : Inputs → Tier → Tier → List DecisionReason → DecisionRecord
new_record i tier pre reasons = record {
  envelope_id = i.evidence.envelope_id;
  case_id = i.evidence.case_id;
  tier = tier;
  pre_downgrade_tier = pre;
  routed_unit_id = routed_unit i.evidence i.routing_sources;
  reasons = reasons;
  decision_table_version = i.table.version;
  risk_config_version = i.risk.version;
  created_at = i.now;
  versions = version_stamp i.table i.risk i.versions;
}

-- The body of the try block.
unfoldable pub evaluate_item : Digest → Inputs → Result DecisionRecord
unfolding evaluate_rows resolve_qualifying_fields evaluate_downgrades evaluate_audit_sample
    post_init
evaluate_item digest i = do
  verdict ←
      evaluate_rows i.table i.table.rows
        (resolve_qualifying_fields i.evidence i.flags i.clear_cut i.routing_sources)
  outcomes ← evaluate_downgrades i.anomaly i.table (is_enforcing i.risk.scorer_mode)
  let tier = apply_outcomes verdict.0 outcomes
  sample ← evaluate_audit_sample digest i.evidence.case_id i.risk.audit_sample_rate i.audit_salt
  post_init (
      new_record i (sampled_tier sample tier) verdict.0
        (verdict.1 ++ (outcome_reasons outcomes ++ sample_reasons sample tier)))

-- The handler of every exception.
abbrev pub error_record : Inputs → Error → DecisionRecord
error_record i e = record {
  envelope_id = i.evidence.envelope_id;
  case_id = i.evidence.case_id;
  tier = full_human_review;
  pre_downgrade_tier = full_human_review;
  routed_unit_id = none;
  reasons =
      record { kind = ReasonKind.error; rule_id = "error"; detail = evaluation_failed e } ∷ [];
  decision_table_version = i.table.version;
  risk_config_version = i.risk.version;
  created_at = i.now;
  versions = version_stamp i.table i.risk i.versions;
}

abbrev pub or_error_record : Inputs → Result DecisionRecord → DecisionRecord
or_error_record i (ok r) = r
or_error_record i (err e) = error_record i e

unfoldable pub decide : Digest → Inputs → DecisionRecord
unfolding evaluate_item
decide digest i = or_error_record i (evaluate_item digest i)
