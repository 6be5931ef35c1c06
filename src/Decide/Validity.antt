-- ===== src/Decide/Validity.antt =====
-- The record of `decide` passes the contract's own validation, on the error rail too.
use optimaler_status.Base.{◌≡◌, some}
use optimaler_status.Python.Result.{ok}
use optimaler_status.Contracts.Common.{◌⊑◌}
use optimaler_status.Contracts.Decision.{DecisionRecord, post_init}
use optimaler_status.Decide.Record.{Inputs}

-- What the contract and the audit trail ask of a record.
pub record IsSound (i : Inputs) (r : DecisionRecord) : Type 0 where
  pub validates : post_init r ≡ ok r
  pub one_way : r.pre_downgrade_tier ⊑ r.tier
  pub envelope : r.envelope_id ≡ i.evidence.envelope_id
  pub case : r.case_id ≡ i.evidence.case_id
  pub table_version : r.versions.decision_table_version ≡ some r.decision_table_version
  pub risk_version : r.versions.thresholds_version ≡ some r.risk_config_version
