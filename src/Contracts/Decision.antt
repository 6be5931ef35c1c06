-- ===== src/Contracts/Decision.antt =====
-- schemas/decision.py. The German sentence of a reason is kept as what it is rendered from.
use optimaler_status.Base.{ℕ, Bool, true, false, Option, String, List, [], ◌∷◌, leb}
use optimaler_status.Python.Result.{Result, Error, ok, value_error, ◌>>◌, require}
use optimaler_status.Python.Float.{Float}
use optimaler_status.Python.Value.{Value}
use optimaler_status.Contracts.Common.{Tier, value, VersionStamp}
use optimaler_status.Contracts.Config.{QualifyingCondition}
use optimaler_status.Contracts.Anomaly.{AnomalyEvidence}

pub data ReasonKind : Type 0 where
  qualified failed downgraded defaulted error sampled : ReasonKind

pub record AuditSample : Type 0 where
  pub case_id : String
  pub rate : Float
  pub draw : Float
  pub sampled : Bool

-- A condition with the actual value of its field, if the field is one that resolves.
abbrev pub Observed : Type 0
Observed = QualifyingCondition × Option Value

pub data Detail : Type 0 where
  row_met : String → Tier → List Observed → Detail
  row_failed : String → Tier → List Observed → Detail
  no_row : String → Tier → Detail
  downgrade : String → AnomalyEvidence → Bool → Detail
  audit_draw : AuditSample → Detail
  evaluation_failed : Error → Detail

pub record DecisionReason : Type 0 where
  pub kind : ReasonKind
  pub rule_id : String
  pub detail : Detail

pub record DecisionRecord : Type 0 where
  pub envelope_id : String
  pub case_id : String
  pub tier : Tier
  pub pre_downgrade_tier : Tier
  pub routed_unit_id : Option String
  pub reasons : List DecisionReason
  pub decision_table_version : String
  pub risk_config_version : String
  pub created_at : ℕ
  pub versions : VersionStamp

abbrev pub is_nonempty : List DecisionReason → Bool
is_nonempty [] = false
is_nonempty (r ∷ rs) = true

-- The validation of a new record: at least one reason, and a tier no better than the one before
-- the downgrades.
unfoldable pub post_init : DecisionRecord → Result DecisionRecord
post_init r = do
  require (is_nonempty r.reasons) value_error
  require (leb (value r.pre_downgrade_tier) (value r.tier)) value_error
  ok r
