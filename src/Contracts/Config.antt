-- ===== src/Contracts/Config.antt =====
-- schemas/config.py: the agency-editable tables and the validators that refuse a bad one.
use text.Mathlib.Text.{starts_with}
use optimaler_status.Base.{
  ℕ, ◌≡◌, Bool, true, false, ◌||◌, not, Option, none, some, String, List, [], ◌∷◌, str_eq,
  if◌then◌else◌, All,
}
use optimaler_status.Python.Result.{Result, ok, err, value_error, ◌>>◌, require}
use optimaler_status.Python.Float.{Float}
use optimaler_status.Python.Value.{Value, bool}
use optimaler_status.Predicate.Compare.{Op}
use optimaler_status.Contracts.Common.{Tier, full_human_review}

-- x in (a, b, ...)
unfoldable pub one_of : String → List String → Bool
one_of x [] = false
one_of x (y ∷ ys) = str_eq x y || one_of x ys

abbrev pub qualifying_fields : List String
qualifying_fields =
    "routing.confidence" ∷ "routing.rule_hit" ∷ "completeness.verdict" ∷ "completeness.gap_count"
    ∷ "extraction.min_confidence" ∷ "extraction.discarded_count" ∷ "procedure.tier1_enabled"
    ∷ "procedure.clear_cut" ∷ []

pub record QualifyingCondition : Type 0 where
  pub field : String
  pub op : Op
  pub value : Value

-- The validator of `field`.
unfoldable pub no_anomaly : QualifyingCondition → Result QualifyingCondition
unfolding one_of
no_anomaly c = do
  require (not (starts_with c.field "anomaly.")) value_error
  require (one_of c.field qualifying_fields) value_error
  ok c

pub record DowngradeCondition : Type 0 where
  pub field : String
  pub op : Op
  pub value : Value

-- DOWNGRADE_ANOMALY_FIELDS: the operators that a field may be tested by.
unfoldable pub allowed_op : String → Op → Option Bool
allowed_op name o =
    if str_eq name "anomaly.score"
    then some (elim o [ Op.gt ↦ true | Op.ge ↦ true | _ ↦ false ])
    else if str_eq name "anomaly.flagged"
    then some (elim o [ Op.eq ↦ true | _ ↦ false ])
    else none

abbrev pub is_true : Value → Bool
is_true (bool true) = true
is_true _ = false

abbrev pub permitted : Option Bool → Result (Unit {0})
permitted none = err value_error
permitted (some allowed) = require allowed value_error

unfoldable pub monotone_anomaly_only : DowngradeCondition → Result DowngradeCondition
unfolding allowed_op
monotone_anomaly_only c = do
  permitted (allowed_op c.field c.op)
  require (not (str_eq c.field "anomaly.flagged") || is_true c.value) value_error
  ok c

pub record DecisionRow : Type 0 where
  pub row_id : String
  pub tier : Tier
  pub when_all : List QualifyingCondition

-- `to_tier` has the one value 3 in the contract.
pub record DowngradeRule : Type 0 where
  pub row_id : String
  pub when_all : List DowngradeCondition
  pub reason_template : String

abbrev pub to_tier : DowngradeRule → Tier
to_tier rule = full_human_review

-- `default_tier` has the one value 3 in the contract.
pub record DecisionTable : Type 0 where
  pub version : String
  pub rows : List DecisionRow
  pub downgrades : List DowngradeRule

abbrev pub default_tier : DecisionTable → Tier
default_tier table = full_human_review

pub record ProcedureFlags : Type 0 where
  pub procedure_id : String
  pub tier1_enabled : Bool
  pub fully_automated : Bool

pub data ScorerMode : Type 0 where
  log_only enforcing : ScorerMode

pub record AnomalyThreshold : Type 0 where
  pub threshold_id : String
  pub value : Float
  pub calibrated_on : String

pub record AgencyRiskConfig : Type 0 where
  pub version : String
  pub scorer_mode : ScorerMode
  pub thresholds : List AnomalyThreshold
  pub downgrade_rate_budget : Float
  pub audit_sample_rate : Float
  pub review_due : Option String
  pub procedures : List ProcedureFlags

-- A routing rule's predicate is a YAML node.
pub record RoutingRule : Type 0 where
  pub rule_id : String
  pub unit_id : String
  pub priority : ℕ
  pub predicate : Value
  pub fixtures : List String

-- A table whose downgrade conditions passed their validator.
abbrev pub HasMonotoneDowngrades : List DowngradeRule → Type 0
HasMonotoneDowngrades rules =
    All
      (λ (rule : DowngradeRule).
        All (λ (c : DowngradeCondition). monotone_anomaly_only c ≡ ok c) rule.when_all)
      rules
