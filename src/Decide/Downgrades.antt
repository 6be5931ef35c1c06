-- ===== src/Decide/Downgrades.antt =====
-- The downgrade rules: evaluated whenever there is anomaly evidence, applied in enforcing mode.
use optimaler_status.Base.{
  Bool, true, ◌&&◌, Option, none, some, String, List, [], ◌∷◌, ◌++◌, if◌then◌else◌,
}
use optimaler_status.Base.Dict.{Dict}
use optimaler_status.Python.Result.{Result, ok, ◌>>=◌}
use optimaler_status.Python.Value.{Value, bool, float}
use optimaler_status.Predicate.Compare.{compare_op}
use optimaler_status.Predicate.Ast.{field_value, and_then}
use optimaler_status.Contracts.Common.{Tier, max_tier}
use optimaler_status.Contracts.Config.{DowngradeCondition, DowngradeRule, DecisionTable, to_tier}
use optimaler_status.Contracts.Anomaly.{AnomalyEvidence}
use optimaler_status.Contracts.Decision.{ReasonKind, DecisionReason, Detail, downgrade}

pub record DowngradeOutcome : Type 0 where
  pub rule_id : String
  pub to_tier : Tier
  pub fired : Bool
  pub applied : Bool
  pub detail : Option Detail

unfoldable pub resolve_anomaly_fields : AnomalyEvidence → Dict Value
resolve_anomaly_fields a =
    ("anomaly.score", float a.score) ∷ ("anomaly.flagged", bool a.flagged) ∷ []

unfoldable pub fires : List DowngradeCondition → Dict Value → Result Bool
unfolding compare_op field_value
fires [] fields = ok true
fires (c ∷ cs) fields =
    and_then (compare_op c.op (field_value fields c.field) c.value) (fires cs fields)

abbrev pub rule_outcome : DowngradeRule → AnomalyEvidence → Bool → Bool → DowngradeOutcome
rule_outcome rule a enforcing fired = record {
  rule_id = rule.row_id;
  to_tier = to_tier rule;
  fired = fired;
  applied = fired && enforcing;
  detail = if fired then some (downgrade rule.reason_template a enforcing) else none;
}

unfoldable pub rule_outcomes :
    AnomalyEvidence → Bool → List DowngradeRule → Result (List DowngradeOutcome)
unfolding fires resolve_anomaly_fields
rule_outcomes a enforcing [] = ok []
rule_outcomes a enforcing (rule ∷ rules) = do
  fired ← fires rule.when_all (resolve_anomaly_fields a)
  rest ← rule_outcomes a enforcing rules
  ok (rule_outcome rule a enforcing fired ∷ rest)

unfoldable pub evaluate_downgrades :
    Option AnomalyEvidence → DecisionTable → Bool → Result (List DowngradeOutcome)
unfolding rule_outcomes
evaluate_downgrades none table enforcing = ok []
evaluate_downgrades (some a) table enforcing = rule_outcomes a enforcing table.downgrades

-- The loop of `decide` over the outcomes: the tier, and the reasons that are appended.
unfoldable pub apply_outcomes : Tier → List DowngradeOutcome → Tier
apply_outcomes tier [] = tier
apply_outcomes tier (o ∷ os) =
    apply_outcomes (if o.applied then max_tier tier o.to_tier else tier) os

abbrev pub downgrade_reason : DowngradeOutcome → Detail → DecisionReason
downgrade_reason o text = record {
  kind = ReasonKind.downgraded;
  rule_id = o.rule_id;
  detail = text;
}

abbrev pub reason_of : Bool → DowngradeOutcome → Option Detail → List DecisionReason
reason_of true o (some text) = downgrade_reason o text ∷ []
reason_of _ o _ = []

unfoldable pub outcome_reasons : List DowngradeOutcome → List DecisionReason
outcome_reasons [] = []
outcome_reasons (o ∷ os) = reason_of o.applied o o.detail ++ outcome_reasons os
