-- ===== src/Decide/Rows.antt =====
-- The rows of the decision table: first match wins, in doubt tier 3.
use optimaler_status.Base.{Bool, false, String, List, [], ◌∷◌, map, if◌then◌else◌}
use optimaler_status.Base.Dict
use optimaler_status.Base.Dict.{Dict}
use optimaler_status.Python.Result.{Result, ok, ◌>>=◌}
use optimaler_status.Python.Value.{Value, null}
use optimaler_status.Predicate.Compare.{Op, compare_op}
use optimaler_status.Predicate.Ast.{field_value}
use optimaler_status.Contracts.Common.{Tier}
use optimaler_status.Contracts.Config.{
  QualifyingCondition, DecisionRow, DecisionTable, default_tier,
}
use optimaler_status.Contracts.Decision.{
  Observed, ReasonKind, DecisionReason, row_met, row_failed, no_row,
}

-- A value of None fails the condition before any comparison.
abbrev pub compare_resolved : Op → Value → Value → Result Bool
compare_resolved o null right = ok false
compare_resolved o left right = compare_op o left right

unfoldable pub condition_holds : QualifyingCondition → Dict Value → Result Bool
unfolding field_value compare_op
condition_holds c fields = compare_resolved c.op (field_value fields c.field) c.value

-- The conditions of a row that do not hold: every one is evaluated.
unfoldable pub failed_conditions :
    List QualifyingCondition → Dict Value → Result (List QualifyingCondition)
unfolding condition_holds
failed_conditions [] fields = ok []
failed_conditions (c ∷ cs) fields = do
  holds ← condition_holds c fields
  rest ← failed_conditions cs fields
  ok (if holds then rest else c ∷ rest)

abbrev pub observe : Dict Value → QualifyingCondition → Observed
observe fields c = (c, Dict.get fields c.field)

abbrev pub qualified_reason : DecisionRow → Dict Value → DecisionReason
qualified_reason row fields = record {
  kind = ReasonKind.qualified;
  rule_id = row.row_id;
  detail = row_met row.row_id row.tier (map (observe fields) row.when_all);
}

abbrev pub failed_reason : DecisionRow → List QualifyingCondition → Dict Value → DecisionReason
failed_reason row missed fields = record {
  kind = ReasonKind.failed;
  rule_id = row.row_id;
  detail = row_failed row.row_id row.tier (map (observe fields) missed);
}

abbrev pub default_row_id : String
default_row_id = "default"

abbrev pub default_reason : DecisionTable → DecisionReason
default_reason table = record {
  kind = ReasonKind.defaulted;
  rule_id = default_row_id;
  detail = no_row table.version (default_tier table);
}

abbrev pub Verdict : Type 0
Verdict = Tier × List DecisionReason

-- One more reason before those of the later rows.
abbrev pub after_reason : DecisionReason → Verdict → Verdict
after_reason r (tier, reasons) = (tier, r ∷ reasons)

-- What a row answers, from the conditions that it missed and the answer of the rows below.
abbrev pub row_answer :
    DecisionRow → Dict Value → List QualifyingCondition → Result Verdict → Result Verdict
row_answer row fields [] below = ok (row.tier, qualified_reason row fields ∷ [])
row_answer row fields (c ∷ cs) below = do
  verdict ← below
  ok (after_reason (failed_reason row (c ∷ cs) fields) verdict)

unfoldable pub evaluate_rows : DecisionTable → List DecisionRow → Dict Value → Result Verdict
unfolding failed_conditions
evaluate_rows table [] fields = ok (default_tier table, default_reason table ∷ [])
evaluate_rows table (row ∷ rows) fields =
    let below = evaluate_rows table rows fields in
    failed_conditions row.when_all fields >>= λ missed. row_answer row fields missed below
