-- ===== src/Evidence/ClearCut.antt =====
-- engine/evidence/clearcut.py: a procedure's criteria for its simple variant.
use optimaler_status.Base.{Bool, false, Option, none, some, String}
use optimaler_status.Python.Result.{Result, ok, ◌>>=◌}
use optimaler_status.Python.Value.{Value}
use optimaler_status.Predicate.Compare.{TextLib}
use optimaler_status.Predicate.Ast.{Context, evaluate}
use optimaler_status.Predicate.Parse.{parse_predicate}

pub record ClearCutCriteria : Type 0 where
  pub criteria_id : String
  pub description : String
  pub predicate : Value

unfoldable pub evaluate_clear_cut : TextLib → Option ClearCutCriteria → Context → Result Bool
unfolding parse_predicate
evaluate_clear_cut t none context = ok false
evaluate_clear_cut t (some criteria) context = do
  predicate ← parse_predicate t criteria.predicate
  evaluate t context predicate
