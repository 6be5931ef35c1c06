-- ===== src/Evidence/Tests.antt =====
-- Runs of the evidence plane, and its theorems at inputs that meet their hypotheses.
use mathlib.Core.List.{Permᴰ}
use optimaler_status.Base.{
  ℕ, ◌≡◌, refl, true, false, none, some, String, [], ◌∷◌, All, str_eq, eq_iff,
}
use optimaler_status.Base.TextOrder.{str_le}
use optimaler_status.Base.Dict.{Dict}
use optimaler_status.Base.Sorting.{sorted}
use optimaler_status.Python.Result.{ok}
use optimaler_status.Python.Float.{le}
use optimaler_status.Python.Value.{null, str, mapping, field, end}
use optimaler_status.Predicate.Compare.{eq, op, TextLib}
use optimaler_status.Predicate.Ast.{Context, Node, comparison, evaluate}
use optimaler_status.Contracts.Common.{full_human_review}
use optimaler_status.Contracts.Config.{enforcing}
use optimaler_status.Contracts.Evidence.{
  complete, DerivationSource, HintStatus, derived_from_content, hint_contradicts,
}
use optimaler_status.Decide.Record.{decide}
use optimaler_status.Decide.Tests.Shipped.{item, digest, nine_tenths}
use optimaler_status.Evidence.Routing.{
  Loaded, RoutingOutcome, UnitCandidate, arbitrate, winner_unit_id, matching_rules, holding,
  candidates_of, outcome_of, key_le,
}
use optimaler_status.Evidence.Routing.Shuffle.{arbitrate-perm}
use optimaler_status.Evidence.Routing.Contested.{
  routed_item, demands_here, no_rows, demanding_row, demands_later, decide_contested,
}
use optimaler_status.Evidence.Routing.Priority.{NotAhead, arbitrate_winner}
use optimaler_status.Evidence.ClearCut.{ClearCutCriteria, evaluate_clear_cut}
use optimaler_status.Evidence.Derive.{ProcedureConfig, ProcedureDerivation, derive_procedure}

abbrev plain : TextLib
plain = record { casefold = λ s. s; compile = λ p. some (λ s. str_eq p s) }

abbrev asks_for : String → Node
asks_for art = comparison "payload.art" (op eq) (str art)

abbrev routing_rule : String → String → ℕ → Loaded
routing_rule id unit n = (
  record { rule_id = id; unit_id = unit; priority = n; predicate = null; fixtures = [] },
  asks_for "altersrente",
)

abbrev first_rule : Loaded
first_rule = routing_rule "b_rule" "unit_b" 10

abbrev second_rule : Loaded
second_rule = routing_rule "a_rule" "unit_a" 10

abbrev context : Context
context = ("payload.art", str "altersrente") ∷ []

abbrev tied : RoutingOutcome
tied = outcome_of (candidates_of (second_rule.0 ∷ first_rule.0 ∷ []))

tied_run : arbitrate plain context (first_rule ∷ second_rule ∷ []) ≡ ok tied
unfolding arbitrate matching_rules holding evaluate sorted key_le str_le
tied_run = refl

tied_winner : winner_unit_id tied ≡ some "unit_a"
unfolding winner_unit_id candidates_of sorted key_le str_le
tied_winner = refl

arbitrate-perm_example : arbitrate plain context (second_rule ∷ first_rule ∷ []) ≡ ok tied
arbitrate-perm_example =
    arbitrate-perm plain context tied (Permᴰ.swap refl refl)
      ((λ e. cc ((eq_iff "b_rule" "a_rule").1 e), tt), (tt, tt)) tied_run

tied_rules :
    matching_rules plain context (first_rule ∷ second_rule ∷ [])
    ≡ ok (second_rule.0 ∷ first_rule.0 ∷ [])
unfolding matching_rules holding evaluate sorted key_le str_le
tied_rules = refl

abbrev tied_unit : UnitCandidate
tied_unit = record { unit_id = "unit_a"; rule_ids = "a_rule" ∷ []; priority = 10 }

arbitrate_winner_example : All (NotAhead tied_unit) (second_rule.0 ∷ first_rule.0 ∷ [])
unfolding candidates_of sorted key_le str_le
arbitrate_winner_example =
    arbitrate_winner plain context (first_rule ∷ second_rule ∷ []) tied _ tied_unit _ tied_run
      tied_rules refl

decide_contested_example :
    (decide digest (routed_item (item enforcing complete none) tied)).tier ≡ full_human_review
unfolding candidates_of sorted key_le str_le le
decide_contested_example =
    decide_contested plain context (first_rule ∷ second_rule ∷ []) tied digest
      (item enforcing complete none) tied_run refl
      (demanding_row _ (demands_later (demands_here nine_tenths refl refl))
        (demanding_row _ (demands_later (demands_here nine_tenths refl refl)) no_rows))

abbrev procedures : Dict ProcedureConfig
procedures =
    ("altersrente", record { derivation_predicate = some (asks_for "altersrente") })
    ∷ ("reha", record { derivation_predicate = some (asks_for "reha") })
    ∷ []

abbrev from_content : ProcedureDerivation
from_content = record {
  procedure_id = some "altersrente";
  source = DerivationSource.content;
  hint = none;
  hint_status = HintStatus.absent;
  candidates = "altersrente" ∷ [];
  ambiguous = false;
  hint_contradicted = false;
  detail = derived_from_content "altersrente" HintStatus.absent none;
}

-- A hint that the content contradicts names no procedure.
contradicted_run :
    derive_procedure plain context (some "reha") procedures
    ≡ ok (record {
      procedure_id = none;
      source = DerivationSource.none_found;
      hint = some "reha";
      hint_status = HintStatus.known;
      candidates = "altersrente" ∷ [];
      ambiguous = false;
      hint_contradicted = true;
      detail = hint_contradicts "reha" ("altersrente" ∷ []);
    })
unfolding derive_procedure evaluate sorted
contradicted_run = refl

-- Criteria that hold, and none.
abbrev criteria : ClearCutCriteria
criteria = record {
  criteria_id = "simple";
  description = "";
  predicate = mapping (
      field "field" (str "payload.art")
        (field "op" (str "eq") (field "value" (str "altersrente") end)));
}

clear_cut_run : evaluate_clear_cut plain (some criteria) context ≡ ok true
unfolding evaluate_clear_cut evaluate
clear_cut_run = refl

no_criteria_run : evaluate_clear_cut plain none context ≡ ok false
unfolding evaluate_clear_cut
no_criteria_run = refl
