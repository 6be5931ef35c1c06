-- ===== src/Evidence/Routing.antt =====
-- engine/evidence/routing.py: the routing rules that match, and the arbitration between units.
pub mod Order
pub mod Shuffle
pub mod Winner
pub mod Contested
pub mod Priority
use optimaler_status.Base.{
  ℕ, suc, ◌*◌, ◌^◌, ◌≤◌, ◌≡◌, refl, Bool, true, false, ◌&&◌, ◌||◌, Option, none, some, String, List,
  [], ◌∷◌, ◌++◌, map, ltb, leb, ◌==◌, if◌then◌else◌, str_eq,
}
use optimaler_status.Base.Int.{pos}
use optimaler_status.Base.Sorting.{sorted}
use optimaler_status.Base.TextOrder.{str_le}
use optimaler_status.Python.Result.{Result, ok, err, ◌>>=◌}
use optimaler_status.Python.Float.{Float, finite}
use optimaler_status.Predicate.Compare.{TextLib}
use optimaler_status.Predicate.Ast.{Context, Node, evaluate}
use optimaler_status.Predicate.Parse.{parse_predicate}
use optimaler_status.Contracts.Config.{RoutingRule}
use optimaler_status.Contracts.Evidence.{
  RoutingSource, RoutingSuggestion, RoutingConflict, ResolvedBy, ConflictDetail, same_priority,
  outranked,
}

-- 1.0, and the doubles nearest to 0.6 and 0.5
abbrev pub rule_confidence : Float
rule_confidence = finite (pos (2 ^ 1074))

abbrev pub contested_confidence : Float
contested_confidence = finite (pos (5404319552844595 * 2 ^ 1021))

abbrev pub alternative_confidence : Float
alternative_confidence = finite (pos (2 ^ 1073))

-- (p, s) <= (q, t), for the keys of rules and of units
unfoldable pub key_le : ℕ → String → ℕ → String → Bool
key_le p s q t = ltb p q || (p == q && str_le s t)

-- rule_order_key(a) <= rule_order_key(b)
abbrev pub rule_le : RoutingRule → RoutingRule → Bool
rule_le a b = key_le a.priority a.rule_id b.priority b.rule_id

pub record UnitCandidate : Type 0 where
  pub unit_id : String
  pub rule_ids : List String
  pub priority : ℕ

-- rule_ids[0]: a candidate has the rules that proposed it, so there is one.
abbrev pub first_id : List String → String
first_id [] = ""
first_id (r ∷ rs) = r

abbrev pub candidate_le : UnitCandidate → UnitCandidate → Bool
candidate_le a b = key_le a.priority (first_id a.rule_ids) b.priority (first_id b.rule_ids)

pub record RoutingOutcome : Type 0 where
  pub suggestions : List RoutingSuggestion
  pub candidates : List UnitCandidate
  pub contested : Bool

abbrev pub Loaded : Type 0
Loaded = RoutingRule × Node

-- RoutingEngine(rules)
unfoldable pub load_rules : TextLib → List RoutingRule → Result (List Loaded)
unfolding parse_predicate
load_rules t [] = ok []
load_rules t (rule ∷ rules) = do
  node ← parse_predicate t rule.predicate
  rest ← load_rules t rules
  ok ((rule, node) ∷ rest)

-- The rules whose predicate holds, in the order of the file.
unfoldable pub holding : TextLib → Context → List Loaded → Result (List RoutingRule)
holding t context [] = ok []
holding t context ((rule, node) ∷ loaded) = do
  holds ← evaluate t context node
  rest ← holding t context loaded
  ok (if holds then rule ∷ rest else rest)

unfoldable pub matching_rules : TextLib → Context → List Loaded → Result (List RoutingRule)
unfolding holding
matching_rules t context loaded = do rules ← holding t context loaded; ok (sorted rule_le rules)

-- A unit with the rules that proposed it, in the order of their arrival.
abbrev pub Group : Type 0
Group = String × List RoutingRule

-- by_unit.setdefault(rule.unit_id, []).append(rule)
unfoldable pub add_to_group : RoutingRule → List Group → List Group
add_to_group rule [] = (rule.unit_id, rule ∷ []) ∷ []
add_to_group rule ((unit, hits) ∷ groups) =
    if str_eq unit rule.unit_id
    then (unit, hits ++ rule ∷ []) ∷ groups
    else (unit, hits) ∷ add_to_group rule groups

unfoldable pub group_by_unit : List Group → List RoutingRule → List Group
unfolding add_to_group
group_by_unit groups [] = groups
group_by_unit groups (rule ∷ rules) = group_by_unit (add_to_group rule groups) rules

-- min(rule.priority for rule in hits), the first hit apart
unfoldable pub least_priority : ℕ → List RoutingRule → ℕ
least_priority p [] = p
least_priority p (rule ∷ rules) =
    least_priority (if ltb rule.priority p then rule.priority else p) rules

abbrev pub min_priority : List RoutingRule → ℕ
min_priority [] = 0
min_priority (rule ∷ rules) = least_priority rule.priority rules

abbrev pub id_of : RoutingRule → String
id_of rule = rule.rule_id

unfoldable pub candidate_of : Group → UnitCandidate
unfolding least_priority
candidate_of (unit, hits) = record {
  unit_id = unit;
  rule_ids = map id_of (sorted rule_le hits);
  priority = min_priority hits;
}

unfoldable pub candidates_of : List RoutingRule → List UnitCandidate
unfolding group_by_unit candidate_of
candidates_of rules = sorted candidate_le (map candidate_of (group_by_unit [] rules))

-- len(candidates) > 1 and the two best have one priority
abbrev pub is_contested : List UnitCandidate → Bool
is_contested (a ∷ b ∷ rest) = a.priority == b.priority
is_contested _ = false

abbrev pub suggest : Float → UnitCandidate → RoutingSuggestion
suggest confidence c = record {
  unit_id = c.unit_id;
  source = RoutingSource.rule;
  rule_ids = c.rule_ids;
  confidence = confidence;
  evidence_span = none;
}

abbrev pub suggestions_of : Bool → List UnitCandidate → List RoutingSuggestion
suggestions_of contested [] = []
suggestions_of contested (winner ∷ rest) =
    suggest (if contested then contested_confidence else rule_confidence) winner
    ∷ map (suggest alternative_confidence) rest

abbrev pub outcome_of : List UnitCandidate → RoutingOutcome
outcome_of candidates = record {
  suggestions = suggestions_of (is_contested candidates) candidates;
  candidates = candidates;
  contested = is_contested candidates;
}

unfoldable pub arbitrate : TextLib → Context → List Loaded → Result RoutingOutcome
unfolding matching_rules candidates_of
arbitrate t context loaded = do
  rules ← matching_rules t context loaded
  ok (outcome_of (candidates_of rules))

unfoldable pub winner_unit_id : RoutingOutcome → Option String
winner_unit_id o = elim o.candidates [ [] ↦ none | winner ∷ rest ↦ some winner.unit_id ]

abbrev conflict_detail : Bool → UnitCandidate → UnitCandidate → ConflictDetail
conflict_detail true a b = same_priority a.priority
conflict_detail false a b = outranked a.unit_id a.priority b.unit_id b.priority

abbrev pub unit_of : UnitCandidate → String
unit_of c = c.unit_id

abbrev conflicts_of : Bool → List UnitCandidate → List RoutingConflict
conflicts_of contested (a ∷ b ∷ rest) =
    record {
      unit_ids = map unit_of (a ∷ b ∷ rest);
      resolved_by = if contested then ResolvedBy.unresolved else ResolvedBy.priority;
      detail = some (conflict_detail contested a b);
    }
    ∷ []
conflicts_of contested _ = []

unfoldable pub as_conflicts : RoutingOutcome → List RoutingConflict
as_conflicts o = conflicts_of o.contested o.candidates
