-- ===== src/Decide/Fields.antt =====
-- The routing evidence that may govern a decision, and the fields that a condition may read.
use optimaler_status.Base.{
  Bool, true, false, ◌||◌, Option, none, some, String, List, [], ◌∷◌, map, length, keep,
  if◌then◌else◌,
}
use optimaler_status.Base.Int.{pos}
use optimaler_status.Base.Dict.{Dict}
use optimaler_status.Python.Float
use optimaler_status.Python.Float.{Float, finite}
use optimaler_status.Python.Value.{Value, null, bool, int, float, str}
use optimaler_status.Contracts.Config.{ProcedureFlags}
use optimaler_status.Contracts.Evidence.{
  RoutingSource, rule, classifier, RoutingSuggestion, EvidenceRecord, verdict_value,
}

abbrev pub same_source : RoutingSource → RoutingSource → Bool
same_source rule rule = true
same_source classifier classifier = true
same_source _ _ = false

-- source in sources
unfoldable pub is_admitted : List RoutingSource → RoutingSource → Bool
is_admitted [] s = false
is_admitted (a ∷ sources) s = same_source s a || is_admitted sources s

-- ADMITTED_ROUTING_SOURCES
abbrev pub admitted_routing_sources : List RoutingSource
admitted_routing_sources = rule ∷ []

unfoldable pub admitted_routing : EvidenceRecord → List RoutingSource → List RoutingSuggestion
admitted_routing evidence sources =
    keep (λ (s : RoutingSuggestion). is_admitted sources s.source) evidence.routing

-- max(xs) for a list that starts with `best`: the first of the greatest.
unfoldable pub max_float : Float → List Float → Float
unfolding Float.lt
max_float best [] = best
max_float best (x ∷ xs) = max_float (if Float.lt best x then x else best) xs

abbrev pub max_or_zero : List Float → Float
max_or_zero [] = finite (pos 0)
max_or_zero (x ∷ xs) = max_float x xs

abbrev pub confidence_of : RoutingSuggestion → Float
confidence_of s = s.confidence

-- any(suggestion.source is RULE)
unfoldable pub has_rule_hit : List RoutingSuggestion → Bool
has_rule_hit [] = false
has_rule_hit (s ∷ rest) = same_source s.source rule || has_rule_hit rest

abbrev pub optional_float : Option Float → Value
optional_float none = null
optional_float (some x) = float x

abbrev pub flag_value : Option ProcedureFlags → Bool
flag_value none = false
flag_value (some flags) = flags.tier1_enabled

unfoldable pub resolve_qualifying_fields :
    EvidenceRecord → Option ProcedureFlags → Bool → List RoutingSource → Dict Value
unfolding admitted_routing max_float has_rule_hit
resolve_qualifying_fields evidence flags clear_cut sources =
    let routing = admitted_routing evidence sources in
    ("routing.confidence", float (max_or_zero (map confidence_of routing)))
    ∷ ("routing.rule_hit", bool (has_rule_hit routing))
    ∷ ("completeness.verdict", str (verdict_value evidence.completeness.verdict))
    ∷ ("completeness.gap_count", int (pos (length evidence.completeness.gaps)))
    ∷ ("extraction.min_confidence", optional_float evidence.extraction_min_confidence)
    ∷ ("extraction.discarded_count", int (pos evidence.extraction_discarded_count))
    ∷ ("procedure.tier1_enabled", bool (flag_value flags))
    ∷ ("procedure.clear_cut", bool clear_cut)
    ∷ []

-- max(routing, key=confidence): the first of the most confident.
unfoldable pub best_suggestion : RoutingSuggestion → List RoutingSuggestion → RoutingSuggestion
unfolding Float.lt
best_suggestion best [] = best
best_suggestion best (s ∷ rest) =
    best_suggestion (if Float.lt best.confidence s.confidence then s else best) rest

abbrev pub best_unit : List RoutingSuggestion → Option String
best_unit [] = none
best_unit (s ∷ rest) = some (best_suggestion s rest).unit_id

unfoldable pub routed_unit : EvidenceRecord → List RoutingSource → Option String
unfolding admitted_routing best_suggestion
routed_unit evidence sources = best_unit (admitted_routing evidence sources)
