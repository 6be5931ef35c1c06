-- ===== src/Evidence/Routing/Winner.antt =====
-- What the decision plane makes of an arbitration.
use optimaler_status.Base.{
  ◌≡◌, refl, Bool, true, false, Option, none, some, String, List, [], ◌∷◌, map, keep, if◌then◌else◌,
  sym, ap, ◌∙◌,
}
use optimaler_status.Python.Result.{ok, ok_injective, bind-ok}
use optimaler_status.Python.Float
use optimaler_status.Python.Float.{Float}
use optimaler_status.Python.Value.{float}
use optimaler_status.Predicate.Compare.{TextLib}
use optimaler_status.Predicate.Ast.{Context, field_value}
use optimaler_status.Contracts.Config.{ProcedureFlags}
use optimaler_status.Contracts.Evidence.{RoutingSuggestion, EvidenceRecord}
use optimaler_status.Decide.Fields.{
  admitted_routing_sources, is_admitted, best_suggestion, max_float, routed_unit,
  resolve_qualifying_fields, max_or_zero, confidence_of, best_unit,
}
use optimaler_status.Evidence.Routing.{
  Loaded, UnitCandidate, RoutingOutcome, rule_confidence, contested_confidence,
  alternative_confidence, is_contested, suggest, suggestions_of, outcome_of, matching_rules,
  arbitrate, winner_unit_id,
}

alternatives : List UnitCandidate → List RoutingSuggestion
alternatives cs = map (suggest alternative_confidence) cs

kept_alternatives :
    (cs : List UnitCandidate)
    → keep
        (λ (s : RoutingSuggestion). is_admitted admitted_routing_sources s.source)
        (map (suggest alternative_confidence) cs)
      ≡ map (suggest alternative_confidence) cs
unfolding keep is_admitted
kept_alternatives [] = refl
kept_alternatives (c ∷ cs) = ap (λ r. suggest alternative_confidence c ∷ r) (kept_alternatives cs)

-- No alternative is more confident than the winner.
best_is_first :
    (s : RoutingSuggestion) (cs : List UnitCandidate)
    → Float.lt s.confidence alternative_confidence ≡ false
    → best_suggestion s (map (suggest alternative_confidence) cs) ≡ s
unfolding best_suggestion
best_is_first s [] h = refl
best_is_first s (c ∷ cs) h =
    let other = suggest alternative_confidence c in
    ap (λ b. best_suggestion (if b then other else s) (map (suggest alternative_confidence) cs)) h
    ∙ best_is_first s cs h

max_is_first :
    (x : Float) (cs : List UnitCandidate)
    → Float.lt x alternative_confidence ≡ false
    → max_float x (map confidence_of (map (suggest alternative_confidence) cs)) ≡ x
unfolding max_float
max_is_first x [] h = refl
max_is_first x (c ∷ cs) h =
    ap
      (λ b.
        max_float (if b then alternative_confidence else x)
          (map confidence_of (map (suggest alternative_confidence) cs)))
      h
    ∙ max_is_first x cs h

abbrev winner_confidence : Bool → Float
winner_confidence contested = if contested then contested_confidence else rule_confidence

winner_above :
    (contested : Bool) → Float.lt (winner_confidence contested) alternative_confidence ≡ false
unfolding Float.lt
winner_above true = refl
winner_above false = refl

kept_suggestions :
    (contested : Bool) (cs : List UnitCandidate)
    → keep
        (λ (s : RoutingSuggestion). is_admitted admitted_routing_sources s.source)
        (suggestions_of contested cs)
      ≡ suggestions_of contested cs
unfolding keep is_admitted
kept_suggestions contested [] = refl
kept_suggestions contested (c ∷ cs) =
    ap (λ r. suggest (winner_confidence contested) c ∷ r) (kept_alternatives cs)

abbrev first_unit : List UnitCandidate → Option String
first_unit [] = none
first_unit (c ∷ cs) = some c.unit_id

best_unit-suggestions :
    (contested : Bool) (cs : List UnitCandidate)
    → best_unit (suggestions_of contested cs) ≡ first_unit cs
best_unit-suggestions contested [] = refl
best_unit-suggestions contested (c ∷ cs) =
    ap (λ (s : RoutingSuggestion). some s.unit_id)
      (best_is_first (suggest (winner_confidence contested) c) cs (winner_above contested))

first_unit_lem : (o : RoutingOutcome) → winner_unit_id o ≡ first_unit o.candidates
unfolding winner_unit_id
first_unit_lem o = go o.candidates
  where
    go :
        (cs : List UnitCandidate)
        → ◌≡◌ {A = Option String}
            (elim cs [ [] ↦ none | c ∷ rest ↦ some c.unit_id ])
            (first_unit cs)
    go [] = refl
    go (c ∷ cs) = refl

-- The confidence that the rows of the table read.
abbrev pub top_confidence : List UnitCandidate → Float
top_confidence [] = max_or_zero []
top_confidence (c ∷ cs) = if is_contested (c ∷ cs) then contested_confidence else rule_confidence

max-suggestions :
    (cs : List UnitCandidate)
    → max_or_zero (map confidence_of (suggestions_of (is_contested cs) cs)) ≡ top_confidence cs
max-suggestions [] = refl
max-suggestions (c ∷ cs) =
    max_is_first (winner_confidence (is_contested (c ∷ cs))) cs
      (winner_above (is_contested (c ∷ cs)))

-- The outcome's lists belong together.
pub arbitrate_form :
    (t : TextLib) (context : Context) (loaded : List Loaded) (o : RoutingOutcome)
    → arbitrate t context loaded ≡ ok o
    → o ≡ outcome_of o.candidates
unfolding arbitrate
arbitrate_form t context loaded o h =
    let (rules, p, q) = bind-ok (matching_rules t context loaded) _ h in
    rw (← (ok_injective q)) refl

abbrev pub with_outcome : EvidenceRecord → RoutingOutcome → EvidenceRecord
with_outcome e o = record e { routing = o.suggestions }

-- For evidence with the suggestions of an arbitration, and rules as the admitted source, the
-- decision plane's addressee is the winner of the arbitration, and the confidence that a row
-- reads is 1.0 where the winner stands alone on its priority, 0.6 where another unit shares it,
-- and 0.0 where no rule matched.
pub arbitrate_governs :
    (t : TextLib) (context : Context) (loaded : List Loaded) (o : RoutingOutcome)
    (e : EvidenceRecord) (flags : Option ProcedureFlags) (clear_cut : Bool)
    → arbitrate t context loaded ≡ ok o
    → (routed_unit (with_outcome e o) admitted_routing_sources ≡ winner_unit_id o)
      × (field_value
            (resolve_qualifying_fields (with_outcome e o) flags clear_cut admitted_routing_sources)
            "routing.confidence"
          ≡ float (top_confidence o.candidates))
unfolding routed_unit resolve_qualifying_fields field_value
arbitrate_governs t context loaded o e flags clear_cut h =
    let form = arbitrate_form t context loaded o h in
    let kept = kept_suggestions (is_contested o.candidates) o.candidates in
    (
      ap (λ (x : RoutingOutcome). routed_unit (with_outcome e x) admitted_routing_sources) form
          ∙ ap best_unit kept
          ∙ best_unit-suggestions (is_contested o.candidates) o.candidates
          ∙ sym (first_unit_lem o),
      ap
            (λ (x : RoutingOutcome). float (
              max_or_zero (
                map confidence_of (
                  keep (λ (s : RoutingSuggestion). is_admitted admitted_routing_sources s.source)
                    x.suggestions))))
            form
          ∙ ap (λ r. float (max_or_zero (map confidence_of r))) kept
          ∙ ap float (max-suggestions o.candidates),
    )
