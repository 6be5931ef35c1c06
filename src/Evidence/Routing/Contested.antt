-- ===== src/Evidence/Routing/Contested.antt =====
-- About units that share a priority, in an arbitration and in the decision on its item.
use optimaler_status.Base.{◌≡◌, refl, true, false, List, [], ◌∷◌, arith, sym, ap, ◌∙◌, inl, inr}
use optimaler_status.Base.Dict.{Dict}
use optimaler_status.Python.Result.{ok}
use optimaler_status.Python.Float
use optimaler_status.Python.Float.{Float}
use optimaler_status.Python.Value.{Value, float}
use optimaler_status.Predicate.Compare.{Op, TextLib}
use optimaler_status.Predicate.Ast.{Context, field_value}
use optimaler_status.Contracts.Common.{full_human_review, tier_cases}
use optimaler_status.Contracts.Config.{QualifyingCondition, DecisionRow}
use optimaler_status.Decide.Fields.{admitted_routing_sources}
use optimaler_status.Decide.Rows.{condition_holds}
use optimaler_status.Decide.Sample.{Digest}
use optimaler_status.Decide.Record.{Inputs, decide}
use optimaler_status.Decide.FirstMatch.{AllHold}
use optimaler_status.Decide.Clearance.{fields_of, Listed, first, later, decide-IsCleared}
use optimaler_status.Evidence.Routing.{
  Loaded, RoutingOutcome, UnitCandidate, contested_confidence, is_contested, arbitrate,
}
use optimaler_status.Evidence.Routing.Winner.{
  with_outcome, top_confidence, arbitrate_governs, arbitrate_form,
}

-- A condition of the list asks for a routing confidence above that of a contested winner.
pub data Demands : List QualifyingCondition → Type 0 where
  demands_here :
      (x : Float) {c : QualifyingCondition} {cs : List QualifyingCondition}
      → c ≡ record { field = "routing.confidence"; op = Op.ge; value = float x }
      → Float.le x contested_confidence ≡ false
      → Demands (c ∷ cs)
  demands_later :
      {c : QualifyingCondition} {cs : List QualifyingCondition} → Demands cs → Demands (c ∷ cs)

-- Every row below tier 3 does.
pub data DemandsRouting : List DecisionRow → Type 0 where
  no_rows : DemandsRouting []
  full_row :
      (row : DecisionRow) {rows : List DecisionRow}
      → row.tier ≡ full_human_review
      → DemandsRouting rows
      → DemandsRouting (row ∷ rows)
  demanding_row :
      (row : DecisionRow) {rows : List DecisionRow}
      → Demands row.when_all
      → DemandsRouting rows
      → DemandsRouting (row ∷ rows)

unmet :
    (fields : Dict Value) (x : Float) (c : QualifyingCondition)
    → c ≡ record { field = "routing.confidence"; op = Op.ge; value = float x }
    → field_value fields "routing.confidence" ≡ float contested_confidence
    → Float.le x contested_confidence ≡ false
    → condition_holds c fields ≡ ok false
unfolding condition_holds
unmet fields x c e h k = rw (e, h, k) refl

Demands-AllHold :
    (fields : Dict Value) {cs : List QualifyingCondition}
    → field_value fields "routing.confidence" ≡ float contested_confidence
    → Demands cs
    → ¬ AllHold fields cs
Demands-AllHold fields h (demands_here x {c = c} e k) all = cc (unmet fields x c e h k, all.0)
Demands-AllHold fields h (demands_later d) all = Demands-AllHold fields h d all.1

Listed-DemandsRouting :
    (fields : Dict Value) {rows : List DecisionRow} (row : DecisionRow)
    → field_value fields "routing.confidence" ≡ float contested_confidence
    → DemandsRouting rows
    → Listed row rows
    → AllHold fields row.when_all
    → row.tier ≡ full_human_review
Listed-DemandsRouting fields row h no_rows l all = elim l [ ]
Listed-DemandsRouting fields row h (full_row _ t d) first all = t
Listed-DemandsRouting fields row h (demanding_row _ r d) first all =
    absurd (Demands-AllHold fields h r all)
Listed-DemandsRouting fields row h (full_row _ t d) (later l) all =
    Listed-DemandsRouting fields row h d l all
Listed-DemandsRouting fields row h (demanding_row _ r d) (later l) all =
    Listed-DemandsRouting fields row h d l all

top_contested :
    (cs : List UnitCandidate) → is_contested cs ≡ true → top_confidence cs ≡ contested_confidence
top_contested [] h = ground arith
top_contested (c ∷ cs) h = rw h refl

-- The item with the suggestions of an arbitration and no others, where only rules are admitted.
abbrev pub routed_item : Inputs → RoutingOutcome → Inputs
routed_item i o = record i {
  evidence = with_outcome i.evidence o;
  routing_sources = admitted_routing_sources;
}

-- Where every row below tier 3 demands a routing confidence above 0.6, as both rows of the shipped
-- table do, only suggestions of rules are admitted, and the suggestions of the item are those of the
-- arbitration and no others, an item whose two best units share a priority goes to tier 3.
pub decide_contested :
    (t : TextLib) (context : Context) (loaded : List Loaded) (o : RoutingOutcome) (digest : Digest)
    (i : Inputs)
    → arbitrate t context loaded ≡ ok o
    → o.contested ≡ true
    → DemandsRouting i.table.rows
    → (decide digest (routed_item i o)).tier ≡ full_human_review
decide_contested t context loaded o digest i h k d =
    elim (tier_cases (decide digest (routed_item i o)).tier) [
      | inl full ↦ full
      | inr below ↦
          let q = (decide-IsCleared digest (routed_item i o) below).qualified in
          let reads = (arbitrate_governs t context loaded o i.evidence i.flags i.clear_cut h).1 in
          let contested : is_contested o.candidates ≡ true =
            sym (ap (λ (x : RoutingOutcome). x.contested) (arbitrate_form t context loaded o h))
            ∙ k in
          sym q.grants
          ∙ Listed-DemandsRouting (fields_of (routed_item i o)) q.row
              (reads ∙ ap float (top_contested o.candidates contested)) d q.listed q.holds
    ]
