-- ===== src/Decide/Clearance.antt =====
-- What it takes to be cleared below tier 3.
use optimaler_status.Base.{
  ◌≡◌, refl, ◌≢◌, Bool, false, ◌⊎◌, inl, inr, List, [], ◌∷◌, All, arith, Option, none, some, ap,
  ◌∙◌, Bool-cases,
}
use optimaler_status.Base.Dict.{Dict}
use optimaler_status.Python.Result.{ok, bind-ok, ok_injective}
use optimaler_status.Python.Value.{Value}
use optimaler_status.Contracts.Common.{Tier, full_human_review, max_tier}
use optimaler_status.Contracts.Config.{DecisionRow, DowngradeRule}
use optimaler_status.Contracts.Anomaly.{AnomalyEvidence}
use optimaler_status.Contracts.Decision.{AuditSample, DecisionRecord}
use optimaler_status.Decide.Fields.{resolve_qualifying_fields}
use optimaler_status.Decide.Rows.{Verdict}
use optimaler_status.Decide.Downgrades.{
  DowngradeOutcome, fires, resolve_anomaly_fields, rule_outcomes, evaluate_downgrades,
  apply_outcomes,
}
use optimaler_status.Decide.Sample.{Digest}
use optimaler_status.Decide.Record.{Inputs, decide, sampled_tier, is_drawn}
use optimaler_status.Decide.Outcome.{
  rows_of, downgrades_of, sample_of, Ending, decided, rows_raised, downgrades_raised, sample_raised,
  ending,
}
use optimaler_status.Decide.FirstMatch.{
  Mark, AllHold, FirstMatch, no_match, matched, skipped, evaluate_rows-FirstMatch,
}

abbrev pub fields_of : Inputs → Dict Value
fields_of i = resolve_qualifying_fields i.evidence i.flags i.clear_cut i.routing_sources

-- A row of the list, by its place.
pub data Listed (row : DecisionRow) : List DecisionRow → Type 0 where
  first : {rows : List DecisionRow} → Listed row (row ∷ rows)
  later :
      {other : DecisionRow} {rows : List DecisionRow} → Listed row rows → Listed row (other ∷ rows)

-- A row of the table with this tier, all of whose conditions hold.
pub record Qualifies (fields : Dict Value) (rows : List DecisionRow) (tier : Tier) : Type 0 where
  pub row : DecisionRow
  pub listed : Listed row rows
  pub grants : row.tier ≡ tier
  pub holds : AllHold fields row.when_all

Qualifies-later :
    {fields : Dict Value} {rows : List DecisionRow} {tier : Tier} (other : DecisionRow)
    → Qualifies fields rows tier
    → Qualifies fields (other ∷ rows) tier
Qualifies-later other q = record {
  row = q.row;
  listed = later q.listed;
  grants = q.grants;
  holds = q.holds;
}

FirstMatch-Qualifies :
    (fields : Dict Value) {rows : List DecisionRow} {tier : Tier} {marks : List Mark}
    → FirstMatch fields rows tier marks
    → (tier ≡ full_human_review) ⊎ Qualifies fields rows tier
FirstMatch-Qualifies fields no_match = inl refl
FirstMatch-Qualifies fields (matched row rows h) =
    inr (record { row = row; listed = first; grants = refl; holds = h })
FirstMatch-Qualifies fields (skipped row rows h m) = elim (FirstMatch-Qualifies fields m) [
  | inl full ↦ inl full
  | inr q ↦ inr (Qualifies-later row q)
]

abbrev AllFull : List DowngradeOutcome → Type 0
AllFull os = All (λ (o : DowngradeOutcome). o.to_tier ≡ full_human_review) os

abbrev pub Unapplied : List DowngradeOutcome → Type 0
Unapplied os = All (λ (o : DowngradeOutcome). o.applied ≡ false) os

rule_outcomes_full :
    (a : AnomalyEvidence) (enforcing : Bool) (rules : List DowngradeRule)
    (os : List DowngradeOutcome)
    → rule_outcomes a enforcing rules ≡ ok os
    → AllFull os
unfolding rule_outcomes
rule_outcomes_full a enforcing [] os h = rw (← (ok_injective h)) tt
rule_outcomes_full a enforcing (rule ∷ rules) os h =
    let (fired, p, q) = bind-ok (fires rule.when_all (resolve_anomaly_fields a)) _ h in
    let (rest, r, s) = bind-ok (rule_outcomes a enforcing rules) _ q in
    rw (← (ok_injective s)) (refl, rule_outcomes_full a enforcing rules rest r)

downgrades_full :
    (i : Inputs) (a : Option AnomalyEvidence) (os : List DowngradeOutcome) (enforcing : Bool)
    → evaluate_downgrades a i.table enforcing ≡ ok os
    → AllFull os
unfolding evaluate_downgrades
downgrades_full i none os enforcing h = rw (← (ok_injective h)) tt
downgrades_full i (some a) os enforcing h = rule_outcomes_full a enforcing i.table.downgrades os h

stays_full :
    (os : List DowngradeOutcome)
    → AllFull os
    → apply_outcomes full_human_review os ≡ full_human_review
unfolding apply_outcomes
stays_full [] h = refl
stays_full (o ∷ os) h = ground (arith, stays_full os h.1)

max_tier-full : (t : Tier) → max_tier t full_human_review ≡ full_human_review
max_tier-full t = ground arith

not_full :
    (t : Tier) (os : List DowngradeOutcome)
    → AllFull os
    → apply_outcomes t os ≢ full_human_review
    → (apply_outcomes t os ≡ t) × Unapplied os
unfolding apply_outcomes
not_full t [] h k = (refl, tt)
not_full t (o ∷ os) h k = elim (Bool-cases o.applied) [
  | inr unapplied ↦
      let p = not_full t os h.1 (rw unapplied at k) in (rw unapplied p.0, (unapplied, p.1))
  | inl applied ↦ absurd (k (rw (applied, h.0, max_tier-full t) (stays_full os h.1)))
]

undrawn :
    (s : Option AuditSample) (t : Tier)
    → sampled_tier s t ≢ full_human_review
    → (sampled_tier s t ≡ t) × (is_drawn s t ≡ false)
undrawn s t h = elim (Bool-cases (is_drawn s t)) [
  | inr kept ↦ (rw kept refl, kept)
  | inl drawn ↦ absurd (h (rw (drawn, max_tier-full t) refl))
]

-- How an item came by a tier below 3.
pub record IsCleared (digest : Digest) (i : Inputs) : Type 0 where
  pub qualified : Qualifies (fields_of i) i.table.rows (decide digest i).tier
  pub outcomes : List DowngradeOutcome
  pub evaluated : downgrades_of i ≡ ok outcomes
  pub unapplied : Unapplied outcomes
  pub sample : Option AuditSample
  pub taken : sample_of digest i ≡ ok sample
  pub undrawn : is_drawn sample (decide digest i).tier ≡ false

decided-IsCleared :
    (digest : Digest) (i : Inputs) (v : Verdict) (os : List DowngradeOutcome)
    (s : Option AuditSample)
    → rows_of i ≡ ok v
    → downgrades_of i ≡ ok os
    → sample_of digest i ≡ ok s
    → (decide digest i).tier ≡ sampled_tier s (apply_outcomes v.0 os)
    → (decide digest i).tier ≢ full_human_review
    → IsCleared digest i
decided-IsCleared digest i v os s p q r t h =
    let (kept, missed) = undrawn s (apply_outcomes v.0 os) (rw t at h) in
    let (same, none_applied) =
      not_full v.0 os (downgrades_full i i.anomaly os _ q) (rw (t, kept) at h) in
    let tier : (decide digest i).tier ≡ v.0 = t ∙ kept ∙ same in
    elim (FirstMatch-Qualifies (fields_of i) (evaluate_rows-FirstMatch i.table (fields_of i) v p)) [
      | inl full ↦ absurd (h (tier ∙ full))
      | inr q' ↦ record {
        qualified = rw tier q';
        outcomes = os;
        evaluated = q;
        unapplied = none_applied;
        sample = s;
        taken = r;
        undrawn = rw (t, kept) missed;
      }
    ]

-- An item that is decided below tier 3 met every condition of a row of the table with that very
-- tier, no downgrade was applied to it, and the audit sample did not draw it.
pub decide-IsCleared :
    (digest : Digest) (i : Inputs) → (decide digest i).tier ≢ full_human_review → IsCleared digest i
decide-IsCleared digest i h = go (ending digest i)
  where
    go : Ending digest i → IsCleared digest i
    go (decided v os s p q r e) =
        decided-IsCleared digest i v os s p q r (ap (λ (x : DecisionRecord). x.tier) e) h
    go (rows_raised e p k) = absurd (h (ap (λ (x : DecisionRecord). x.tier) k))
    go (downgrades_raised v e p q k) = absurd (h (ap (λ (x : DecisionRecord). x.tier) k))
    go (sample_raised v os e p q r k) = absurd (h (ap (λ (x : DecisionRecord). x.tier) k))
