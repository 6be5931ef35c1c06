-- ===== src/Decide/Valve.antt =====
-- The one-way valve: anomaly evidence can add oversight and can never remove it.
use optimaler_status.Base.{
  ◌≡◌, refl, Bool, true, List, [], ◌∷◌, arith, Option, none, some, if◌then◌else◌,
}
use optimaler_status.Python.Result.{Result, Error, ok, err, ◌>>=◌}
use optimaler_status.Contracts.Common.{Tier, ◌⊑◌, max_tier, ⊑-full}
use optimaler_status.Contracts.Config.{DowngradeRule, HasMonotoneDowngrades}
use optimaler_status.Contracts.Anomaly.{AnomalyEvidence}
use optimaler_status.Contracts.Decision.{AuditSample}
use optimaler_status.Decide.Rows.{Verdict}
use optimaler_status.Decide.Downgrades.{
  DowngradeOutcome, rule_outcome, rule_outcomes, apply_outcomes, evaluate_downgrades,
}
use optimaler_status.Decide.Monotone.{
  IsRaised, Rises, was_false, still_true, still_raised, fires-Rises,
}
use optimaler_status.Decide.Sample.{Digest}
use optimaler_status.Decide.Record.{Inputs, decide, sampled_tier, is_enforcing}
use optimaler_status.Decide.Outcome.{
  decide-tier, outcome_tier, rows_of, sample_of, downgrades_of, le-apply_outcomes,
}

-- The outcomes of the same rules: each one applied before is applied now, and an exception
-- before is one now.
data OutcomesRise : Result (List DowngradeOutcome) → Result (List DowngradeOutcome) → Type 0 where
  raised_now : {r : Result (List DowngradeOutcome)} {e : Error} → OutcomesRise r (err e)
  none_left : OutcomesRise (ok []) (ok [])
  one_more :
      (o p : DowngradeOutcome) (os ps : List DowngradeOutcome)
      → (o.applied ≡ true → p.applied ≡ true)
      → o.to_tier ≡ p.to_tier
      → OutcomesRise (ok os) (ok ps)
      → OutcomesRise (ok (o ∷ os)) (ok (p ∷ ps))

-- One rule more: its own result, then those of the rules after it.
abbrev pub with_rule :
    DowngradeRule
    → AnomalyEvidence
    → Bool
    → Result Bool
    → Result (List DowngradeOutcome)
    → Result (List DowngradeOutcome)
with_rule rule a enforcing fired later = do
  f ← fired
  rest ← later
  ok (rule_outcome rule a enforcing f ∷ rest)

raised_last :
    (rule : DowngradeRule) (b : AnomalyEvidence) (enforcing : Bool) (q : Result Bool) (e : Error)
    (r : Result (List DowngradeOutcome))
    → OutcomesRise r (with_rule rule b enforcing q (err e))
raised_last rule b enforcing (ok f) e r = raised_now
raised_last rule b enforcing (err x) e r = raised_now

with_rule-OutcomesRise :
    (rule : DowngradeRule) (a b : AnomalyEvidence) (enforcing : Bool) {p q : Result Bool}
    {r s : Result (List DowngradeOutcome)}
    → Rises p q
    → OutcomesRise r s
    → OutcomesRise (with_rule rule a enforcing p r) (with_rule rule b enforcing q s)
with_rule-OutcomesRise rule a b enforcing {q = q} h (raised_now {e = e}) =
    raised_last rule b enforcing q e _
with_rule-OutcomesRise rule a b enforcing (was_false {r = err e}) k = raised_now
with_rule-OutcomesRise rule a b enforcing (was_false {r = ok f}) none_left =
    one_more _ _ [] [] (λ x. ground arith) refl none_left
with_rule-OutcomesRise rule a b enforcing (was_false {r = ok f}) (one_more o p os ps x y z) =
    one_more _ _ _ _ (λ x. ground arith) refl (one_more o p os ps x y z)
with_rule-OutcomesRise rule a b enforcing still_true none_left =
    one_more _ _ [] [] (λ x. x) refl none_left
with_rule-OutcomesRise rule a b enforcing still_true (one_more o p os ps x y z) =
    one_more _ _ _ _ (λ x. x) refl (one_more o p os ps x y z)
with_rule-OutcomesRise rule a b enforcing still_raised k = raised_now

rule_outcomes-OutcomesRise :
    (a b : AnomalyEvidence) (enforcing : Bool) (rules : List DowngradeRule)
    → IsRaised a b
    → HasMonotoneDowngrades rules
    → OutcomesRise (rule_outcomes a enforcing rules) (rule_outcomes b enforcing rules)
unfolding rule_outcomes
rule_outcomes-OutcomesRise a b enforcing [] h k = none_left
rule_outcomes-OutcomesRise a b enforcing (rule ∷ rules) h k =
    with_rule-OutcomesRise rule a b enforcing (fires-Rises a b rule.when_all h k.0)
      (rule_outcomes-OutcomesRise a b enforcing rules h k.1)

abbrev step_tier : Tier → DowngradeOutcome → Tier
step_tier t o = if o.applied then max_tier t o.to_tier else t

step_tier_rises :
    (t u : Tier) (o p : DowngradeOutcome)
    → (o.applied ≡ true → p.applied ≡ true)
    → o.to_tier ≡ p.to_tier
    → t ⊑ u
    → step_tier t o ⊑ step_tier u p
step_tier_rises t u o p h e k = ground arith

apply_rises :
    {os ps : List DowngradeOutcome} (t u : Tier)
    → t ⊑ u
    → OutcomesRise (ok os) (ok ps)
    → apply_outcomes t os ⊑ apply_outcomes u ps
unfolding apply_outcomes
apply_rises t u h none_left = h
apply_rises t u h (one_more o p os ps x y z) =
    apply_rises (step_tier t o) (step_tier u p) (step_tier_rises t u o p x y h) z

sampled_tier_mono :
    (s : Option AuditSample) (t u : Tier) → t ⊑ u → sampled_tier s t ⊑ sampled_tier s u
sampled_tier_mono s t u h = ground arith

outcome_tier_rises :
    (v : Result Verdict) {r q : Result (List DowngradeOutcome)} (s : Result (Option AuditSample))
    → OutcomesRise r q
    → outcome_tier v r s ⊑ outcome_tier v q s
outcome_tier_rises (err e) s h = omega arith
outcome_tier_rises (ok v) s (raised_now {r = r}) = ⊑-full (outcome_tier (ok v) r s)
outcome_tier_rises (ok v) (err e) none_left = omega arith
outcome_tier_rises (ok v) (ok s) none_left = omega arith
outcome_tier_rises (ok v) (err e) (one_more o p os ps x y z) = omega arith
outcome_tier_rises (ok v) (ok s) (one_more o p os ps x y z) =
    sampled_tier_mono s _ _
      (apply_rises {os = o ∷ os} {ps = p ∷ ps} v.0 v.0 (omega arith) (one_more o p os ps x y z))

abbrev pub with_anomaly : Inputs → Option AnomalyEvidence → Inputs
with_anomaly i a = record i { anomaly = a }

-- With downgrade conditions that passed their validator, an item that is given a higher anomaly
-- score, or a flag, is never decided to a tier with less oversight; the modes, the audit sample
-- and the exceptions on the way are included.
pub decide_monotone :
    (digest : Digest) (i : Inputs) (a b : AnomalyEvidence)
    → HasMonotoneDowngrades i.table.downgrades
    → IsRaised a b
    → (decide digest (with_anomaly i (some a))).tier
      ⊑ (decide digest (with_anomaly i (some b))).tier
unfolding evaluate_downgrades
decide_monotone digest i a b h k =
    rw (decide-tier digest (with_anomaly i (some a)), decide-tier digest (with_anomaly i (some b)))
      (outcome_tier_rises (rows_of i) (sample_of digest i)
        (rule_outcomes-OutcomesRise a b (is_enforcing i.risk.scorer_mode) i.table.downgrades k h))

from_nothing :
    (v : Result Verdict) (r : Result (List DowngradeOutcome)) (s : Result (Option AuditSample))
    → outcome_tier v (ok []) s ⊑ outcome_tier v r s
unfolding apply_outcomes
from_nothing (err e) r s = omega arith
from_nothing (ok v) (err e) s = ⊑-full (outcome_tier (ok v) (ok []) s)
from_nothing (ok v) (ok os) (err e) = omega arith
from_nothing (ok v) (ok os) (ok s) =
    sampled_tier_mono s v.0 (apply_outcomes v.0 os) (le-apply_outcomes v.0 os)

-- Anomaly evidence, whatever the rules make of it, never gives a tier with less oversight than
-- no anomaly evidence.
pub anomaly_only_adds :
    (digest : Digest) (i : Inputs) (a : AnomalyEvidence)
    → (decide digest (with_anomaly i none)).tier ⊑ (decide digest (with_anomaly i (some a))).tier
unfolding evaluate_downgrades
anomaly_only_adds digest i a =
    rw (decide-tier digest (with_anomaly i none), decide-tier digest (with_anomaly i (some a)))
      (from_nothing (rows_of i) (downgrades_of (with_anomaly i (some a))) (sample_of digest i))
