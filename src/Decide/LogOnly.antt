-- ===== src/Decide/LogOnly.antt =====
-- Log-only mode: what the scorer found is journaled and governs nothing.
use optimaler_status.Base.{
  ◌≡◌, refl, Bool, true, false, List, [], ◌∷◌, All, Option, none, some, ◌∙◌, sym, Bool-cases, inl,
  inr, str_eq,
}
use optimaler_status.Python.Result.{Result, ok, err, Result-cases}
use optimaler_status.Predicate.Ast.{field_value}
use optimaler_status.Predicate.Totality.{Returns, IsRanged, compare_op-Returns, Returns-and_then}
use optimaler_status.Contracts.Common.{Tier}
use optimaler_status.Contracts.Config.{DowngradeCondition, DowngradeRule, log_only}
use optimaler_status.Contracts.Anomaly.{AnomalyEvidence}
use optimaler_status.Contracts.Decision.{AuditSample}
use optimaler_status.Decide.Downgrades.{
  DowngradeOutcome, resolve_anomaly_fields, fires, rule_outcomes, evaluate_downgrades,
  apply_outcomes, outcome_reasons,
}
use optimaler_status.Decide.Sample.{Digest}
use optimaler_status.Decide.Record.{Inputs, decide}
use optimaler_status.Decide.Rows.{Verdict}
use optimaler_status.Decide.Outcome.{
  rows_of, sample_of, downgrades_of, record_of, decide_ok, decide_rows_err, decide_sample_err,
}
use optimaler_status.Decide.Valve.{with_anomaly, with_rule}

-- No literal of a downgrade condition is an int past the largest float.
abbrev pub HasRangedDowngrades : List DowngradeRule → Type 0
HasRangedDowngrades rules =
    All (λ (rule : DowngradeRule). All (λ (c : DowngradeCondition). IsRanged c.value) rule.when_all)
      rules

anomaly_field-IsRanged :
    (a : AnomalyEvidence) (name : _) → IsRanged (field_value (resolve_anomaly_fields a) name)
unfolding field_value resolve_anomaly_fields
anomaly_field-IsRanged a name = elim (Bool-cases (str_eq "anomaly.score" name)) [
  | inl score ↦ rw (score, IsRanged) tt
  | inr other ↦ elim (Bool-cases (str_eq "anomaly.flagged" name)) [
    | inl flag ↦ rw (other, flag, IsRanged) tt
    | inr neither ↦ rw (other, neither, IsRanged) tt
  ]
]

fires-Returns :
    (a : AnomalyEvidence) (cs : List DowngradeCondition)
    → All (λ (c : DowngradeCondition). IsRanged c.value) cs
    → Returns (fires cs (resolve_anomaly_fields a))
unfolding fires
fires-Returns a [] h = tt
fires-Returns a (c ∷ cs) h =
    Returns-and_then _ _
      (compare_op-Returns c.op (field_value (resolve_anomaly_fields a) c.field) c.value
        (anomaly_field-IsRanged a c.field) h.0)
      (fires-Returns a cs h.1)

-- Outcomes of which none is applied leave the tier and add no reason.
abbrev NoneApplied : Result (List DowngradeOutcome) → Type 0
NoneApplied (ok os) = (All (λ (o : DowngradeOutcome). o.applied ≡ false) os)
NoneApplied (err e) = ⊥

apply_none :
    (t : Tier) (os : List DowngradeOutcome)
    → All (λ (o : DowngradeOutcome). o.applied ≡ false) os
    → (apply_outcomes t os ≡ t) × (outcome_reasons os ≡ [])
unfolding apply_outcomes outcome_reasons
apply_none t [] h = (refl, refl)
apply_none t (o ∷ os) h = rw (h.0) (apply_none t os h.1)

one_unapplied :
    (rule : DowngradeRule) (a : AnomalyEvidence) (fired : Result Bool)
    (later : Result (List DowngradeOutcome))
    → Returns fired
    → NoneApplied later
    → NoneApplied (with_rule rule a false fired later)
one_unapplied rule a (ok true) (ok os) h k = (refl, k)
one_unapplied rule a (ok false) (ok os) h k = (refl, k)
one_unapplied rule a (ok f) (err e) h k = absurd k
one_unapplied rule a (err e) later h k = absurd h

none_applied :
    (a : AnomalyEvidence) (rules : List DowngradeRule)
    → HasRangedDowngrades rules
    → NoneApplied (rule_outcomes a false rules)
unfolding rule_outcomes
none_applied a [] h = tt
none_applied a (rule ∷ rules) h =
    one_unapplied rule a (fires rule.when_all (resolve_anomaly_fields a))
      (rule_outcomes a false rules) (fires-Returns a rule.when_all h.0) (none_applied a rules h.1)

same_record :
    (i : Inputs) (v : Verdict) (os : List DowngradeOutcome) (s : Option AuditSample)
    → apply_outcomes v.0 os ≡ v.0
    → outcome_reasons os ≡ []
    → record_of i v os s ≡ record_of i v [] s
unfolding apply_outcomes outcome_reasons
same_record i v os s h k = rw (h, k) refl

module _ (digest : Digest) (i : Inputs) (a : AnomalyEvidence) where
  unapplied :
      (os : List DowngradeOutcome)
      → downgrades_of (with_anomaly i (some a)) ≡ ok os
      → downgrades_of (with_anomaly i none) ≡ ok []
      → All (λ (o : DowngradeOutcome). o.applied ≡ false) os
      → decide digest (with_anomaly i (some a)) ≡ decide digest (with_anomaly i none)
  unapplied os p q h = elim (Result-cases (rows_of i)) [
    | inr (e, r) ↦
        decide_rows_err digest (with_anomaly i (some a)) e r
        ∙ sym (decide_rows_err digest (with_anomaly i none) e r)
    | inl (v, r) ↦ elim (Result-cases (sample_of digest i)) [
      | inr (e, s) ↦
          decide_sample_err digest (with_anomaly i (some a)) v os e r p s
          ∙ sym (decide_sample_err digest (with_anomaly i none) v [] e r q s)
      | inl (s, t) ↦
          decide_ok digest (with_anomaly i (some a)) v os s r p t
          ∙ same_record i v os s (apply_none v.0 os h).0 (apply_none v.0 os h).1
          ∙ sym (decide_ok digest (with_anomaly i none) v [] s r q t)
    ]
  ]

  -- In log-only mode, where no literal of a downgrade condition is an int past the largest float,
  -- an item's whole decision record is the one that it gets without anomaly evidence.
  pub decide_log_only :
      i.risk.scorer_mode ≡ log_only
      → HasRangedDowngrades i.table.downgrades
      → decide digest (with_anomaly i (some a)) ≡ decide digest (with_anomaly i none)
  unfolding evaluate_downgrades
  decide_log_only mode h =
      go (rule_outcomes a false i.table.downgrades) refl (none_applied a i.table.downgrades h)
    where
      go :
          (r : Result (List DowngradeOutcome))
          → rule_outcomes a false i.table.downgrades ≡ r
          → NoneApplied r
          → decide digest (with_anomaly i (some a)) ≡ decide digest (with_anomaly i none)
      go (ok os) e k = unapplied os (rw mode e) refl k
      go (err x) e k = absurd k
