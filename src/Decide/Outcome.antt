-- ===== src/Decide/Outcome.antt =====
-- How `decide` ends: with the record of the try block, or with that of the error rail.
use optimaler_status.Base.{
  ap, ◌≡◌, refl, true, inl, inr, List, [], ◌∷◌, ◌++◌, arith, le→leb, Option, if◌then◌else◌,
}
use optimaler_status.Base.Dict.{Dict}
use optimaler_status.Python.Result.{Result, Error, ok, err, Result-cases}
use optimaler_status.Python.Value.{Value}
use optimaler_status.Contracts.Common.{Tier, full_human_review, value, ◌⊑◌, max_tier}
use optimaler_status.Contracts.Config.{DecisionTable, DecisionRow, QualifyingCondition}
use optimaler_status.Contracts.Decision.{
  DecisionReason, DecisionRecord, AuditSample, is_nonempty, post_init,
}
use optimaler_status.Decide.Fields.{resolve_qualifying_fields}
use optimaler_status.Decide.Rows.{Verdict, evaluate_rows, failed_conditions, row_answer}
use optimaler_status.Decide.Downgrades.{
  DowngradeOutcome, evaluate_downgrades, apply_outcomes, outcome_reasons,
}
use optimaler_status.Decide.Sample.{Digest, evaluate_audit_sample}
use optimaler_status.Decide.Record.{
  Inputs, is_enforcing, sample_reasons, sampled_tier, new_record, evaluate_item, error_record,
  or_error_record, decide,
}

-- The three results that the try block is computed from.
abbrev pub rows_of : Inputs → Result Verdict
rows_of i =
    evaluate_rows i.table i.table.rows
      (resolve_qualifying_fields i.evidence i.flags i.clear_cut i.routing_sources)

abbrev pub downgrades_of : Inputs → Result (List DowngradeOutcome)
downgrades_of i = evaluate_downgrades i.anomaly i.table (is_enforcing i.risk.scorer_mode)

abbrev pub sample_of : Digest → Inputs → Result (Option AuditSample)
sample_of digest i =
    evaluate_audit_sample digest i.evidence.case_id i.risk.audit_sample_rate i.audit_salt

pub le-apply_outcomes : (t : Tier) (os : List DowngradeOutcome) → t ⊑ apply_outcomes t os
unfolding apply_outcomes
le-apply_outcomes t [] = omega arith
le-apply_outcomes t (o ∷ os) =
    ground (arith, le-apply_outcomes (if o.applied then max_tier t o.to_tier else t) os)

pub le-sampled_tier : (s : Option AuditSample) (t : Tier) → t ⊑ sampled_tier s t
le-sampled_tier s t = ground arith

row_answer_nonempty :
    (row : DecisionRow) (fields : Dict Value) (missed : List QualifyingCondition)
    (below : Result Verdict) (v : Verdict)
    → row_answer row fields missed below ≡ ok v
    → is_nonempty v.1 ≡ true
row_answer_nonempty row fields [] below v h = ground arith
row_answer_nonempty row fields (c ∷ cs) below v h = ground arith

-- The rows always give a reason.
pub evaluate_rows_reasons :
    (table : DecisionTable) (rows : List DecisionRow) (fields : Dict Value) (v : Verdict)
    → evaluate_rows table rows fields ≡ ok v
    → is_nonempty v.1 ≡ true
unfolding evaluate_rows
evaluate_rows_reasons table [] fields v h = ground arith
evaluate_rows_reasons table (row ∷ rows) fields v h =
    elim (Result-cases (failed_conditions row.when_all fields)) [
      | inl (missed, e) ↦
          row_answer_nonempty row fields missed (evaluate_rows table rows fields) v (rw e at h)
      | inr (x, e) ↦ let raised : ◌≡◌ {A = Result Verdict} (err x) (ok v) = rw e at h in cc
    ]

-- The tier from the three results: any exception means tier 3.
abbrev pub outcome_tier :
    Result Verdict → Result (List DowngradeOutcome) → Result (Option AuditSample) → Tier
outcome_tier (ok v) (ok os) (ok s) = sampled_tier s (apply_outcomes v.0 os)
outcome_tier (ok v) (ok os) (err e) = full_human_review
outcome_tier (ok v) (err e) s = full_human_review
outcome_tier (err e) os s = full_human_review

pub is_nonempty-append :
    (rs ss : List DecisionReason) → is_nonempty rs ≡ true → is_nonempty (rs ++ ss) ≡ true
is_nonempty-append [] ss h = ground arith
is_nonempty-append (r ∷ rs) ss h = refl

-- The record that the try block ends with.
abbrev pub record_of :
    Inputs → Verdict → List DowngradeOutcome → Option AuditSample → DecisionRecord
record_of i v os s =
    let tier = apply_outcomes v.0 os in
    new_record i (sampled_tier s tier) v.0 (v.1 ++ (outcome_reasons os ++ sample_reasons s tier))

-- The validation of a record with a reason and no better tier passes.
pub post_init_passes :
    (r : DecisionRecord)
    → is_nonempty r.reasons ≡ true
    → r.pre_downgrade_tier ⊑ r.tier
    → post_init r ≡ ok r
unfolding post_init
post_init_passes r h k = rw (h, le→leb (value r.pre_downgrade_tier) (value r.tier) k) refl

module _ (digest : Digest) (i : Inputs) where
  pub evaluate_item_ok :
      (v : Verdict) (os : List DowngradeOutcome) (s : Option AuditSample)
      → rows_of i ≡ ok v
      → downgrades_of i ≡ ok os
      → sample_of digest i ≡ ok s
      → evaluate_item digest i ≡ ok (record_of i v os s)
  unfolding evaluate_item
  evaluate_item_ok v os s p q r =
      rw (p, q, r)
        (post_init_passes (record_of i v os s)
          (is_nonempty-append v.1 _ (evaluate_rows_reasons i.table i.table.rows _ v p))
          (omega (arith, le-apply_outcomes v.0 os, le-sampled_tier s (apply_outcomes v.0 os))))

  pub decide_ok :
      (v : Verdict) (os : List DowngradeOutcome) (s : Option AuditSample)
      → rows_of i ≡ ok v
      → downgrades_of i ≡ ok os
      → sample_of digest i ≡ ok s
      → decide digest i ≡ record_of i v os s
  unfolding decide
  decide_ok v os s p q r = ap (or_error_record i) (evaluate_item_ok v os s p q r)

  pub decide_rows_err : (e : Error) → rows_of i ≡ err e → decide digest i ≡ error_record i e
  unfolding decide
  decide_rows_err e p = rw p refl

  pub decide_downgrades_err :
      (v : Verdict) (e : Error)
      → rows_of i ≡ ok v
      → downgrades_of i ≡ err e
      → decide digest i ≡ error_record i e
  unfolding decide
  decide_downgrades_err v e p q = rw (p, q) refl

  pub decide_sample_err :
      (v : Verdict) (os : List DowngradeOutcome) (e : Error)
      → rows_of i ≡ ok v
      → downgrades_of i ≡ ok os
      → sample_of digest i ≡ err e
      → decide digest i ≡ error_record i e
  unfolding decide
  decide_sample_err v os e p q r = rw (p, q, r) refl

  -- The ways a call of `decide` can end.
  pub data Ending : Type 0 where
    decided :
        (v : Verdict) (os : List DowngradeOutcome) (s : Option AuditSample)
        → rows_of i ≡ ok v
        → downgrades_of i ≡ ok os
        → sample_of digest i ≡ ok s
        → decide digest i ≡ record_of i v os s
        → Ending
    rows_raised : (e : Error) → rows_of i ≡ err e → decide digest i ≡ error_record i e → Ending
    downgrades_raised :
        (v : Verdict) (e : Error)
        → rows_of i ≡ ok v
        → downgrades_of i ≡ err e
        → decide digest i ≡ error_record i e
        → Ending
    sample_raised :
        (v : Verdict) (os : List DowngradeOutcome) (e : Error)
        → rows_of i ≡ ok v
        → downgrades_of i ≡ ok os
        → sample_of digest i ≡ err e
        → decide digest i ≡ error_record i e
        → Ending

  pub ending : Ending
  ending = elim (Result-cases (rows_of i)) [
    | inr (e, p) ↦ rows_raised e p (decide_rows_err e p)
    | inl (v, p) ↦ elim (Result-cases (downgrades_of i)) [
      | inr (e, q) ↦ downgrades_raised v e p q (decide_downgrades_err v e p q)
      | inl (os, q) ↦ elim (Result-cases (sample_of digest i)) [
        | inr (e, r) ↦ sample_raised v os e p q r (decide_sample_err v os e p q r)
        | inl (s, r) ↦ decided v os s p q r (decide_ok v os s p q r)
      ]
    ]
  ]

  decide_tier_of :
      Ending
      → (decide digest i).tier ≡ outcome_tier (rows_of i) (downgrades_of i) (sample_of digest i)
  decide_tier_of (decided v os s p q r h) = rw (h, p, q, r) refl
  decide_tier_of (rows_raised e p h) = rw (h, p) refl
  decide_tier_of (downgrades_raised v e p q h) = rw (h, p, q) refl
  decide_tier_of (sample_raised v os e p q r h) = rw (h, p, q, r) refl

  pub decide-tier :
      (decide digest i).tier ≡ outcome_tier (rows_of i) (downgrades_of i) (sample_of digest i)
  decide-tier = decide_tier_of ending
