-- ===== src/Decide/AuditReasons.antt =====
-- About the reader of a record's reasons, and the draws of the audit sample.
use optimaler_status.Base.{
  subst, ◌≡◌, ◌≢◌, ◌↔◌, ◌||◌, sym, ap, ◌∙◌, arith, some_injective, refl, true, false, inl, inr,
  List, ◌++◌, All, Option, some, none, Bool-cases,
}
use optimaler_status.Python.Result.{Result, Error, ok, bind-ok, ok_injective}
use optimaler_status.Python.Float.{lt, le, finite}
use optimaler_status.Base.Int.{pos}
use optimaler_status.Contracts.Common.{
  Tier, clear_and_complete, incomplete_but_routable, full_human_review,
}
use optimaler_status.Contracts.Decision.{ReasonKind, AuditSample}
use optimaler_status.Decide.Rows.{Verdict}
use optimaler_status.Decide.Downgrades.{DowngradeOutcome, apply_outcomes, outcome_reasons}
use optimaler_status.Decide.Sample.{
  Digest, KindObject, evaluate_audit_sample, audit_sample_draw, is_blank, text_of, is_sampleable,
}
use optimaler_status.Decide.Record.{Inputs, sample_reasons, is_drawn, error_record, decide}
use optimaler_status.Decide.Outcome.{
  Ending, decided, rows_raised, downgrades_raised, sample_raised, ending, rows_of, downgrades_of,
  sample_of,
}
use optimaler_status.Decide.PlainReasons.{
  IsReading, any_draw, IsOther, plain_row, any_draw-plain, any_draw-append, evaluate_rows-IsPlain,
  outcome_reasons-IsPlain, evaluate_downgrades-IsOtherOutcome, any_draw-sample_reasons,
}

-- The item was drawn: nothing raised, the sample was evaluated and its draw is below the rate, and
-- the tier that the rows and the downgrades give is one that is sampled.
pub record IsDrawn (digest : Digest) (i : Inputs) : Type 0 where
  pub verdict : Verdict
  pub outcomes : List DowngradeOutcome
  pub sample : AuditSample
  pub rows : rows_of i ≡ ok verdict
  pub downgrades : downgrades_of i ≡ ok outcomes
  pub evaluated : sample_of digest i ≡ ok (some sample)
  pub below : lt sample.draw sample.rate ≡ true
  pub cleared : apply_outcomes verdict.0 outcomes ≢ full_human_review

-- A sample that was evaluated is drawn where its draw is below the rate.
sampled-below :
    (digest : Digest) (i : Inputs) (s : AuditSample)
    → sample_of digest i ≡ ok (some s)
    → s.sampled ≡ lt s.draw s.rate
unfolding evaluate_audit_sample
sampled-below digest i s h =
    let rate = i.risk.audit_sample_rate in
    elim (Bool-cases (le rate (finite (pos 0)) || is_blank i.audit_salt)) [
      | inl off ↦
          let none_drawn : ◌≡◌ {A = Result (Option AuditSample)} (ok none) (ok (some s)) =
            rw off at h in
          absurd (cc none_drawn)
      | inr on ↦
          let made = rw on at h in
          let (draw, p, q) =
            bind-ok (audit_sample_draw digest i.evidence.case_id (text_of i.audit_salt)) _ made in
          let same = some_injective (ok_injective q) in
          subst (λ (x : AuditSample). x.sampled ≡ lt x.draw x.rate) same refl
    ]

cleared_iff : (tier : Tier) → (is_sampleable tier ≡ true) ↔ (tier ≢ full_human_review)
cleared_iff clear_and_complete = (λ h e. cc e, λ h. refl)
cleared_iff incomplete_but_routable = (λ h e. cc e, λ h. refl)
cleared_iff full_human_review = (λ h. absurd (cc h), λ h. absurd (h refl))

module _ (digest : Digest) (i : Inputs) where
  sampled_item-IsDrawn :
      (v : Verdict) (os : List DowngradeOutcome) (s : Option AuditSample)
      → rows_of i ≡ ok v
      → downgrades_of i ≡ ok os
      → sample_of digest i ≡ ok s
      → is_drawn s (apply_outcomes v.0 os) ≡ true
      → IsDrawn digest i
  sampled_item-IsDrawn v os none p q r h = absurd (cc h)
  sampled_item-IsDrawn v os (some s) p q r h = record {
    verdict = v;
    outcomes = os;
    sample = s;
    rows = p;
    downgrades = q;
    evaluated = r;
    below = sym (sampled-below digest i s r) ∙ ground (arith, h);
    cleared = (cleared_iff (apply_outcomes v.0 os)).0 (ground (arith, h));
  }

  IsDrawn-sampled_item :
      (v : Verdict) (os : List DowngradeOutcome) (s : Option AuditSample)
      → rows_of i ≡ ok v
      → downgrades_of i ≡ ok os
      → sample_of digest i ≡ ok s
      → IsDrawn digest i
      → is_drawn s (apply_outcomes v.0 os) ≡ true
  IsDrawn-sampled_item v os s p q r d =
      let same_rows : d.verdict ≡ v = ok_injective (sym d.rows ∙ p) in
      let same_outcomes : d.outcomes ≡ os = ok_injective (sym d.downgrades ∙ q) in
      let same_sample : some d.sample ≡ s = ok_injective (sym d.evaluated ∙ r) in
      let drawn : d.sample.sampled ≡ true = sampled-below digest i d.sample d.evaluated ∙ d.below in
      let cleared = (cleared_iff (apply_outcomes d.verdict.0 d.outcomes)).1 d.cleared in
      let here : is_drawn (some d.sample) (apply_outcomes d.verdict.0 d.outcomes) ≡ true =
        ground (arith, drawn, cleared) in
      rw (sym same_rows, sym same_outcomes, sym same_sample) here

-- Where no downgrade rule of the table has the id audit_sample, a reader of a decision record, who is
-- given the kinds of its reasons as members of the enumeration or as their values, finds the reason
-- of a draw if and only if the item was drawn: nothing raised, the evaluated draw is below the
-- rate, and the rows and the downgrades give a tier below 3.
pub decide-Recognised :
    (digest : Digest) (i : Inputs) (kind : ReasonKind → KindObject)
    → IsReading kind
    → All IsOther i.table.downgrades
    → (any_draw kind (decide digest i).reasons ≡ true) ↔ IsDrawn digest i
decide-Recognised digest i kind reading h = go (ending digest i)
  where
    raised : (e : Error) → any_draw kind (error_record i e).reasons ≡ false
    raised e =
        any_draw-plain kind reading (error_record i e).reasons
          (plain_row kind reading ReasonKind.error _ (λ e. cc e) (λ e. cc e), tt)

    found :
        (v : Verdict) (os : List DowngradeOutcome) (s : Option AuditSample)
        → rows_of i ≡ ok v
        → downgrades_of i ≡ ok os
        → any_draw kind (v.1 ++ (outcome_reasons os ++ sample_reasons s (apply_outcomes v.0 os)))
          ≡ is_drawn s (apply_outcomes v.0 os)
    found v os s p q =
        any_draw-append kind reading v.1 _
          (evaluate_rows-IsPlain kind reading i.table i.table.rows _ v p)
        ∙ any_draw-append kind reading (outcome_reasons os) _ (
            outcome_reasons-IsPlain kind reading os
              (evaluate_downgrades-IsOtherOutcome i.anomaly i.table _ os h q))
        ∙ any_draw-sample_reasons kind reading s (apply_outcomes v.0 os)

    go : Ending digest i → (any_draw kind (decide digest i).reasons ≡ true) ↔ IsDrawn digest i
    go (decided v os s p q r d) =
        let reads = ap (λ x. any_draw kind x.reasons) d ∙ found v os s p q in
        (
          λ found. sampled_item-IsDrawn digest i v os s p q r (sym reads ∙ found),
          λ drawn. reads ∙ IsDrawn-sampled_item digest i v os s p q r drawn,
        )
    go (rows_raised e p d) = (
      λ found. absurd (cc (found, ap (λ x. any_draw kind x.reasons) d ∙ raised e)),
      λ drawn. absurd (cc (drawn.rows, p)),
    )
    go (downgrades_raised v e p q d) = (
      λ found. absurd (cc (found, ap (λ x. any_draw kind x.reasons) d ∙ raised e)),
      λ drawn. absurd (cc (drawn.downgrades, q)),
    )
    go (sample_raised v os e p q r d) = (
      λ found. absurd (cc (found, ap (λ x. any_draw kind x.reasons) d ∙ raised e)),
      λ drawn. absurd (cc (drawn.evaluated, r)),
    )
