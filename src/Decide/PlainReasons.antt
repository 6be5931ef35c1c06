-- ===== src/Decide/PlainReasons.antt =====
-- About the reasons of a record that are no draws of the audit sample.
use optimaler_status.Base.{
  subst, ◌≡◌, ◌≢◌, ◌||◌, arith, refl, Bool, true, false, ◌&&◌, inl, inr, List, [], ◌∷◌, ◌++◌, All,
  Option, some, none, str_eq, Bool-cases, String,
}
use optimaler_status.Base.Dict.{Dict}
use optimaler_status.Python.Result.{ok, bind-ok, ok_injective}
use optimaler_status.Python.Value.{Value, str, py_eq}
use optimaler_status.Contracts.Common.{Tier}
use optimaler_status.Contracts.Config.{
  DecisionTable, DecisionRow, DowngradeRule, QualifyingCondition,
}
use optimaler_status.Contracts.Anomaly.{AnomalyEvidence}
use optimaler_status.Contracts.Decision.{DecisionReason, ReasonKind, AuditSample, Detail}
use optimaler_status.Decide.Rows.{Verdict, evaluate_rows, failed_conditions, row_answer}
use optimaler_status.Decide.Downgrades.{
  DowngradeOutcome, evaluate_downgrades, rule_outcomes, fires, outcome_reasons, reason_of,
}
use optimaler_status.Decide.Sample.{
  KindObject, member, journaled, kind_value, is_audit_sample_reason, is_sampleable,
  audit_sample_rule_id,
}
use optimaler_status.Decide.Record.{sample_reasons, is_drawn}

-- How a reader is given the kind of a reason: the member of the enumeration, or its value.
pub data IsReading : (ReasonKind → KindObject) → Type 0 where
  by_member : IsReading member
  by_value : IsReading (λ k. journaled (str (kind_value k)))

-- any(is_audit_sample_reason(reason.kind, reason.rule_id) for reason in reasons)
abbrev pub any_draw : (ReasonKind → KindObject) → List DecisionReason → Bool
any_draw kind [] = false
any_draw kind (r ∷ reasons) =
    is_audit_sample_reason (kind r.kind) (str r.rule_id) || any_draw kind reasons

-- No downgrade rule has the id that is kept for the audit sample.
abbrev pub IsOther : DowngradeRule → Type 0
IsOther rule = str_eq rule.row_id audit_sample_rule_id ≡ false

abbrev IsOtherOutcome : DowngradeOutcome → Type 0
IsOtherOutcome o = str_eq o.rule_id audit_sample_rule_id ≡ false

rule_outcomes-IsOtherOutcome :
    (a : AnomalyEvidence) (on : Bool) (rules : List DowngradeRule) (os : List DowngradeOutcome)
    → All IsOther rules
    → rule_outcomes a on rules ≡ ok os
    → All IsOtherOutcome os
unfolding rule_outcomes
rule_outcomes-IsOtherOutcome a on [] os h k = subst (All IsOtherOutcome) (ok_injective k) tt
rule_outcomes-IsOtherOutcome a on (rule ∷ rules) os h k =
    let (fired, p, q) = bind-ok (fires rule.when_all _) _ k in
    let (rest, r, s) = bind-ok (rule_outcomes a on rules) _ q in
    subst (All IsOtherOutcome) (ok_injective s)
      (h.0, rule_outcomes-IsOtherOutcome a on rules rest h.1 r)

pub evaluate_downgrades-IsOtherOutcome :
    (anomaly : Option AnomalyEvidence) (table : DecisionTable) (on : Bool)
    (os : List DowngradeOutcome)
    → All IsOther table.downgrades
    → evaluate_downgrades anomaly table on ≡ ok os
    → All IsOtherOutcome os
unfolding evaluate_downgrades
evaluate_downgrades-IsOtherOutcome none table on os h k =
    subst (All IsOtherOutcome) (ok_injective k) tt
evaluate_downgrades-IsOtherOutcome (some a) table on os h k =
    rule_outcomes-IsOtherOutcome a on table.downgrades os h k

module _ (kind : ReasonKind → KindObject) (reading : IsReading kind) where
  abbrev IsPlain : DecisionReason → Type 0
  IsPlain r = is_audit_sample_reason (kind r.kind) (str r.rule_id) ≡ false

  plain_kind :
      (k : ReasonKind) (id : String)
      → k ≢ ReasonKind.sampled
      → (k ≡ ReasonKind.downgraded → str_eq id audit_sample_rule_id ≡ false)
      → is_audit_sample_reason (kind k) (str id) ≡ false
  unfolding is_audit_sample_reason py_eq
  plain_kind k id h g = read reading k h g
    where
      read :
          {read_kind : ReasonKind → KindObject}
          → IsReading read_kind
          → (k : ReasonKind) → k ≢ ReasonKind.sampled
          → (k ≡ ReasonKind.downgraded → str_eq id audit_sample_rule_id ≡ false)
          → is_audit_sample_reason (read_kind k) (str id) ≡ false
      read by_member ReasonKind.qualified h g = refl
      read by_member ReasonKind.failed h g = refl
      read by_member ReasonKind.downgraded h g = g refl
      read by_member ReasonKind.defaulted h g = refl
      read by_member ReasonKind.error h g = refl
      read by_member ReasonKind.sampled h g = absurd (h refl)
      read by_value ReasonKind.qualified h g = refl
      read by_value ReasonKind.failed h g = refl
      read by_value ReasonKind.downgraded h g = g refl
      read by_value ReasonKind.defaulted h g = refl
      read by_value ReasonKind.error h g = refl
      read by_value ReasonKind.sampled h g = absurd (h refl)

  sampled_kind : (value : Value) → is_audit_sample_reason (kind ReasonKind.sampled) value ≡ true
  unfolding is_audit_sample_reason
  sampled_kind value = read reading
    where
      read :
          {read_kind : ReasonKind → KindObject}
          → IsReading read_kind
          → is_audit_sample_reason (read_kind ReasonKind.sampled) value ≡ true
      read by_member = refl
      read by_value = refl

  pub any_draw-plain :
      (reasons : List DecisionReason) → All IsPlain reasons → any_draw kind reasons ≡ false
  any_draw-plain [] h = refl
  any_draw-plain (r ∷ reasons) h = ground (arith, h.0, any_draw-plain reasons h.1)

  -- Reasons that no reader takes for a draw stand before others.
  pub any_draw-append :
      (xs ys : List DecisionReason) → All IsPlain xs → any_draw kind (xs ++ ys) ≡ any_draw kind ys
  any_draw-append [] ys h = refl
  any_draw-append (x ∷ xs) ys h = ground (arith, h.0, any_draw-append xs ys h.1)

  pub plain_row :
      (k : ReasonKind) (id : String)
      → k ≢ ReasonKind.sampled
      → k ≢ ReasonKind.downgraded
      → is_audit_sample_reason (kind k) (str id) ≡ false
  plain_row k id h g = plain_kind k id h (λ e. absurd (g e))

  pub evaluate_rows-IsPlain :
      (table : DecisionTable) (rows : List DecisionRow) (fields : Dict Value) (v : Verdict)
      → evaluate_rows table rows fields ≡ ok v
      → All IsPlain v.1
  unfolding evaluate_rows
  evaluate_rows-IsPlain table [] fields v h =
      subst (λ (x : Verdict). All IsPlain x.1) (ok_injective h)
        (plain_row ReasonKind.defaulted _ (λ e. cc e) (λ e. cc e), tt)
  evaluate_rows-IsPlain table (row ∷ rows) fields v h =
      let (missed, p, q) = bind-ok (failed_conditions row.when_all fields) _ h in
      go missed q (evaluate_rows-IsPlain table rows fields)
    where
      go :
          (missed : List QualifyingCondition)
          → row_answer row fields missed (evaluate_rows table rows fields) ≡ ok v
          → ((w : Verdict) → evaluate_rows table rows fields ≡ ok w → All IsPlain w.1)
          → All IsPlain v.1
      go [] q ih =
          subst (λ (x : Verdict). All IsPlain x.1) (ok_injective q)
            (plain_row ReasonKind.qualified _ (λ e. cc e) (λ e. cc e), tt)
      go (c ∷ cs) q ih =
          let (w, r, s) = bind-ok (evaluate_rows table rows fields) _ q in
          subst (λ (x : Verdict). All IsPlain x.1) (ok_injective s)
            (plain_row ReasonKind.failed _ (λ e. cc e) (λ e. cc e), ih w r)

  All-IsPlain-append :
      (xs ys : List DecisionReason) → All IsPlain xs → All IsPlain ys → All IsPlain (xs ++ ys)
  All-IsPlain-append [] ys h k = k
  All-IsPlain-append (x ∷ xs) ys h k = (h.0, All-IsPlain-append xs ys h.1 k)

  reason_of-IsPlain :
      (applied : Bool) (o : DowngradeOutcome) (detail : Option Detail)
      → IsOtherOutcome o
      → All IsPlain (reason_of applied o detail)
  reason_of-IsPlain true o (some text) h =
      (plain_kind ReasonKind.downgraded _ (λ e. cc e) (λ e. h), tt)
  reason_of-IsPlain true o none h = tt
  reason_of-IsPlain false o detail h = tt

  pub outcome_reasons-IsPlain :
      (os : List DowngradeOutcome) → All IsOtherOutcome os → All IsPlain (outcome_reasons os)
  unfolding outcome_reasons
  outcome_reasons-IsPlain [] h = tt
  outcome_reasons-IsPlain (o ∷ os) h =
      All-IsPlain-append (reason_of o.applied o o.detail) (outcome_reasons os)
        (reason_of-IsPlain o.applied o o.detail h.0) (outcome_reasons-IsPlain os h.1)

  pub any_draw-sample_reasons :
      (s : Option AuditSample) (tier : Tier)
      → any_draw kind (sample_reasons s tier) ≡ is_drawn s tier
  any_draw-sample_reasons none tier = refl
  any_draw-sample_reasons (some s) tier = elim (Bool-cases (s.sampled && is_sampleable tier)) [
    | inl p ↦ rw p (ground (arith, sampled_kind (str audit_sample_rule_id)))
    | inr p ↦ rw p refl
  ]
