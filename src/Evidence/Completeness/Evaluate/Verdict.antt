-- ===== src/Evidence/Completeness/Evaluate/Verdict.antt =====
-- The verdict is complete if and only if every requirement is met.
use optimaler_status.Base.{
  ◌≡◌, refl, sym, ap, ◌∙◌, subst, false, Option, none, some, String, List, [], ◌∷◌, Bool-cases, inl,
  inr, ◌↔◌, All,
}
use optimaler_status.Base.Dict
use optimaler_status.Base.Dict.{Dict}
use optimaler_status.Python.Text.{Text, is_empty, strip}
use optimaler_status.Python.Result.{ok, ◌>>=◌, bind-ok, ok_injective}
use optimaler_status.Contracts.Evidence.{complete, missing, CompletenessEvidence}
use optimaler_status.Extract.Records.{ExtractionRecord}
use optimaler_status.Evidence.Completeness.Messages.{Failure, Gap, value_missing}
use optimaler_status.Evidence.Completeness.CrossField.{validation_problem}
use optimaler_status.Evidence.Completeness.Evaluate.{
  RequirementKind, field_kind, document_kind, Requirement, RequirementList, Setting, resolve_value,
  by_field, resolve_all, gap, failure_gap, check_resolved, check_record, check_requirement,
  with_gap, check_all, gaps_of, verdict_of, evaluate_completeness,
}

-- The requirement asks for a field, which has a record whose value is not blank, resolves, and passes
-- every check.
pub record IsMet (s : Setting) (values : Dict Text) (found : Dict ExtractionRecord)
    (q : Requirement) : Type 0 where
  pub entry : ExtractionRecord
  pub value : Text
  pub asks_field : q.kind ≡ field_kind
  pub is_there : Dict.get found q.requirement_id ≡ some entry
  pub not_blank : is_empty (strip entry.value) ≡ false
  pub resolves : resolve_value s.witness entry.value ≡ ok (some value)
  pub passes :
      validation_problem s.parsers q.validation value values s.sealed q.requirement_id ≡ ok none

module _ (s : Setting) (values : Dict Text) (found : Dict ExtractionRecord) where
  failure_gap-none :
      (q : Requirement) (r : ExtractionRecord) (f : Option Failure)
      → failure_gap s q r f ≡ none
      → f ≡ none
  failure_gap-none q r none h = refl
  failure_gap-none q r (some f) h = absurd (cc h)

  check_resolved-none :
      (q : Requirement) (r : ExtractionRecord) (o : Option Text)
      → check_resolved s values q r o ≡ ok none
      → (value : Text) × (o ≡ some value)
        × (validation_problem s.parsers q.validation value values s.sealed q.requirement_id
            ≡ ok none)
  unfolding check_resolved
  check_resolved-none q r none h = absurd (cc (ok_injective h))
  check_resolved-none q r (some value) h =
      let (f, e, k) =
        bind-ok (validation_problem s.parsers q.validation value values s.sealed q.requirement_id) _
          h in
      (value, refl, e ∙ ap ok (failure_gap-none q r f (ok_injective k)))

  check_requirement-IsMet :
      (q : Requirement) (o : Option ExtractionRecord) (kind : RequirementKind)
      → q.kind ≡ kind
      → Dict.get found q.requirement_id ≡ o
      → check_requirement s values q o kind ≡ ok none
      → IsMet s values found q
  unfolding check_requirement check_record
  check_requirement-IsMet q o document_kind k e h = absurd (cc (ok_injective h))
  check_requirement-IsMet q none field_kind k e h = absurd (cc (ok_injective h))
  check_requirement-IsMet q (some r) field_kind k e h =
      elim (Bool-cases (is_empty (strip r.value))) [
        | inl b ↦
            let blank : check_record s values q (some r)
                ≡ ok (some (gap s q missing none (value_missing q.description))) =
              rw b refl in
            absurd (cc (ok_injective (sym blank ∙ h)))
        | inr b ↦
            let resolved : (resolve_value s.witness r.value >>= check_resolved s values q r)
                ≡ ok none =
              sym (rw b refl) ∙ h in
            let (o, known, checked) = bind-ok (resolve_value s.witness r.value) _ resolved in
            let (value, is_value, passes) = check_resolved-none q r o checked in
            record {
              entry = r;
              value = value;
              asks_field = k;
              is_there = e;
              not_blank = b;
              resolves = known ∙ ap ok is_value;
              passes = passes;
            }
      ]

  IsMet-check_requirement :
      (q : Requirement)
      → IsMet s values found q
      → check_requirement s values q (Dict.get found q.requirement_id) q.kind ≡ ok none
  unfolding check_requirement check_record check_resolved
  IsMet-check_requirement q h =
      rw (h.is_there, h.asks_field, h.not_blank, h.resolves, h.passes) refl

  check_all-IsMet :
      (requirements : List Requirement)
      → (check_all s values found requirements ≡ ok []) ↔ All (IsMet s values found) requirements
  unfolding check_all
  check_all-IsMet [] = (λ h. tt, λ h. refl)
  check_all-IsMet (q ∷ requirements) = (
    λ h.
        let (g, checked, h1) =
          bind-ok (check_requirement s values q (Dict.get found q.requirement_id) q.kind) _ h in
        let (gaps, later, h2) = bind-ok (check_all s values found requirements) _ h1 in
        let (no_gap, no_more) = with_gap-nil g gaps (ok_injective h2) in
        (
          check_requirement-IsMet q _ q.kind refl refl (checked ∙ ap ok no_gap),
          (check_all-IsMet requirements).0 (later ∙ ap ok no_more),
        ),
    λ h. rw (IsMet-check_requirement q h.0, (check_all-IsMet requirements).1 h.1) refl,
  )
    where
      with_gap-nil :
          (g : Option Gap) (gaps : List Gap) → with_gap g gaps ≡ [] → (g ≡ none) × (gaps ≡ [])
      with_gap-nil none gaps h = (refl, h)
      with_gap-nil (some g) gaps h = absurd (cc h)

-- Every requirement of the procedure is met by the records, and there is a procedure.
pub record IsComplete (s : Setting) (records : List ExtractionRecord)
    (given : Option RequirementList) : Type 0 where
  pub list : RequirementList
  pub values : Dict Text
  pub is_given : given ≡ some list
  pub read : resolve_all s.witness (by_field [] records) ≡ ok values
  pub are_met : All (IsMet s values (by_field [] records)) list.requirements

verdict_of-complete : (gaps : List Gap) → verdict_of gaps ≡ complete → gaps ≡ []
verdict_of-complete [] h = refl
verdict_of-complete (g ∷ gaps) h = absurd (cc h)

evaluated-IsComplete :
    (render : Gap → String) (s : Setting) (records : List ExtractionRecord)
    (given : Option RequirementList) (procedure_id : Option String) (e : CompletenessEvidence)
    → evaluate_completeness render s records given procedure_id ≡ ok e
    → e.verdict ≡ complete
    → IsComplete s records given
unfolding evaluate_completeness gaps_of
evaluated-IsComplete render s records none procedure_id e h k =
    absurd (cc (ap (λ x. x.verdict) (ok_injective h) ∙ k))
evaluated-IsComplete render s records (some list) procedure_id e h k =
    let (gaps, run, h1) = bind-ok (gaps_of s records list.requirements) _ h in
    let (values, read, h2) = bind-ok (resolve_all s.witness (by_field [] records)) _ run in
    let none_left = verdict_of-complete gaps (ap (λ x. x.verdict) (ok_injective h1) ∙ k) in
    record {
      list = list;
      values = values;
      is_given = refl;
      read = read;
      are_met =
          (check_all-IsMet s values (by_field [] records) list.requirements).0
            (h2 ∙ ap ok none_left);
    }

IsComplete-evaluated :
    (render : Gap → String) (s : Setting) (records : List ExtractionRecord) (list : RequirementList)
    (procedure_id : Option String) (e : CompletenessEvidence) (values : Dict Text)
    → evaluate_completeness render s records (some list) procedure_id ≡ ok e
    → resolve_all s.witness (by_field [] records) ≡ ok values
    → All (IsMet s values (by_field [] records)) list.requirements
    → e.verdict ≡ complete
unfolding evaluate_completeness gaps_of
IsComplete-evaluated render s records list procedure_id e values h read met =
    let (gaps, run, h1) = bind-ok (gaps_of s records list.requirements) _ h in
    let empty : gaps_of s records list.requirements ≡ ok [] =
      rw (read, (check_all-IsMet s values (by_field [] records) list.requirements).1 met) refl in
    ap (λ x. x.verdict) (sym (ok_injective h1)) ∙ ap verdict_of (ok_injective (sym run ∙ empty))

-- Where the evaluation of an item returns, its verdict is complete if and only if the procedure is
-- known and each of its requirements asks for a field that has a record whose value is not blank,
-- resolves, and passes every check.
pub evaluate_completeness_iff :
    (render : Gap → String) (s : Setting) (records : List ExtractionRecord)
    (given : Option RequirementList) (procedure_id : Option String) (e : CompletenessEvidence)
    → evaluate_completeness render s records given procedure_id ≡ ok e
    → (e.verdict ≡ complete) ↔ IsComplete s records given
evaluate_completeness_iff render s records given procedure_id e h = (
  evaluated-IsComplete render s records given procedure_id e h,
  λ c.
      IsComplete-evaluated render s records c.list procedure_id e c.values
        (subst (λ g. evaluate_completeness render s records g procedure_id ≡ ok e) c.is_given h)
        c.read c.are_met,
)
