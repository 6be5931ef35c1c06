-- ===== src/Evidence/Completeness/Evaluate/Discreet.antt =====
-- No gap quotes a value of a sealed field.
use optimaler_status.Base.{
  ◌≡◌, refl, sym, ◌∙◌, subst, Option, none, some, String, List, [], ◌∷◌, Bool-cases, inl, inr, All,
  is_member,
}
use optimaler_status.Base.Dict
use optimaler_status.Base.Dict.{Dict}
use optimaler_status.Python.Text.{Text, is_empty, strip}
use optimaler_status.Python.Result.{ok, ◌>>=◌, bind-ok, ok_injective}
use optimaler_status.Contracts.Evidence.{missing}
use optimaler_status.Extract.Records.{ExtractionRecord}
use optimaler_status.Evidence.Completeness.Messages.{
  Failure, GapDetail, document_unchecked, value_missing, unresolved, failed, Gap,
}
use optimaler_status.Evidence.Completeness.Checks.{Parsers, Validation}
use optimaler_status.Evidence.Completeness.CrossField.{
  first_failure, check_cross_field, check_alone, validation_problem,
}
use optimaler_status.Evidence.Completeness.Discretion.{Discreet, Safe, check_alone-Safe}
use optimaler_status.Evidence.Completeness.Discretion.Pairs.{check_cross_field-Safe}
use optimaler_status.Evidence.Completeness.Evaluate.{
  Requirement, RequirementKind, field_kind, document_kind, Setting, by_field, resolve_all,
  resolve_value, gap, failure_gap, check_resolved, check_record, check_requirement, with_gap,
  check_all, gaps_of,
}

-- The detail of a gap of a field quotes no value of a sealed field.
abbrev pub DiscreetDetail : List String → String → GapDetail → Type 0
DiscreetDetail sealed field (document_unchecked description) = Unit
DiscreetDetail sealed field (value_missing description) = Unit
DiscreetDetail sealed field unresolved = Unit
DiscreetDetail sealed field (failed f) = Discreet sealed (is_member field sealed) f.message

abbrev pub DiscreetGap : List String → Gap → Type 0
DiscreetGap sealed g = DiscreetDetail sealed g.requirement_id g.detail

abbrev DiscreetOption : List String → Option Gap → Type 0
DiscreetOption sealed none = Unit
DiscreetOption sealed (some g) = DiscreetGap sealed g

validation_problem-Safe :
    (lib : Parsers) (v : Option Validation) (value : Text) (values : Dict Text)
    (sealed : List String) (field : String) (o : Option Failure)
    → validation_problem lib v value values sealed field ≡ ok o
    → Safe sealed (is_member field sealed) o
unfolding validation_problem
validation_problem-Safe lib none value values sealed field o h =
    subst (Safe sealed (is_member field sealed)) (ok_injective h) tt
validation_problem-Safe lib (some v) value values sealed field o h =
    let hidden = is_member field sealed in
    first_or (check_alone lib v value hidden) (check_alone-Safe sealed hidden lib value v) h
  where
    first_or :
        (alone : Option Failure)
        → Safe sealed (is_member field sealed) alone
        → first_failure
            (check_cross_field lib v.cross_field value values (is_member field sealed) sealed)
            alone
          ≡ ok o
        → Safe sealed (is_member field sealed) o
    first_or none h k =
        check_cross_field-Safe sealed (is_member field sealed) lib v.cross_field value values o k
    first_or (some f) h k = subst (Safe sealed (is_member field sealed)) (ok_injective k) h

module _ (s : Setting) (values : Dict Text) (found : Dict ExtractionRecord) where
  failure_gap-Discreet :
      (q : Requirement) (r : ExtractionRecord) (f : Option Failure)
      → Safe s.sealed (is_member q.requirement_id s.sealed) f
      → DiscreetOption s.sealed (failure_gap s q r f)
  failure_gap-Discreet q r none h = tt
  failure_gap-Discreet q r (some f) h = h

  check_resolved-Discreet :
      (q : Requirement) (r : ExtractionRecord) (o : Option Text) (g : Option Gap)
      → check_resolved s values q r o ≡ ok g
      → DiscreetOption s.sealed g
  unfolding check_resolved
  check_resolved-Discreet q r none g h = subst (DiscreetOption s.sealed) (ok_injective h) tt
  check_resolved-Discreet q r (some value) g h =
      let (f, run, h1) =
        bind-ok (validation_problem s.parsers q.validation value values s.sealed q.requirement_id) _
          h in
      subst (DiscreetOption s.sealed) (ok_injective h1) (
        failure_gap-Discreet q r f (
          validation_problem-Safe s.parsers q.validation value values s.sealed q.requirement_id f
            run))

  check_requirement-Discreet :
      (q : Requirement) (o : Option ExtractionRecord) (kind : RequirementKind) (g : Option Gap)
      → check_requirement s values q o kind ≡ ok g
      → DiscreetOption s.sealed g
  unfolding check_requirement check_record
  check_requirement-Discreet q o document_kind g h =
      subst (DiscreetOption s.sealed) (ok_injective h) tt
  check_requirement-Discreet q none field_kind g h =
      subst (DiscreetOption s.sealed) (ok_injective h) tt
  check_requirement-Discreet q (some r) field_kind g h =
      elim (Bool-cases (is_empty (strip r.value))) [
        | inl b ↦
            let blank : check_record s values q (some r)
                ≡ ok (some (gap s q missing none (value_missing q.description))) =
              rw b refl in
            subst (DiscreetOption s.sealed) (ok_injective (sym blank ∙ h)) tt
        | inr b ↦
            let resolved : (resolve_value s.witness r.value >>= check_resolved s values q r)
                ≡ ok g =
              sym (rw b refl) ∙ h in
            let (o, known, checked) = bind-ok (resolve_value s.witness r.value) _ resolved in
            check_resolved-Discreet q r o g checked
      ]

  with_gap-Discreet :
      (g : Option Gap) (gaps : List Gap)
      → DiscreetOption s.sealed g
      → All (DiscreetGap s.sealed) gaps
      → All (DiscreetGap s.sealed) (with_gap g gaps)
  with_gap-Discreet none gaps h k = k
  with_gap-Discreet (some g) gaps h k = (h, k)

  check_all-Discreet :
      (requirements : List Requirement) (gaps : List Gap)
      → check_all s values found requirements ≡ ok gaps
      → All (DiscreetGap s.sealed) gaps
  unfolding check_all
  check_all-Discreet [] gaps h = subst (All (DiscreetGap s.sealed)) (ok_injective h) tt
  check_all-Discreet (q ∷ requirements) gaps h =
      let (g, checked, h1) =
        bind-ok (check_requirement s values q (Dict.get found q.requirement_id) q.kind) _ h in
      let (later, run, h2) = bind-ok (check_all s values found requirements) _ h1 in
      subst (All (DiscreetGap s.sealed)) (ok_injective h2) (
        with_gap-Discreet g later
          (check_requirement-Discreet q (Dict.get found q.requirement_id) q.kind g checked)
          (check_all-Discreet requirements later run))

-- What the details of the gaps of an item are rendered from quotes no value of a sealed field: not the
-- field's own value, nor the value of another field that a rule compares it with.
pub gaps_of-Discreet :
    (s : Setting) (records : List ExtractionRecord) (requirements : List Requirement)
    (gaps : List Gap)
    → gaps_of s records requirements ≡ ok gaps
    → All (DiscreetGap s.sealed) gaps
unfolding gaps_of
gaps_of-Discreet s records requirements gaps h =
    let (values, read, run) = bind-ok (resolve_all s.witness (by_field [] records)) _ h in
    check_all-Discreet s values (by_field [] records) requirements gaps run
