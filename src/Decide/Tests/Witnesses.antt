-- ===== src/Decide/Tests/Witnesses.antt =====
-- The theorems about `decide` at inputs that meet their hypotheses.
use optimaler_status.Base.{◌≡◌, refl, ◌≢◌, true, false, none, some, [], ◌∷◌, keep}
use optimaler_status.Python.Float.{le}
use optimaler_status.Python.Value.{float}
use optimaler_status.Predicate.Compare.{Op}
use optimaler_status.Predicate.Ast.{field_value}
use optimaler_status.Contracts.Common.{
  clear_and_complete, incomplete_but_routable, full_human_review, ◌⊑◌,
}
use optimaler_status.Contracts.Config.{
  log_only, enforcing, monotone_anomaly_only, HasMonotoneDowngrades,
}
use optimaler_status.Contracts.Evidence.{RoutingSource, complete, incomplete}
use optimaler_status.Contracts.Decision.{ReasonKind}
use optimaler_status.Decide.Fields.{is_admitted, resolve_qualifying_fields}
use optimaler_status.Decide.Downgrades.{apply_outcomes}
use optimaler_status.Decide.Rows.{evaluate_rows}
use optimaler_status.Decide.Record.{decide, Inputs}
use optimaler_status.Decide.Monotone.{IsRaised}
use optimaler_status.Decide.Valve.{with_anomaly, decide_monotone, anomaly_only_adds}
use optimaler_status.Decide.LogOnly.{decide_log_only}
use optimaler_status.Decide.FirstMatch.{FirstMatch, evaluate_rows-FirstMatch}
use optimaler_status.Decide.Clearance.{fields_of, IsCleared, decide-IsCleared}
use optimaler_status.Decide.Unresolved.{guarded_nil, guarded_row, reads_here, decide_unresolved}
use optimaler_status.Decide.Admission.{with_routing, decide_unadmitted}
use optimaler_status.Decide.AuditReasons.{IsDrawn, decide-Recognised}
use optimaler_status.Decide.PlainReasons.{any_draw, by_member}
use optimaler_status.Decide.Sample.{member}
use mathlib.Core.Logic.{◌↔◌}
use optimaler_status.Decide.Tests.Shipped.{
  half, full, nine_tenths, table, item, scored, digest, suggestion,
}

table-HasMonotoneDowngrades : HasMonotoneDowngrades table.downgrades
unfolding monotone_anomaly_only
table-HasMonotoneDowngrades = ((refl, tt), ((refl, tt), tt))

half-nine_tenths-IsRaised : IsRaised (scored half false) (scored nine_tenths true)
unfolding le
half-nine_tenths-IsRaised = record { score = refl; flagged = λ h. refl }

decide_monotone_example :
    (decide digest (with_anomaly (item enforcing complete none) (some (scored half false)))).tier
    ⊑ (decide digest
        (with_anomaly (item enforcing complete none) (some (scored nine_tenths true)))).tier
decide_monotone_example =
    decide_monotone digest (item enforcing complete none) (scored half false)
      (scored nine_tenths true) table-HasMonotoneDowngrades half-nine_tenths-IsRaised

anomaly_only_adds_example :
    (decide digest (with_anomaly (item enforcing complete none) none)).tier
    ⊑ (decide digest
        (with_anomaly (item enforcing complete none) (some (scored nine_tenths true)))).tier
anomaly_only_adds_example =
    anomaly_only_adds digest (item enforcing complete none) (scored nine_tenths true)

decide_log_only_example :
    decide digest (with_anomaly (item log_only complete none) (some (scored nine_tenths true)))
    ≡ decide digest (with_anomaly (item log_only complete none) none)
decide_log_only_example =
    decide_log_only digest (item log_only complete none) (scored nine_tenths true) refl
      ((tt, tt), ((tt, tt), tt))

evaluate_rows-FirstMatch_example :
    FirstMatch (fields_of (item enforcing incomplete none)) table.rows incomplete_but_routable (
      (ReasonKind.failed, "tier1_clear_and_complete")
      ∷ (ReasonKind.qualified, "tier2_routable_incomplete")
      ∷ [])
unfolding evaluate_rows resolve_qualifying_fields keep is_admitted
evaluate_rows-FirstMatch_example =
    evaluate_rows-FirstMatch table (fields_of (item enforcing incomplete none)) _ refl

not_full : (decide digest (item enforcing complete none)).tier ≢ full_human_review
unfolding decide keep is_admitted apply_outcomes
not_full e = cc

decide-IsCleared_example : IsCleared digest (item enforcing complete none)
decide-IsCleared_example = decide-IsCleared digest (item enforcing complete none) not_full

-- A table that clears on the confidence of the extraction, and an item without one.
abbrev cautious : Inputs
cautious = record (item enforcing complete none) {
  table = record table {
    rows =
        record {
          row_id = "confident";
          tier = clear_and_complete;
          when_all =
              record { field = "extraction.min_confidence"; op = Op.ge; value = float half } ∷ [];
        }
        ∷ [];
  };
}

decide_unresolved_example : (decide digest cautious).tier ≡ full_human_review
unfolding field_value resolve_qualifying_fields
decide_unresolved_example =
    decide_unresolved digest cautious "extraction.min_confidence"
      (guarded_row _ (reads_here refl) guarded_nil) refl

abbrev salted : Inputs
salted = record (item enforcing complete none) { audit_salt = some "salz" }

decide_unadmitted_example :
    decide digest (
      with_routing (item enforcing complete none) (
        suggestion RoutingSource.classifier full "Referat_1"
        ∷ suggestion RoutingSource.rule full "Referat_312"
        ∷ []))
    ≡ decide digest (
        with_routing
          (item enforcing complete none)
          (suggestion RoutingSource.rule full "Referat_312" ∷ []))
unfolding is_admitted
decide_unadmitted_example =
    decide_unadmitted digest (item enforcing complete none) []
      (suggestion RoutingSource.rule full "Referat_312" ∷ [])
      (suggestion RoutingSource.classifier full "Referat_1") refl

decide-Recognised_example :
    (any_draw member
        (decide digest (item enforcing complete (some (scored nine_tenths true)))).reasons
      ≡ true)
    ↔ IsDrawn digest (item enforcing complete (some (scored nine_tenths true)))
decide-Recognised_example =
    decide-Recognised digest (item enforcing complete (some (scored nine_tenths true))) member
      by_member (refl, (refl, tt))
