-- ===== src/Decide/Admission.antt =====
-- A source that the agency has not admitted rides the record and governs nothing.
use optimaler_status.Base.{◌≡◌, refl, Bool, false, List, [], ◌∷◌, ◌++◌, keep, ap, sym, ◌∙◌, Option}
use optimaler_status.Contracts.Evidence.{RoutingSource, RoutingSuggestion, EvidenceRecord}
use optimaler_status.Contracts.Config.{ProcedureFlags}
use optimaler_status.Contracts.Decision.{AuditSample}
use optimaler_status.Decide.Fields.{
  is_admitted, admitted_routing, resolve_qualifying_fields, routed_unit, best_unit,
}
use optimaler_status.Decide.Sample.{Digest}
use optimaler_status.Decide.Record.{Inputs, decide}
use optimaler_status.Decide.Rows.{Verdict, evaluate_rows}
use optimaler_status.Decide.Downgrades.{DowngradeOutcome}
use optimaler_status.Decide.Clearance.{fields_of}
use optimaler_status.Decide.Outcome.{
  rows_of, record_of, decide_ok, decide_rows_err, decide_downgrades_err, decide_sample_err, Ending,
  decided, rows_raised, downgrades_raised, sample_raised, ending,
}

abbrev pub with_routing : Inputs → List RoutingSuggestion → Inputs
with_routing i routing = record i { evidence = record i.evidence { routing = routing } }

keep-skip :
    {A : Type 0} (test : A → Bool) (xs ys : List A) (a : A)
    → test a ≡ false
    → keep test (xs ++ a ∷ ys) ≡ keep test (xs ++ ys)
unfolding keep
keep-skip test [] ys a h = rw h refl
keep-skip test (x ∷ xs) ys a h = rw (keep-skip test xs ys a h) refl

unit_congr :
    (e f : EvidenceRecord) (sources : List RoutingSource)
    → admitted_routing e sources ≡ admitted_routing f sources
    → routed_unit e sources ≡ routed_unit f sources
unfolding routed_unit
unit_congr e f sources h = ap best_unit h

fields_congr :
    (e : EvidenceRecord) (r s : List RoutingSuggestion) (flags : Option ProcedureFlags)
    (clear_cut : Bool) (sources : List RoutingSource)
    → admitted_routing (record e { routing = r }) sources
      ≡ admitted_routing (record e { routing = s }) sources
    → resolve_qualifying_fields (record e { routing = r }) flags clear_cut sources
      ≡ resolve_qualifying_fields (record e { routing = s }) flags clear_cut sources
unfolding resolve_qualifying_fields
fields_congr e r s flags clear_cut sources h = rw h refl

module _ (i : Inputs) (before after : List RoutingSuggestion) (s : RoutingSuggestion)
    (unadmitted : is_admitted i.routing_sources s.source ≡ false) where
  abbrev with_it : Inputs
  with_it = with_routing i (before ++ s ∷ after)

  abbrev without_it : Inputs
  without_it = with_routing i (before ++ after)

  same_admitted :
      admitted_routing with_it.evidence i.routing_sources
      ≡ admitted_routing without_it.evidence i.routing_sources
  unfolding admitted_routing
  same_admitted =
      keep-skip (λ (x : RoutingSuggestion). is_admitted i.routing_sources x.source) before after s
        unadmitted

  same_unit :
      routed_unit with_it.evidence i.routing_sources
      ≡ routed_unit without_it.evidence i.routing_sources
  same_unit = unit_congr with_it.evidence without_it.evidence i.routing_sources same_admitted

  same_fields : fields_of with_it ≡ fields_of without_it
  same_fields =
      fields_congr i.evidence (before ++ s ∷ after) (before ++ after) i.flags i.clear_cut
        i.routing_sources same_admitted

  same_rows : rows_of with_it ≡ rows_of without_it
  same_rows = ap (evaluate_rows i.table i.table.rows) same_fields

  same_record :
      (v : Verdict) (os : List DowngradeOutcome) (x : Option AuditSample)
      → record_of with_it v os x ≡ record_of without_it v os x
  same_record v os x = λ j. record (record_of without_it v os x) { routed_unit_id = same_unit j }

  same_decision :
      (digest : Digest)
      → Ending digest without_it
      → decide digest with_it ≡ decide digest without_it
  same_decision digest (decided v os x p q r e) =
      decide_ok digest with_it v os x (same_rows ∙ p) q r ∙ same_record v os x ∙ sym e
  same_decision digest (rows_raised e p k) =
      decide_rows_err digest with_it e (same_rows ∙ p) ∙ sym k
  same_decision digest (downgrades_raised v e p q k) =
      decide_downgrades_err digest with_it v e (same_rows ∙ p) q ∙ sym k
  same_decision digest (sample_raised v os e p q r k) =
      decide_sample_err digest with_it v os e (same_rows ∙ p) q r ∙ sym k

-- A suggestion from a source that is not admitted, wherever it stands in the evidence and
-- whatever its confidence, leaves the whole decision record as it would be without it.
pub decide_unadmitted :
    (digest : Digest) (i : Inputs) (before after : List RoutingSuggestion) (s : RoutingSuggestion)
    → is_admitted i.routing_sources s.source ≡ false
    → decide digest (with_routing i (before ++ s ∷ after))
      ≡ decide digest (with_routing i (before ++ after))
decide_unadmitted digest i before after s h =
    same_decision i before after s h digest (ending digest (with_routing i (before ++ after)))
