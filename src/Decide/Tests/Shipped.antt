-- ===== src/Decide/Tests/Shipped.antt =====
-- The shipped decision table, and items that it clears, routes and downgrades.
use optimaler_status.Base.{
  ◌*◌, ◌^◌, ◌≡◌, refl, Bool, true, false, Option, none, some, String, [], ◌∷◌, keep,
}
use optimaler_status.Base.Int.{pos}
use optimaler_status.Python.Result.{ok, err, value_error}
use optimaler_status.Python.Float.{Float, finite}
use optimaler_status.Python.Value.{Value, bool, int, float, str}
use optimaler_status.Predicate.Compare.{Op}
use optimaler_status.Contracts.Common.{
  clear_and_complete, incomplete_but_routable, full_human_review, VersionStamp,
}
use optimaler_status.Contracts.Config.{
  QualifyingCondition, DowngradeCondition, DecisionTable, AgencyRiskConfig, ScorerMode, log_only,
  enforcing, monotone_anomaly_only, no_anomaly,
}
use optimaler_status.Contracts.Anomaly.{AnomalyEvidence}
use optimaler_status.Contracts.Evidence.{
  RoutingSource, RoutingSuggestion, CompletenessVerdict, complete, incomplete, EvidenceRecord,
}
use optimaler_status.Decide.Fields.{admitted_routing_sources, is_admitted}
use optimaler_status.Decide.Downgrades.{apply_outcomes}
use optimaler_status.Decide.Sample.{Digest}
use optimaler_status.Decide.Record.{Inputs, decide}

-- 0.9, 0.85 and 0.5 as doubles
abbrev pub nine_tenths : Float
nine_tenths = finite (pos (8106479329266893 * 2 ^ 1021))

abbrev pub threshold : Float
threshold = finite (pos (7656119366529843 * 2 ^ 1021))

abbrev pub half : Float
half = finite (pos (2 ^ 1073))

abbrev pub full : Float
full = finite (pos (2 ^ 1074))

abbrev when : String → Op → Value → QualifyingCondition
when name o v = record { field = name; op = o; value = v }

abbrev pub score_condition : DowngradeCondition
score_condition = record { field = "anomaly.score"; op = Op.ge; value = float threshold }

abbrev pub flag_condition : DowngradeCondition
flag_condition = record { field = "anomaly.flagged"; op = Op.eq; value = bool true }

abbrev pub table : DecisionTable
table = record {
  version = "table_v1";
  rows =
      record {
        row_id = "tier1_clear_and_complete";
        tier = clear_and_complete;
        when_all =
            when "routing.rule_hit" Op.eq (bool true)
            ∷ when "routing.confidence" Op.ge (float nine_tenths)
            ∷ when "completeness.verdict" Op.eq (str "complete")
            ∷ when "extraction.discarded_count" Op.eq (int (pos 0))
            ∷ when "procedure.tier1_enabled" Op.eq (bool true)
            ∷ when "procedure.clear_cut" Op.eq (bool true)
            ∷ [];
      }
      ∷ record {
        row_id = "tier2_routable_incomplete";
        tier = incomplete_but_routable;
        when_all =
            when "routing.rule_hit" Op.eq (bool true)
            ∷ when "routing.confidence" Op.ge (float nine_tenths)
            ∷ when "completeness.verdict" Op.eq (str "incomplete")
            ∷ [];
      }
      ∷ [];
  downgrades =
      record {
        row_id = "downgrade_anomaly_flagged";
        when_all = flag_condition ∷ [];
        reason_template = "Shadow-Scorer hat den Vorgang markiert";
      }
      ∷ record {
        row_id = "downgrade_anomaly_score";
        when_all = score_condition ∷ [];
        reason_template = "Anomaliescore {score} erreicht die Schwelle";
      }
      ∷ [];
}

abbrev pub stamp : VersionStamp
stamp = record {
  schema_version = "0.1.0";
  taxonomy_version = none;
  rules_version = none;
  decision_table_version = none;
  thresholds_version = none;
  prompt_version = none;
  model_id = none;
  feature_set_version = none;
}

abbrev pub suggestion : RoutingSource → Float → String → RoutingSuggestion
suggestion source confidence unit = record {
  unit_id = unit;
  source = source;
  rule_ids = [];
  confidence = confidence;
  evidence_span = none;
}

abbrev pub evidence : CompletenessVerdict → EvidenceRecord
evidence verdict = record {
  envelope_id = "env-1";
  case_id = "case-1";
  routing = suggestion RoutingSource.rule full "Referat_312" ∷ [];
  derivation = none;
  conflicts = [];
  completeness = record {
    procedure_id = none;
    verdict = verdict;
    gaps = [];
    requirements_version = "v1";
  };
  extraction_min_confidence = none;
  extraction_discarded_count = 0;
  created_at = 0;
  versions = stamp;
}

abbrev pub risk : ScorerMode → AgencyRiskConfig
risk mode = record {
  version = "thresholds_v1";
  scorer_mode = mode;
  thresholds = [];
  downgrade_rate_budget = half;
  audit_sample_rate = finite (pos 0);
  review_due = none;
  procedures = [];
}

abbrev pub item : ScorerMode → CompletenessVerdict → Option AnomalyEvidence → Inputs
item mode verdict anomaly = record {
  evidence = evidence verdict;
  anomaly = anomaly;
  table = table;
  risk = risk mode;
  flags =
      some (record { procedure_id = "altersrente"; tier1_enabled = true; fully_automated = false });
  clear_cut = true;
  versions = stamp;
  now = 0;
  routing_sources = admitted_routing_sources;
  audit_salt = none;
}

abbrev pub scored : Float → Bool → AnomalyEvidence
scored score flagged = record {
  envelope_id = "env-1";
  case_id = "case-1";
  score = score;
  threshold_ref = "t1";
  flagged = flagged;
  reasons = [];
  mode = log_only;
  created_at = 0;
  versions = stamp;
}

-- A digest that is never large.
abbrev pub digest : Digest
digest key message = ok 7

clears : (decide digest (item enforcing complete none)).tier ≡ clear_and_complete
unfolding decide keep is_admitted apply_outcomes
clears = refl

routes : (decide digest (item enforcing incomplete none)).tier ≡ incomplete_but_routable
unfolding decide keep is_admitted apply_outcomes
routes = refl

downgrades :
    (decide digest (item enforcing complete (some (scored nine_tenths false)))).tier
    ≡ full_human_review
unfolding decide keep is_admitted apply_outcomes
downgrades = refl

only_logs :
    (decide digest (item log_only complete (some (scored nine_tenths false)))).tier
    ≡ clear_and_complete
unfolding decide keep is_admitted apply_outcomes
only_logs = refl

-- The validators refuse an anomaly field in a row, and `lt` on the score.
no_anomaly_in_rows : no_anomaly (when "anomaly.score" Op.ge (float half)) ≡ err value_error
unfolding no_anomaly
no_anomaly_in_rows = refl

no_lt_on_score :
    monotone_anomaly_only (record { field = "anomaly.score"; op = Op.lt; value = float half })
    ≡ err value_error
unfolding monotone_anomaly_only
no_lt_on_score = refl
