-- ===== src/Extract/Orchestrate.antt =====
-- engine/extract/orchestrate.py: one set of records from the structured payload and the proposals.
pub mod Accounting
use mathlib.Core.List.{map}
use optimaler_status.Base.{
  ℕ, suc, ◌+◌, ◌-◌, Bool, true, false, Option, none, some, String, List, [], ◌∷◌, ◌++◌, length,
  hits,
}
use optimaler_status.Python.Float.{Float}
use optimaler_status.Python.Text.{Text}
use optimaler_status.Python.Value.{Fields, end}
use optimaler_status.Contracts.Common.{VersionStamp}
use optimaler_status.Contracts.Envelope.{ContentPart, Envelope, TextLayer}
use optimaler_status.Extract.Records.{
  Proposal, ExtractionRecord, ExtractionSet, ExtractionConfig, Verification, records_of, fields_of,
}
use optimaler_status.Extract.Verify.{Matching, verify_proposals}
use optimaler_status.Extract.Mapper.{FieldMapEntry, Mapped, map_payload}
use optimaler_status.Extract.Mapper.Accounting.{entry_fields}

-- structured_payload of engine/ingest/envelope.py
unfoldable pub first_payload : List ContentPart → Fields
first_payload [] = end
first_payload (part ∷ parts) =
    let later = first_payload parts in
    elim part.structured_payload [ none ↦ later | some payload ↦ payload ]

-- How many outcomes are not accepted.
abbrev pub rejection : Option ExtractionRecord → ℕ
rejection none = 1
rejection (some r) = 0

unfoldable pub rejected : List Verification → ℕ
rejected [] = 0
rejected (v ∷ verifications) = rejection v.record_ + rejected verifications

pub record ExtractionOutcome : Type 0 where
  pub extractions : ExtractionSet
  pub verifications : List Verification
  pub mapper_discarded : List String

-- The outcome of the mapped payload and the verified proposals.
unfoldable pub outcome_of :
    Envelope → Option String → VersionStamp → ℕ → Mapped → List Verification → ExtractionOutcome
unfolding records_of rejected hits
outcome_of envelope procedure_id versions now mapped verifications =
    let text_records = records_of verifications in
    let discarded = length mapped.1 + rejected verifications in
    let recovered = hits (fields_of text_records) mapped.1 in
    record {
      extractions = record {
        envelope_id = envelope.envelope_id;
        case_id = envelope.case_id;
        procedure_id = procedure_id;
        records = mapped.0 ++ text_records;
        discarded_count = discarded - recovered;
        created_at = now;
        versions = versions;
      };
      verifications = verifications;
      mapper_discarded = mapped.1;
    }

-- extract_all, with the proposals of its readers and without its event.
unfoldable pub extract_all :
    (Float → Text)
    → Matching
    → ExtractionConfig
    → Envelope
    → Option TextLayer
    → List FieldMapEntry
    → List Proposal
    → Option String
    → VersionStamp
    → ℕ
    → ExtractionOutcome
unfolding map_payload verify_proposals first_payload outcome_of
extract_all repr m config envelope layer field_map proposals procedure_id versions now =
    let mapped = map_payload repr (first_payload envelope.parts) field_map in
    outcome_of envelope procedure_id versions now mapped (
      verify_proposals m config (some (entry_fields field_map)) (fields_of mapped.0) layer
        proposals)
