-- ===== src/Extract/Orchestrate/Accounting.antt =====
-- Every claim is a record or a discard, and no field has two records.
use mathlib.Core.List
use optimaler_status.Base.{
  ℕ, suc, ◌+◌, ◌≡◌, refl, sym, ◌∙◌, subst, ap₂, true, Option, none, some, String, List, [], ◌∷◌,
  ◌++◌, length, length-append, All, arith, IsUnique, IsUnique-append, hits, hits-le,
}
use optimaler_status.Python.Float.{Float}
use optimaler_status.Python.Text.{Text}
use optimaler_status.Contracts.Common.{VersionStamp}
use optimaler_status.Contracts.Envelope.{Envelope, TextLayer}
use optimaler_status.Extract.Records.{
  Proposal, ExtractionRecord, ExtractionConfig, Verification, is_valid_record, with_record,
  records_of, fields_of,
}
use optimaler_status.Extract.Verify.{Matching, verify_proposals}
use optimaler_status.Extract.Verify.Batch.{verify_proposals-valid, verify_proposals-IsFresh}
use optimaler_status.Extract.Verify.Ranges.{IsScoring, IsConfident}
use optimaler_status.Extract.Mapper.{FieldMapEntry, Mapped, map_payload}
use optimaler_status.Extract.Mapper.Accounting.{entry_fields, map_payload-IsMapped}
use optimaler_status.Extract.Orchestrate.{
  first_payload, rejection, rejected, ExtractionOutcome, outcome_of, extract_all,
}

with_record-length :
    (o : Option ExtractionRecord) (records : List ExtractionRecord)
    → length (with_record o records) + rejection o ≡ suc (length records)
with_record-length none records = omega arith
with_record-length (some r) records = omega arith

-- Every outcome is a record or is rejected.
records_of-rejected :
    (verifications : List Verification)
    → length (records_of verifications) + rejected verifications ≡ length verifications
unfolding records_of rejected
records_of-rejected [] = refl
records_of-rejected (v ∷ verifications) = omega (
  arith,
  with_record-length v.record_ (records_of verifications),
  records_of-rejected verifications,
)

All-append {ℓ κ} :
    {A : Type ℓ} (P : A → Type κ) (xs ys : List A) → All P xs → All P ys → All P (xs ++ ys)
All-append P [] ys h k = k
All-append P (x ∷ xs) ys h k = (h.0, All-append P xs ys h.1 k)

-- The records can be constructed, and no field has two of them.
pub record IsWellFormed (records : List ExtractionRecord) : Type 0 where
  pub valid : All (λ r. is_valid_record r ≡ true) records
  pub unique : IsUnique (fields_of records)

module _ (envelope : Envelope) (procedure_id : Option String) (versions : VersionStamp) (now : ℕ)
    (mapped : Mapped) (verifications : List Verification) where
  outcome : ExtractionOutcome
  outcome = outcome_of envelope procedure_id versions now mapped verifications

  recovered_of : ℕ
  recovered_of = hits (fields_of (records_of verifications)) mapped.1

  outcome_of-counts :
      IsUnique (fields_of (records_of verifications))
      → length outcome.extractions.records + outcome.extractions.discarded_count + recovered_of
        ≡ length mapped.0 + length mapped.1 + length verifications
  unfolding outcome_of outcome recovered_of
  outcome_of-counts unique = omega (
    arith,
    length-append mapped.0 (records_of verifications),
    records_of-rejected verifications,
    hits-le (fields_of (records_of verifications)) mapped.1 unique,
  )

-- Every entry of the field map and every proposal is a record or is counted as discarded, where an
-- entry that was discarded and whose field a text filled counts once.
pub extract_all-Accounted :
    (repr : Float → Text) (m : Matching) (config : ExtractionConfig) (envelope : Envelope)
    (layer : Option TextLayer) (field_map : List FieldMapEntry) (proposals : List Proposal)
    (procedure_id : Option String) (versions : VersionStamp) (now : ℕ)
    → (let out =
          extract_all repr m config envelope layer field_map proposals procedure_id versions now in
        length out.extractions.records
          + out.extractions.discarded_count
          + hits (fields_of (records_of out.verifications)) out.mapper_discarded
        ≡ length field_map + length proposals)
unfolding extract_all outcome recovered_of outcome_of
extract_all-Accounted repr m config envelope layer field_map proposals procedure_id versions now =
    let mapped = map_payload repr (first_payload envelope.parts) field_map in
    let taken = fields_of mapped.0 in
    let known = some (entry_fields field_map) in
    let verifications = verify_proposals m config known taken layer proposals in
    let (long, fresh) = verify_proposals-IsFresh m config known taken layer proposals in
    let shares = map_payload-IsMapped repr (first_payload envelope.parts) field_map in
    outcome_of-counts envelope procedure_id versions now mapped verifications fresh.are_unique
    ∙ ap₂ (λ a b. a + b) shares.counts long

-- Where a field map names no field twice, the score of two texts is from 0 to 100, the configured
-- confidences are from 0 to 1, and rounding keeps a number there, the records of an item can be
-- constructed, their ranges and modes included, and no field has two of them, whatever the payload
-- and the proposals are.
pub extract_all-IsWellFormed :
    (repr : Float → Text) (m : Matching) (config : ExtractionConfig) (envelope : Envelope)
    (layer : Option TextLayer) (field_map : List FieldMapEntry) (proposals : List Proposal)
    (procedure_id : Option String) (versions : VersionStamp) (now : ℕ)
    → IsScoring m
    → IsConfident config
    → IsUnique (entry_fields field_map)
    → IsWellFormed
        (extract_all repr m config envelope layer field_map proposals procedure_id versions
          now).extractions.records
unfolding extract_all outcome_of
extract_all-IsWellFormed repr m config envelope layer field_map proposals procedure_id versions now
      scoring confident unique =
    let mapped = map_payload repr (first_payload envelope.parts) field_map in
    let taken = fields_of mapped.0 in
    let known = some (entry_fields field_map) in
    let verifications = verify_proposals m config known taken layer proposals in
    let (long, fresh) = verify_proposals-IsFresh m config known taken layer proposals in
    let shares = map_payload-IsMapped repr (first_payload envelope.parts) field_map in
    record {
      valid =
          All-append _ mapped.0 (records_of verifications) shares.valid
            (verify_proposals-valid m config known taken layer proposals scoring confident);
      unique =
          subst IsUnique
            (sym (
              List.map-append (λ (r : ExtractionRecord). r.field) mapped.0
                (records_of verifications)))
            (IsUnique-append taken (fields_of (records_of verifications)) (shares.unique unique)
              fresh.are_unique fresh.are_free);
    }
