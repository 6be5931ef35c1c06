-- ===== src/Extract/Tests.antt =====
-- Runs of extraction, and its theorems at inputs that meet their hypotheses.
use optimaler_status.Base.{
  ℕ, ◌+◌, ◌*◌, ◌^◌, ◌≡◌, refl, true, false, Option, none, some, String, List, [], ◌∷◌, length, ◌↔◌,
  is_member, IsUnique, hits,
}
use optimaler_status.Base.Int.{pos}
use optimaler_status.Base.TextOrder.{codes}
use optimaler_status.Python.Float.{finite, lt, le, one}
use optimaler_status.Python.Float.Hundredth.{hundredth}
use optimaler_status.Python.Text.{strip, is_empty, is_space, is_part}
use optimaler_status.Contracts.Common.{Span}
use optimaler_status.TextLayer.Layer.{original_span}
use optimaler_status.TextLayer.Layer.Spans.{Located}
use optimaler_status.TextLayer.Tests.{
  ascii, ascii-IsProductive, stamp, payload, envelope, layer, layer_built,
}
use optimaler_status.Extract.Records.{
  Proposal, MatchMode, ExtractionRecord, PolicyMode, ExtractionConfig, FailureKind, records_of,
  fields_of, in_range,
}
use optimaler_status.Extract.Verify.{
  Matching, no_match, full_match, fold, verify_proposal, verify_proposals,
}
use optimaler_status.Extract.Verify.Locks.{Locked, verify_proposal_iff}
use optimaler_status.Extract.Verify.Verbatim.{
  IsStrict, IsValidConfig, Verbatim, verify_proposal-Verbatim,
}
use optimaler_status.Extract.Verify.Ranges.{IsScoring, IsConfident}
use optimaler_status.Extract.Verify.Provenance.{verify_proposal-Located}
use optimaler_status.Extract.Mapper.{FieldMapEntry, map_payload}
use optimaler_status.Extract.Mapper.Accounting.{entry_fields}
use optimaler_status.Extract.Orchestrate.{extract_all}
use optimaler_status.Extract.Orchestrate.Accounting.{
  IsWellFormed, extract_all-Accounted, extract_all-IsWellFormed,
}

-- Different texts have the score 0.
abbrev crude : Matching
crude = record {
  ratio = λ a b. no_match;
  partial_ratio = λ a b. no_match;
  casefold = λ text. text;
  round4 = λ x. x;
}

crude-IsStrict : IsStrict crude
unfolding full_match lt hundredth
crude-IsStrict a b h = refl

abbrev exact_everywhere : ExtractionConfig
exact_everywhere = record {
  policy_for = λ s. record { mode = PolicyMode.exact_mode; min_score = full_match };
  confidence = record { exact = full_match; fuzzy_floor = no_match };
}

exact_everywhere-IsValidConfig : IsValidConfig exact_everywhere
exact_everywhere-IsValidConfig s h = refl

-- 87.3 / 100.0, which is rounded.
hundredth_run :
    hundredth (finite (pos (6143191366710067 * 2 ^ 1028)))
    ≡ finite (pos (3931642474694443 * 2 ^ 1022))
unfolding hundredth
hundredth_run = refl

crude-IsScoring : IsScoring crude
unfolding in_range le one
crude-IsScoring = record { ratio = λ a b. (refl, refl); rounded = λ x h. h }

exact_everywhere-IsConfident : IsConfident exact_everywhere
unfolding in_range full_match
exact_everywhere-IsConfident = record { exact = refl; floor = refl }

abbrev claim_of : String → Proposal
claim_of name = record {
  field = name;
  value = codes " Rente";
  quote = codes "Rente ab";
  part_id = "mail";
  offset = pos 0;
  extractor_id = "replay:v0";
}

abbrev claimed : ExtractionRecord
claimed = record {
  field = "art";
  value = codes "Rente";
  span = some (record { part_id = "mail"; start = 0; stop = 8 });
  match_mode = MatchMode.exact;
  match_score = none;
  confidence = full_match;
  extractor_id = "replay:v0";
}

abbrev known : Option (List String)
known = some ("art" ∷ "name" ∷ [])

accepted_claim :
    (verify_proposal crude exact_everywhere known layer (claim_of "art")).record_ ≡ some claimed
unfolding verify_proposal is_space is_member
accepted_claim = refl

-- A quote that stands one character further on is discarded.
shifted_claim :
    (verify_proposal crude exact_everywhere known layer
      (record (claim_of "art") { offset = pos 1 })).failure
    ≡ some FailureKind.offset_out_of_range
unfolding verify_proposal is_space is_member
shifted_claim = refl

unknown_claim :
    (verify_proposal crude exact_everywhere known layer (claim_of "iban")).failure
    ≡ some FailureKind.unknown_field
unfolding verify_proposal is_space is_member
unknown_claim = refl

verify_proposal_iff_example :
    ((verify_proposal crude exact_everywhere known layer (claim_of "art")).record_ ≡ some claimed)
    ↔ Locked crude exact_everywhere known layer (claim_of "art") claimed
verify_proposal_iff_example =
    verify_proposal_iff crude exact_everywhere known layer (claim_of "art") claimed

verify_proposal-Verbatim_example :
    Verbatim layer (claim_of "art") claimed
    × (claimed.value ≡ strip (claim_of "art").value)
    × (is_empty (fold crude (claim_of "art").value) ≡ false)
    × (is_part (fold crude (claim_of "art").value) (fold crude (claim_of "art").quote) ≡ true)
verify_proposal-Verbatim_example =
    verify_proposal-Verbatim crude exact_everywhere known layer (claim_of "art") claimed
      crude-IsStrict exact_everywhere-IsValidConfig accepted_claim refl

verify_proposal-Located_example :
    (span : Span) × (range : ℕ × ℕ) × (claimed.span ≡ some span)
    × (original_span layer span ≡ some range)
    × Located envelope "mail" range
verify_proposal-Located_example =
    verify_proposal-Located ascii envelope stamp 0 layer crude exact_everywhere known
      (claim_of "art") claimed ascii-IsProductive layer_built accepted_claim

abbrev field_map : List FieldMapEntry
field_map =
    record { path = "antrag.name"; field = "name" }
    ∷ record { path = "antrag.art"; field = "art" }
    ∷ []

mapped_payload : fields_of (map_payload (λ x. []) payload field_map).0 ≡ "name" ∷ []
unfolding map_payload is_space
mapped_payload = refl

-- The second claim of a field is a duplicate.
second_claim :
    fields_of (
      records_of (
        verify_proposals crude exact_everywhere known [] layer
          (claim_of "art" ∷ claim_of "art" ∷ [])))
    ≡ "art" ∷ []
unfolding verify_proposals is_space records_of is_member
second_claim = refl

field_map-IsUnique : IsUnique (entry_fields field_map)
unfolding is_member
field_map-IsUnique = (refl, (refl, tt))

extract_all-Accounted_example :
    (let out =
        extract_all
          (λ x. [])
          crude
          exact_everywhere
          envelope
          layer
          field_map
          (claim_of "art" ∷ [])
          none
          stamp
          0 in
      length out.extractions.records
        + out.extractions.discarded_count
        + hits (fields_of (records_of out.verifications)) out.mapper_discarded
      ≡ 3)
extract_all-Accounted_example =
    extract_all-Accounted (λ x. []) crude exact_everywhere envelope layer field_map
      (claim_of "art" ∷ []) none stamp 0

extract_all-IsWellFormed_example :
    IsWellFormed
      (extract_all
        (λ x. [])
        crude
        exact_everywhere
        envelope
        layer
        field_map
        (claim_of "art" ∷ [])
        none
        stamp
        0).extractions.records
extract_all-IsWellFormed_example =
    extract_all-IsWellFormed (λ x. []) crude exact_everywhere envelope layer field_map
      (claim_of "art" ∷ []) none stamp 0 crude-IsScoring exact_everywhere-IsConfident
      field_map-IsUnique
