-- ===== src/Extract/Records.antt =====
-- engine/extract/proposal.py, schemas/extraction.py, and the settings that verification reads.
use mathlib.Core.List.{map}
use optimaler_status.Base.{
  ℕ, Bool, true, false, Option, none, some, String, List, [], ◌∷◌, is_some, ◌&&◌,
}
use optimaler_status.Base.Int.{ℤ, pos}
use optimaler_status.Python.Text.{Text}
use optimaler_status.Python.Float.{Float, finite, le, one}
use optimaler_status.Contracts.Common.{Span, VersionStamp}
use optimaler_status.Contracts.Envelope.{SourceType}

-- A claim about a field.
pub record Proposal : Type 0 where
  pub field : String
  pub value : Text
  pub quote : Text
  pub part_id : String
  pub offset : ℤ
  pub extractor_id : String

pub data MatchMode : Type 0 where
  exact fuzzy structured : MatchMode

pub record ExtractionRecord : Type 0 where
  pub field : String
  pub value : Text
  pub span : Option Span
  pub match_mode : MatchMode
  pub match_score : Option Float
  pub confidence : Float
  pub extractor_id : String

-- Field(ge=0.0, le=1.0)
unfoldable pub in_range : Float → Bool
unfolding le one
in_range x = le (finite (pos 0)) x && le x (finite (pos one))

-- The range of match_score, where it is not None.
abbrev pub score_in_range : Option Float → Bool
score_in_range none = true
score_in_range (some score) = in_range score

-- _check_mode_invariants
abbrev pub fits_mode : MatchMode → Option Span → Option Float → Bool
fits_mode structured none score = true
fits_mode structured (some span) score = false
fits_mode exact span score = is_some span
fits_mode fuzzy none score = false
fits_mode fuzzy (some span) score = is_some score

-- Whether the record can be constructed: its ranges, and its validator.
unfoldable pub is_valid_record : ExtractionRecord → Bool
unfolding in_range
is_valid_record r =
    (score_in_range r.match_score && in_range r.confidence)
    && fits_mode r.match_mode r.span r.match_score

pub record ExtractionSet : Type 0 where
  pub envelope_id : String
  pub case_id : String
  pub procedure_id : Option String
  pub records : List ExtractionRecord
  pub discarded_count : ℕ
  pub created_at : ℕ
  pub versions : VersionStamp

-- MatchPolicy.mode
pub data PolicyMode : Type 0 where
  exact_mode fuzzy_mode : PolicyMode

pub record MatchPolicy : Type 0 where
  pub mode : PolicyMode
  pub min_score : Float

-- The loader demands numbers from 0 to 1.
pub record ConfidencePolicy : Type 0 where
  pub exact : Float
  pub fuzzy_floor : Float

-- The part of ExtractionConfig that verification reads; each source type has a policy.
pub record ExtractionConfig : Type 0 where
  pub policy_for : SourceType → MatchPolicy
  pub confidence : ConfidencePolicy

pub data FailureKind : Type 0 where
  empty_value unknown_field unknown_part offset_out_of_range quote_mismatch value_not_in_quote
        duplicate_field :
      FailureKind

-- A proposal after both locks.
pub record Verification : Type 0 where
  pub proposal : Proposal
  pub record_ : Option ExtractionRecord
  pub failure : Option FailureKind
  pub score : Float

abbrev pub accepted : Verification → Bool
accepted v = is_some v.record_

-- The record of an outcome before the records of the others.
abbrev pub with_record : Option ExtractionRecord → List ExtractionRecord → List ExtractionRecord
with_record none records = records
with_record (some r) records = r ∷ records

-- [outcome.record for outcome in verifications if outcome.record is not None]
unfoldable pub records_of : List Verification → List ExtractionRecord
records_of [] = []
records_of (v ∷ verifications) = with_record v.record_ (records_of verifications)

abbrev pub fields_of : List ExtractionRecord → List String
fields_of records = map (λ (r : ExtractionRecord). r.field) records
