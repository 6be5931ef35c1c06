-- ===== src/Contracts/Envelope.antt =====
-- schemas/envelope.py and schemas/textlayer.py: the redacted item, and its normalized text.
use optimaler_status.Base.{ℕ, Bool, String, Option, List}
use optimaler_status.Python.Text.{Text}
use optimaler_status.Python.Value.{Fields}
use optimaler_status.Contracts.Common.{VersionStamp}

pub data Channel : Type 0 where
  fit_connect email scan : Channel

pub data SourceType : Type 0 where
  born_digital ocr : SourceType

pub record RawRef : Type 0 where
  pub ref_id : String
  pub media_type : String
  pub filename : Option String
  pub sha256 : Option String

pub record ContentPart : Type 0 where
  pub part_id : String
  pub source_type : SourceType
  pub media_type : String
  pub redacted_text : Option Text
  pub structured_payload : Option Fields

pub record Envelope : Type 0 where
  pub envelope_id : String
  pub case_id : String
  pub channel : Channel
  pub procedure_hint : Option String
  pub raw_refs : List RawRef
  pub vault_ref : String
  pub parts : List ContentPart
  pub redaction_verified : Bool
  pub created_at : ℕ
  pub versions : VersionStamp

-- Half-open ranges.
pub record OffsetSegment : Type 0 where
  pub norm_start : ℕ
  pub norm_end : ℕ
  pub orig_start : ℕ
  pub orig_end : ℕ

pub record TextLayerPart : Type 0 where
  pub part_id : String
  pub source_type : SourceType
  pub normalized_text : Text
  pub offset_map : List OffsetSegment

pub record TextLayer : Type 0 where
  pub envelope_id : String
  pub case_id : String
  pub parts : List TextLayerPart
  pub created_at : ℕ
  pub versions : VersionStamp
