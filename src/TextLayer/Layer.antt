-- ===== src/TextLayer/Layer.antt =====
-- engine/textlayer/layer.py: the normalized texts of the parts of an envelope.
pub mod Totality
pub mod Spans
use mathlib.Core.Option.{map}
use optimaler_status.Base.{
  ℕ, ◌+◌, Bool, true, false, Option, none, some, String, List, [], ◌∷◌, ◌++◌, keep, is_some, length,
  str_eq, if◌then◌else◌,
}
use optimaler_status.Python.Text.{Text, is_empty, join}
use optimaler_status.Contracts.Common.{Span, VersionStamp}
use optimaler_status.Contracts.Envelope.{
  SourceType, ContentPart, Envelope, TextLayerPart, TextLayer,
}
use optimaler_status.TextLayer.Normalize.{Unicode, NormalizedText, normalize}
use optimaler_status.TextLayer.Translate.{translate_span}

abbrev pub has_text : ContentPart → Bool
has_text part = is_some part.redacted_text

unfoldable pub text_parts : Envelope → List ContentPart
unfolding keep
text_parts envelope = keep has_text envelope.parts

-- part.redacted_text or ""
abbrev pub text_or_empty : Option Text → Text
text_or_empty none = []
text_or_empty (some text) = text

-- _layer_part
abbrev pub layer_part_of : ContentPart → NormalizedText → TextLayerPart
layer_part_of part normalized = record {
  part_id = part.part_id;
  source_type = part.source_type;
  normalized_text = normalized.text;
  offset_map = normalized.segments;
}

-- A part before the later ones, where normalize gives a text.
unfoldable pub add_part :
    ContentPart → Option NormalizedText → Option (List TextLayerPart) → Option (List TextLayerPart)
add_part part none later = none
add_part part (some normalized) none = none
add_part part (some normalized) (some later) = some (layer_part_of part normalized ∷ later)

-- The comprehension over the parts; none where normalize gives none.
unfoldable pub layer_parts : Unicode → List ContentPart → Option (List TextLayerPart)
unfolding normalize add_part
layer_parts u [] = some []
layer_parts u (part ∷ parts) =
    add_part part (normalize u (text_or_empty part.redacted_text)) (layer_parts u parts)

-- The layer of the parts, which is None without parts.
abbrev pub layer_of : Envelope → VersionStamp → ℕ → List TextLayerPart → Option TextLayer
layer_of envelope versions now [] = none
layer_of envelope versions now (part ∷ parts) = some (record {
  envelope_id = envelope.envelope_id;
  case_id = envelope.case_id;
  parts = part ∷ parts;
  created_at = now;
  versions = versions;
})

-- The outer option is the one of normalize.
unfoldable pub build_text_layer : Unicode → Envelope → VersionStamp → ℕ → Option (Option TextLayer)
unfolding text_parts layer_parts
build_text_layer u envelope versions now =
    map (layer_of envelope versions now) (layer_parts u (text_parts envelope))

-- The loop of layer_part.
unfoldable pub find_part : List TextLayerPart → String → Option TextLayerPart
find_part [] part_id = none
find_part (part ∷ parts) part_id =
    if str_eq part.part_id part_id then some part else find_part parts part_id

unfoldable pub layer_part : Option TextLayer → String → Option TextLayerPart
unfolding find_part
layer_part none part_id = none
layer_part (some layer) part_id = find_part layer.parts part_id

unfoldable pub texts_of : List TextLayerPart → List Text
texts_of [] = []
texts_of (part ∷ parts) = part.normalized_text ∷ texts_of parts

unfoldable pub merged_text : Option TextLayer → Text
unfolding join texts_of
merged_text none = []
merged_text (some layer) = join (32 ∷ []) (texts_of layer.parts)

unfoldable pub original_span : Option TextLayer → Span → Option (ℕ × ℕ)
unfolding layer_part translate_span
original_span layer span =
    map (λ part. translate_span part.offset_map span.start span.stop)
      (layer_part layer span.part_id)

-- What the journal says of a part.
pub record PartStats : Type 0 where
  pub part_id : String
  pub source_type : SourceType
  pub normalized_chars : ℕ
  pub offset_segments : ℕ

unfoldable pub part_stats : List TextLayerPart → List PartStats
part_stats [] = []
part_stats (part ∷ parts) =
    record {
      part_id = part.part_id;
      source_type = part.source_type;
      normalized_chars = length part.normalized_text;
      offset_segments = length part.offset_map;
    }
    ∷ part_stats parts

-- The part count and the parts.
unfoldable pub layer_stats : Option TextLayer → ℕ × List PartStats
unfolding part_stats
layer_stats none = (0, [])
layer_stats (some layer) = (length layer.parts, part_stats layer.parts)
