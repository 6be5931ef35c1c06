-- ===== src/TextLayer/Tests.antt =====
-- Runs of the text layer, and its theorems at inputs that meet their hypotheses.
use optimaler_status.Base.{
  ◌≡◌, refl, ◌&&◌, ◌||◌, Option, none, some, String, [], ◌∷◌, ◌++◌, length, leb, arith, true,
}
use optimaler_status.Base.TextOrder.{codes}
use optimaler_status.Python.Text.{Text, is_space}
use optimaler_status.Base.Int.{pos}
use optimaler_status.Python.Value.{Fields, field, end, mapping, str, int}
use optimaler_status.Contracts.Common.{VersionStamp}
use optimaler_status.Contracts.Envelope.{Channel, SourceType, ContentPart, Envelope, TextLayer}
use optimaler_status.TextLayer.Normalize.{Unicode, NormalizedText, normalize}
use optimaler_status.TextLayer.Normalize.Tiling.{IsProductive}
use optimaler_status.TextLayer.Normalize.Origin.{Explained, normalize-Explained}
use optimaler_status.TextLayer.Translate.{translate_span}
use optimaler_status.TextLayer.Translate.Bounds.{Within, translate_span-normalize}
use optimaler_status.TextLayer.Layer.{build_text_layer, merged_text}

-- Texts without composed characters.
abbrev pub ascii : Unicode
ascii = record {
  is_combining = λ c. leb 768 c && leb c 879;
  is_alpha = λ c. (leb 65 c && leb c 90) || (leb 97 c && leb c 122);
  nfc = λ text. text;
}

pub ascii-IsProductive : IsProductive ascii
ascii-IsProductive c text = omega arith

-- A hyphenation over a line break, and two spaces.
abbrev pub letter : Text
letter = codes "Ren-" ++ (10 ∷ codes "te  ab ")

abbrev pub letter_normalized : NormalizedText
letter_normalized = record {
  text = codes "Rente ab";
  segments =
      record { norm_start = 0; norm_end = 3; orig_start = 0; orig_end = 3 }
      ∷ record { norm_start = 3; norm_end = 5; orig_start = 5; orig_end = 7 }
      ∷ record { norm_start = 5; norm_end = 6; orig_start = 7; orig_end = 9 }
      ∷ record { norm_start = 6; norm_end = 8; orig_start = 9; orig_end = 11 }
      ∷ [];
}

sample_normalized : normalize ascii letter ≡ some letter_normalized
unfolding normalize is_space
sample_normalized = refl

-- The span of a collapsed space widens to the run.
translate_space : translate_span letter_normalized.segments 5 6 ≡ (7, 9)
unfolding translate_span
translate_space = refl

-- A span over the hyphenation covers it in the original.
translate_word : translate_span letter_normalized.segments 0 5 ≡ (0, 7)
unfolding translate_span
translate_word = refl

translate_nothing : translate_span [] 3 4 ≡ (0, 0)
unfolding translate_span
translate_nothing = refl

normalize-Explained_example :
    (r : NormalizedText) × (normalize ascii letter ≡ some r) × Explained ascii none letter r.text
normalize-Explained_example = normalize-Explained ascii letter

translate_span-normalize_example :
    Within
      (translate_span letter_normalized.segments 1 4)
      (translate_span letter_normalized.segments 0 6)
    × Within (translate_span letter_normalized.segments 0 6) (0, length letter)
translate_span-normalize_example =
    translate_span-normalize ascii letter letter_normalized 0 1 4 6 ascii-IsProductive
      sample_normalized (omega arith) (omega arith) (omega arith) (omega arith)

abbrev pub stamp : VersionStamp
stamp = record {
  schema_version = "1";
  taxonomy_version = none;
  rules_version = none;
  decision_table_version = none;
  thresholds_version = none;
  prompt_version = none;
  model_id = none;
  feature_set_version = none;
}

abbrev pub payload : Fields
payload =
    field "antrag" (mapping (field "name" (str " Muster ") (field "alter" (int (pos 67)) end))) end

abbrev part : String → Option Text → Option Fields → ContentPart
part id text fields = record {
  part_id = id;
  source_type = SourceType.born_digital;
  media_type = "text/plain";
  redacted_text = text;
  structured_payload = fields;
}

abbrev pub envelope : Envelope
envelope = record {
  envelope_id = "env-1";
  case_id = "case-1";
  channel = Channel.email;
  procedure_hint = none;
  raw_refs = [];
  vault_ref = "vault-1";
  parts = part "form" none (some payload) ∷ part "mail" (some letter) none ∷ [];
  redaction_verified = true;
  created_at = 0;
  versions = stamp;
}

abbrev pub layer : Option TextLayer
layer = some (record {
  envelope_id = "env-1";
  case_id = "case-1";
  parts =
      record {
        part_id = "mail";
        source_type = SourceType.born_digital;
        normalized_text = letter_normalized.text;
        offset_map = letter_normalized.segments;
      }
      ∷ [];
  created_at = 0;
  versions = stamp;
})

pub layer_built : build_text_layer ascii envelope stamp 0 ≡ some layer
unfolding build_text_layer is_space
layer_built = refl

layer_merged : merged_text layer ≡ codes "Rente ab"
unfolding merged_text
layer_merged = refl
