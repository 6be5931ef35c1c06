-- ===== src/Extract/Mapper.antt =====
-- engine/extract/mapper.py: values of a structured payload, by their paths. Also scalar_text of
-- engine/redact/seal.py.
pub mod Accounting
use optimaler_status.Base.{
  ℕ, zero, suc, ◌+◌, ◌/◌, ◌%◌, Bool, true, false, Option, none, some, String, List, [], ◌∷◌, ◌++◌,
  ltb, ◌==◌, if◌then◌else◌,
}
use optimaler_status.Base.Int.{ℤ, pos, negsuc}
use optimaler_status.Base.TextOrder.{codes}
use optimaler_status.Python.Float.{Float}
use optimaler_status.Python.Text.{Text, is_empty, strip, text_eq}
use optimaler_status.Python.Value.{
  Value, null, bool, int, float, str, seq, mapping, Fields, end, field,
}
use optimaler_status.Extract.Records.{MatchMode, ExtractionRecord}
use optimaler_status.Extract.Verify.{full_match}

pub record FieldMapEntry : Type 0 where
  pub path : String
  pub field : String

-- text.split("."), behind what is read of the first segment
unfoldable pub segments_after : Text → Text → List Text
segments_after segment [] = segment ∷ []
segments_after segment (c ∷ text) =
    let ended = segments_after [] text in
    let longer = segments_after (segment ++ c ∷ []) text in
    if c == 46 then segment ∷ ended else longer

-- current[segment], where there is one
unfoldable pub child : Fields → Text → Option Value
unfolding text_eq
child end segment = none
child (field k v fields) segment =
    if text_eq (codes k) segment then some v else child fields segment

-- The loop of resolve_path.
unfoldable pub resolve : Option Value → List Text → Option Value
unfolding child
resolve v [] = v
resolve (some (mapping fields)) (segment ∷ segments) = resolve (child fields segment) segments
resolve _ (segment ∷ segments) = none

unfoldable pub resolve_path : Fields → String → Option Value
unfolding resolve segments_after
resolve_path payload path = resolve (some (mapping payload)) (segments_after [] (codes path))

-- str(n) for a number, with as much fuel as its value
unfoldable pub digits : ℕ → ℕ → Text
digits zero n = []
digits (suc fuel) n =
    let front = digits fuel (n / 10) in (if ltb n 10 then [] else front) ++ (48 + n % 10) ∷ []

unfoldable pub int_text : ℤ → Text
unfolding digits
int_text (pos n) = digits (suc n) n
int_text (negsuc n) = 45 ∷ digits (suc (suc n)) (suc n)

-- text or None
abbrev pub filled : Text → Option Text
filled [] = none
filled (c ∷ text) = some (c ∷ text)

-- scalar_text, with str(x) of a float as a parameter.
unfoldable pub scalar_text : (Float → Text) → Option Value → Option Text
unfolding strip int_text
scalar_text repr (some (bool true)) = some (codes "true")
scalar_text repr (some (bool false)) = some (codes "false")
scalar_text repr (some (int n)) = filled (strip (int_text n))
scalar_text repr (some (float x)) = filled (strip (repr x))
scalar_text repr (some (str s)) = filled (strip (codes s))
scalar_text repr _ = none

abbrev pub extractor_id : String
extractor_id = "mapper:v0"

abbrev pub structured_record : FieldMapEntry → Text → ExtractionRecord
structured_record entry value = record {
  field = entry.field;
  value = value;
  span = none;
  match_mode = MatchMode.structured;
  match_score = none;
  confidence = full_match;
  extractor_id = extractor_id;
}

-- The records, and the fields that were discarded.
abbrev pub Mapped : Type 0
Mapped = List ExtractionRecord × List String

abbrev pub map_entry : FieldMapEntry → Option Text → Mapped → Mapped
map_entry entry none later = (later.0, entry.field ∷ later.1)
map_entry entry (some value) later = (structured_record entry value ∷ later.0, later.1)

unfoldable pub map_payload : (Float → Text) → Fields → List FieldMapEntry → Mapped
unfolding scalar_text resolve_path full_match
map_payload repr payload [] = ([], [])
map_payload repr payload (entry ∷ entries) =
    map_entry entry (scalar_text repr (resolve_path payload entry.path))
      (map_payload repr payload entries)
