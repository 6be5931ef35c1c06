-- ===== src/Extract/Mapper/Accounting.antt =====
-- Every entry of a field map is a record or is discarded.
use mathlib.Core.List.{map}
use optimaler_status.Base.{
  ◌+◌, ◌≡◌, refl, true, false, Option, none, some, String, List, [], ◌∷◌, length, All, arith,
  is_member, IsUnique,
}
use optimaler_status.Python.Float.{Float}
use optimaler_status.Python.Text.{Text}
use optimaler_status.Python.Value.{Fields}
use optimaler_status.Extract.Records.{is_valid_record, fields_of}
use optimaler_status.Extract.Verify.Ranges.{full_match-in_range}
use optimaler_status.Extract.Mapper.{
  FieldMapEntry, scalar_text, resolve_path, Mapped, map_entry, map_payload,
}

abbrev pub entry_fields : List FieldMapEntry → List String
entry_fields entries = map (λ (e : FieldMapEntry). e.field) entries

-- What a payload's records are, by the entries that are mapped.
pub record IsMapped (entries : List FieldMapEntry) (mapped : Mapped) : Type 0 where
  pub counts : length mapped.0 + length mapped.1 ≡ length entries
  pub inside :
      (f : String)
      → is_member f (entry_fields entries) ≡ false
      → is_member f (fields_of mapped.0) ≡ false
  pub unique : IsUnique (entry_fields entries) → IsUnique (fields_of mapped.0)
  pub valid : All (λ r. is_valid_record r ≡ true) mapped.0

map_entry-IsMapped :
    (entry : FieldMapEntry) (entries : List FieldMapEntry) (value : Option Text) (later : Mapped)
    → IsMapped entries later
    → IsMapped (entry ∷ entries) (map_entry entry value later)
unfolding is_member is_valid_record
map_entry-IsMapped entry entries none later h = record {
  counts = omega (arith, h.counts);
  inside = λ f k. h.inside f (ground (arith, k));
  unique = λ k. h.unique k.1;
  valid = h.valid;
}
map_entry-IsMapped entry entries (some value) later h = record {
  counts = omega (arith, h.counts);
  inside = λ f k.
      let rest : is_member f (entry_fields entries) ≡ false = ground (arith, k) in
      ground (arith, k, h.inside f rest);
  unique = λ k. (h.inside entry.field k.0, h.unique k.1);
  valid = (rw full_match-in_range refl, h.valid);
}

pub map_payload-IsMapped :
    (repr : Float → Text) (payload : Fields) (entries : List FieldMapEntry)
    → IsMapped entries (map_payload repr payload entries)
unfolding map_payload
map_payload-IsMapped repr payload [] = record {
  counts = refl;
  inside = λ f k. k;
  unique = λ k. tt;
  valid = tt;
}
map_payload-IsMapped repr payload (entry ∷ entries) =
    map_entry-IsMapped entry entries (scalar_text repr (resolve_path payload entry.path)) _
      (map_payload-IsMapped repr payload entries)
