-- ===== src/Redact/Witness.antt =====
-- engine/redact/seal.py: the transient values behind the placeholders of a request.
use optimaler_status.Base.{Bool, Option, none, some, List, [], ◌∷◌, if◌then◌else◌, is_some}
use optimaler_status.Python.Text.{Text, strip, text_eq}

-- The values by the placeholders' texts, which are unique.
abbrev pub Witness : Type 0
Witness = List (Text × Text)

unfoldable pub value_of : Witness → Text → Option Text
unfolding text_eq
value_of [] key = none
value_of (entry ∷ entries) key = if text_eq entry.0 key then some entry.1 else value_of entries key

-- Witness.resolve
unfoldable pub resolve : Witness → Text → Option Text
unfolding value_of strip
resolve witness value = value_of witness (strip value)

-- Witness.knows
unfoldable pub knows : Witness → Text → Bool
unfolding resolve
knows witness value = is_some (resolve witness value)
