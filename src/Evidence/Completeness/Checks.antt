-- ===== src/Evidence/Completeness/Checks.antt =====
-- The checks of a value against the constraints of its requirement.
use optimaler_status.Base.{
  ℕ, Bool, false, ◌||◌, Option, none, some, String, List, [], ◌∷◌, length, if◌then◌else◌,
  bind_option,
}
use optimaler_status.Base.Int.{ℤ, pos, ltb_ℤ}
use optimaler_status.Python.Text.{Text, strip, text_eq}
use optimaler_status.Evidence.Completeness.Dates.{Date, is_before}
use optimaler_status.Evidence.Completeness.Messages.{
  Shown, show_unless, Constraint, Message, wrong_format, not_allowed, too_short, too_long, no_date,
  below_minimum, above_maximum, Failure,
}

-- date.fromisoformat, where none is its ValueError; whether re.match finds a match of a pattern;
-- str.isdigit of a code point; and its value for int(), which only decimal digits have.
pub record Parsers : Type 0 where
  pub from_iso : Text → Option Date
  pub matches : Text → Text → Bool
  pub is_digit : ℕ → Bool
  pub decimal : ℕ → Option ℕ

pub data CrossKind : Type 0 where
  is_not_before is_not_after has_min_years has_max_years has_birthdate : CrossKind

-- An entry of the cross_field block.
pub record CrossField : Type 0 where
  pub kind : CrossKind
  pub field : String
  pub years : Option ℤ
  pub detail : Option String

pub record DateBlock : Type 0 where
  pub min : Option Text
  pub max : Option Text

-- The validation block of a requirement; a key that is not there is none or [].
pub record Validation : Type 0 where
  pub pattern : Option Text
  pub one_of : Option (List Text)
  pub min_length : Option ℤ
  pub max_length : Option ℤ
  pub date : Option DateBlock
  pub cross_field : List CrossField

abbrev pub fails : Constraint → Message → Option Failure
fails constraint message = some (record { constraint = constraint; message = message })

abbrev pub check_pattern : Parsers → Option Text → Text → Bool → Option Failure
check_pattern lib none value hidden = none
check_pattern lib (some p) value hidden =
    if lib.matches p value
    then none
    else fails Constraint.pattern (wrong_format (show_unless hidden value) p)

unfoldable pub has_text : Text → List Text → Bool
unfolding text_eq
has_text value [] = false
has_text value (other ∷ texts) = text_eq value other || has_text value texts

abbrev pub check_one_of : Option (List Text) → Text → Bool → Option Failure
check_one_of none value hidden = none
check_one_of (some allowed) value hidden =
    if has_text value allowed
    then none
    else fails Constraint.one_of (not_allowed (show_unless hidden value) allowed)

abbrev pub check_min_length : Option ℤ → Text → Bool → Option Failure
check_min_length none value hidden = none
check_min_length (some n) value hidden =
    if ltb_ℤ (pos (length value)) n
    then fails Constraint.min_length (too_short (show_unless hidden value) n)
    else none

abbrev pub check_max_length : Option ℤ → Text → Bool → Option Failure
check_max_length none value hidden = none
check_max_length (some n) value hidden =
    if ltb_ℤ n (pos (length value))
    then fails Constraint.max_length (too_long (show_unless hidden value) n)
    else none

unfoldable pub parse_iso_date : Parsers → Text → Option Date
unfolding strip
parse_iso_date lib value = lib.from_iso (strip value)

-- _bound
abbrev pub bound : Parsers → Option Text → Option Date
bound lib value = bind_option value (parse_iso_date lib)

-- The first failure of two checks.
abbrev pub or_next : Option Failure → Option Failure → Option Failure
or_next none next = next
or_next (some f) next = some f

abbrev pub above_bound : Option Date → Date → Shown → Option Failure
above_bound none parsed shown = none
above_bound (some low) parsed shown =
    if is_before parsed low then fails Constraint.date_min (below_minimum shown low) else none

abbrev pub below_bound : Option Date → Date → Shown → Option Failure
below_bound none parsed shown = none
below_bound (some high) parsed shown =
    if is_before high parsed then fails Constraint.date_max (above_maximum shown high) else none

-- The date that a value was parsed as against the bounds.
unfoldable pub check_parsed : Parsers → DateBlock → Shown → Option Date → Option Failure
unfolding parse_iso_date is_before
check_parsed lib block shown none = fails Constraint.date (no_date shown)
check_parsed lib block shown (some parsed) =
    or_next (above_bound (bound lib block.min) parsed shown)
      (below_bound (bound lib block.max) parsed shown)

unfoldable pub check_date : Parsers → Option DateBlock → Text → Bool → Option Failure
unfolding check_parsed
check_date lib none value hidden = none
check_date lib (some block) value hidden =
    check_parsed lib block (show_unless hidden value) (parse_iso_date lib value)
