-- ===== src/Evidence/Completeness/Evaluate/Totality.antt =====
-- When the evaluation of an item returns, and when it raises.
use optimaler_status.Base.{ℕ, ◌≡◌, refl, true, Option, none, some, String, List, [], ◌∷◌, All}
use optimaler_status.Base.Dict
use optimaler_status.Base.Dict.{Dict}
use optimaler_status.Python.Text.{Text, take, drop}
use optimaler_status.Python.Result.{err, value_error}
use optimaler_status.Redact.Placeholders.{parse_placeholder}
use optimaler_status.Extract.Records.{ExtractionRecord}
use optimaler_status.Evidence.Completeness.Checks.{Parsers, Validation}
use optimaler_status.Evidence.Completeness.CrossField.{
  all_digits, two_digits, int_of_two, date_in_digits, vsnr_birthdate,
}
use optimaler_status.Evidence.Completeness.Evaluate.{Requirement, RequirementList}
use optimaler_status.Evidence.Completeness.Evaluate.Birthdate.{Returns, IsGuarded}

-- The value of a record does not make the parser of placeholders raise.
abbrev pub IsParsed : ExtractionRecord → Type 0
IsParsed r = Returns (parse_placeholder r.value)

AllFound : Dict ExtractionRecord → Type 0
AllFound found = All (λ (e : String × ExtractionRecord). IsParsed e.1) found

-- The validation, if there is one, is guarded.
abbrev pub IsChecked : Parsers → Option Validation → Type 0
IsChecked lib none = Unit
IsChecked lib (some v) = IsGuarded lib v

abbrev pub IsGuardedField : Parsers → Requirement → Type 0
IsGuardedField lib q = IsChecked lib q.validation

-- The requirements of a list that may be missing.
abbrev pub requirements_of : Option RequirementList → List Requirement
requirements_of none = []
requirements_of (some list) = list.requirements

-- In a text of six digits whose first one is no decimal digit, looking for the date of birth that a
-- Versicherungsnummer carries raises ValueError.
pub vsnr_birthdate-raises :
    (lib : Parsers) (front back a b c d e f : ℕ) (behind : Text)
    → all_digits lib (a ∷ b ∷ c ∷ d ∷ e ∷ f ∷ []) ≡ true
    → lib.decimal a ≡ none
    → vsnr_birthdate lib (front ∷ back ∷ a ∷ b ∷ c ∷ d ∷ e ∷ f ∷ behind) ≡ err value_error
unfolding vsnr_birthdate date_in_digits int_of_two two_digits take drop
vsnr_birthdate-raises lib front back a b c d e f behind h k = rw (h, k) refl
