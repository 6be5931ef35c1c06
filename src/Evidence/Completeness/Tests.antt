-- ===== src/Evidence/Completeness/Tests.antt =====
-- Runs of the completeness check, and its theorems at inputs that meet their hypotheses.
use optimaler_status.Base.{
  ℕ, zero, suc, ◌==◌, ◌||◌, not, false, ◌+◌, ◌-◌, ◌*◌, ◌≡◌, refl, Bool, true, ◌&&◌, none, some,
  String, List, [], ◌∷◌, All, ◌↔◌, leb, if◌then◌else◌, is_member,
}
use optimaler_status.Base.Int.{pos}
use optimaler_status.Base.Dict
use optimaler_status.Base.TextOrder.{codes}
use optimaler_status.Python.Float.{finite}
use optimaler_status.Python.Text.{Text, is_space, take, drop, text_eq}
use optimaler_status.Python.Result.{ok}
use optimaler_status.Contracts.Evidence.{complete, invalid, CompletenessEvidence}
use optimaler_status.Redact.Placeholders.{parse_placeholder}
use optimaler_status.Extract.Records.{ExtractionRecord, MatchMode}
use optimaler_status.Evidence.Completeness.Dates.{date_of, years_between}
use optimaler_status.Evidence.Completeness.Messages.{
  Constraint, other_birthdate, failed, unresolved, Gap,
}
use optimaler_status.Evidence.Completeness.Checks.{Parsers, CrossKind, Validation}
use optimaler_status.Evidence.Completeness.Evaluate.{
  RequirementKind, Requirement, RequirementList, Setting, gaps_of, evaluate_completeness,
}
use optimaler_status.Evidence.Completeness.Evaluate.Verdict.{IsComplete, evaluate_completeness_iff}
use optimaler_status.Evidence.Completeness.Evaluate.Discreet.{DiscreetGap, gaps_of-Discreet}

abbrev is_figure : ℕ → Bool
is_figure c = leb 48 c && leb c 57

abbrev number : Text → ℕ
number digits = read 0 digits
  where
    read : ℕ → Text → ℕ
    read n [] = n
    read n (c ∷ digits) = read (10 * n + (c - 48)) digits

-- The figures 0 to 9, and the superscript two, which is a digit without a decimal value.
abbrev is_figure_or_square : ℕ → Bool
is_figure_or_square c = is_figure c || (c == 178)

abbrev vsnr_pattern : Text
vsnr_pattern = codes "^[0-9]{8}[A-Z][0-9]{3}$"

-- The first n code points are there, and are the figures 0 to 9.
abbrev begins_with_figures : ℕ → Text → Bool
begins_with_figures zero text = true
begins_with_figures (suc n) [] = false
begins_with_figures (suc n) (c ∷ text) = is_figure c && begins_with_figures n text

-- Dates as YYYY-MM-DD; any pattern matches but that of a Versicherungsnummer, of which the eight
-- figures at the start are demanded.
abbrev parsers : Parsers
parsers = record {
  from_iso = λ value.
      date_of (number (take 4 value)) (number (take 2 (drop 5 value)))
        (number (take 2 (drop 8 value)));
  matches = λ p value. not (text_eq p vsnr_pattern) || begins_with_figures 8 value;
  is_digit = is_figure_or_square;
  decimal = λ c. if is_figure c then some (c - 48) else none;
}

years_before_birthday :
    years_between
      (record { year = 1950; month = 3; day = 2 })
      (record { year = 2015; month = 3; day = 1 })
    ≡ pos 64
unfolding years_between
years_before_birthday = refl

no_leap_day : date_of 1900 2 29 ≡ none
unfolding date_of
no_leap_day = refl

abbrev unchecked : Validation
unchecked = record {
  pattern = none;
  one_of = none;
  min_length = none;
  max_length = none;
  date = none;
  cross_field = [];
}

abbrev requirement : String → Validation → Requirement
requirement id v = record {
  requirement_id = id;
  kind = RequirementKind.field_kind;
  description = id;
  validation = some v;
}

abbrev requirements : RequirementList
requirements = record {
  procedure_id = "altersrente";
  version = "1";
  requirements =
      requirement "geburtsdatum" (record unchecked {
        date = some (record { min = some (codes "1900-01-01"); max = some (codes "2010-12-31") });
      })
      ∷ requirement "vsnr" (record unchecked {
        pattern = some vsnr_pattern;
        min_length = some (pos 12);
        cross_field =
            record {
              kind = CrossKind.has_birthdate;
              field = "geburtsdatum";
              years = none;
              detail = none;
            }
            ∷ [];
      })
      ∷ [];
}

abbrev setting : Setting
setting = record { parsers = parsers; paths = []; witness = none; sealed = "vsnr" ∷ [] }

abbrev entry : String → Text → ExtractionRecord
entry name value = record {
  field = name;
  value = value;
  span = none;
  match_mode = MatchMode.structured;
  match_score = none;
  confidence = finite (pos 0);
  extractor_id = "mapper:v0";
}

abbrev matching : List ExtractionRecord
matching = entry "geburtsdatum" (codes "1950-03-02") ∷ entry "vsnr" (codes "65020350A123") ∷ []

abbrev contradicting : List ExtractionRecord
contradicting = entry "geburtsdatum" (codes "1950-03-02") ∷ entry "vsnr" (codes "65030350A123") ∷ []

abbrev render : Gap → String
render g = g.requirement_id

abbrev no_gaps : CompletenessEvidence
no_gaps = record {
  procedure_id = some "altersrente";
  verdict = complete;
  gaps = [];
  requirements_version = "1";
}

matching_complete :
    evaluate_completeness render setting matching (some requirements) none ≡ ok no_gaps
unfolding evaluate_completeness is_space is_member date_of parse_placeholder Dict.put Dict.get
matching_complete = refl

evaluate_completeness_iff_example :
    (no_gaps.verdict ≡ complete) ↔ IsComplete setting matching (some requirements)
evaluate_completeness_iff_example =
    evaluate_completeness_iff render setting matching (some requirements) none no_gaps
      matching_complete

abbrev mismatch_gaps : List Gap
mismatch_gaps =
    record {
      requirement_id = "vsnr";
      status = invalid;
      span = none;
      detail = failed (record {
        constraint = Constraint.birthdate_in_vsnr;
        message = other_birthdate "geburtsdatum";
      });
      path = none;
    }
    ∷ []

contradicting_gaps : gaps_of setting contradicting requirements.requirements ≡ ok mismatch_gaps
unfolding gaps_of is_space is_member date_of
contradicting_gaps = refl

-- A placeholder that no witness resolves is invalid.
sealed_gaps :
    gaps_of setting
      (entry "geburtsdatum" (codes "[[PII|GEBDAT|BCDFGHJKMNPQ]]")
        ∷ entry "vsnr" (codes "65020350A123")
        ∷ [])
      requirements.requirements
    ≡ ok (
        record {
          requirement_id = "geburtsdatum";
          status = invalid;
          span = none;
          detail = unresolved;
          path = none;
        }
        ∷ [])
unfolding gaps_of is_space is_member date_of
sealed_gaps = refl

gaps_of-Discreet_example : All (DiscreetGap ("vsnr" ∷ [])) mismatch_gaps
gaps_of-Discreet_example =
    gaps_of-Discreet setting contradicting requirements.requirements mismatch_gaps
      contradicting_gaps
