-- ===== src/Evidence/Completeness/CrossField.antt =====
-- The checks of a value against the value of another field.
use optimaler_status.Base.{
  ℕ, ◌+◌, ◌*◌, ◌%◌, Bool, true, ◌&&◌, ◌||◌, Option, none, some, String, List, [], ◌∷◌, length, ◌==◌,
  if◌then◌else◌, is_member,
}
use optimaler_status.Base.Int.{ltb_ℤ}
use optimaler_status.Base.Dict
use optimaler_status.Base.Dict.{Dict}
use optimaler_status.Python.Text.{Text, is_empty, strip, take, drop}
use optimaler_status.Python.Result.{Result, ok, err, ◌>>=◌, value_error}
use optimaler_status.Evidence.Completeness.Dates.{Date, date_of, is_before, years_between}
use optimaler_status.Evidence.Completeness.Messages.{
  Shown, show_unless, Constraint, Message, explained, before_other, after_other, too_few_years,
  too_many_years, no_birthdate, other_birthdate, named_birthdates, Failure,
}
use optimaler_status.Evidence.Completeness.Checks.{
  Parsers, CrossKind, is_not_before, is_not_after, has_min_years, has_max_years, has_birthdate,
  CrossField, Validation, fails, or_next, parse_iso_date, check_pattern, check_one_of,
  check_min_length, check_max_length, check_date,
}

-- _explain: the configured sentence where it is not empty.
abbrev pub explain : Option String → Message → Message
explain (some (String.◌∷◌ c s)) fallback = explained (String.◌∷◌ c s)
explain _ fallback = fallback

-- The part of _cross_field_failure behind the two dates.
unfoldable pub compare_dates : CrossField → Shown → Shown → Date → Date → CrossKind → Option Failure
unfolding is_before years_between
compare_dates entry shown other this that is_not_before =
    if is_before this that
    then fails Constraint.not_before (explain entry.detail (before_other shown entry.field other))
    else none
compare_dates entry shown other this that is_not_after =
    if is_before that this
    then fails Constraint.not_after (explain entry.detail (after_other shown entry.field other))
    else none
compare_dates entry shown other this that has_min_years = elim entry.years [
  | none ↦ none
  | some n ↦
      if ltb_ℤ (years_between that this) n
      then fails Constraint.min_years_after
          (explain entry.detail (too_few_years shown entry.field other n))
      else none
]
compare_dates entry shown other this that has_max_years = elim entry.years [
  | none ↦ none
  | some n ↦
      if ltb_ℤ n (years_between that this)
      then fails Constraint.max_years_after
          (explain entry.detail (too_many_years shown entry.field other n))
      else none
]
compare_dates entry shown other this that has_birthdate = none

-- Two values that were parsed as dates, or not.
unfoldable pub compare_parsed :
    CrossField → Shown → Shown → Option Date → Option Date → Option Failure
unfolding compare_dates
compare_parsed entry shown other none that = none
compare_parsed entry shown other (some this) none = none
compare_parsed entry shown other (some this) (some that) =
    compare_dates entry shown other this that entry.kind

unfoldable pub cross_field_failure :
    Parsers → CrossField → Text → Text → Bool → Bool → Option Failure
unfolding parse_iso_date compare_parsed
cross_field_failure lib entry value other hidden other_hidden =
    compare_parsed entry (show_unless hidden value) (show_unless other_hidden other)
      (parse_iso_date lib value) (parse_iso_date lib other)

unfoldable pub all_digits : Parsers → Text → Bool
all_digits lib [] = true
all_digits lib (c ∷ text) = lib.is_digit c && all_digits lib text

-- The number of two digits, or ValueError.
unfoldable pub two_digits : Option ℕ → Option ℕ → Result ℕ
two_digits none y = err value_error
two_digits (some x) none = err value_error
two_digits (some x) (some y) = ok (10 * x + y)

-- int() of two code points that are digits for str.isdigit.
unfoldable pub int_of_two : Parsers → ℕ → ℕ → Result ℕ
unfolding two_digits
int_of_two lib a b = two_digits (lib.decimal a) (lib.decimal b)

-- The date that six digits DDMMJJ are.
unfoldable pub date_in_digits : Parsers → Text → Result (Option Date)
unfolding int_of_two date_of
date_in_digits lib (a ∷ b ∷ c ∷ d ∷ e ∷ f ∷ []) = int_of_two lib a b >>= λ day.
    int_of_two lib c d >>= λ month.
    int_of_two lib e f >>= λ year. ok (date_of (1900 + year) month day)
date_in_digits lib _ = ok none

unfoldable pub vsnr_birthdate : Parsers → Text → Result (Option Date)
unfolding all_digits date_in_digits take drop
vsnr_birthdate lib vsnr =
    let digits = take 6 (drop 2 vsnr) in
    if (length digits == 6) && all_digits lib digits then date_in_digits lib digits else ok none

abbrev pub same_birthdate : Date → Date → Bool
same_birthdate a b = (a.day == b.day) && ((a.month == b.month) && (a.year % 100 == b.year % 100))

abbrev pub mismatch_text : Text → Date → Date → String → Bool → Bool → Message
mismatch_text vsnr encoded stated other_id hidden other_hidden =
    if hidden || other_hidden
    then other_birthdate other_id
    else named_birthdates vsnr encoded other_id stated

-- The encoded date against the stated one.
unfoldable pub compare_birthdate :
    CrossField → Text → Bool → Bool → Date → Option Date → Option Failure
compare_birthdate entry vsnr hidden other_hidden encoded none = none
compare_birthdate entry vsnr hidden other_hidden encoded (some stated) =
    if same_birthdate encoded stated
    then none
    else fails Constraint.birthdate_in_vsnr
        (explain entry.detail (mismatch_text vsnr encoded stated entry.field hidden other_hidden))

-- What _check_birthdate_in_vsnr says of the encoded date.
unfoldable pub birthdate_failure :
    Parsers → CrossField → Text → Text → Bool → Bool → Option Date → Option Failure
unfolding parse_iso_date compare_birthdate
birthdate_failure lib entry vsnr birthdate hidden other_hidden none =
    fails Constraint.birthdate_in_vsnr (no_birthdate (show_unless hidden vsnr))
birthdate_failure lib entry vsnr birthdate hidden other_hidden (some encoded) =
    compare_birthdate entry vsnr hidden other_hidden encoded (parse_iso_date lib birthdate)

-- The check of one entry against the other value, which is "" where there is none.
unfoldable pub check_entry :
    Parsers → CrossField → Text → Text → Bool → Bool → CrossKind → Result (Option Failure)
unfolding vsnr_birthdate birthdate_failure cross_field_failure
check_entry lib entry value other hidden other_hidden has_birthdate =
    vsnr_birthdate lib value >>= λ encoded.
    ok (birthdate_failure lib entry value other hidden other_hidden encoded)
check_entry lib entry value other hidden other_hidden _ =
    ok (
      if is_empty other
      then none
      else cross_field_failure lib entry value other hidden other_hidden)

-- values.get(field, "").strip()
abbrev pub or_blank : Option Text → Text
or_blank none = []
or_blank (some value) = strip value

abbrev pub first_failure : Result (Option Failure) → Option Failure → Result (Option Failure)
first_failure later none = later
first_failure later (some f) = ok (some f)

-- _check_cross_field
unfoldable pub check_cross_field :
    Parsers → List CrossField → Text → Dict Text → Bool → List String → Result (Option Failure)
unfolding check_entry strip Dict.get is_member
check_cross_field lib [] value values hidden sealed = ok none
check_cross_field lib (entry ∷ entries) value values hidden sealed =
    check_entry lib entry value (or_blank (Dict.get values entry.field)) hidden
      (is_member entry.field sealed) entry.kind
    >>= first_failure (check_cross_field lib entries value values hidden sealed)

-- The checks that look at the value alone, in their order.
unfoldable pub check_alone : Parsers → Validation → Text → Bool → Option Failure
unfolding check_date
check_alone lib v value hidden = or_next (check_pattern lib v.pattern value hidden) (
    or_next (check_one_of v.one_of value hidden) (
      or_next (check_min_length v.min_length value hidden) (
        or_next (check_max_length v.max_length value hidden) (check_date lib v.date value hidden))))

unfoldable pub validation_problem :
    Parsers → Option Validation → Text → Dict Text → List String → String → Result (Option Failure)
unfolding check_alone check_cross_field is_member
validation_problem lib none value values sealed field_id = ok none
validation_problem lib (some v) value values sealed field_id =
    let hidden = is_member field_id sealed in
    first_failure (check_cross_field lib v.cross_field value values hidden sealed)
      (check_alone lib v value hidden)
