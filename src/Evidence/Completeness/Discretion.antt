-- ===== src/Evidence/Completeness/Discretion.antt =====
-- The sentence of a failed check quotes no hidden value.
pub mod Pairs
use mathlib.Core.Option.{map}
use optimaler_status.Base.{
  ℕ, ◌≡◌, refl, sym, ap, ◌∙◌, subst, Bool, true, false, ◌&&◌, ◌||◌, not, Option, none, some, String,
  List, [], ◌∷◌, if◌then◌else◌, Bool-cases, Option-cases, inl, inr, All, is_member, length,
}
use optimaler_status.Base.Dict
use optimaler_status.Base.Dict.{Dict}
use optimaler_status.Base.Int.{ℤ, ltb_ℤ, pos}
use optimaler_status.Python.Text.{Text, is_empty, strip}
use optimaler_status.Python.Result.{Result, ok, err, ◌>>=◌, bind-ok, ok_injective}
use optimaler_status.Extract.Records.{ExtractionRecord}
use optimaler_status.Evidence.Completeness.Dates.{Date, is_before, years_between}
use optimaler_status.Evidence.Completeness.Messages.{
  Shown, concealed, quoted, show_unless, Constraint, Message, explained, wrong_format, not_allowed,
  too_short, too_long, no_date, below_minimum, above_maximum, before_other, after_other,
  too_few_years, too_many_years, no_birthdate, other_birthdate, named_birthdates, Failure,
  GapDetail, document_unchecked, value_missing, unresolved, failed, Gap,
}
use optimaler_status.Evidence.Completeness.Checks.{
  Parsers, CrossKind, CrossField, DateBlock, Validation, fails, check_pattern, has_text,
  check_one_of, check_min_length, check_max_length, parse_iso_date, bound, or_next, above_bound,
  below_bound, check_parsed, check_date, is_not_before, is_not_after, has_min_years, has_max_years,
  has_birthdate,
}
use optimaler_status.Evidence.Completeness.CrossField.{
  explain, compare_dates, compare_parsed, compare_birthdate, cross_field_failure, vsnr_birthdate,
  same_birthdate, mismatch_text, birthdate_failure, check_entry, or_blank, first_failure,
  check_cross_field, check_alone, validation_problem,
}

-- A hidden value is concealed.
abbrev pub Conceals : Bool → Shown → Type 0
Conceals true concealed = Unit
Conceals true (quoted value) = ⊥
Conceals false shown = Unit

-- The sentence about a value, hidden or not, quotes no hidden value, where another field that it names
-- is hidden if it is sealed.
abbrev pub Discreet : List String → Bool → Message → Type 0
Discreet sealed hidden (explained sentence) = Unit
Discreet sealed hidden (wrong_format own p) = Conceals hidden own
Discreet sealed hidden (not_allowed own allowed) = Conceals hidden own
Discreet sealed hidden (too_short own n) = Conceals hidden own
Discreet sealed hidden (too_long own n) = Conceals hidden own
Discreet sealed hidden (no_date own) = Conceals hidden own
Discreet sealed hidden (below_minimum own low) = Conceals hidden own
Discreet sealed hidden (above_maximum own high) = Conceals hidden own
Discreet sealed hidden (before_other own id other) =
    Conceals hidden own × Conceals (is_member id sealed) other
Discreet sealed hidden (after_other own id other) =
    Conceals hidden own × Conceals (is_member id sealed) other
Discreet sealed hidden (too_few_years own id other n) =
    Conceals hidden own × Conceals (is_member id sealed) other
Discreet sealed hidden (too_many_years own id other n) =
    Conceals hidden own × Conceals (is_member id sealed) other
Discreet sealed hidden (no_birthdate own) = Conceals hidden own
Discreet sealed hidden (other_birthdate id) = Unit
Discreet sealed hidden (named_birthdates value encoded id stated) =
    (hidden ≡ false) × (is_member id sealed ≡ false)

abbrev pub DiscreetFailure : List String → Bool → Option Failure → Type 0
DiscreetFailure sealed hidden none = Unit
DiscreetFailure sealed hidden (some f) = Discreet sealed hidden f.message

pub show_unless-Conceals :
    (hidden : Bool) (value : Text) → Conceals hidden (show_unless hidden value)
show_unless-Conceals true value = tt
show_unless-Conceals false value = tt

module _ (sealed : List String) (hidden : Bool) where
  abbrev pub Safe : Option Failure → Type 0
  Safe o = DiscreetFailure sealed hidden o

  pub if_fails :
      (b : Bool) (f : Failure)
      → Discreet sealed hidden f.message
      → Safe (if b then some f else none)
  if_fails true f h = h
  if_fails false f h = tt

  pub unless_fails :
      (b : Bool) (f : Failure)
      → Discreet sealed hidden f.message
      → Safe (if b then none else some f)
  unless_fails true f h = tt
  unless_fails false f h = h

  pub or_next-Safe : (a b : Option Failure) → Safe a → Safe b → Safe (or_next a b)
  or_next-Safe none b h k = k
  or_next-Safe (some f) b h k = h

  pub explain-Discreet :
      (detail : Option String) (fallback : Message)
      → Discreet sealed hidden fallback
      → Discreet sealed hidden (explain detail fallback)
  explain-Discreet none fallback h = h
  explain-Discreet (some String.[]) fallback h = h
  explain-Discreet (some (String.◌∷◌ c sentence)) fallback h = tt

  module _ (lib : Parsers) (value : Text) where
    own : Conceals hidden (show_unless hidden value)
    own = show_unless-Conceals hidden value

    check_pattern-Safe : (o : Option Text) → Safe (check_pattern lib o value hidden)
    check_pattern-Safe none = tt
    check_pattern-Safe (some p) = unless_fails (lib.matches p value) _ own

    check_one_of-Safe : (o : Option (List Text)) → Safe (check_one_of o value hidden)
    check_one_of-Safe none = tt
    check_one_of-Safe (some allowed) = unless_fails (has_text value allowed) _ own

    check_min_length-Safe : (o : Option ℤ) → Safe (check_min_length o value hidden)
    check_min_length-Safe none = tt
    check_min_length-Safe (some n) = if_fails (ltb_ℤ (pos (length value)) n) _ own

    check_max_length-Safe : (o : Option ℤ) → Safe (check_max_length o value hidden)
    check_max_length-Safe none = tt
    check_max_length-Safe (some n) = if_fails (ltb_ℤ n (pos (length value))) _ own

    above_bound-Safe :
        (o : Option Date) (parsed : Date) → Safe (above_bound o parsed (show_unless hidden value))
    above_bound-Safe none parsed = tt
    above_bound-Safe (some low) parsed = if_fails (is_before parsed low) _ own

    below_bound-Safe :
        (o : Option Date) (parsed : Date) → Safe (below_bound o parsed (show_unless hidden value))
    below_bound-Safe none parsed = tt
    below_bound-Safe (some high) parsed = if_fails (is_before high parsed) _ own

    check_parsed-Safe :
        (block : DateBlock) (o : Option Date)
        → Safe (check_parsed lib block (show_unless hidden value) o)
    unfolding check_parsed
    check_parsed-Safe block none = own
    check_parsed-Safe block (some parsed) =
        or_next-Safe _ _ (above_bound-Safe (bound lib block.min) parsed)
          (below_bound-Safe (bound lib block.max) parsed)

    check_date-Safe : (o : Option DateBlock) → Safe (check_date lib o value hidden)
    unfolding check_date
    check_date-Safe none = tt
    check_date-Safe (some block) = check_parsed-Safe block (parse_iso_date lib value)

    pub check_alone-Safe : (v : Validation) → Safe (check_alone lib v value hidden)
    unfolding check_alone
    check_alone-Safe v = or_next-Safe _ _ (check_pattern-Safe v.pattern) (
        or_next-Safe _ _ (check_one_of-Safe v.one_of) (
          or_next-Safe _ _ (check_min_length-Safe v.min_length)
            (or_next-Safe _ _ (check_max_length-Safe v.max_length) (check_date-Safe v.date))))
