-- ===== src/Evidence/Completeness/Discretion/Pairs.antt =====
-- The sentence of a failed check against another field quotes neither value that is hidden.
use optimaler_status.Base.{
  ◌≡◌, refl, sym, subst, Bool, true, false, Option, none, some, String, List, [], ◌∷◌,
  if◌then◌else◌, Option-cases, inl, inr, is_member,
}
use optimaler_status.Base.Dict
use optimaler_status.Base.Dict.{Dict}
use optimaler_status.Base.Int.{ltb_ℤ}
use optimaler_status.Python.Text.{Text, is_empty}
use optimaler_status.Python.Result.{Result, ok, bind-ok, ok_injective}
use optimaler_status.Evidence.Completeness.Dates.{Date, is_before, years_between}
use optimaler_status.Evidence.Completeness.Messages.{show_unless, Failure}
use optimaler_status.Evidence.Completeness.Checks.{
  Parsers, CrossKind, CrossField, parse_iso_date, is_not_before, is_not_after, has_min_years,
  has_max_years, has_birthdate,
}
use optimaler_status.Evidence.Completeness.CrossField.{
  compare_dates, compare_parsed, compare_birthdate, cross_field_failure, vsnr_birthdate,
  same_birthdate, mismatch_text, birthdate_failure, check_entry, or_blank, first_failure,
  check_cross_field,
}
use optimaler_status.Evidence.Completeness.Discretion.{
  Conceals, Discreet, Safe, show_unless-Conceals, if_fails, unless_fails, explain-Discreet,
}

module _ (sealed : List String) (hidden : Bool) where
  module _ (lib : Parsers) (entry : CrossField) (value other : Text) where
    both :
        Conceals hidden (show_unless hidden value)
        × Conceals (is_member entry.field sealed) (show_unless (is_member entry.field sealed) other)
    both = (
      show_unless-Conceals hidden value,
      show_unless-Conceals (is_member entry.field sealed) other,
    )

    compare_dates-Safe :
        (this that : Date) (kind : CrossKind)
        → Safe sealed hidden (
            compare_dates entry
              (show_unless hidden value)
              (show_unless (is_member entry.field sealed) other)
              this
              that
              kind)
    unfolding compare_dates
    compare_dates-Safe this that is_not_before =
        if_fails sealed hidden (is_before this that) _
          (explain-Discreet sealed hidden entry.detail _ both)
    compare_dates-Safe this that is_not_after =
        if_fails sealed hidden (is_before that this) _
          (explain-Discreet sealed hidden entry.detail _ both)
    compare_dates-Safe this that has_min_years = elim (Option-cases entry.years) [
      | inl e ↦ rw e tt
      | inr (n, e) ↦ rw e (
          if_fails sealed hidden (ltb_ℤ (years_between that this) n) _
            (explain-Discreet sealed hidden entry.detail _ both))
    ]
    compare_dates-Safe this that has_max_years = elim (Option-cases entry.years) [
      | inl e ↦ rw e tt
      | inr (n, e) ↦ rw e (
          if_fails sealed hidden (ltb_ℤ n (years_between that this)) _
            (explain-Discreet sealed hidden entry.detail _ both))
    ]
    compare_dates-Safe this that has_birthdate = tt

    compare_parsed-Safe :
        (this that : Option Date)
        → Safe sealed hidden (
            compare_parsed entry
              (show_unless hidden value)
              (show_unless (is_member entry.field sealed) other)
              this
              that)
    unfolding compare_parsed
    compare_parsed-Safe none that = tt
    compare_parsed-Safe (some this) none = tt
    compare_parsed-Safe (some this) (some that) = compare_dates-Safe this that entry.kind

    cross_field_failure-Safe :
        Safe sealed hidden
          (cross_field_failure lib entry value other hidden (is_member entry.field sealed))
    unfolding cross_field_failure
    cross_field_failure-Safe =
        compare_parsed-Safe (parse_iso_date lib value) (parse_iso_date lib other)

    mismatch_text-Discreet :
        (h o : Bool) (encoded stated : Date)
        → h ≡ hidden
        → o ≡ is_member entry.field sealed
        → Discreet sealed hidden (mismatch_text value encoded stated entry.field h o)
    mismatch_text-Discreet true o encoded stated e f = tt
    mismatch_text-Discreet false true encoded stated e f = tt
    mismatch_text-Discreet false false encoded stated e f = (sym e, sym f)

    compare_birthdate-Safe :
        (encoded : Date) (stated : Option Date)
        → Safe sealed hidden
            (compare_birthdate entry value hidden (is_member entry.field sealed) encoded stated)
    unfolding compare_birthdate
    compare_birthdate-Safe encoded none = tt
    compare_birthdate-Safe encoded (some stated) =
        unless_fails sealed hidden (same_birthdate encoded stated) _ (
          explain-Discreet sealed hidden entry.detail _
            (mismatch_text-Discreet hidden (is_member entry.field sealed) encoded stated refl refl))

    birthdate_failure-Safe :
        (encoded : Option Date)
        → Safe sealed hidden
            (birthdate_failure lib entry value other hidden (is_member entry.field sealed) encoded)
    unfolding birthdate_failure
    birthdate_failure-Safe none = both.0
    birthdate_failure-Safe (some encoded) =
        compare_birthdate-Safe encoded (parse_iso_date lib other)

    cross_or_none-Safe :
        (b : Bool)
        → Safe sealed hidden (
            if b
            then none
            else cross_field_failure lib entry value other hidden (is_member entry.field sealed))
    cross_or_none-Safe true = tt
    cross_or_none-Safe false = cross_field_failure-Safe

    check_entry-Safe :
        (kind : CrossKind) (o : Option Failure)
        → check_entry lib entry value other hidden (is_member entry.field sealed) kind ≡ ok o
        → Safe sealed hidden o
    unfolding check_entry
    check_entry-Safe is_not_before o h =
        subst (Safe sealed hidden) (ok_injective h) (cross_or_none-Safe (is_empty other))
    check_entry-Safe is_not_after o h =
        subst (Safe sealed hidden) (ok_injective h) (cross_or_none-Safe (is_empty other))
    check_entry-Safe has_min_years o h =
        subst (Safe sealed hidden) (ok_injective h) (cross_or_none-Safe (is_empty other))
    check_entry-Safe has_max_years o h =
        subst (Safe sealed hidden) (ok_injective h) (cross_or_none-Safe (is_empty other))
    check_entry-Safe has_birthdate o h =
        let (encoded, read, h1) = bind-ok (vsnr_birthdate lib value) _ h in
        subst (Safe sealed hidden) (ok_injective h1) (birthdate_failure-Safe encoded)

  pub check_cross_field-Safe :
      (lib : Parsers) (entries : List CrossField) (value : Text) (values : Dict Text)
      (o : Option Failure)
      → check_cross_field lib entries value values hidden sealed ≡ ok o
      → Safe sealed hidden o
  unfolding check_cross_field
  check_cross_field-Safe lib [] value values o h = subst (Safe sealed hidden) (ok_injective h) tt
  check_cross_field-Safe lib (entry ∷ entries) value values o h =
      let other = or_blank (Dict.get values entry.field) in
      let (first, run, h1) =
        bind-ok (check_entry lib entry value other hidden (is_member entry.field sealed) entry.kind)
          _ h in
      first_failure-Safe first o (check_cross_field lib entries value values hidden sealed)
        (check_entry-Safe lib entry value other entry.kind first run)
        (λ k. check_cross_field-Safe lib entries value values o k) h1
    where
      first_failure-Safe :
          (first o : Option Failure) (later : Result (Option Failure))
          → Safe sealed hidden first
          → (later ≡ ok o → Safe sealed hidden o)
          → first_failure later first ≡ ok o
          → Safe sealed hidden o
      first_failure-Safe none o later h k e = k e
      first_failure-Safe (some f) o later h k e = subst (Safe sealed hidden) (ok_injective e) h
