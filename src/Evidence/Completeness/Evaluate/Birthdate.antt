-- ===== src/Evidence/Completeness/Evaluate/Birthdate.antt =====
-- About the look for a date of birth in a value, and the checks before it.
use optimaler_status.Base.{
  ℕ, ◌+◌, ◌*◌, ◌≡◌, ◌≢◌, ◌⊎◌, refl, sym, ap, ap₂, ◌∙◌, Bool, true, ◌&&◌, ◌||◌, not, Option, none,
  some, String, List, [], ◌∷◌, length, ◌==◌, Bool-cases, Option-cases, inl, inr, All, is_some,
  is_member, arith,
}
use optimaler_status.Base.Dict
use optimaler_status.Base.Dict.{Dict}
use optimaler_status.Python.Text.{Text, take, drop}
use optimaler_status.Python.Result.{Result, ok, ◌>>=◌}
use optimaler_status.Evidence.Completeness.Dates.{date_of}
use optimaler_status.Evidence.Completeness.Messages.{Failure}
use optimaler_status.Evidence.Completeness.Checks.{
  Parsers, CrossKind, CrossField, Validation, is_not_before, is_not_after, has_min_years,
  has_max_years, has_birthdate,
}
use optimaler_status.Evidence.Completeness.CrossField.{
  all_digits, two_digits, int_of_two, date_in_digits, vsnr_birthdate, check_entry, or_blank,
  first_failure, check_cross_field, check_alone, validation_problem,
}

-- The call returns.
abbrev pub Returns : {A : Type 0} → Result A → Type 0
Returns {A} r = (a : A) × (r ≡ ok a)

-- The code point has a value for int(), if it is a digit at all.
abbrev pub IsDecimal : Parsers → ℕ → Type 0
IsDecimal lib c = (not (lib.is_digit c) || is_some (lib.decimal c)) ≡ true

-- VSNR_BIRTHDATE_SLICE
abbrev pub birthdate_part : Text → Text
birthdate_part vsnr = take 6 (drop 2 vsnr)

abbrev pub IsOther : CrossField → Type 0
IsOther entry = entry.kind ≢ has_birthdate

-- The date of birth is looked for in no value, or a pattern is checked first that lets a value through
-- only if the digits of that part are decimal.
pub data IsGuarded (lib : Parsers) (v : Validation) : Type 0 where
  without : All IsOther v.cross_field → IsGuarded lib v
  by_pattern :
      (p : Text)
      → v.pattern ≡ some p
      → ((value : Text) → lib.matches p value ≡ true → All (IsDecimal lib) (birthdate_part value))
      → IsGuarded lib v

pub bind-Returns :
    {A B : Type 0} (first : Result A) (rest : A → Result B)
    → Returns first
    → ((a : A) → Returns (rest a))
    → Returns (first >>= rest)
bind-Returns first rest (a, e) k = let (b, f) = k a in (b, ap (λ r. r >>= rest) e ∙ f)

module _ (lib : Parsers) where
  digit_value :
      (c : ℕ) → IsDecimal lib c → lib.is_digit c ≡ true → (n : ℕ) × (lib.decimal c ≡ some n)
  digit_value c decimal h = elim (Option-cases (lib.decimal c)) [
    | inl e ↦ absurd (cc (sym (rw (h, e) at decimal)))
    | inr found ↦ found
  ]

  int_of_two_total :
      (a b : ℕ)
      → IsDecimal lib a
      → IsDecimal lib b
      → lib.is_digit a ≡ true
      → lib.is_digit b ≡ true
      → Returns (int_of_two lib a b)
  unfolding int_of_two
  int_of_two_total a b p q h k =
      let (x, e) = digit_value a p h in
      let (y, f) = digit_value b q k in (10 * x + y, ap₂ two_digits e f)

  digits-cons :
      (c : ℕ) (text : Text)
      → all_digits lib (c ∷ text) ≡ true
      → (lib.is_digit c ≡ true) × (all_digits lib text ≡ true)
  unfolding all_digits
  digits-cons c text h = (ground (arith, h), ground (arith, h))

  date_in_digits_total :
      (digits : Text)
      → All (IsDecimal lib) digits
      → all_digits lib digits ≡ true
      → Returns (date_in_digits lib digits)
  unfolding date_in_digits
  date_in_digits_total [] _ h = (none, refl)
  date_in_digits_total (a ∷ []) _ h = (none, refl)
  date_in_digits_total (a ∷ b ∷ []) _ h = (none, refl)
  date_in_digits_total (a ∷ b ∷ c ∷ []) _ h = (none, refl)
  date_in_digits_total (a ∷ b ∷ c ∷ d ∷ []) _ h = (none, refl)
  date_in_digits_total (a ∷ b ∷ c ∷ d ∷ e ∷ []) _ h = (none, refl)
  date_in_digits_total (a ∷ b ∷ c ∷ d ∷ e ∷ f ∷ []) (pa, (pb, (pc, (pd, (pe, (pf, _)))))) h =
      let (ha, h1) = digits-cons a (b ∷ c ∷ d ∷ e ∷ f ∷ []) h in
      let (hb, h2) = digits-cons b (c ∷ d ∷ e ∷ f ∷ []) h1 in
      let (hc, h3) = digits-cons c (d ∷ e ∷ f ∷ []) h2 in
      let (hd, h4) = digits-cons d (e ∷ f ∷ []) h3 in
      let (he, h5) = digits-cons e (f ∷ []) h4 in
      let (hf, h6) = digits-cons f [] h5 in
      let (day, r) = int_of_two_total a b pa pb ha hb in
      let (month, s) = int_of_two_total c d pc pd hc hd in
      let (year, t) = int_of_two_total e f pe pf he hf in
      (date_of (1900 + year) month day, rw (r, s, t) refl)
  date_in_digits_total (a ∷ b ∷ c ∷ d ∷ e ∷ f ∷ g ∷ text) _ h = (none, refl)

  vsnr_birthdate_total :
      (vsnr : Text) → All (IsDecimal lib) (birthdate_part vsnr) → Returns (vsnr_birthdate lib vsnr)
  unfolding vsnr_birthdate
  vsnr_birthdate_total vsnr decimal =
      let digits = birthdate_part vsnr in
      elim (Bool-cases ((length digits == 6) && all_digits lib digits)) [
        | inl b ↦ rw b (date_in_digits_total digits decimal (ground (arith, b)))
        | inr b ↦ rw b (none, refl)
      ]

  -- The check of an entry returns: it looks for no date of birth, or the digits are decimal.
  abbrev IsSafe : Text → CrossKind → Type 0
  IsSafe value kind = (kind ≢ has_birthdate) ⊎ All (IsDecimal lib) (birthdate_part value)

  check_entry_total :
      (entry : CrossField) (value other : Text) (hidden other_hidden : Bool) (kind : CrossKind)
      → IsSafe value kind
      → Returns (check_entry lib entry value other hidden other_hidden kind)
  unfolding check_entry
  check_entry_total entry value other hidden other_hidden is_not_before safe = (_, refl)
  check_entry_total entry value other hidden other_hidden is_not_after safe = (_, refl)
  check_entry_total entry value other hidden other_hidden has_min_years safe = (_, refl)
  check_entry_total entry value other hidden other_hidden has_max_years safe = (_, refl)
  check_entry_total entry value other hidden other_hidden has_birthdate (inl other_kind) =
      absurd (other_kind refl)
  check_entry_total entry value other hidden other_hidden has_birthdate (inr decimal) =
      bind-Returns (vsnr_birthdate lib value) _ (vsnr_birthdate_total value decimal)
        (λ o. (_, refl))

  first_failure_total :
      (later : Result (Option Failure)) (first : Option Failure)
      → Returns later
      → Returns (first_failure later first)
  first_failure_total later none h = h
  first_failure_total later (some f) h = (some f, refl)

  check_cross_field_total :
      (entries : List CrossField) (value : Text) (values : Dict Text) (hidden : Bool)
      (sealed : List String)
      → All (λ (e : CrossField). IsSafe value e.kind) entries
      → Returns (check_cross_field lib entries value values hidden sealed)
  unfolding check_cross_field
  check_cross_field_total [] value values hidden sealed safe = (none, refl)
  check_cross_field_total (entry ∷ entries) value values hidden sealed safe =
      bind-Returns
        (check_entry lib entry value (or_blank (Dict.get values entry.field)) hidden
          (is_member entry.field sealed) entry.kind)
        _ (check_entry_total entry value _ hidden (is_member entry.field sealed) entry.kind safe.0)
        (λ o.
          first_failure_total _ o
            (check_cross_field_total entries value values hidden sealed safe.1))

  all_other :
      (entries : List CrossField) (value : Text)
      → All IsOther entries
      → All (λ (e : CrossField). IsSafe value e.kind) entries
  all_other [] value h = tt
  all_other (e ∷ entries) value h = (inl h.0, all_other entries value h.1)

  all_decimal :
      (entries : List CrossField) (value : Text)
      → All (IsDecimal lib) (birthdate_part value)
      → All (λ (e : CrossField). IsSafe value e.kind) entries
  all_decimal [] value h = tt
  all_decimal (e ∷ entries) value h = (inr h, all_decimal entries value h)

  -- A value that no check of the value alone refuses has passed the pattern.
  pattern-passed :
      (v : Validation) (p value : Text) (hidden : Bool)
      → v.pattern ≡ some p
      → check_alone lib v value hidden ≡ none
      → lib.matches p value ≡ true
  unfolding check_alone
  pattern-passed v p value hidden e h = elim (Bool-cases (lib.matches p value)) [
    | inl passes ↦ passes
    | inr fails ↦ absurd (cc (sym (rw (e, fails) at h)))
  ]

  IsGuarded-IsSafe :
      (v : Validation) (value : Text) (hidden : Bool)
      → IsGuarded lib v
      → check_alone lib v value hidden ≡ none
      → All (λ (e : CrossField). IsSafe value e.kind) v.cross_field
  IsGuarded-IsSafe v value hidden (without others) h = all_other v.cross_field value others
  IsGuarded-IsSafe v value hidden (by_pattern p e decimal) h =
      all_decimal v.cross_field value (decimal value (pattern-passed v p value hidden e h))

  guarded_total :
      (v : Validation) (value : Text) (values : Dict Text) (hidden : Bool) (sealed : List String)
      → IsGuarded lib v
      → (o : Option Failure) → check_alone lib v value hidden ≡ o
      → Returns (first_failure (check_cross_field lib v.cross_field value values hidden sealed) o)
  guarded_total v value values hidden sealed guarded none e =
      check_cross_field_total v.cross_field value values hidden sealed
        (IsGuarded-IsSafe v value hidden guarded e)
  guarded_total v value values hidden sealed guarded (some f) e = (some f, refl)

  pub validation_problem_total :
      (v : Validation) (value : Text) (values : Dict Text) (sealed : List String) (field : String)
      → IsGuarded lib v
      → Returns (validation_problem lib (some v) value values sealed field)
  unfolding validation_problem
  validation_problem_total v value values sealed field guarded =
      guarded_total v value values (is_member field sealed) sealed guarded
        (check_alone lib v value (is_member field sealed)) refl
