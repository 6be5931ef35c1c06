-- ===== src/Evidence/Completeness/Dates.antt =====
-- datetime.date, as far as the checks use it.
use optimaler_status.Base.{
  ℕ, suc, ◌%◌, Bool, ◌&&◌, ◌||◌, not, Option, none, some, leb, ltb, ◌==◌, if◌then◌else◌,
}
use optimaler_status.Base.Int.{ℤ, sub_ℕ}

pub record Date : Type 0 where
  pub year : ℕ
  pub month : ℕ
  pub day : ℕ

abbrev pub is_leap : ℕ → Bool
is_leap y = (y % 4 == 0) && (not (y % 100 == 0) || (y % 400 == 0))

unfoldable pub days_in_month : ℕ → ℕ → ℕ
days_in_month y m =
    if m == 2
    then (if is_leap y then 29 else 28)
    else (if (m == 4) || ((m == 6) || ((m == 9) || (m == 11))) then 30 else 31)

-- date(year, month, day), where none is its ValueError.
unfoldable pub date_of : ℕ → ℕ → ℕ → Option Date
unfolding days_in_month
date_of y m d =
    if (leb 1 y && leb y 9999) && ((leb 1 m && leb m 12) && (leb 1 d && leb d (days_in_month y m)))
    then some (record { year = y; month = m; day = d })
    else none

-- (a, b) < (c, d)
abbrev pub pair_before : ℕ → ℕ → ℕ → ℕ → Bool
pair_before a b c d = ltb a c || ((a == c) && ltb b d)

-- a < b
unfoldable pub is_before : Date → Date → Bool
is_before a b = ltb a.year b.year || ((a.year == b.year) && pair_before a.month a.day b.month b.day)

-- _years_between
unfoldable pub years_between : Date → Date → ℤ
years_between start stop =
    if pair_before stop.month stop.day start.month start.day
    then sub_ℕ stop.year (suc start.year)
    else sub_ℕ stop.year start.year
