-- ===== src/Time/Calendar.antt =====
-- The proleptic Gregorian calendar of Go's package time: day n counts from 1 January of year 1.
use flicker.Prelude.{
  ℕ, zero, suc, ◌+◌, ◌-◌, ◌*◌, ◌/◌, ◌%◌, ◌≤◌, Bool, ◌&&◌, ◌||◌, not, arith, ltb, leb, ◌==◌,
  if◌then◌else◌,
}

pub record Date : Type 0 where
  pub year : ℕ
  pub month : ℕ
  pub day : ℕ

unfoldable pub is_leap : ℕ → Bool
is_leap y = y % 4 == 0 && (not (y % 100 == 0) || y % 400 == 0)

unfoldable pub days_in : ℕ → ℕ → ℕ
unfolding is_leap
days_in y m =
    if m == 2
    then (if is_leap y then 29 else 28)
    else if m == 4 || m == 6 || m == 9 || m == 11
    then 30
    else 31

unfoldable pub next_day : Date → Date
next_day d =
    if ltb d.day (days_in d.year d.month)
    then record d { day = d.day + 1 }
    else if ltb d.month 12
    then record d { month = d.month + 1; day = 1 }
    else record { year = d.year + 1; month = 1; day = 1 }

unfoldable pub date_of : ℕ → Date
unfolding next_day
date_of zero = record { year = 1; month = 1; day = 1 }
date_of (suc n) = next_day (date_of n)

-- A date of the calendar.
pub record IsDate (d : Date) : Type 0 where
  pub year_pos : 1 ≤ d.year
  pub month_pos : 1 ≤ d.month
  pub month_le : d.month ≤ 12
  pub day_pos : 1 ≤ d.day
  pub day_le : d.day ≤ days_in d.year d.month

days_in-pos : (y m : ℕ) → 1 ≤ days_in y m
unfolding days_in
days_in-pos y m = ground arith

next_day-IsDate : (d : Date) → IsDate d → IsDate (next_day d)
unfolding next_day
next_day-IsDate d h = ground (arith, days_in-pos d.year (d.month + 1), days_in-pos (d.year + 1) 1)

pub date_of-IsDate : (n : ℕ) → IsDate (date_of n)
unfolding date_of
date_of-IsDate zero = unfold days_in in omega arith
date_of-IsDate (suc n) = next_day-IsDate (date_of n) (date_of-IsDate n)

-- The days before a year, before a month of it, and before a date: the inverse of `date_of`.
unfoldable pub days_before_year : ℕ → ℕ
days_before_year y = 365 * (y - 1) + (y - 1) / 4 - (y - 1) / 100 + (y - 1) / 400

unfoldable pub days_before_month : ℕ → ℕ → ℕ
unfolding is_leap
days_before_month y m = (367 * m - 362) / 12 - (if leb m 2 then 0 else if is_leap y then 1 else 2)

unfoldable pub days_of : Date → ℕ
days_of d = days_before_year d.year + days_before_month d.year d.month + (d.day - 1)
