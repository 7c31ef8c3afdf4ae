-- ===== src/Time/Days.antt =====
-- `days_of` inverts `date_of`, and later days have later dates.
use flicker.Prelude.{ℕ, zero, suc, ◌+◌, ◌*◌, ◌≤◌, ◌<◌, ◌≡◌, refl, ap, ◌∙◌, arith, if◌then◌else◌}
use native.Mathlib.Decide.{ℕ_discrete}
use flicker.Time.Calendar.{
  Date, IsDate, days_of, date_of, next_day, days_in, is_leap, days_before_year, days_before_month,
  date_of-IsDate,
}

days_before_year-suc :
    (y : ℕ)
    → 1 ≤ y
    → days_before_year (y + 1) ≡ days_before_year y + (if is_leap y then 366 else 365)
unfolding days_before_year is_leap
days_before_year-suc y h = ground arith

days_before_month-suc :
    (y m : ℕ) → 1 ≤ m → m < 12 → days_before_month y (m + 1) ≡ days_before_month y m + days_in y m
unfolding days_before_month days_in
days_before_month-suc y m h k = ground arith

december : (y : ℕ) → days_before_month y 12 + days_in y 12 ≡ (if is_leap y then 366 else 365)
unfolding days_before_month days_in
december y = ground arith

january : (y : ℕ) → days_before_month y 1 ≡ 0
unfolding days_before_month
january y = refl

days_of-next_day : (d : Date) → IsDate d → days_of (next_day d) ≡ suc (days_of d)
unfolding days_of next_day
days_of-next_day d h = ground (
  arith,
  days_before_year-suc d.year,
  days_before_month-suc d.year d.month,
  december d.year,
  january (d.year + 1),
)

-- The days before the date of day n are n.
pub days_of-date_of : (n : ℕ) → days_of (date_of n) ≡ n
unfolding date_of
days_of-date_of zero = unfold days_of days_before_year days_before_month in refl
days_of-date_of (suc n) =
    days_of-next_day (date_of n) (date_of-IsDate n) ∙ ap suc (days_of-date_of n)

-- Dates are ordered by one number.
abbrev pub date_key : Date → ℕ
date_key d = d.year * 512 + d.month * 32 + d.day

pub days_in-le : (y m : ℕ) → days_in y m ≤ 31
unfolding days_in
days_in-le y m = ground arith

date_key-next_day : (d : Date) → IsDate d → date_key d < date_key (next_day d)
unfolding next_day
date_key-next_day d h = ground (arith, days_in-le d.year d.month)

-- A later day has a later date.
pub date_key-date_of : (m n : ℕ) → m < n → date_key (date_of m) < date_key (date_of n)
unfolding date_of
date_key-date_of m zero h = elim h [ ]
date_key-date_of m (suc n) h =
    let later = date_key-next_day (date_of n) (date_of-IsDate n) in
    elim (ℕ_discrete m n) [
      | yes e ↦ rw e later
      | no ne ↦ omega (arith, later, date_key-date_of m n (omega arith))
    ]
