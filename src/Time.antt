-- ===== src/Time.antt =====
-- Go's `time.Time` in UTC, as far as the program uses it, and `formatTime` of sqlite/sqlite.go.
-- A time is the number of nanoseconds since the zero `Time` (1 January of year 1), so `Before`,
-- `After` and `Add` are those of ℕ and `IsZero` is the test for 0; earlier times are not modelled.
pub mod Calendar
pub mod Order
pub mod Parse
pub mod Days
pub mod RoundTrip
use flicker.Prelude.{
  ℕ, zero, suc, ◌+◌, ◌*◌, ◌/◌, ◌%◌, ◌≡◌, refl, Bool, [], ◌∷◌, ◌++◌, Text, codes, ◌==◌, ltb,
  if◌then◌else◌,
}
use Calendar.{Date, date_of, days_in}

abbrev pub Time : Type 0
Time = ℕ

abbrev pub second : ℕ
second = 1000000000

-- `t.Before(u)`; `t.After(u)` is `before u t`.
abbrev pub before : Time → Time → Bool
before t u = ltb t u

abbrev digit : ℕ → ℕ
digit n = b'0' + n % 10

abbrev pub pad2 : ℕ → Text
pad2 n = digit (n / 10) ∷ digit n ∷ []

abbrev pub pad4 : ℕ → Text
pad4 n = pad2 (n / 100) ++ pad2 n

-- `%d` of a number that is not negative.
unfoldable pub decimal_from : ℕ → ℕ → Text → Text
decimal_from zero n rest = rest
decimal_from (suc fuel) n rest =
    let more = decimal_from fuel (n / 10) (digit n ∷ rest) in
    if ltb n 10 then digit n ∷ rest else more

unfoldable pub decimal : ℕ → Text
unfolding decimal_from
decimal n = decimal_from (suc n) n []

-- `2006-01-02T15:04:05`; a year past 9999 takes all its digits.
unfoldable pub date_text : Date → Text
unfolding decimal
date_text d =
    (if ltb d.year 10000 then pad4 d.year else decimal d.year)
    ++ (b'-' ∷ (pad2 d.month ++ (b'-' ∷ pad2 d.day)))

unfoldable pub clock_text : ℕ → Text
clock_text s = pad2 (s / 3600) ++ (b':' ∷ (pad2 (s / 60 % 60) ++ (b':' ∷ pad2 (s % 60))))

unfoldable pub whole_text : ℕ → Text
unfolding date_text clock_text
whole_text s = date_text (date_of (s / 86400)) ++ (b'T' ∷ clock_text (s % 86400))

-- The nine digits of the nanoseconds, least significant last.
unfoldable pub pad9 : ℕ → Text
pad9 n =
    digit (n / 100000000)
    ∷ digit (n / 10000000)
    ∷ digit (n / 1000000)
    ∷ digit (n / 100000)
    ∷ digit (n / 10000)
    ∷ digit (n / 1000)
    ∷ digit (n / 100)
    ∷ digit (n / 10)
    ∷ digit n
    ∷ []

abbrev cons_unless_zero : ℕ → Text → Text
cons_unless_zero c [] = if c == b'0' then [] else c ∷ []
cons_unless_zero c (r ∷ rs) = c ∷ r ∷ rs

unfoldable pub trim_zeros : Text → Text
trim_zeros [] = []
trim_zeros (c ∷ cs) = cons_unless_zero c (trim_zeros cs)

-- `.999999999` drops the zeros at the end, and the point where nothing is left.
abbrev point : Text → Text
point [] = []
point (c ∷ cs) = b'.' ∷ c ∷ cs

unfoldable pub fraction_text : ℕ → Text
unfolding pad9 trim_zeros
fraction_text nanos = point (trim_zeros (pad9 nanos))

-- `t.UTC().Format(time.RFC3339Nano)`.
unfoldable pub rfc3339_nano : Time → Text
unfolding whole_text fraction_text
rfc3339_nano t = whole_text (t / second) ++ (fraction_text (t % second) ++ (b'Z' ∷ []))

-- `t.Format(time.RFC3339)` of a time in UTC.
unfoldable pub rfc3339 : Time → Text
unfolding whole_text
rfc3339 t = whole_text (t / second) ++ (b'Z' ∷ [])

-- `formatTime`.
unfoldable pub format_time : Time → Text
unfolding rfc3339_nano
format_time t = if t == 0 then [] else rfc3339_nano t

half_past :
    format_time (86400 * second * 59 + 5400 * second + 500000000) ≡ codes "0001-03-01T01:30:00.5Z"
unfolding format_time date_of days_in
half_past = refl
