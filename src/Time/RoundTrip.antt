-- ===== src/Time/RoundTrip.antt =====
-- `time.Parse` reads back what `formatTime` writes.
use flicker.Prelude.{
  ℕ, ◌+◌, ◌-◌, ◌*◌, ◌/◌, ◌%◌, ◌<◌, ◌≡◌, refl, ◌∙◌, true, [], ◌∷◌, ◌++◌, some, arith, Text, All,
  ◌==◌, Bool-cases, inl, inr,
}
use flicker.Time.{
  Time, second, digit, pad9, date_text, clock_text, whole_text, trim_zeros, fraction_text,
  rfc3339_nano, format_time, cons_unless_zero, point,
}
use flicker.Time.Calendar.{Date, IsDate, days_of, date_of, date_of-IsDate}
use flicker.Time.Days.{days_of-date_of, days_in-le}
use flicker.Time.Order.{IsFourDigit, four_digits, format_time_of_pos, trim_zeros-eq-nil}
use flicker.Time.Parse.{
  is_digit, two_digits, nanos_from, parse_fraction, parse_date, parse_clock, parse_time, ◌>>=◌,
}

two_digits-pad2 : (n : ℕ) → two_digits (digit (n / 10)) (digit n) ≡ some (n % 100)
unfolding two_digits
two_digits-pad2 n = ground arith

abbrev value : ℕ → Text → ℕ
value scale [] = 0
value scale (c ∷ cs) = scale * (c - b'0') + value (scale / 10) cs

value-zero : (scale : ℕ) (cs : Text) → All (λ c. c ≡ b'0') cs → value scale cs ≡ 0
value-zero scale [] h = refl
value-zero scale (c ∷ cs) h = rw (h.0, value-zero (scale / 10) cs h.1) (omega arith)

abbrev AreDigits : Text → Type 0
AreDigits = All (λ c. is_digit c ≡ true)

zone_ends : (scale acc : ℕ) → nanos_from scale acc (b'Z' ∷ []) ≡ some acc
unfolding nanos_from
zone_ends scale acc = refl

nanos_from-trim_zeros :
    (scale acc : ℕ) (cs : Text)
    → AreDigits cs
    → nanos_from scale acc (trim_zeros cs ++ (b'Z' ∷ [])) ≡ some (acc + value scale cs)
unfolding nanos_from trim_zeros
nanos_from-trim_zeros scale acc [] h = ground arith
nanos_from-trim_zeros scale acc (c ∷ cs) h = ground (
  arith,
  nanos_from-trim_zeros (scale / 10) (acc + scale * (c - b'0')) cs h.1,
  trim_zeros-eq-nil cs,
  value-zero (scale / 10) cs,
)

AreDigits-cons_unless_zero :
    (c : ℕ) (cs : Text) → is_digit c ≡ true → AreDigits cs → AreDigits (cons_unless_zero c cs)
AreDigits-cons_unless_zero c [] d h = elim (Bool-cases (c == b'0')) [
  | inl zero_digit ↦ rw zero_digit tt
  | inr other ↦ rw other (d, tt)
]
AreDigits-cons_unless_zero c (x ∷ xs) d h = (d, h)

AreDigits-trim_zeros : (cs : Text) → AreDigits cs → AreDigits (trim_zeros cs)
unfolding trim_zeros
AreDigits-trim_zeros [] h = tt
AreDigits-trim_zeros (c ∷ cs) h =
    AreDigits-cons_unless_zero c (trim_zeros cs) h.0 (AreDigits-trim_zeros cs h.1)

AreDigits-pad9 : (n : ℕ) → AreDigits (pad9 n)
unfolding pad9 is_digit
AreDigits-pad9 n = ground arith

sub_digit : (n : ℕ) → b'0' + n - b'0' ≡ n
sub_digit n = omega arith

value-pad9 : (n : ℕ) → n < second → value 100000000 (pad9 n) ≡ n
unfolding pad9
value-pad9 n h = simp sub_digit (omega arith)

parse_fraction-point :
    (cs : Text)
    → AreDigits cs
    → parse_fraction (point cs ++ (b'Z' ∷ [])) ≡ nanos_from 100000000 0 (cs ++ (b'Z' ∷ []))
unfolding parse_fraction
parse_fraction-point [] h = refl
parse_fraction-point (c ∷ cs) h = rw h.0

parse_fraction-fraction_text :
    (n : ℕ) → n < second → parse_fraction (fraction_text n ++ (b'Z' ∷ [])) ≡ some n
unfolding fraction_text
parse_fraction-fraction_text n h =
    rw
      (
        parse_fraction-point (trim_zeros (pad9 n))
            (AreDigits-trim_zeros (pad9 n) (AreDigits-pad9 n)),
        nanos_from-trim_zeros 100000000 0 (pad9 n) (AreDigits-pad9 n),
        value-pad9 n h,
      )
      (ground arith)

-- The fields as their digits give them.
printed_year : (y : ℕ) → y < 10000 → y / 100 % 100 * 100 + y % 100 ≡ y
printed_year y h = omega arith

parse_date_of : (d : Date) → IsDate d → parse_date d.year d.month d.day ≡ some (days_of d)
unfolding parse_date
parse_date_of d h = ground arith

parse_printed_date :
    (d : Date)
    → IsDate d
    → d.year < 10000
    → parse_date (d.year / 100 % 100 * 100 + d.year % 100) (d.month % 100) (d.day % 100)
      ≡ some (days_of d)
parse_printed_date d h y =
    let m : d.month % 100 ≡ d.month = omega (arith, h.month_le) in
    let e : d.day % 100 ≡ d.day = omega (arith, h.day_le, days_in-le d.year d.month) in
    rw (printed_year d.year y, m, e) (parse_date_of d h)

parse_printed_clock :
    (s : ℕ) → s < 86400 → parse_clock (s / 3600 % 100) (s / 60 % 60 % 100) (s % 60 % 100) ≡ some s
unfolding parse_clock
parse_printed_clock s h = ground arith

parse_whole :
    (d : Date) (s : ℕ) (rest : Text)
    → IsDate d
    → d.year < 10000
    → s < 86400
    → parse_time ((date_text d ++ (b'T' ∷ clock_text s)) ++ rest)
      ≡ (parse_fraction rest >>= λ nanos. some ((days_of d * 86400 + s) * second + nanos))
unfolding parse_time clock_text
parse_whole d s rest hd hy hs =
    rw (four_digits d hy)
      (simp (two_digits-pad2, parse_printed_date d hd hy, parse_printed_clock s hs))

-- Reading a time back gives the time that was written, in years of four digits.
pub parse_time-format_time :
    (t : Time) → 0 < t → IsFourDigit t → parse_time (format_time t) ≡ some t
unfolding whole_text rfc3339_nano
parse_time-format_time t p y = rw (format_time_of_pos t p) (
    parse_whole (date_of (t / second / 86400)) (t / second % 86400) _
      (date_of-IsDate (t / second / 86400)) y (omega arith)
    ∙ (rw
        (
          parse_fraction-fraction_text (t % second) (omega arith),
          days_of-date_of (t / second / 86400),
        )
        (ground arith)))
