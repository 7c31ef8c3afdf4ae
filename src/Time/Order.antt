-- ===== src/Time/Order.antt =====
-- The order of the texts that `formatTime` writes against the order of the times.
use mathlib.Core.List.{append_assoc}
use flicker.Prelude.{
  ℕ, ◌/◌, ◌%◌, ◌<◌, ◌≡◌, refl, ◌≢◌, All, ap, Bool, false, [], ◌∷◌, ◌++◌, arith, Text, text_le, ◌==◌,
  ltb, if◌then◌else◌,
}
use flicker.Time.{
  Time, second, pad2, pad4, date_text, clock_text, whole_text, fraction_text, trim_zeros, pad9,
  rfc3339_nano, format_time,
}
use flicker.Time.Calendar.{Date, IsDate, date_of, date_of-IsDate}
use flicker.Time.Days.{date_key, date_key-date_of, days_in-le}

-- `a` and `b` first, then the rest.
abbrev lexi : ℕ → ℕ → Bool → Bool
lexi a b rest = if a == b then rest else ltb a b

-- Two digits print a number modulo 100.
text_le-pad2 :
    (a b : ℕ) (xs ys : Text)
    → text_le (pad2 a ++ xs) (pad2 b ++ ys) ≡ lexi (a % 100) (b % 100) (text_le xs ys)
unfolding text_le
text_le-pad2 a b xs ys = ground arith

text_le-cons : (c : ℕ) (xs ys : Text) → text_le (c ∷ xs) (c ∷ ys) ≡ text_le xs ys
unfolding text_le
text_le-cons c xs ys = ground arith

lexi_hundreds :
    (a b : ℕ) (r : Bool)
    → a < 10000
    → b < 10000
    → lexi (a / 100 % 100) (b / 100 % 100) (lexi (a % 100) (b % 100) r) ≡ lexi a b r
lexi_hundreds a b r ha hb = ground arith

text_le-pad4 :
    (a b : ℕ) (xs ys : Text)
    → a < 10000
    → b < 10000
    → text_le (pad4 a ++ xs) (pad4 b ++ ys) ≡ lexi a b (text_le xs ys)
text_le-pad4 a b xs ys ha hb =
    rw (text_le-pad2 (a / 100) (b / 100), text_le-pad2 a b xs ys) (lexi_hundreds a b _ ha hb)

lexi_clock :
    (s t : ℕ) (r : Bool)
    → s < 86400
    → t < 86400
    → lexi
        (s / 3600 % 100)
        (t / 3600 % 100)
        (lexi (s / 60 % 60 % 100) (t / 60 % 60 % 100) (lexi (s % 60 % 100) (t % 60 % 100) r))
      ≡ lexi s t r
lexi_clock s t r hs ht = ground arith

text_le-clock :
    (s t : ℕ) (xs ys : Text)
    → s < 86400
    → t < 86400
    → text_le (clock_text s ++ xs) (clock_text t ++ ys) ≡ lexi s t (text_le xs ys)
unfolding clock_text
text_le-clock s t xs ys hs ht = simp (text_le-pad2, text_le-cons) (lexi_clock s t _ hs ht)

lexi_date :
    (d e : Date) (r : Bool)
    → IsDate d
    → IsDate e
    → lexi d.year e.year (lexi (d.month % 100) (e.month % 100) (lexi (d.day % 100) (e.day % 100) r))
      ≡ lexi (date_key d) (date_key e) r
lexi_date d e r hd he = ground (arith, days_in-le d.year d.month, days_in-le e.year e.month)

pub four_digits :
    (d : Date)
    → d.year < 10000
    → date_text d ≡ pad4 d.year ++ (45 ∷ (pad2 d.month ++ (45 ∷ pad2 d.day)))
unfolding date_text
four_digits d h = ground arith

text_le-date :
    (d e : Date) (xs ys : Text)
    → IsDate d
    → IsDate e
    → d.year < 10000
    → e.year < 10000
    → text_le (date_text d ++ xs) (date_text e ++ ys)
      ≡ lexi (date_key d) (date_key e) (text_le xs ys)
text_le-date d e xs ys hd he yd ye =
    rw (four_digits d yd, four_digits e ye, text_le-pad4 d.year e.year _ _ yd ye)
      (simp (text_le-pad2, text_le-cons) (lexi_date d e _ hd he))

-- The year of a time, in UTC, has four digits.
abbrev pub IsFourDigit : Time → Type 0
IsFourDigit t = (date_of (t / second / 86400)).year < 10000

lexi_day :
    (s t : ℕ) (r : Bool)
    → lexi
        (date_key (date_of (s / 86400)))
        (date_key (date_of (t / 86400)))
        (lexi (s % 86400) (t % 86400) r)
      ≡ lexi s t r
lexi_day s t r = ground (
  arith,
  date_key-date_of (s / 86400) (t / 86400),
  date_key-date_of (t / 86400) (s / 86400),
  ap (λ n. date_key (date_of n)) {x = s / 86400} {y = t / 86400},
)

text_le-whole :
    (s t : ℕ) (xs ys : Text)
    → (date_of (s / 86400)).year < 10000
    → (date_of (t / 86400)).year < 10000
    → text_le (whole_text s ++ xs) (whole_text t ++ ys) ≡ lexi s t (text_le xs ys)
unfolding whole_text
text_le-whole s t xs ys hs ht =
    rw
      (
        append_assoc (date_text (date_of (s / 86400))),
        append_assoc (date_text (date_of (t / 86400))),
        text_le-date _ _ _ _ (date_of-IsDate (s / 86400)) (date_of-IsDate (t / 86400)) hs ht,
        text_le-cons,
        text_le-clock (s % 86400) (t % 86400) xs ys (omega arith) (omega arith),
      )
      (lexi_day s t _)

pub format_time_of_pos : (t : Time) → 0 < t → format_time t ≡ rfc3339_nano t
unfolding format_time
format_time_of_pos t h = ground arith

text_le-nano :
    (a b : Time)
    → IsFourDigit a
    → IsFourDigit b
    → text_le (rfc3339_nano a) (rfc3339_nano b)
      ≡ lexi (a / second) (b / second) (
          text_le
            (fraction_text (a % second) ++ (b'Z' ∷ []))
            (fraction_text (b % second) ++ (b'Z' ∷ [])))
unfolding rfc3339_nano
text_le-nano a b ya yb = text_le-whole (a / second) (b / second) _ _ ya yb

lexi_seconds :
    (a b : Time) (r : Bool) → a / second ≢ b / second → lexi (a / second) (b / second) r ≡ ltb a b
lexi_seconds a b r h = ground arith

-- Of two times after the zero time in different seconds, in years of four digits, the texts that `formatTime` writes
-- stand in the order of the times.
pub text_le-format_time :
    (a b : Time)
    → 0 < a
    → 0 < b
    → IsFourDigit a
    → IsFourDigit b
    → a / second ≢ b / second
    → text_le (format_time a) (format_time b) ≡ ltb a b
text_le-format_time a b pa pb ya yb h =
    rw (format_time_of_pos a pa, format_time_of_pos b pb, text_le-nano a b ya yb)
      (lexi_seconds a b _ h)

pub trim_zeros-eq-nil : (cs : Text) → trim_zeros cs ≡ [] → All (λ c. c ≡ b'0') cs
unfolding trim_zeros
trim_zeros-eq-nil [] h = tt
trim_zeros-eq-nil (c ∷ cs) h = ground (arith, trim_zeros-eq-nil cs)

pad9-zero : (n : ℕ) → n < second → All (λ c. c ≡ b'0') (pad9 n) → n ≡ 0
unfolding pad9
pad9-zero n h z = omega arith

-- A fraction begins with a point, which stands before `Z`.
fraction_after_zone :
    (n : ℕ) → 0 < n → n < second → text_le (b'Z' ∷ []) (fraction_text n ++ (b'Z' ∷ [])) ≡ false
unfolding fraction_text text_le
fraction_after_zone n p h = ground (arith, trim_zeros-eq-nil (pad9 n), pad9-zero n)

no_fraction : fraction_text 0 ≡ []
unfolding fraction_text
no_fraction = refl

-- Within a second the order of the texts is not that of the times: the text of a time on the full
-- second, in a year of four digits, does not come before the text of any later time of that second.
pub text_le-format_time_full_second :
    (a b : Time)
    → 0 < a
    → IsFourDigit a
    → a % second ≡ 0
    → a < b
    → b / second ≡ a / second
    → text_le (format_time a) (format_time b) ≡ false
text_le-format_time_full_second a b pa ya full later same =
    rw
      (
        format_time_of_pos a pa,
        format_time_of_pos b (omega arith),
        text_le-nano a b ya (rw same ya),
        full,
        no_fraction,
      )
      (ground (arith, fraction_after_zone (b % second)))
