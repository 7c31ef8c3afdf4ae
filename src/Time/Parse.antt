-- ===== src/Time/Parse.antt =====
-- `time.Parse(time.RFC3339Nano, s)` on a text that ends in `Z`. An offset such as `+02:00`, which
-- `formatTime` never writes, and the year 0 are outside the model and count as malformed.
use flicker.Prelude.{
  ℕ, ◌+◌, ◌-◌, ◌*◌, ◌/◌, ◌≡◌, refl, Bool, ◌&&◌, [], ◌∷◌, Option, none, some, Text, codes, ◌==◌, ltb,
  leb, is_empty, if◌then◌else◌,
}
use flicker.Time.Calendar.{days_in, days_of, days_before_year, days_before_month}

infixl 5 ◌>>=◌ ◌>>◌
abbrev pub ◌>>=◌ {ℓ κ} : {A : Type ℓ} {B : Type κ} → Option A → (A → Option B) → Option B
none >>= f = none
some a >>= f = f a

abbrev pub ◌>>◌ {ℓ κ} : {A : Type ℓ} {B : Type κ} → Option A → Option B → Option B
m >> k = m >>= λ _. k

unfoldable pub is_digit : ℕ → Bool
is_digit c = leb b'0' c && leb c b'9'

unfoldable pub two_digits : ℕ → ℕ → Option ℕ
unfolding is_digit
two_digits a b = if is_digit a && is_digit b then some ((a - b'0') * 10 + (b - b'0')) else none

-- The nanoseconds, digit by digit; digits past the ninth count for nothing.
unfoldable pub nanos_from : ℕ → ℕ → Text → Option ℕ
unfolding is_digit
nanos_from scale acc [] = none
nanos_from scale acc (c ∷ cs) =
    let rest = nanos_from (scale / 10) (acc + scale * (c - b'0')) cs in
    if is_digit c then rest else if c == b'Z' && is_empty cs then some acc else none

unfoldable pub parse_fraction : Text → Option ℕ
unfolding nanos_from
parse_fraction (dot ∷ c ∷ cs) =
    if dot == b'.' && is_digit c then nanos_from 100000000 0 (c ∷ cs) else none
parse_fraction (c ∷ []) = if c == b'Z' then some 0 else none
parse_fraction [] = none

unfoldable pub parse_date : ℕ → ℕ → ℕ → Option ℕ
parse_date y m d =
    if leb 1 y && leb 1 m && leb m 12 && leb 1 d && leb d (days_in y m)
    then some (days_of (record { year = y; month = m; day = d }))
    else none

unfoldable pub parse_clock : ℕ → ℕ → ℕ → Option ℕ
parse_clock h m s = if ltb h 24 && ltb m 60 && ltb s 60 then some (h * 3600 + m * 60 + s) else none

unfoldable pub separators : ℕ → ℕ → ℕ → ℕ → ℕ → Option (Unit {0})
separators d1 d2 t c1 c2 =
    if d1 == b'-' && d2 == b'-' && t == b'T' && c1 == b':' && c2 == b':' then some tt else none

unfoldable pub parse_time : Text → Option ℕ
unfolding separators two_digits parse_date parse_clock parse_fraction
parse_time
      (y1 ∷ y2 ∷ y3 ∷ y4 ∷ d1 ∷ m1 ∷ m2 ∷ d2 ∷ e1 ∷ e2 ∷ t ∷ h1 ∷ h2 ∷ c1 ∷ n1 ∷ n2 ∷ c2 ∷ s1 ∷ s2
        ∷ rest) =
    do
      separators d1 d2 t c1 c2
      century ← two_digits y1 y2
      year ← two_digits y3 y4
      month ← two_digits m1 m2
      day ← two_digits e1 e2
      hour ← two_digits h1 h2
      minute ← two_digits n1 n2
      sec ← two_digits s1 s2
      days ← parse_date (century * 100 + year) month day
      seconds ← parse_clock hour minute sec
      nanos ← parse_fraction rest
      some ((days * 86400 + seconds) * 1000000000 + nanos)
parse_time _ = none

parsed :
    parse_time (codes "0001-03-01T01:30:00.5Z")
    ≡ some ((59 * 86400 + 5400) * 1000000000 + 500000000)
unfolding parse_time days_of days_before_year days_before_month days_in
parsed = refl

parse_recent : parse_time (codes "2024-02-29T23:59:59Z") ≡ some (63844847999 * 1000000000)
unfolding parse_time days_of days_before_year days_before_month days_in
parse_recent = refl
