-- ===== src/Runner/Backoff.antt =====
-- The retry delay of `resolveOutcome` in runner.go.
use Prim.Native.Nat.{min}
use native.Mathlib.Nat.{pow-suc, add-suc}
use flicker.Prelude.{ℕ, zero, suc, ◌+◌, ◌*◌, ◌%◌, ◌^◌, ◌≤◌, ◌<◌, ◌≡◌, refl, arith}
use flicker.Time.{Time}
use flicker.Records.{RetryPolicy}
use flicker.Runner.{retry_delay, add_duration}

-- While the shift fits an int64, the delay is the doubled base delay, at most the maximum, and the
-- retry is due that much later.
pub retry_delay_fits :
    (p : RetryPolicy) (attempts : ℕ) (t : Time)
    → p.base_delay * 2 ^ attempts < 2 ^ 63
    → p.max_delay < 2 ^ 63
    → (retry_delay p attempts ≡ min (p.base_delay * 2 ^ attempts) p.max_delay)
      × (add_duration t (retry_delay p attempts)
          ≡ t + min (p.base_delay * 2 ^ attempts) p.max_delay)
unfolding retry_delay add_duration
retry_delay_fits p attempts t fits max = ground arith

pow_shift : (k : ℕ) → 2 ^ (64 + k) ≡ 2 ^ k * 2 ^ 64
pow_shift zero = refl
pow_shift (suc k) = rw (add-suc 64 k, pow-suc, pow-suc, pow_shift k) (omega arith)

no_bits : (base k : ℕ) → base * 2 ^ (64 + k) % 2 ^ 64 ≡ 0
no_bits base k = rw (pow_shift k) (omega arith)

-- The shift loses every bit from the 64th attempt on: the delay is then zero, whatever the policy,
-- and the retry is due at once.
retry_delay_vanishes :
    (p : RetryPolicy) (k : ℕ) (t : Time)
    → (retry_delay p (64 + k) ≡ 0) × (add_duration t (retry_delay p (64 + k)) ≡ t)
unfolding retry_delay add_duration
retry_delay_vanishes p k t = rw (no_bits p.base_delay k) (ground arith)

-- Where the shifted delay, cut to 64 bits, has its sign bit set, the cap of the policy does not
-- apply, and the retry is due before the time of the failure.
retry_in_past :
    (p : RetryPolicy) (attempts : ℕ) (t : Time)
    → 2 ^ 63 ≤ p.base_delay * 2 ^ attempts % 2 ^ 64
    → 0 < t
    → add_duration t (retry_delay p attempts) < t
unfolding retry_delay add_duration
retry_in_past p attempts t sign pos = ground arith
