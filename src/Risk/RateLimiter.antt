-- ===== src/Risk/RateLimiter.antt =====
-- include/mm/risk/RateLimiter.hpp: a token bucket over doubles.
use crypto_mm_engine.Prelude.{ℕ, Bool, true, false, not, if◌then◌else◌}
use crypto_mm_engine.Prelude.Int.{ℤ, pos, leb_ℤ}
use crypto_mm_engine.Common.Types.{Nanos, inc64}
use crypto_mm_engine.Common.Fixed.{is_zero, sub}
use crypto_mm_engine.Common.Doubles.{Doubles}

pub record RateLimiter (d : Doubles) : Type 0 where
  pub capacity : ℤ
  pub per_second : ℤ
  pub tokens : d.Double
  pub last_refill_ns : Nanos
  pub grants : ℕ
  pub denials : ℕ

abbrev pub nanos_per_second : ℤ
nanos_per_second = pos 1_000_000_000

module _ (d : Doubles) where
  open d use {Double, of_int, plus, minus, times, over, less}

  unfoldable pub new_limiter : ℤ → ℤ → RateLimiter d
  new_limiter capacity per_second = record {
    capacity = capacity;
    per_second = per_second;
    tokens = of_int capacity;
    last_refill_ns = pos 0;
    grants = 0;
    denials = 0;
  }

  unfoldable pub projected_tokens : Nanos → RateLimiter d → Double
  projected_tokens now r =
      if is_zero r.last_refill_ns
      then of_int r.capacity
      else let elapsed = sub now r.last_refill_ns in
        if leb_ℤ elapsed (pos 0)
        then r.tokens
        else let refilled =
            plus r.tokens
              (times (over (of_int elapsed) (of_int nanos_per_second)) (of_int r.per_second)) in
          let cap = of_int r.capacity in if less cap refilled then cap else refilled

  unfoldable pub refill : Nanos → RateLimiter d → RateLimiter d
  unfolding projected_tokens
  refill now r =
      if is_zero r.last_refill_ns
      then record r { last_refill_ns = now; tokens = of_int r.capacity }
      else record r { tokens = projected_tokens now r; last_refill_ns = now }

  unfoldable pub try_acquire : Nanos → RateLimiter d → Bool × RateLimiter d
  unfolding refill
  try_acquire now r =
      if leb_ℤ r.per_second (pos 0)
      then (true, r)
      else let r' = refill now r in
        if less r'.tokens (of_int (pos 1))
        then (false, record r' { denials = inc64 r'.denials })
        else (
          true,
          record r' { tokens = minus r'.tokens (of_int (pos 1)); grants = inc64 r'.grants },
        )

  unfoldable pub would_allow : Nanos → RateLimiter d → Bool
  unfolding projected_tokens
  would_allow now r =
      if leb_ℤ r.per_second (pos 0)
      then true
      else not (less (projected_tokens now r) (of_int (pos 1)))

  unfoldable pub reset_limiter : Nanos → RateLimiter d → RateLimiter d
  reset_limiter now r = record r { tokens = of_int r.capacity; last_refill_ns = now }
