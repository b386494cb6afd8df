-- ===== src/Backoff/Tests.antt =====
-- The third attempt of a schedule, and each theorem at it.
use crypto_mm_engine.Prelude.{min, ◌*◌, ◌^◌, refl, arith}
use crypto_mm_engine.Prelude.Int.{pos}
use crypto_mm_engine.Backoff.{ReconnectBackoff, next_delay}
use crypto_mm_engine.Backoff.Schedule.{IsJittered, next_delay-IsJittered}

-- 200 ms at first, 30 s at most.
abbrev third : ReconnectBackoff
third = record {
  config = record {
    initial_delay = pos 200_000_000;
    max_delay = pos 30_000_000_000;
    jitter_percent = 25;
    max_attempts = 0;
  };
  seed = 42;
  attempts = 2;
}

next_delay-IsJittered_example :
    IsJittered (min (200_000_000 * 2 ^ 2) 30_000_000_000) 25 (next_delay third).0
next_delay-IsJittered_example =
    next_delay-IsJittered third 200_000_000 30_000_000_000 refl refl (omega arith) (omega arith)
