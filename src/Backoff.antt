-- ===== src/Backoff.antt =====
-- include/mm/exchange/common/ReconnectBackoff.hpp: the delay before the next attempt to connect.
pub mod Schedule
mod Tests
use Prim.Native.Nat.{bit_xor}
use crypto_mm_engine.Prelude.{
  ℕ, zero, suc, Bool, ◌&&◌, not, if◌then◌else◌, ltb, leb, ◌==◌, ◌+◌, ◌-◌, ◌*◌, ◌/◌, ◌%◌, ◌^◌,
}
use crypto_mm_engine.Prelude.Int.{ℤ, pos, negsuc, ◌*ℤ◌, ltb_ℤ, wrap64}
use crypto_mm_engine.Common.Types.{Nanos}
use crypto_mm_engine.Common.Fixed.{sub, min_Fixed}

pub record BackoffConfig : Type 0 where
  pub initial_delay : Nanos
  pub max_delay : Nanos
  pub jitter_percent : ℕ
  pub max_attempts : ℕ

pub record ReconnectBackoff : Type 0 where
  pub config : BackoffConfig
  pub seed : ℕ
  pub attempts : ℕ

-- The loop over the attempts so far; the doubling wraps in two's complement.
unfoldable pub double_up_to : ℕ → Nanos → Nanos → Nanos
double_up_to zero max_delay delay = delay
double_up_to (suc n) max_delay delay =
    let doubled = double_up_to n max_delay (wrap64 (delay *ℤ pos 2)) in
    if ltb_ℤ delay max_delay then doubled else delay

-- The hash of the seed and the attempt, on 64-bit words.
unfoldable pub hash_attempt : ℕ → ℕ → ℕ
hash_attempt seed attempt =
    let h₀ = bit_xor seed (attempt * 11_400_714_819_323_198_485 % 2 ^ 64) in
    let h₁ = bit_xor h₀ (h₀ / 2 ^ 30) in
    let h₂ = h₁ * 13_787_848_793_156_543_929 % 2 ^ 64 in bit_xor h₂ (h₂ / 2 ^ 27)

-- `static_cast<std::uint64_t>`.
abbrev pub to_word : ℤ → ℕ
to_word (pos n) = n % 2 ^ 64
to_word (negsuc n) = 2 ^ 64 - 1 - n % 2 ^ 64

abbrev pub jitter_span : Nanos → ℕ → ℕ
jitter_span delay percent = to_word delay * percent % 2 ^ 64 / 100

unfoldable pub with_jitter : ℕ → ℕ → Nanos → Nanos
with_jitter percent hash delay =
    let span = jitter_span delay percent in
    if ltb 0 percent && ltb 0 span then sub delay (wrap64 (pos (hash % span))) else delay

abbrev pub base_delay : ReconnectBackoff → Nanos
base_delay b =
    min_Fixed (double_up_to b.attempts b.config.max_delay b.config.initial_delay) b.config.max_delay

unfoldable pub next_delay : ReconnectBackoff → Nanos × ReconnectBackoff
unfolding double_up_to with_jitter hash_attempt
next_delay b = (
  with_jitter b.config.jitter_percent (hash_attempt b.seed b.attempts) (base_delay b),
  record b { attempts = (b.attempts + 1) % 2 ^ 32 },
)

unfoldable pub reset_backoff : ReconnectBackoff → ReconnectBackoff
reset_backoff b = record b { attempts = 0 }

unfoldable pub is_exhausted : ReconnectBackoff → Bool
is_exhausted b = not (b.config.max_attempts == 0) && leb b.config.max_attempts b.attempts
