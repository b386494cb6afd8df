-- ===== src/Backoff/Schedule.antt =====
-- The delays of include/mm/exchange/common/ReconnectBackoff.hpp against the schedule they are to keep.
use native.Mathlib.Nat.{
  two-pow-succ, one-le-pow, div-le_of_le-mul, div-mul-le_self, le-div_iff_mul-le, mod-lt, mod-le,
  mul-le-mul_left, mul-le-mul_right,
}
use crypto_mm_engine.Prelude.{
  ℕ, suc, zero, ◌≡◌, refl, ◌&&◌, ltb, min, ◌+◌, ◌-◌, ◌*◌, ◌/◌, ◌%◌, ◌^◌, ◌≤◌, ◌<◌, arith, ap, ◌∙◌,
  Bool-cases, inl, inr,
}
use crypto_mm_engine.Prelude.Int.{pos, ◌*ℤ◌, ◌-ℤ◌, ltb_ℤ, wrap64}
use crypto_mm_engine.Common.Types.{Nanos}
use crypto_mm_engine.Common.Fixed.{sub, min_Fixed}
use crypto_mm_engine.Backoff.{
  ReconnectBackoff, double_up_to, hash_attempt, jitter_span, with_jitter, base_delay, next_delay,
}

doubled : (d : ℕ) → d < 2 ^ 62 → wrap64 (pos d *ℤ pos 2) ≡ pos (d * 2)
unfolding wrap64 ◌*ℤ◌
doubled d h = ground arith

power_step : (d p q : ℕ) → q ≡ p + p → d * 2 * p ≡ d * q
power_step d p q h = rw h (omega arith)

power_grows : (d n : ℕ) → d ≤ d * 2 ^ suc n
power_grows d n =
    let at_least : 1 ≤ 2 ^ suc n = one-le-pow (suc n) 2 (omega arith) in
    let scaled = mul-le-mul_left d at_least in omega (arith, scaled)

capped_one : (d m : ℕ) → min_Fixed (pos d) (pos m) ≡ pos (min (d * 1) m)
capped_one d m = ground arith

capped_big : (d m q : ℕ) → m ≤ d → d ≤ q → min_Fixed (pos d) (pos m) ≡ pos (min q m)
capped_big d m q h k = ground arith

-- The capped loop computes the capped power.
double_up_to-exact :
    (n m d : ℕ)
    → m ≤ 2 ^ 62
    → min_Fixed (double_up_to n (pos m) (pos d)) (pos m) ≡ pos (min (d * 2 ^ n) m)
unfolding double_up_to
double_up_to-exact zero m d h = capped_one d m
double_up_to-exact (suc n) m d h = elim (Bool-cases (ltb_ℤ (pos d) (pos m))) [
  | inl e ↦
      (let less : d < m = ground (arith, e) in
        let ih = double_up_to-exact n m (d * 2) h in
        rw (e, doubled d (omega arith))
          (ih ∙ ap (λ x. pos (min x m)) (power_step d (2 ^ n) (2 ^ suc n) (two-pow-succ n))))
  | inr e ↦ rw e (capped_big d m (d * 2 ^ suc n) (ground (arith, e)) (power_grows d n))
]

-- The jitter takes at most its percentage away.
span_le : (d j : ℕ) → d % 2 ^ 64 * j % 2 ^ 64 / 100 ≤ d * j / 100
span_le d j =
    let small : d % 2 ^ 64 ≤ d = omega arith in
    let scaled = mul-le-mul_right j small in
    let word : d % 2 ^ 64 * j % 2 ^ 64 ≤ d % 2 ^ 64 * j = mod-le (d % 2 ^ 64 * j) (2 ^ 64) in
    let shared = div-mul-le_self (d % 2 ^ 64 * j % 2 ^ 64) 100 in
    (le-div_iff_mul-le (omega arith)).1 (omega (arith, scaled, word, shared))

share_le_all : (d j : ℕ) → j ≤ 100 → d * j / 100 ≤ d
share_le_all d j h =
    let scaled = mul-le-mul_left d h in div-le_of_le-mul 100 (omega (arith, scaled))

subtract_pos : (d k : ℕ) → d ≤ 2 ^ 62 → k ≤ d → sub (pos d) (wrap64 (pos k)) ≡ pos (d - k)
unfolding sub wrap64 ◌-ℤ◌
subtract_pos d k h l = ground arith

-- A delay between the base and the base less its share.
pub record IsJittered (base percent : ℕ) (delay : Nanos) : Type 0 where
  pub length : ℕ
  pub value : delay ≡ pos length
  pub at_most : length ≤ base
  pub at_least : base ≤ length + base * percent / 100

with_jitter-IsJittered :
    (j hash d : ℕ) → d ≤ 2 ^ 62 → j ≤ 100 → IsJittered d j (with_jitter j hash (pos d))
unfolding with_jitter
with_jitter-IsJittered j hash d h l =
    let span = jitter_span (pos d) j in
    elim (Bool-cases (ltb 0 j && ltb 0 span)) [
      | inr e ↦
          rw e (record { length = d; value = refl; at_most = omega arith; at_least = omega arith })
      | inl e ↦
          (let positive : 0 < span = ground (arith, e) in
            let less = mod-lt hash positive in
            let share = span_le d j in
            let all = share_le_all d j l in
            rw e (record {
              length = d - hash % span;
              value = subtract_pos d (hash % span) h (omega (arith, less, share, all));
              at_most = omega arith;
              at_least = omega (arith, less, share, all);
            }))
    ]

-- The delay before an attempt is the initial delay doubled once for each attempt so far, capped at the
-- greatest delay, less at most the jitter's percentage of it, if the delays are not negative, the
-- greatest is at most 2^62 ns and the jitter at most 100 percent. In particular the cap is kept.
pub next_delay-IsJittered :
    (b : ReconnectBackoff) (initial greatest : ℕ)
    → b.config.initial_delay ≡ pos initial
    → b.config.max_delay ≡ pos greatest
    → greatest ≤ 2 ^ 62
    → b.config.jitter_percent ≤ 100
    → IsJittered (min (initial * 2 ^ b.attempts) greatest) b.config.jitter_percent (next_delay b).0
unfolding next_delay
next_delay-IsJittered b initial greatest hi hm h j =
    let capped = min (initial * 2 ^ b.attempts) greatest in
    let base : base_delay b ≡ pos capped =
      rw (hi, hm) (double_up_to-exact b.attempts greatest initial h) in
    rw base (
      with_jitter-IsJittered b.config.jitter_percent (hash_attempt b.seed b.attempts) capped
        (omega arith) j)
