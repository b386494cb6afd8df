-- ===== src/Risk/Search.antt =====
-- The binary search of src/risk/RiskEngine.cpp over numbers of lots.
use native.Mathlib.Nat.{le-div_iff_mul-le, div-le_self}
use crypto_mm_engine.Prelude.{
  ℕ, zero, suc, ◌+◌, ◌-◌, ◌/◌, ◌^◌, ◌*◌, ◌≤◌, ◌<◌, ◌≡◌, refl, Bool, true, false, arith, inl, inr,
  Bool-cases, sym, subst, ap, le-total,
}
use crypto_mm_engine.Prelude.Int.{
  ℤ, pos, ◌+ℤ◌, ◌-ℤ◌, ◌/ℤ◌, ◌*ℤ◌, pos-*ℤ, leb_ℤ, ltb_ℤ, wrap64, wrap64_id, pos-+ℤ, pos-/ℤ,
}
use crypto_mm_engine.Common.Fixed.{Qty}
use crypto_mm_engine.Common.Doubles.{Doubles}
use crypto_mm_engine.Quote.Actions.{OrderAction}
use crypto_mm_engine.Risk.Types.{RiskState}
use crypto_mm_engine.Risk.Limits.{SymbolLimits}
use crypto_mm_engine.Risk.Decision.{RiskInput}
use crypto_mm_engine.Risk.Engine.{
  search_lots, search_fuel, largest_fitting, largest_permitted_quantity, fits, lot_step,
}

abbrev middle : ℕ → ℕ → ℕ
middle low high = low + (high - low + 1) / 2

pos--ℤ : (a b : ℕ) → b ≤ a → pos a -ℤ pos b ≡ pos (a - b)
unfolding ◌-ℤ◌
pos--ℤ a b h = ground arith

-- While the interval is open, no step of the search overflows.
middle_exact :
    (low high : ℕ)
    → low < high
    → high < 2 ^ 63 - 1
    → wrap64 (pos low +ℤ wrap64 (wrap64 (pos high -ℤ pos low) +ℤ pos 1) /ℤ pos 2)
      ≡ pos (middle low high)
middle_exact low high l h =
    let gap : wrap64 (pos high -ℤ pos low) ≡ pos (high - low) =
      rw (pos--ℤ high low (omega arith)) (wrap64_id (pos (high - low)) (omega arith)) in
    let next : wrap64 (pos (high - low) +ℤ pos 1) ≡ pos (high - low + 1) =
      rw (pos-+ℤ) (wrap64_id (pos (high - low + 1)) (omega arith)) in
    rw (gap, next, pos-/ℤ, pos-+ℤ) (wrap64_id (pos (middle low high)) (omega arith))

below_exact : (m : ℕ) → 0 < m → m < 2 ^ 63 → wrap64 (pos m -ℤ pos 1) ≡ pos (m - 1)
below_exact m l h = rw (pos--ℤ m 1 (omega arith)) (wrap64_id (pos (m - 1)) (omega arith))

-- Where the search ends: the interval is closed, at a number of lots that was found to fit or at the
-- lower end, and the next number was found not to fit or is above the upper end.
pub record IsFound (ok : ℤ → Bool) (low high : ℕ) (r : ℤ × ℤ) : Type 0 where
  pub lots : ℕ
  pub closed : r ≡ (pos lots, pos lots)
  pub at_least : low ≤ lots
  pub at_most : lots ≤ high
  pub fits : low < lots → ok (pos lots) ≡ true
  pub next_fails : lots < high → ok (pos (lots + 1)) ≡ false

raise_lower :
    (ok : ℤ → Bool) (low mid high : ℕ) (r : ℤ × ℤ)
    → low < mid
    → ok (pos mid) ≡ true
    → IsFound ok mid high r
    → IsFound ok low high r
raise_lower ok low mid high r l o f = record {
  lots = f.lots;
  closed = f.closed;
  at_least = omega (arith, f.at_least);
  at_most = f.at_most;
  fits = λ _. elim (le-total f.lots mid) [
    | inl below ↦ (let same : f.lots ≡ mid = omega (arith, f.at_least) in rw same o)
    | inr above ↦ f.fits above
  ];
  next_fails = f.next_fails;
}

lower_upper :
    (ok : ℤ → Bool) (low mid high : ℕ) (r : ℤ × ℤ)
    → low < mid
    → mid ≤ high
    → ok (pos mid) ≡ false
    → IsFound ok low (mid - 1) r
    → IsFound ok low high r
lower_upper ok low mid high r l m o f = record {
  lots = f.lots;
  closed = f.closed;
  at_least = f.at_least;
  at_most = omega (arith, f.at_most);
  fits = f.fits;
  next_fails = λ _. elim (le-total (mid - 1) f.lots) [
    | inl last ↦ (let same : f.lots + 1 ≡ mid = omega (arith, f.at_most) in rw same o)
    | inr below ↦ f.next_fails below
  ];
}

closed-IsFound : (ok : ℤ → Bool) (n : ℕ) → IsFound ok n n (pos n, pos n)
closed-IsFound ok n = record {
  lots = n;
  closed = refl;
  at_least = omega arith;
  at_most = omega arith;
  fits = λ h. absurd (omega arith);
  next_fails = λ h. absurd (omega arith);
}

-- The search closes the interval if its length is below a power of two that the fuel covers.
search_lots-IsFound :
    (fuel : ℕ) (ok : ℤ → Bool) (low high : ℕ)
    → low ≤ high
    → high < 2 ^ 63 - 1
    → high - low < 2 ^ fuel
    → IsFound ok low high (search_lots fuel ok (pos low, pos high))
unfolding search_lots
search_lots-IsFound zero ok low high l h f =
    let same : high ≡ low = omega arith in rw same (closed-IsFound ok low)
search_lots-IsFound (suc fuel) ok low high l h f =
    let mid = middle low high in
    let double : 2 ^ suc fuel ≡ 2 * 2 ^ fuel = omega arith in
    elim (le-total high low) [
      | inl done ↦
          (let same : high ≡ low = omega arith in
            let shut : ltb_ℤ (pos low) (pos low) ≡ false = ground arith in
            rw (same, shut) (closed-IsFound ok low))
      | inr wide ↦ elim (Bool-cases (ok (pos mid))) [
        | inl o ↦
            (let ih =
                raise_lower ok low mid high _ (omega arith) o
                  (search_lots-IsFound fuel ok mid high (omega arith) h (omega arith)) in
              let apart : ltb_ℤ (pos low) (pos high) ≡ true = ground arith in
              rw (apart, middle_exact low high wide h, o) ih)
        | inr o ↦
            (let ih = lower_upper ok low mid high _ (omega arith) (omega arith) o (
                search_lots-IsFound fuel ok low (mid - 1) (omega arith) (omega arith)
                  (omega arith)) in
              let apart : ltb_ℤ (pos low) (pos high) ≡ true = ground arith in
              rw
                (
                  apart,
                  middle_exact low high wide h,
                  o,
                  below_exact mid (omega arith) (omega arith),
                )
                ih)
      ]
    ]

-- What the search for a smaller order returns: a number of whole steps, no more than was asked for,
-- that fits unless it is zero, while one step more does not fit unless it is too much.
pub record IsLargest (fit : Qty → Bool) (asked step : ℕ) (r : Qty) : Type 0 where
  pub lots : ℕ
  pub value : r ≡ pos (lots * step)
  pub no_more : lots * step ≤ asked
  pub passes : 0 < lots → fit (pos (lots * step)) ≡ true
  pub next_fails : (lots + 1) * step ≤ asked → fit (pos ((lots + 1) * step)) ≡ false

lots_exact :
    (lots step : ℕ) → lots * step < 2 ^ 63 → wrap64 (pos lots *ℤ pos step) ≡ pos (lots * step)
lots_exact lots step a = rw (pos-*ℤ) (wrap64_id (pos (lots * step)) (omega arith))

no_lots :
    (fit : Qty → Bool) (asked step : ℕ)
    → (step ≤ asked → fit (pos step) ≡ false)
    → IsLargest fit asked step (pos 0)
no_lots fit asked step f =
    let one : (0 + 1) * step ≡ step = omega arith in
    record {
      lots = 0;
      value = ap pos (omega arith);
      no_more = omega arith;
      passes = λ p. absurd (omega arith);
      next_fails = λ p. rw one (f (omega (arith, one)));
    }

found-IsLargest :
    (fit : Qty → Bool) (asked step : ℕ) (r : ℤ × ℤ)
    → 0 < step
    → asked < 2 ^ 63
    → IsFound (λ lots. fit (wrap64 (lots *ℤ pos step))) 0 (asked / step) r
    → IsLargest fit asked step (wrap64 (r.0 *ℤ pos step))
found-IsLargest fit asked step r p a f =
    let no_more = (le-div_iff_mul-le p).0 f.at_most in
    let exact = lots_exact f.lots step (omega (arith, no_more)) in
    record {
      lots = f.lots;
      value = rw (f.closed) exact;
      no_more = no_more;
      passes = λ l. rw (← exact) (f.fits l);
      next_fails = λ l.
          rw (← lots_exact (f.lots + 1) step (omega (arith, l)))
            (f.next_fails (omega (arith, (le-div_iff_mul-le p).1 l)));
    }

largest_fitting-IsLargest :
    (fit : Qty → Bool) (asked step : ℕ)
    → 0 < step
    → asked < 2 ^ 63 - 1
    → IsLargest fit asked step (largest_fitting fit (pos asked) (pos step))
unfolding largest_fitting
largest_fitting-IsLargest fit asked step p a =
    let ok = λ (lots : ℤ). fit (wrap64 (lots *ℤ pos step)) in
    let below : asked / step ≤ asked = div-le_self asked step in
    let found =
      search_lots-IsFound search_fuel ok 0 (asked / step) (omega arith) (omega (arith, below))
        (omega (arith, below)) in
    elim (Bool-cases (leb_ℤ (pos (asked / step)) (pos 0))) [
      | inl none_left ↦
          rw (pos-/ℤ, none_left)
            (no_lots fit asked step (λ s. absurd (
              ground (
                arith,
                (le-div_iff_mul-le {k = step} {x = 1} {y = asked} p).1 (omega arith),
                none_left,
              ))))
      | inr some_left ↦ elim (Bool-cases (fit (pos step))) [
        | inl f ↦ rw (pos-/ℤ, some_left, f) (found-IsLargest fit asked step _ p (omega arith) found)
        | inr f ↦ rw (pos-/ℤ, some_left, f) (no_lots fit asked step (λ _. f))
      ]
    ]

lot_step_positive :
    (input : RiskInput) (step : ℕ)
    → input.instrument.lot_size ≡ pos step
    → 0 < step
    → lot_step input ≡ pos step
lot_step_positive input step l p = ground arith

-- For a positive lot size and a quantity below the largest 64-bit value, the search closes, and what
-- it returns is a number of whole lots, no more than was asked for, that passes both checks unless it
-- is zero, while one lot more fails them unless it is too much.
pub largest_permitted_quantity-IsLargest :
    (d : Doubles) (state : RiskState) (action : OrderAction) (input : RiskInput)
    (limits : SymbolLimits) (asked step : ℕ)
    → action.quantity ≡ pos asked
    → input.instrument.lot_size ≡ pos step
    → 0 < step
    → asked < 2 ^ 63 - 1
    → IsLargest
        (λ q. fits d state action q input limits)
        asked
        step
        (largest_permitted_quantity d state action input limits)
unfolding largest_permitted_quantity
largest_permitted_quantity-IsLargest d state action input limits asked step q l p a =
    let fit = λ (r : Qty). fits d state action r input limits in
    let lot : lot_step input ≡ pos step = lot_step_positive input step l p in
    subst (λ x. IsLargest fit asked step (largest_fitting fit x (lot_step input))) (sym q)
      (subst (λ x. IsLargest fit asked step (largest_fitting fit (pos asked) x)) (sym lot)
        (largest_fitting-IsLargest fit asked step p a))
