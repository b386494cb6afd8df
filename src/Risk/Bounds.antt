-- ===== src/Risk/Bounds.antt =====
-- What `check_exposure` of src/risk/RiskEngine.cpp establishes of a quantity, in exact integers.
use crypto_mm_engine.Prelude.{
  ℕ, ◌≤◌, ◌≡◌, refl, true, false, some, Option-cases, >>=-eq-some, inl, inr, arith, ◌∙◌, ap,
}
use crypto_mm_engine.Prelude.Int.{
  ℤ, pos, pos_part, ◌+ℤ◌, ◌-ℤ◌, ◌*ℤ◌, ◌/ℤ◌, ◌≤ℤ◌, ltb_ℤ, leb_ℤ, IsInt64,
}
use crypto_mm_engine.Common.Types.{Side}
use crypto_mm_engine.Common.Fixed.{
  Qty, is_positive, scale, checked_add, checked_sub, checked_notional_of,
}
use crypto_mm_engine.Common.Fixed.Checked.{
  checked_add-some, checked_sub-some, size, saturating_abs-size,
}
use crypto_mm_engine.Quote.Actions.{OrderAction, is_new}
use crypto_mm_engine.Risk.Types.{RiskState, is_reduce_only, is_clear}
use crypto_mm_engine.Risk.Limits.{SymbolLimits}
use crypto_mm_engine.Risk.Exposure.{
  PositionSnapshot, ExposureSnapshot, WorstCaseExposure, peak_absolute, working, with_working,
  compute_worst_case, compute_worst_case_with, increases_absolute_position,
}
use crypto_mm_engine.Risk.Decision.{RiskInput, LimitContext}
use crypto_mm_engine.Risk.Checks.{
  mid_of, without_replaced, check_position, check_side, check_gross, check_worst, check_exposure,
}
use crypto_mm_engine.Risk.Sizing.{IsWithin, checked_notional_of-some, or_else_parts}

-- The working quantity of a side with the order on top.
abbrev pub loaded : Side → Side → Qty → ExposureSnapshot → ℤ
loaded Side.buy Side.buy q e = e.working_buy +ℤ q
loaded Side.buy Side.sell q e = e.working_buy
loaded Side.sell Side.sell q e = e.working_sell +ℤ q
loaded Side.sell Side.buy q e = e.working_sell

-- Both worst cases, every working order of a side filled and none of the other, are within the bound
-- on the position, and so is the larger one's worth at the middle of the market; the side and both
-- sides together are within theirs, and so is the number of open orders with a new one.
pub record IsCovered (state : RiskState) (action : OrderAction) (q : Qty) (input : RiskInput)
    (limits : SymbolLimits) (rest : ExposureSnapshot) : Type 0 where
  pub long :
      is_positive limits.max_position ≡ true
      → size (input.position.quantity +ℤ loaded Side.buy action.side q rest)
        ≤ pos_part limits.max_position
  pub short :
      is_positive limits.max_position ≡ true
      → size (input.position.quantity -ℤ loaded Side.sell action.side q rest)
        ≤ pos_part limits.max_position
  pub worst : WorstCaseExposure
  pub projected : compute_worst_case_with input.position rest action.side q ≡ some worst
  pub worth :
      IsWithin limits.max_position_notional ((mid_of input.bbo *ℤ peak_absolute worst) /ℤ scale)
  pub orders :
      is_new action.type ≡ true
      → IsWithin limits.max_open_orders (pos input.exposure.open_order_count +ℤ pos 1)
  pub one_side : IsWithin limits.max_side_exposure (working action.side rest +ℤ q)
  pub both_sides : IsWithin limits.max_working_exposure (rest.working_buy +ℤ rest.working_sell +ℤ q)
  pub unwinding :
      is_reduce_only state ≡ true → increases_absolute_position input.position action.side q ≡ false

peak_bounds :
    (w : WorstCaseExposure) (bound : ℤ)
    → IsInt64 w.worst_case_long
    → IsInt64 w.worst_case_short
    → is_positive bound ≡ true
    → ltb_ℤ bound (peak_absolute w) ≡ false
    → (size w.worst_case_long ≤ pos_part bound) × (size w.worst_case_short ≤ pos_part bound)
unfolding peak_absolute
peak_bounds w bound l s p h =
    ground
      (arith, saturating_abs-size w.worst_case_long l, saturating_abs-size w.worst_case_short s)

compute_worst_case-some :
    (p : PositionSnapshot) (e : ExposureSnapshot) {w : WorstCaseExposure}
    → compute_worst_case p e ≡ some w
    → (w.worst_case_long ≡ p.quantity +ℤ e.working_buy)
      × (w.worst_case_short ≡ p.quantity -ℤ e.working_sell)
      × IsInt64 w.worst_case_long
      × IsInt64 w.worst_case_short
unfolding compute_worst_case
compute_worst_case-some p e {w} h = elim (Option-cases (checked_add p.quantity e.working_buy)) [
  | inl f ↦ absurd (ground (arith, f))
  | inr (l, f) ↦ elim (Option-cases (checked_sub p.quantity e.working_sell)) [
    | inl g ↦ absurd (ground (arith, f, g))
    | inr (r, g) ↦
        (let exact_long = checked_add-some p.quantity e.working_buy f in
          let exact_short = checked_sub-some p.quantity e.working_sell g in
          ground (arith, f, g, exact_long, exact_short))
  ]
]

check_worst-parts :
    (state : RiskState) (action : OrderAction) (q : Qty) (input : RiskInput) (limits : SymbolLimits)
    (rest : ExposureSnapshot) (w : WorstCaseExposure)
    → is_clear (check_worst state action q input limits rest w) ≡ true
    → (is_clear (check_position limits input (peak_absolute w)) ≡ true)
      × (is_clear (check_side limits action.side q rest) ≡ true)
      × (is_clear (check_gross limits q rest) ≡ true)
      × (is_reduce_only state ≡ true
          → increases_absolute_position input.position action.side q ≡ false)
unfolding check_worst
check_worst-parts state action q input limits rest w h =
    let a = or_else_parts (check_position limits input (peak_absolute w)) _ h in
    let b = or_else_parts (check_side limits action.side q rest) _ a.1 in
    let c = or_else_parts (check_gross limits q rest) _ b.1 in
    (a.0, b.0, c.0, λ r. ground (arith, c.1, r))

check_position_bound :
    (limits : SymbolLimits) (input : RiskInput) (peak : Qty)
    → is_clear (check_position limits input peak) ≡ true
    → is_positive limits.max_position ≡ true
    → ltb_ℤ limits.max_position peak ≡ false
unfolding check_position
check_position_bound limits input peak h p = ground arith

check_position_worth :
    (limits : SymbolLimits) (input : RiskInput) (peak : Qty)
    → is_clear (check_position limits input peak) ≡ true
    → IsWithin limits.max_position_notional ((mid_of input.bbo *ℤ peak) /ℤ scale)
unfolding check_position
check_position_worth limits input peak h =
    elim (Option-cases (checked_notional_of (mid_of input.bbo) peak)) [
      | inl e ↦ (λ p. absurd (ground (arith, e, p)))
      | inr (v, e) ↦
          (let exact = checked_notional_of-some (mid_of input.bbo) peak e in
            λ p. ground (arith, e, exact, p))
    ]

open_orders_bound :
    (bound : ℤ) (count : ℕ) → leb_ℤ bound (pos count) ≡ false → pos count +ℤ pos 1 ≤ℤ bound
unfolding ◌+ℤ◌
open_orders_bound bound count h = ground arith

check_exposure_orders :
    (state : RiskState) (action : OrderAction) (q : Qty) (input : RiskInput) (limits : SymbolLimits)
    (c : LimitContext)
    → is_clear (check_exposure state action q input limits c).0 ≡ true
    → is_new action.type ≡ true
    → IsWithin limits.max_open_orders (pos input.exposure.open_order_count +ℤ pos 1)
unfolding check_exposure
check_exposure_orders state action q input limits c h n p =
    open_orders_bound limits.max_open_orders input.exposure.open_order_count (ground (arith, n, p))

check_side_bound :
    (limits : SymbolLimits) (side : Side) (q : Qty) (rest : ExposureSnapshot)
    → is_clear (check_side limits side q rest) ≡ true
    → IsWithin limits.max_side_exposure (working side rest +ℤ q)
unfolding check_side
check_side_bound limits side q rest h = elim (Option-cases (checked_add (working side rest) q)) [
  | inl e ↦ absurd (ground (arith, e))
  | inr (v, e) ↦ (let exact = checked_add-some (working side rest) q e in ground (arith, e, exact))
]

check_gross_bound :
    (limits : SymbolLimits) (q : Qty) (rest : ExposureSnapshot)
    → is_clear (check_gross limits q rest) ≡ true
    → IsWithin limits.max_working_exposure (rest.working_buy +ℤ rest.working_sell +ℤ q)
unfolding check_gross
check_gross_bound limits q rest h p =
    elim (Option-cases (checked_add rest.working_buy rest.working_sell)) [
      | inl e ↦ absurd (ground (arith, e))
      | inr (v, e) ↦ elim (Option-cases (checked_add v q)) [
        | inl f ↦ absurd (ground (arith, e, f))
        | inr (w, f) ↦
            (let both = checked_add-some rest.working_buy rest.working_sell e in
              let gross = checked_add-some v q f in
              let total : w ≡ rest.working_buy +ℤ rest.working_sell +ℤ q =
                gross.0 ∙ ap (λ (x : ℤ). x +ℤ q) both.0 in
              ground (arith, e, f, total))
      ]
    ]

with_working-loaded :
    (side : Side) (e : ExposureSnapshot) (q total : Qty)
    → total ≡ working side e +ℤ q
    → ((with_working side total e).working_buy ≡ loaded Side.buy side q e)
      × ((with_working side total e).working_sell ≡ loaded Side.sell side q e)
with_working-loaded Side.buy e q total h = (h, refl)
with_working-loaded Side.sell e q total h = (refl, h)

compute_worst_case_with-some :
    (p : PositionSnapshot) (e : ExposureSnapshot) (side : Side) (q : Qty) {w : WorstCaseExposure}
    → compute_worst_case_with p e side q ≡ some w
    → (w.worst_case_long ≡ p.quantity +ℤ loaded Side.buy side q e)
      × (w.worst_case_short ≡ p.quantity -ℤ loaded Side.sell side q e)
      × IsInt64 w.worst_case_long
      × IsInt64 w.worst_case_short
unfolding compute_worst_case_with
compute_worst_case_with-some p e side q {w} h =
    let (total, f, g) =
      >>=-eq-some (checked_add (working side e) q)
        (λ v. compute_worst_case p (with_working side v e)) h in
    let exact = checked_add-some (working side e) q f in
    let worst = compute_worst_case-some p (with_working side total e) g in
    let sides = with_working-loaded side e q total exact.0 in
    (
      worst.0 ∙ ap (λ (x : ℤ). p.quantity +ℤ x) sides.0,
      worst.1 ∙ ap (λ (x : ℤ). p.quantity -ℤ x) sides.1,
      worst.2,
      worst.3,
    )

-- A quantity that passes `check_exposure` is covered by the limits.
pub check_exposure-IsCovered :
    (state : RiskState) (action : OrderAction) (q : Qty) (input : RiskInput) (limits : SymbolLimits)
    (c : LimitContext)
    → is_clear (check_exposure state action q input limits c).0 ≡ true
    → (rest : ExposureSnapshot) × (without_replaced action input ≡ some rest)
      × IsCovered state action q input limits rest
unfolding check_exposure
check_exposure-IsCovered state action q input limits c h =
    elim (Option-cases (without_replaced action input)) [
      | inl e ↦ absurd (ground (arith, e))
      | inr (rest, e) ↦
          elim (Option-cases (compute_worst_case_with input.position rest action.side q)) [
            | inl f ↦ absurd (ground (arith, e, f))
            | inr (w, f) ↦
                (let worst = compute_worst_case_with-some input.position rest action.side q f in
                  let clear : is_clear (check_worst state action q input limits rest w) ≡ true =
                    ground (arith, e, f) in
                  let parts = check_worst-parts state action q input limits rest w clear in
                  let within = λ (p : is_positive limits.max_position ≡ true).
                    peak_bounds w limits.max_position worst.2 worst.3 p
                      (check_position_bound limits input (peak_absolute w) parts.0 p) in
                  (
                    rest,
                    e,
                    record {
                      long = λ p. rw (← worst.0) ((within p).0);
                      short = λ p. rw (← worst.1) ((within p).1);
                      worst = w;
                      projected = f;
                      worth = check_position_worth limits input (peak_absolute w) parts.0;
                      orders = check_exposure_orders state action q input limits c h;
                      one_side = check_side_bound limits action.side q rest parts.1;
                      both_sides = check_gross_bound limits q rest parts.2;
                      unwinding = parts.3;
                    },
                  ))
          ]
    ]
