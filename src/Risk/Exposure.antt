-- ===== src/Risk/Exposure.antt =====
-- include/mm/risk/PositionState.hpp, src/risk/PositionState.cpp and include/mm/risk/PortfolioState.hpp:
-- the position, the working orders and the worst case of both.
use crypto_mm_engine.Prelude.{
  ℕ, Bool, true, false, not, ◌||◌, Option, none, some, if◌then◌else◌, ◌>>=◌,
}
use crypto_mm_engine.Prelude.Int.{ltb_ℤ}
use crypto_mm_engine.Common.Types.{Side, Symbol, Nanos}
use crypto_mm_engine.Common.Fixed.{
  Px, Qty, Notional, is_zero, is_positive, checked_add, checked_sub, saturating_abs,
}

pub record PositionSnapshot : Type 0 where
  pub valid : Bool
  pub symbol : Symbol
  pub quantity : Qty
  pub notional : Notional
  pub average_price : Px
  pub as_of_ns : Nanos
  pub sequence : ℕ

pub record ExposureSnapshot : Type 0 where
  pub determinate : Bool
  pub working_buy : Qty
  pub working_sell : Qty
  pub working_buy_notional : Notional
  pub working_sell_notional : Notional
  pub open_order_count : ℕ
  pub indeterminate_order_count : ℕ

pub record PortfolioState : Type 0 where
  pub valid : Bool
  pub pnl_determinate : Bool
  pub gross_notional : Notional
  pub net_notional : Notional
  pub realized : Notional
  pub unrealized : Notional
  pub fees : Notional
  pub net_pnl : Notional
  pub as_of_ns : Nanos
  pub sequence : ℕ

pub record WorstCaseExposure : Type 0 where
  pub worst_case_long : Qty
  pub worst_case_short : Qty

unfoldable pub peak_absolute : WorstCaseExposure → Qty
peak_absolute w =
    let a = saturating_abs w.worst_case_long in
    let b = saturating_abs w.worst_case_short in if ltb_ℤ b a then a else b

-- The working quantity of one side.
abbrev pub working : Side → ExposureSnapshot → Qty
working Side.buy e = e.working_buy
working Side.sell e = e.working_sell

abbrev pub with_working : Side → Qty → ExposureSnapshot → ExposureSnapshot
with_working Side.buy q e = record e { working_buy = q }
with_working Side.sell q e = record e { working_sell = q }

unfoldable pub compute_worst_case : PositionSnapshot → ExposureSnapshot → Option WorstCaseExposure
compute_worst_case position exposure =
    if not position.valid || not exposure.determinate then none else (do
      long ← checked_add position.quantity exposure.working_buy
      short ← checked_sub position.quantity exposure.working_sell
      some (record { worst_case_long = long; worst_case_short = short }))

unfoldable pub compute_worst_case_with :
    PositionSnapshot → ExposureSnapshot → Side → Qty → Option WorstCaseExposure
compute_worst_case_with position exposure side quantity =
    checked_add (working side exposure) quantity >>= λ total.
    compute_worst_case position (with_working side total exposure)

abbrev pub is_buy : Side → Bool
is_buy Side.buy = true
is_buy Side.sell = false

abbrev pub same_bool : Bool → Bool → Bool
same_bool true b = b
same_bool false b = not b

unfoldable pub increases_absolute_position : PositionSnapshot → Side → Qty → Bool
increases_absolute_position position side quantity =
    if not (is_positive quantity)
    then false
    else if is_zero position.quantity
    then true
    else same_bool (is_buy side) (is_positive position.quantity)
