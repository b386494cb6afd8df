-- ===== src/Risk/Armed.antt =====
-- Limits that an engine of src/risk/RiskEngine.cpp has while it lets exposure through.
use crypto_mm_engine.Prelude.{◌≤◌, ◌≡◌, Bool, true, false, ◌||◌, some}
use crypto_mm_engine.Prelude.Int.{pos, pos_part, ◌+ℤ◌, ◌-ℤ◌, ◌*ℤ◌, ◌/ℤ◌, ◌≤ℤ◌}
use crypto_mm_engine.Common.Types.{Side, is_ok}
use crypto_mm_engine.Common.Fixed.{is_positive, scale}
use crypto_mm_engine.Common.Fixed.Checked.{size}
use crypto_mm_engine.Common.Doubles.{Doubles}
use crypto_mm_engine.Quote.Actions.{OrderAction, is_new}
use crypto_mm_engine.Risk.Types.{RiskState, armed, warning, is_state}
use crypto_mm_engine.Risk.Limits.{RiskLimits, SymbolLimits, validate_for_arming}
use crypto_mm_engine.Risk.Exposure.{
  ExposureSnapshot, WorstCaseExposure, peak_absolute, working, compute_worst_case_with,
}
use crypto_mm_engine.Risk.Decision.{RiskInput, RiskEngine}
use crypto_mm_engine.Risk.Checks.{without_replaced, distance_bps, mid_of, passes_venue_rules}
use crypto_mm_engine.Risk.Sizing.{IsWithin}
use crypto_mm_engine.Risk.Bounds.{loaded}

abbrev pub is_active : RiskState → Bool
is_active s = is_state s armed || is_state s warning

-- The limits that arming asks for are set.
pub record IsBounded (l : SymbolLimits) : Type 0 where
  pub position : is_positive l.max_position ≡ true
  pub order_quantity : is_positive l.max_order_quantity ≡ true
  pub order_notional : is_positive l.max_order_notional ≡ true

module _ (d : Doubles) where
  -- An engine that is armed or reduce-only has validated its limits.
  record IsArmedSafely (limits : RiskLimits) (e : RiskEngine d) : Type 0 where
    pub unchanged : e.limits ≡ limits
    pub validated : is_active e.state ≡ true → is_ok (validate_for_arming limits) ≡ true

  -- The bounds that an approved order keeps, in exact arithmetic: its size and its worth, the
  -- worst-case position on both sides with the order working, and every other bound that is set.
  pub record KeepsBounds (action : OrderAction) (input : RiskInput) (l : SymbolLimits)
      : Type 0 where
    pub positive : is_positive action.quantity ≡ true
    pub quantity : action.quantity ≤ℤ l.max_order_quantity
    pub notional : ((action.price *ℤ action.quantity) /ℤ scale) ≤ℤ l.max_order_notional
    pub band :
        is_positive l.price_band_bps ≡ true
        → d.less (d.of_int l.price_band_bps) (distance_bps d action.price (mid_of input.bbo))
          ≡ false
    pub venue : passes_venue_rules action action.quantity input.instrument ≡ true
    pub rest : ExposureSnapshot
    pub replaced : without_replaced action input ≡ some rest
    pub long :
        size (input.position.quantity +ℤ loaded Side.buy action.side action.quantity rest)
        ≤ pos_part l.max_position
    pub short :
        size (input.position.quantity -ℤ loaded Side.sell action.side action.quantity rest)
        ≤ pos_part l.max_position
    pub worst : WorstCaseExposure
    pub projected :
        compute_worst_case_with input.position rest action.side action.quantity ≡ some worst
    pub worth :
        IsWithin l.max_position_notional ((mid_of input.bbo *ℤ peak_absolute worst) /ℤ scale)
    pub orders :
        is_new action.type ≡ true
        → IsWithin l.max_open_orders (pos input.exposure.open_order_count +ℤ pos 1)
    pub one_side : IsWithin l.max_side_exposure (working action.side rest +ℤ action.quantity)
    pub both_sides :
        IsWithin l.max_working_exposure (rest.working_buy +ℤ rest.working_sell +ℤ action.quantity)
