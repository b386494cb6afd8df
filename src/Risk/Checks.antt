-- ===== src/Risk/Checks.antt =====
-- src/risk/RiskEngine.cpp: the screening, the bounds of an order, and the exposure.
use crypto_mm_engine.Prelude.{
  Bool, false, not, ◌&&◌, ◌||◌, Option, none, some, if◌then◌else◌, case_option,
}
use crypto_mm_engine.Prelude.Int.{pos, ◌+ℤ◌, ◌/ℤ◌, ltb_ℤ, leb_ℤ, wrap64}
use crypto_mm_engine.Common.Types.{Side, Nanos, is_empty, same_text}
use crypto_mm_engine.Common.Fixed.{
  Px, Qty, Notional, is_positive, sub, checked_add, checked_sub, checked_notional_of,
}
use crypto_mm_engine.Common.Doubles.{Doubles}
use crypto_mm_engine.Common.Instrument.{InstrumentSpec, is_valid_spec}
use crypto_mm_engine.OrderBook.Queries.{BestBidAsk}
use crypto_mm_engine.Venue.{validate_order}
use crypto_mm_engine.Venue.Requests.{limit, gtc, default_capabilities, is_accepted}
use crypto_mm_engine.Quote.Actions.{OrderAction, is_new, is_replace}
use crypto_mm_engine.Risk.Types.{
  RiskState, disarmed, armed, warning, killed, faulted, is_reduce_only, RiskReason, no_reason,
  max_position, max_position_notional, max_order_quantity, max_order_notional, max_working_exposure,
  max_side_exposure, max_open_orders, max_portfolio_notional, stale_market, invalid_price,
  invalid_quantity, price_outside_band, reference_price_unavailable, instrument_invalid,
  risk_disarmed, risk_killed, risk_faulted, reduce_only, system_not_ready, position_unavailable,
  position_stale, portfolio_unavailable, portfolio_stale, pnl_indeterminate, unknown_exposure,
  ownership_violation, arithmetic_overflow, reduction_invalid, max_daily_loss, max_session_loss,
  emergency_loss, ◌or_else◌,
}
use crypto_mm_engine.Risk.Limits.{SymbolLimits, GlobalLimits}
use crypto_mm_engine.Risk.Exposure.{
  ExposureSnapshot, PortfolioState, WorstCaseExposure, peak_absolute, working, with_working,
  compute_worst_case_with, increases_absolute_position,
}
use crypto_mm_engine.Risk.Decision.{RiskInput, LimitContext, Readings}

-- `BestBidAsk::is_sane` and `BestBidAsk::mid`.
unfoldable pub is_sane : BestBidAsk → Bool
is_sane b =
    is_positive b.bid_px
    && is_positive b.ask_px
    && ltb_ℤ b.bid_px b.ask_px
    && is_positive b.bid_qty
    && is_positive b.ask_qty

unfoldable pub mid_of : BestBidAsk → Px
mid_of b = wrap64 (b.bid_px +ℤ b.ask_px) /ℤ pos 2

-- The action claims to come from another strategy than the expected one.
unfoldable pub is_foreign : OrderAction → RiskInput → Bool
is_foreign action input =
    not (is_empty input.expected_owner)
    && not (is_empty action.strategy_name)
    && not (same_text action.strategy_name input.expected_owner)

unfoldable pub screen_state : RiskState → RiskReason
screen_state disarmed = risk_disarmed
screen_state killed = risk_killed
screen_state faulted = risk_faulted
screen_state warning = no_reason
screen_state armed = no_reason

unfoldable pub screen_market : RiskInput → GlobalLimits → RiskReason
unfolding is_sane
screen_market input global =
    if not input.system_ready
    then system_not_ready
    else if not input.has_instrument || not (is_valid_spec input.instrument)
    then instrument_invalid
    else if ltb_ℤ global.max_market_data_age_ns input.market_data_age_ns
    then stale_market
    else if not (is_sane input.bbo)
    then reference_price_unavailable
    else no_reason

-- A view with a time stamp that is older than the limit.
abbrev pub is_old : Nanos → Nanos → GlobalLimits → Bool
is_old as_of_ns now global =
    is_positive as_of_ns && ltb_ℤ global.max_position_age_ns (sub now as_of_ns)

unfoldable pub screen_position : Nanos → RiskInput → GlobalLimits → RiskReason
screen_position now input global =
    if not input.position.valid
    then position_unavailable
    else if is_old input.position.as_of_ns now global
    then position_stale
    else if not input.exposure.determinate
    then unknown_exposure
    else no_reason

abbrev pub has_loss_limits : GlobalLimits → Bool
has_loss_limits global =
    is_positive global.max_daily_loss
    || is_positive global.max_session_loss
    || is_positive global.emergency_loss

-- The limit is set and the loss has reached it.
abbrev pub reached : Notional → Notional → Bool
reached bound loss = is_positive bound && leb_ℤ bound loss

unfoldable pub screen_losses : PortfolioState → GlobalLimits → RiskReason
screen_losses portfolio global =
    if not (has_loss_limits global)
    then no_reason
    else if not portfolio.pnl_determinate
    then pnl_indeterminate
    else let loss = sub (pos 0) portfolio.net_pnl in
      if reached global.emergency_loss loss
      then emergency_loss
      else if reached global.max_daily_loss loss
      then max_daily_loss
      else if reached global.max_session_loss loss
      then max_session_loss
      else no_reason

unfoldable pub screen_portfolio : Nanos → PortfolioState → GlobalLimits → RiskReason
unfolding screen_losses
screen_portfolio now portfolio global =
    let limited = is_positive global.max_portfolio_notional in
    if (limited || has_loss_limits global) && not portfolio.valid
    then portfolio_unavailable
    else if (limited || has_loss_limits global) && is_old portfolio.as_of_ns now global
    then portfolio_stale
    else if limited && ltb_ℤ global.max_portfolio_notional portfolio.gross_notional
    then max_portfolio_notional
    else screen_losses portfolio global

unfoldable pub screen : RiskState → GlobalLimits → Readings → OrderAction → RiskInput → RiskReason
unfolding is_foreign screen_state screen_market screen_position screen_portfolio
screen state global t action input =
    if is_foreign action input
    then ownership_violation
    else screen_state state
      or_else screen_market input global
      or_else screen_position t.at_position input global
      or_else screen_portfolio t.at_portfolio input.portfolio global

unfoldable pub passes_venue_rules : OrderAction → Qty → InstrumentSpec → Bool
passes_venue_rules action quantity spec = is_accepted (
    validate_order
      (record {
        client_order_id = "risk-venue-probe";
        symbol = spec.symbol;
        side = action.side;
        type = limit;
        tif = gtc;
        price = action.price;
        quantity = quantity;
        post_only = false;
        reduce_only = false;
      })
      spec default_capabilities)

-- An order in the exposure that an atomic replacement takes away.
unfoldable pub without_replaced : OrderAction → RiskInput → Option ExposureSnapshot
without_replaced action input =
    if is_replace action.type && input.atomic_replace && is_positive input.replaced_order_remaining
    then case_option
        (checked_sub (working action.side input.exposure) input.replaced_order_remaining) none
        (λ reduced. some (
          with_working action.side (if is_positive reduced then reduced else pos 0) input.exposure))
    else some input.exposure

unfoldable pub check_position : SymbolLimits → RiskInput → Qty → RiskReason
check_position limits input peak =
    if is_positive limits.max_position && ltb_ℤ limits.max_position peak
    then max_position
    else if not (is_positive limits.max_position_notional)
    then no_reason
    else case_option (checked_notional_of (mid_of input.bbo) peak) arithmetic_overflow (λ value.
      if ltb_ℤ limits.max_position_notional value then max_position_notional else no_reason)

unfoldable pub check_side : SymbolLimits → Side → Qty → ExposureSnapshot → RiskReason
check_side limits side quantity projected =
    case_option (checked_add (working side projected) quantity) arithmetic_overflow (λ total.
      if is_positive limits.max_side_exposure && ltb_ℤ limits.max_side_exposure total
      then max_side_exposure
      else no_reason)

unfoldable pub check_gross : SymbolLimits → Qty → ExposureSnapshot → RiskReason
check_gross limits quantity projected =
    if not (is_positive limits.max_working_exposure)
    then no_reason
    else case_option (checked_add projected.working_buy projected.working_sell) arithmetic_overflow
        (λ both. case_option (checked_add both quantity) arithmetic_overflow (λ gross.
          if ltb_ℤ limits.max_working_exposure gross then max_working_exposure else no_reason))

-- What `check_exposure` decides once the worst case is known.
unfoldable pub check_worst :
    RiskState
    → OrderAction
    → Qty
    → RiskInput
    → SymbolLimits
    → ExposureSnapshot
    → WorstCaseExposure
    → RiskReason
check_worst state action quantity input limits projected worst =
    check_position limits input (peak_absolute worst)
    or_else check_side limits action.side quantity projected
    or_else check_gross limits quantity projected
    or_else (if is_reduce_only state
          && increases_absolute_position input.position action.side quantity
        then reduce_only
        else no_reason)

unfoldable pub check_exposure :
    RiskState
    → OrderAction
    → Qty
    → RiskInput
    → SymbolLimits
    → LimitContext
    → RiskReason × LimitContext
check_exposure state action quantity input limits context =
    if is_positive limits.max_open_orders
      && leb_ℤ limits.max_open_orders (pos input.exposure.open_order_count)
      && is_new action.type
    then (max_open_orders, context)
    else case_option (without_replaced action input) (arithmetic_overflow, context)
        (λ projected.
          case_option (compute_worst_case_with input.position projected action.side quantity)
            (arithmetic_overflow, context)
            (λ worst. (
              check_worst state action quantity input limits projected worst,
              record context {
                peak_absolute_exposure = peak_absolute worst;
                working_buy = projected.working_buy;
                working_sell = projected.working_sell;
              },
            )))

module _ (d : Doubles) where
  open d use {Double, of_int, times, over, negate, less}

  unfoldable pub distance_bps : Px → Px → Double
  distance_bps price reference =
      if not (is_positive reference)
      then of_int (pos 0)
      else let away =
          over (times (of_int (pos 10_000)) (of_int (sub price reference))) (of_int reference) in
        if less away (of_int (pos 0)) then negate away else away

  unfoldable pub check_band : Px → RiskInput → SymbolLimits → RiskReason
  check_band price input limits =
      if not (is_positive limits.price_band_bps)
      then no_reason
      else if not (is_positive (mid_of input.bbo))
      then reference_price_unavailable
      else if less (of_int limits.price_band_bps) (distance_bps price (mid_of input.bbo))
      then price_outside_band
      else no_reason

  unfoldable pub check_order_bounds :
      OrderAction → Qty → RiskInput → SymbolLimits → LimitContext → RiskReason × LimitContext
  check_order_bounds action quantity input limits context =
      if not (is_positive quantity)
      then (invalid_quantity, context)
      else if not (is_positive action.price)
      then (invalid_price, context)
      else if is_positive limits.max_order_quantity && ltb_ℤ limits.max_order_quantity quantity
      then (max_order_quantity, context)
      else case_option (checked_notional_of action.price quantity) (arithmetic_overflow, context)
          (λ value. (
            (if is_positive limits.max_order_notional && ltb_ℤ limits.max_order_notional value
                  then max_order_notional
                  else no_reason)
                or_else check_band action.price input limits
                or_else (if not (passes_venue_rules action quantity input.instrument)
                    then reduction_invalid
                    else no_reason),
            record context { order_notional = value },
          ))
