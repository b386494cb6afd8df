-- ===== src/Risk/Tests.antt =====
-- An engine with one symbol, and each theorem at a concrete action. Doubles are whole numbers here.
use crypto_mm_engine.Prelude.{
  ℕ, ◌*◌, ◌≡◌, refl, true, false, not, [], ◌∷◌, arith, if◌then◌else◌, ltb, ◌==◌,
}
use crypto_mm_engine.Prelude.Int.{ℤ, pos, ◌+ℤ◌, ◌-ℤ◌, ◌*ℤ◌, ◌/ℤ◌, ltb_ℤ, leb_ℤ, wrap64}
use crypto_mm_engine.Common.Types.{inc64}
use crypto_mm_engine.Common.Fixed.{
  sub, is_on_step, notional_of, narrow, checked_add, checked_sub, checked_notional_of,
  saturating_abs,
}
use crypto_mm_engine.Common.Doubles.{Doubles}
use crypto_mm_engine.Common.Instrument.{trading, is_valid_spec}
use crypto_mm_engine.Venue.{
  validate_order, check_identity, check_quantity, check_order_price, check_coherence,
}
use crypto_mm_engine.Quote.Actions.{OrderAction, no_action, new, cancel, adds_exposure}
use crypto_mm_engine.Risk.Types.{
  armed, needs_operator_recovery, is_legal_transition, is_reduce_only, max_position, emergency_loss,
  reject, reason_index, ownership_violation,
}
use crypto_mm_engine.Risk.Limits.{
  SymbolLimits, RiskLimits, find, validate_for_arming, validate_symbols,
}
use crypto_mm_engine.Risk.Exposure.{
  compute_worst_case, compute_worst_case_with, peak_absolute, increases_absolute_position,
}
use crypto_mm_engine.Risk.RateLimiter.{new_limiter, try_acquire}
use crypto_mm_engine.Risk.Decision.{
  RiskInput, RiskEngine, RiskDecision, Readings, permits_exposure, is_approved, rejected, granted,
}
use crypto_mm_engine.Risk.Checks.{
  is_foreign, is_sane, mid_of, screen, without_replaced, passes_venue_rules, check_worst,
  check_position, check_side, check_gross, check_exposure, check_order_bounds, check_band,
  distance_bps,
}
use crypto_mm_engine.Risk.Engine.{
  no_metrics, count, record_decision, tally_size, new_engine, transition, arm, kill, stamp_approval,
  conclude, refuse, grant, check_both, largest_permitted_quantity, largest_fitting, search_lots,
  fits, revalidate, judge, acquire, admit, evaluate_exposure, evaluate, approve_cancel,
}
use crypto_mm_engine.Risk.Tokens.{IsStamped, evaluate-IsStamped, cancel_passes}
use crypto_mm_engine.Risk.Histories.{arms, warns, handle, handle_all, stopped_until_rearm}
use crypto_mm_engine.Risk.Tally.{count-record_decision}
use crypto_mm_engine.Risk.Search.{IsLargest, largest_permitted_quantity-IsLargest}

abbrev pub whole : Doubles
whole = record {
  Double = ℤ;
  of_int = λ a. a;
  plus = λ a b. a +ℤ b;
  minus = λ a b. a -ℤ b;
  times = λ a b. a *ℤ b;
  over = λ a b. a /ℤ b;
  negate = λ a. pos 0 -ℤ a;
  less = λ a b. ltb_ℤ a b;
  at_most = λ a b. leb_ℤ a b;
}

abbrev unit : ℕ
unit = 100_000_000

-- At most 10 in position, 5 in an order.
abbrev symbol_limits : SymbolLimits
symbol_limits = record {
  symbol = "BTCUSDT";
  max_position = pos (10 * unit);
  max_position_notional = pos 0;
  max_order_quantity = pos (5 * unit);
  max_order_notional = pos (1000 * unit);
  max_working_exposure = pos (20 * unit);
  max_side_exposure = pos (10 * unit);
  max_open_orders = pos 4;
  price_band_bps = pos 500;
}

abbrev pub limits : RiskLimits
limits = record {
  global = record {
    max_portfolio_notional = pos 0;
    max_open_orders_total = pos 0;
    max_daily_loss = pos 0;
    max_session_loss = pos 0;
    emergency_loss = pos 0;
    max_new_orders_per_second = pos 10;
    max_cancels_per_second = pos 10;
    max_replaces_per_second = pos 10;
    max_actions_per_second = pos 20;
    burst_capacity = pos 5;
    max_market_data_age_ns = pos 500;
    max_position_age_ns = pos 5000;
  };
  symbols = symbol_limits ∷ [];
}

abbrev pub input : RiskInput
input = record {
  symbol = "BTCUSDT";
  instrument = record {
    symbol = "BTCUSDT";
    tick_size = pos 1;
    lot_size = pos unit;
    min_qty = pos 0;
    max_qty = pos 0;
    min_notional = pos 0;
    price_band_lo = pos 0;
    price_band_hi = pos 0;
    status = trading;
  };
  has_instrument = true;
  position = record {
    valid = true;
    symbol = "BTCUSDT";
    quantity = pos (7 * unit);
    notional = pos 0;
    average_price = pos (100 * unit);
    as_of_ns = pos 1000;
    sequence = 3;
  };
  exposure = record {
    determinate = true;
    working_buy = pos unit;
    working_sell = pos (2 * unit);
    working_buy_notional = pos 0;
    working_sell_notional = pos 0;
    open_order_count = 2;
    indeterminate_order_count = 0;
  };
  portfolio = record {
    valid = false;
    pnl_determinate = false;
    gross_notional = pos 0;
    net_notional = pos 0;
    realized = pos 0;
    unrealized = pos 0;
    fees = pos 0;
    net_pnl = pos 0;
    as_of_ns = pos 0;
    sequence = 0;
  };
  bbo = record {
    bid_px = pos (99 * unit);
    bid_qty = pos unit;
    ask_px = pos (101 * unit);
    ask_qty = pos unit;
    seq = 10;
  };
  market_data_age_ns = pos 10;
  system_ready = true;
  atomic_replace = false;
  replaced_order_remaining = pos 0;
  expected_owner = "maker";
}

-- A bid for 4, of which the position limit leaves room for 2.
abbrev pub bid : OrderAction
bid = record no_action {
  type = new;
  symbol = "BTCUSDT";
  price = pos (99 * unit);
  quantity = pos (4 * unit);
  strategy_name = "maker";
}

abbrev withdrawal : OrderAction
withdrawal = record bid { type = cancel }

abbrev pub readings : Readings
readings = record {
  started = pos 1010;
  at_position = pos 1011;
  at_portfolio = pos 1012;
  at_cancel = pos 1010;
  finished = pos 1020;
}

abbrev ready : RiskEngine whole
ready = handle_all whole (arms ∷ []) (new_engine whole limits)

abbrev reduced_bid : RiskDecision
reduced_bid = (evaluate whole bid input readings ready).0

reduced_bid-quantity : reduced_bid.approved.quantity ≡ pos (2 * unit)
unfolding evaluate evaluate_exposure admit acquire judge revalidate check_both
    largest_permitted_quantity largest_fitting search_lots grant refuse conclude stamp_approval
    granted rejected permits_exposure is_approved record_decision handle_all handle arm new_engine
    new_limiter try_acquire transition is_legal_transition needs_operator_recovery
    validate_for_arming validate_symbols find screen is_foreign is_sane is_valid_spec
    check_order_bounds check_band distance_bps mid_of passes_venue_rules validate_order
    check_identity check_quantity check_order_price check_coherence is_on_step notional_of
    check_exposure check_worst check_position check_side check_gross without_replaced
    compute_worst_case compute_worst_case_with peak_absolute increases_absolute_position
    is_reduce_only checked_add checked_sub checked_notional_of narrow saturating_abs sub wrap64 ◌+ℤ◌
    ◌-ℤ◌ ◌*ℤ◌ ◌/ℤ◌
reduced_bid-quantity = refl

evaluate-IsStamped_example :
    IsStamped ready.approval_sequence (evaluate whole bid input readings ready)
evaluate-IsStamped_example = evaluate-IsStamped whole bid input readings ready

abbrev stopped : RiskEngine whole
stopped = kill whole emergency_loss ready

stopped-needs_operator_recovery : needs_operator_recovery stopped.state ≡ true
unfolding needs_operator_recovery kill transition is_legal_transition handle_all handle arm
    new_engine validate_for_arming validate_symbols
stopped-needs_operator_recovery = refl

abbrev still_stopped : RiskEngine whole
still_stopped = handle_all whole (arms ∷ warns max_position ∷ []) stopped

stopped_until_rearm_example :
    (permits_exposure (evaluate whole bid input readings still_stopped).0 ≡ false)
    × (permits_exposure (approve_cancel whole bid input readings still_stopped).0 ≡ true
        → adds_exposure bid.type ≡ true)
stopped_until_rearm_example =
    stopped_until_rearm whole (arms ∷ warns max_position ∷ []) bid input readings stopped
      stopped-needs_operator_recovery (refl, (refl, tt))

cancel_passes_example :
    (is_approved (evaluate whole withdrawal input readings stopped).0
      ≡ not (is_foreign withdrawal input))
    × (is_foreign withdrawal input ≡ false
        → (evaluate whole withdrawal input readings stopped).0.approved ≡ withdrawal)
    × (is_foreign withdrawal input ≡ true
        → (evaluate whole withdrawal input readings stopped).0.reason ≡ ownership_violation)
cancel_passes_example = cancel_passes whole withdrawal input readings stopped refl

abbrev loss_stop : RiskDecision
loss_stop = rejected bid emergency_loss armed (pos 7)

loss_stop-rejects : loss_stop.verdict ≡ reject
unfolding rejected
loss_stop-rejects = refl

count-record_decision_example : count emergency_loss (record_decision loss_stop no_metrics) ≡ (
    if ltb 33 tally_size
    then (if reason_index loss_stop.reason == 33
        then inc64 (count emergency_loss no_metrics)
        else count emergency_loss no_metrics)
    else 0)
count-record_decision_example =
    count-record_decision loss_stop emergency_loss no_metrics loss_stop-rejects refl

largest_permitted_quantity-IsLargest_example :
    IsLargest
      (λ q. fits whole armed bid q input symbol_limits)
      (4 * unit)
      unit
      (largest_permitted_quantity whole armed bid input symbol_limits)
largest_permitted_quantity-IsLargest_example =
    largest_permitted_quantity-IsLargest whole armed bid input symbol_limits (4 * unit) unit refl
      refl (omega arith) (omega arith)
