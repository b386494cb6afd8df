-- ===== src/Risk/LedgerTests.antt =====
-- A ledger that a fill overflows, and an engine with a limit on the exposure of the portfolio.
use crypto_mm_engine.Prelude.{◌≡◌, refl, true, false, [], ◌∷◌}
use crypto_mm_engine.Prelude.Int.{pos, ◌+ℤ◌, ◌-ℤ◌, ◌*ℤ◌, ◌/ℤ◌, wrap64}
use crypto_mm_engine.Common.Types.{Side}
use crypto_mm_engine.Common.Fixed.{
  sub, narrow, checked_add, checked_sub, checked_notional_of, saturating_abs,
}
use crypto_mm_engine.Portfolio.Types.{arithmetic_overflow}
use crypto_mm_engine.Portfolio.SeenTrades.{contains, insert, any_same}
use crypto_mm_engine.Portfolio.Account.{
  apply_fill, check_fill, plan_fill, change_cost, weighted_average, signed_quantity, realized_of,
  reduce, commit,
}
use crypto_mm_engine.Portfolio.Accountant.{
  PortfolioAccountant, FillEvent, register_symbol, on_fill, account_fill, find, update,
}
use crypto_mm_engine.Portfolio.Accountant.Totals.{risk_view}
use crypto_mm_engine.Portfolio.Accountant.Ledger.{register, mark, calls}
use crypto_mm_engine.Risk.Decision.{RiskInput, RiskEngine, permits_exposure}
use crypto_mm_engine.Risk.Types.{armed, is_state, is_legal_transition, needs_operator_recovery}
use crypto_mm_engine.Risk.Limits.{validate_for_arming, validate_symbols, validate_symbol}
use crypto_mm_engine.Risk.Engine.{new_engine, arm, transition, evaluate}
use crypto_mm_engine.Risk.Tests.{whole, limits, input, bid, readings}
use crypto_mm_engine.Risk.Unavailable.{needs_portfolio, overflow_stops_exposure}

abbrev empty_ledger : PortfolioAccountant
empty_ledger = record {
  config = record { max_mark_age_ns = pos 500; max_symbols = 4 };
  accounts = [];
  balances = [];
  balance_capacity = 4;
  sequence = 0;
  metrics = record {
    fills_applied = 0;
    duplicate_fills = 0;
    rejected_fills = 0;
    flips = 0;
    closes = 0;
    marks_applied = 0;
    marks_rejected = 0;
    stale_marks = 0;
    overflows = 0;
    faults = 0;
  };
}

-- The largest position that 64 bits hold, and one more.
abbrev huge_fill : FillEvent
huge_fill = record {
  trade_id = "t1";
  symbol = "BTCUSDT";
  side = Side.buy;
  price = pos 1;
  quantity = pos 9_223_372_036_854_775_807;
  fee = pos 0;
}

abbrev one_more : FillEvent
one_more = record huge_fill { trade_id = "t2"; quantity = pos 1 }

abbrev full_ledger : PortfolioAccountant
full_ledger = (on_fill huge_fill (register_symbol "BTCUSDT" empty_ledger).1).1

one_more-overflows : (on_fill one_more full_ledger).0.error ≡ arithmetic_overflow
unfolding on_fill account_fill find update register_symbol apply_fill check_fill plan_fill
    change_cost weighted_average signed_quantity realized_of reduce commit contains insert any_same
    checked_add checked_sub checked_notional_of narrow sub wrap64 saturating_abs ◌+ℤ◌ ◌-ℤ◌ ◌*ℤ◌ ◌/ℤ◌
one_more-overflows = refl

abbrev later : PortfolioAccountant
later =
    calls
      (register "ETHUSDT"
        ∷ mark
            (record {
              symbol = "BTCUSDT";
              bid = pos 2;
              ask = pos 3;
              as_of_ns = pos 90;
              sequence = 1;
            })
            (pos 100)
        ∷ [])
      (on_fill one_more full_ledger).1

-- An armed engine that has a limit on the portfolio's exposure.
abbrev watching : RiskEngine whole
watching =
    (arm whole (
      new_engine whole (record limits {
        global = record (limits.global) { max_portfolio_notional = pos 1_000 };
      }))).1

watching-armed : is_state watching.state armed ≡ true
unfolding new_engine arm transition is_legal_transition needs_operator_recovery validate_for_arming
    validate_symbols validate_symbol
watching-armed = refl

abbrev informed : RiskInput
informed = record input { portfolio = risk_view (pos 100) later }

watching-needs_portfolio : needs_portfolio watching.limits.global ≡ true
unfolding new_engine arm transition is_legal_transition needs_operator_recovery validate_for_arming
    validate_symbols validate_symbol
watching-needs_portfolio = refl

overflow_stops_exposure_example :
    permits_exposure (evaluate whole bid informed readings watching).0 ≡ false
overflow_stops_exposure_example =
    overflow_stops_exposure whole one_more full_ledger
      (register "ETHUSDT"
        ∷ mark
            (record {
              symbol = "BTCUSDT";
              bid = pos 2;
              ask = pos 3;
              as_of_ns = pos 90;
              sequence = 1;
            })
            (pos 100)
        ∷ [])
      (pos 100) bid informed readings watching one_more-overflows watching-needs_portfolio refl
