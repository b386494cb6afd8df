-- ===== src/Quote/Tests.antt =====
-- A manager with one resting bid, and each theorem at an intent. Doubles are whole numbers here.
use crypto_mm_engine.Prelude.{◌≡◌, refl, true, false, none, some, [], ◌∷◌, All, length}
use crypto_mm_engine.Prelude.Int.{ℤ, pos, ◌+ℤ◌, ◌-ℤ◌, ◌*ℤ◌, ◌/ℤ◌, ltb_ℤ, leb_ℤ, wrap64}
use crypto_mm_engine.Common.Fixed.{sub, neg, notional_of, is_on_step}
use crypto_mm_engine.Common.Doubles.{Doubles}
use crypto_mm_engine.Common.Instrument.{trading, is_valid_spec}
use crypto_mm_engine.Oms.Lifecycle.{status_new, is_terminal_status}
use crypto_mm_engine.Venue.{
  validate_order, check_identity, check_quantity, check_price, check_order_price, check_coherence,
}
use crypto_mm_engine.Quote.Actions.{bid_slot, ask_slot, intent_expired}
use crypto_mm_engine.Quote.Working.{
  WorkingOrder, QuoteIntent, quote, no_pending, is_owned, is_uncertain, is_live_order, remaining,
  is_partially_filled,
}
use crypto_mm_engine.Quote.State.{
  QuoteManager, QuoteManagerInput, QuoteReadings, no_memory, generation_regression,
}
use crypto_mm_engine.Quote.Manager.{
  ticks_between, validate, make_action, count_action, screen, ratio, represents, push,
}
use crypto_mm_engine.Quote.Slot.{
  withdraw_quote, cools_down, replaces_too_soon, create_quote, change_reason, replace_quote,
  cancel_and_create, rewrite_quote, pursue_quote, awaits_own_request, settled_slot, resolve_slot,
}
use crypto_mm_engine.Quote.Evaluate.{
  disable_slot, disable_all_quotes, receive, reject_intent, resolve_slots, act_on, evaluate,
}
use crypto_mm_engine.Quote.Ownership.{IsProper}
use crypto_mm_engine.Quote.Proper.{evaluate-AreProper}
use crypto_mm_engine.Quote.Generations.{disables, apply_calls, superseded_never_acts}

abbrev whole : Doubles
whole = record {
  Double = ℤ;
  of_int = λ a. a;
  plus = λ a b. a +ℤ b;
  minus = λ a b. a -ℤ b;
  times = λ a b. a *ℤ b;
  over = λ a b. a /ℤ b;
  negate = λ a. pos 0 -ℤ a;
  less = λ a b. ltb_ℤ a b;
  at_most = λ a b. leb_ℤ a b;
}

abbrev resting : WorkingOrder
resting = record {
  present = true;
  owner = record { strategy = "maker"; slot = bid_slot };
  price = pos 99;
  original_quantity = pos 5;
  cumulative_quantity = pos 0;
  status = status_new;
  pending = no_pending;
  client_order_id = "c-1";
  exchange_order_id = "x-1";
}

abbrev input : QuoteManagerInput
input = record {
  symbol = "BTCUSDT";
  instrument = some (record {
    symbol = "BTCUSDT";
    tick_size = pos 1;
    lot_size = pos 1;
    min_qty = pos 0;
    max_qty = pos 0;
    min_notional = pos 0;
    price_band_lo = pos 0;
    price_band_hi = pos 0;
    status = trading;
  });
  capabilities = none;
  working = record {
    bid = resting;
    ask = record resting { present = false; owner = record { strategy = ""; slot = ask_slot } };
    foreign_order_count = 0;
  };
  market_data_age_ns = pos 10;
  system_ready = true;
}

abbrev intent : QuoteIntent
intent = record {
  action = quote;
  quote_bid = true;
  quote_ask = true;
  bid_price = pos 100;
  ask_price = pos 102;
  bid_quantity = pos 5;
  ask_quantity = pos 5;
  strategy_name = "maker";
  generation = 7;
  market_sequence = 40;
  computed_ns = pos 900;
  trace = 1;
}

abbrev readings : QuoteReadings
readings = record {
  started = pos 1000;
  screened = pos 1001;
  bid = record { now = pos 1002; issued = pos 1003; issued_again = pos 1004 };
  ask = record { now = pos 1005; issued = pos 1006; issued_again = pos 1007 };
  finished = pos 1008;
}

abbrev manager : QuoteManager whole
manager = record {
  owner = "maker";
  config = record {
    max_intent_age_ns = pos 500;
    max_market_data_age_ns = pos 500;
    min_price_move_ticks = pos 1;
    min_quantity_move_fraction = pos 0;
    min_replace_interval_ns = pos 0;
    cooldown_after_cancel_ns = pos 0;
    assume_request_lost_after_ns = pos 1000;
    replenish_partial_fills = true;
  };
  last_generation = 6;
  bid_memory = no_memory;
  ask_memory = no_memory;
  metrics = record {
    intents_received = 0;
    intents_rejected = 0;
    stale_intents = 0;
    duplicate_intents = 0;
    generation_regressions = 0;
    new_actions = 0;
    cancel_actions = 0;
    replace_actions = 0;
    noop_evaluations = 0;
    keeps = 0;
    ownership_violations = 0;
    unknown_order_states = 0;
    churn_suppressions = 0;
    invalid_quotes_blocked = 0;
    pending_waits = 0;
    foreign_orders_seen = 0;
  };
  latency = [];
}

-- The bid is cancelled and made again, and an ask is made.
three_actions : length (evaluate whole intent input readings manager).0.actions ≡ 3
unfolding evaluate act_on receive reject_intent resolve_slots disable_all_quotes disable_slot screen
    resolve_slot settled_slot awaits_own_request pursue_quote rewrite_quote cancel_and_create
    replace_quote change_reason create_quote cools_down replaces_too_soon withdraw_quote push
    represents ratio validate make_action count_action ticks_between is_owned is_uncertain
    is_live_order remaining is_partially_filled validate_order check_identity check_quantity
    check_price check_order_price check_coherence is_terminal_status is_valid_spec is_on_step
    notional_of sub neg wrap64 ◌+ℤ◌ ◌-ℤ◌ ◌*ℤ◌ ◌/ℤ◌
three_actions = refl

evaluate-AreProper_example :
    All (IsProper "maker" input) ((evaluate whole intent input readings manager).0.actions)
evaluate-AreProper_example = evaluate-AreProper whole intent input readings manager

abbrev stale_intent : QuoteIntent
stale_intent = record intent { generation = 5 }

intent-accepted : (evaluate whole intent input readings manager).0.intent_accepted ≡ true
unfolding evaluate act_on receive reject_intent resolve_slots disable_all_quotes disable_slot screen
    resolve_slot settled_slot awaits_own_request pursue_quote rewrite_quote cancel_and_create
    replace_quote change_reason create_quote cools_down replaces_too_soon withdraw_quote push
    represents ratio validate make_action count_action ticks_between is_owned is_uncertain
    is_live_order remaining is_partially_filled validate_order check_identity check_quantity
    check_price check_order_price check_coherence is_terminal_status is_valid_spec is_on_step
    notional_of sub neg wrap64 ◌+ℤ◌ ◌-ℤ◌ ◌*ℤ◌ ◌/ℤ◌
intent-accepted = refl

abbrev later : QuoteManager whole
later =
    apply_calls whole (disables input intent_expired readings ∷ [])
      (evaluate whole intent input readings manager).1

superseded_never_acts_example :
    ((evaluate whole stale_intent input readings later).0.actions ≡ [])
    × ((evaluate whole stale_intent input readings later).0.rejection ≡ generation_regression)
superseded_never_acts_example =
    superseded_never_acts whole intent input readings (disables input intent_expired readings ∷ [])
      stale_intent input readings manager intent-accepted refl
