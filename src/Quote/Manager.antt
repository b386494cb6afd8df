-- ===== src/Quote/Manager.antt =====
-- src/quote/QuoteManager.cpp: screening, validation, comparison and the making of actions.
use crypto_mm_engine.Prelude.{
  ℕ, Bool, true, false, not, ◌&&◌, ◌||◌, Option, none, some, List, [], ◌∷◌, ◌++◌, if◌then◌else◌,
  ltb, leb, length, case_option,
}
use crypto_mm_engine.Prelude.Int.{ℤ, pos, ◌/ℤ◌, ltb_ℤ, eqb_ℤ}
use crypto_mm_engine.Common.Types.{Nanos, same_text, inc64}
use crypto_mm_engine.Common.Fixed.{Px, sub, neg, is_zero, is_positive, is_negative}
use crypto_mm_engine.Common.Doubles.{Doubles}
use crypto_mm_engine.Common.Instrument.{
  InstrumentSpec, RejectReason, no_reject, unknown_reject, is_valid_spec,
}
use crypto_mm_engine.Venue.{validate_order}
use crypto_mm_engine.Venue.Requests.{
  OrderRequest, ExchangeCapabilities, Refusal, accepted, invalid, unsupported, default_capabilities,
  limit, gtc,
}
use crypto_mm_engine.Quote.Actions.{
  OrderAction, OrderActionType, noop, new, cancel, replace, ActionReason, QuoteSlot, no_action,
}
use crypto_mm_engine.Quote.Working.{
  WorkingOrder, QuoteIntent, side_of, remaining, is_partially_filled, is_live_order,
}
use crypto_mm_engine.Quote.State.{
  QuoteManager, QuoteManagerConfig, QuoteManagerInput, QuoteManagerMetrics, DesiredQuote,
  QuoteRejection, no_rejection, generation_regression, identity_mismatch, rejected_expired,
  rejected_stale, instrument_not_loaded, not_running,
}

-- The magnitude of the difference wraps like the source's std::int64_t.
unfoldable pub ticks_between : Px → Px → Px → ℤ
ticks_between a b tick =
    if not (is_positive tick)
    then (if eqb_ℤ a b then pos 0 else pos 1)
    else let diff = sub a b in (if is_negative diff then neg diff else diff) /ℤ tick

abbrev pub is_loaded : Option InstrumentSpec → Bool
is_loaded none = false
is_loaded (some spec) = is_valid_spec spec

-- The request that a desired quote is validated as. Its time of creation is read by no rule.
abbrev pub probe : QuoteSlot → DesiredQuote → QuoteManagerInput → OrderRequest
probe slot desired input = record {
  client_order_id = "quote-manager-probe";
  symbol = input.symbol;
  side = side_of slot;
  type = limit;
  tif = gtc;
  price = desired.price;
  quantity = desired.quantity;
  post_only = false;
  reduce_only = false;
}

abbrev pub capabilities_of : QuoteManagerInput → ExchangeCapabilities
capabilities_of input = case_option input.capabilities default_capabilities (λ caps. caps)

-- The specific venue rule.
abbrev pub refusal_reason : Refusal → RejectReason
refusal_reason accepted = no_reject
refusal_reason unsupported = unknown_reject
refusal_reason (invalid no_reject) = unknown_reject
refusal_reason (invalid reason) = reason

unfoldable pub validate :
    QuoteSlot → DesiredQuote → InstrumentSpec → QuoteManagerInput → RejectReason
validate slot desired spec input =
    if not desired.wanted
    then no_reject
    else refusal_reason (validate_order (probe slot desired input) spec (capabilities_of input))

abbrev pub is_valid_quote : RejectReason → Bool
is_valid_quote no_reject = true
is_valid_quote _ = false

unfoldable pub make_action :
    OrderActionType
    → QuoteSlot
    → ActionReason
    → QuoteIntent
    → QuoteManagerInput
    → Nanos
    → OrderAction
make_action type slot reason intent input issued = record no_action {
  type = type;
  slot = slot;
  reason = reason;
  symbol = input.symbol;
  side = side_of slot;
  strategy_name = intent.strategy_name;
  generation = intent.generation;
  market_sequence = intent.market_sequence;
  trace = intent.trace;
  issued_ns = issued;
}

-- An action on an order that rests.
abbrev pub with_target : WorkingOrder → OrderAction → OrderAction
with_target order action = record action {
  target_client_order_id = order.client_order_id;
  target_exchange_order_id = order.exchange_order_id;
}

-- An action that asks for the desired quote.
abbrev pub with_quote : DesiredQuote → OrderAction → OrderAction
with_quote desired action = record action { price = desired.price; quantity = desired.quantity }

unfoldable pub count_action : OrderActionType → QuoteManagerMetrics → QuoteManagerMetrics
count_action new c = record c { new_actions = inc64 c.new_actions }
count_action cancel c = record c { cancel_actions = inc64 c.cancel_actions }
count_action replace c = record c { replace_actions = inc64 c.replace_actions }
count_action noop c = c

abbrev pub max_actions_per_evaluation : ℕ
max_actions_per_evaluation = 4

module _ (d : Doubles) where
  open d use {Double, of_int, over, less, at_most}

  unfoldable pub screen : QuoteIntent → QuoteManagerInput → Nanos → QuoteManager d → QuoteRejection
  screen intent input now m =
      if ltb intent.generation m.last_generation
      then generation_regression
      else if not (same_text intent.strategy_name m.owner)
      then identity_mismatch
      else if not input.system_ready
      then not_running
      else if not (is_loaded input.instrument)
      then instrument_not_loaded
      else if ltb_ℤ m.config.max_market_data_age_ns input.market_data_age_ns
      then rejected_stale
      else if is_positive m.config.max_intent_age_ns
          && is_positive intent.computed_ns
          && ltb_ℤ m.config.max_intent_age_ns (sub now intent.computed_ns)
      then rejected_expired
      else no_rejection

  unfoldable pub ratio : ℤ → ℤ → Double
  ratio a b = if is_zero b then of_int (pos 0) else over (of_int a) (of_int b)

  unfoldable pub represents :
      QuoteManagerConfig d → WorkingOrder → DesiredQuote → InstrumentSpec → Bool
  unfolding is_live_order remaining is_partially_filled ticks_between ratio
  represents config order desired spec =
      let resting = remaining order in
      let difference =
        if ltb_ℤ desired.quantity resting
        then sub resting desired.quantity
        else sub desired.quantity resting in
      if not (is_live_order order) || not desired.wanted
      then false
      else if not (
          ltb_ℤ (ticks_between order.price desired.price spec.tick_size)
            config.min_price_move_ticks)
      then false
      else if not config.replenish_partial_fills && is_partially_filled order
      then true
      else if is_zero difference
      then true
      else if at_most config.min_quantity_move_fraction (of_int (pos 0))
      then false
      else less (ratio difference desired.quantity) config.min_quantity_move_fraction

  -- Beyond the fourth action nothing is pushed.
  unfoldable pub push :
      OrderAction → List OrderAction → QuoteManager d → List OrderAction × QuoteManager d
  push action actions m =
      if leb max_actions_per_evaluation (length actions)
      then (actions, m)
      else (actions ++ action ∷ [], record m { metrics = count_action action.type m.metrics })
