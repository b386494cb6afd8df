-- ===== src/Quote/State.antt =====
-- The types of include/mm/quote/QuoteManager.hpp and the result types of
-- include/mm/quote/OrderAction.hpp. A reading of the clock is an argument.
use crypto_mm_engine.Prelude.{ℕ, String, Bool, false, Option, List}
use crypto_mm_engine.Prelude.Int.{ℤ, pos}
use crypto_mm_engine.Common.Types.{Symbol, Nanos}
use crypto_mm_engine.Common.Fixed.{Px, Qty}
use crypto_mm_engine.Common.Doubles.{Doubles}
use crypto_mm_engine.Common.Instrument.{InstrumentSpec, RejectReason}
use crypto_mm_engine.Venue.Requests.{ExchangeCapabilities}
use crypto_mm_engine.Quote.Actions.{OrderAction, OrderActionType, noop, ActionReason}
use crypto_mm_engine.Quote.Working.{WorkingQuoteState}

pub data SlotOutcome : Type 0 where
  idle_outcome keep_outcome new_outcome cancel_outcome replace_outcome : SlotOutcome
  cancel_then_new awaiting_pending frozen_unknown : SlotOutcome
  suppressed_by_churn_control blocked_invalid : SlotOutcome

pub data QuoteRejection : Type 0 where
  no_rejection generation_regression identity_mismatch symbol_mismatch : QuoteRejection
  rejected_expired rejected_stale instrument_not_loaded not_running : QuoteRejection

pub record SlotDecision : Type 0 where
  pub outcome : SlotOutcome
  pub reason : ActionReason
  pub invalid_reason : RejectReason

pub record QuoteManagerResult : Type 0 where
  pub intent_accepted : Bool
  pub rejection : QuoteRejection
  pub actions : List OrderAction
  pub bid : SlotDecision
  pub ask : SlotDecision
  pub generation : ℕ

pub record QuoteManagerConfig (d : Doubles) : Type 0 where
  pub max_intent_age_ns : Nanos
  pub max_market_data_age_ns : Nanos
  pub min_price_move_ticks : ℤ
  pub min_quantity_move_fraction : d.Double
  pub min_replace_interval_ns : Nanos
  pub cooldown_after_cancel_ns : Nanos
  pub assume_request_lost_after_ns : Nanos
  pub replenish_partial_fills : Bool

pub record QuoteManagerMetrics : Type 0 where
  pub intents_received : ℕ
  pub intents_rejected : ℕ
  pub stale_intents : ℕ
  pub duplicate_intents : ℕ
  pub generation_regressions : ℕ
  pub new_actions : ℕ
  pub cancel_actions : ℕ
  pub replace_actions : ℕ
  pub noop_evaluations : ℕ
  pub keeps : ℕ
  pub ownership_violations : ℕ
  pub unknown_order_states : ℕ
  pub churn_suppressions : ℕ
  pub invalid_quotes_blocked : ℕ
  pub pending_waits : ℕ
  pub foreign_orders_seen : ℕ

pub record QuoteManagerInput : Type 0 where
  pub symbol : Symbol
  pub instrument : Option InstrumentSpec
  pub capabilities : Option ExchangeCapabilities
  pub working : WorkingQuoteState
  pub market_data_age_ns : Nanos
  pub system_ready : Bool

pub record SlotMemory : Type 0 where
  pub last_action : OrderActionType
  pub last_action_generation : ℕ
  pub last_action_ns : Nanos
  pub last_cancel_ns : Nanos

-- `SlotMemory{}`.
abbrev pub no_memory : SlotMemory
no_memory = record {
  last_action = noop;
  last_action_generation = 0;
  last_action_ns = pos 0;
  last_cancel_ns = pos 0;
}

pub record DesiredQuote : Type 0 where
  pub wanted : Bool
  pub price : Px
  pub quantity : Qty

abbrev pub unwanted : DesiredQuote
unwanted = record { wanted = false; price = pos 0; quantity = pos 0 }

pub record QuoteManager (d : Doubles) : Type 0 where
  pub owner : String
  pub config : QuoteManagerConfig d
  pub last_generation : ℕ
  pub bid_memory : SlotMemory
  pub ask_memory : SlotMemory
  pub metrics : QuoteManagerMetrics
  pub latency : List Nanos

-- The readings of the clock for one slot: at its start, and for each action that is made.
pub record SlotReadings : Type 0 where
  pub now : Nanos
  pub issued : Nanos
  pub issued_again : Nanos

pub record QuoteReadings : Type 0 where
  pub started : Nanos
  pub screened : Nanos
  pub bid : SlotReadings
  pub ask : SlotReadings
  pub finished : Nanos

-- What a slot leaves behind: its decision, the actions so far, and the manager.
pub record SlotStep (d : Doubles) : Type 0 where
  pub decision : SlotDecision
  pub actions : List OrderAction
  pub manager : QuoteManager d
