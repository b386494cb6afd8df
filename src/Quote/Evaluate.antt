-- ===== src/Quote/Evaluate.antt =====
-- The calls of src/quote/QuoteManager.cpp.
use crypto_mm_engine.Prelude.{
  ℕ, String, Bool, true, false, not, ◌&&◌, ◌||◌, Option, none, some, List, [], ◌∷◌, if◌then◌else◌,
  ltb, length, case_option, ◌==◌, ◌%◌, ◌+◌, ◌^◌,
}
use crypto_mm_engine.Prelude.Int.{pos}
use crypto_mm_engine.Common.Types.{Nanos, no_seq, inc64}
use crypto_mm_engine.Common.Fixed.{sub}
use crypto_mm_engine.Common.Doubles.{Doubles}
use crypto_mm_engine.Common.Instrument.{InstrumentSpec}
use crypto_mm_engine.Quote.Actions.{
  OrderAction, cancel, ActionReason, no_action_reason, intent_expired, market_data_stale,
  strategy_not_running, QuoteSlot, bid_slot, ask_slot,
}
use crypto_mm_engine.Quote.Working.{
  WorkingOrder, QuoteAction, quote, pull, no_change, QuoteIntent, order_in, is_owned,
  is_pending_cancel, is_live_order, remaining,
}
use crypto_mm_engine.Quote.State.{
  QuoteManager, QuoteManagerInput, QuoteManagerMetrics, QuoteManagerResult, DesiredQuote,
  QuoteRejection, no_rejection, generation_regression, rejected_expired, rejected_stale,
  not_running, QuoteReadings, SlotStep, unwanted, no_memory, idle_outcome, cancel_outcome,
  awaiting_pending, frozen_unknown,
}
use crypto_mm_engine.Quote.Manager.{screen, make_action, with_target, push}
use crypto_mm_engine.Quote.Slot.{
  decided, stand, memory_of, set_memory, count_violation, count_wait, resolve_slot,
}

-- `implies_withdraw`, with the reason that the cancels carry.
abbrev pub withdrawal_reason : QuoteRejection → Option ActionReason
withdrawal_reason rejected_expired = some intent_expired
withdrawal_reason rejected_stale = some market_data_stale
withdrawal_reason not_running = some strategy_not_running
withdrawal_reason _ = none

abbrev pub is_admitted : QuoteRejection → Bool
is_admitted no_rejection = true
is_admitted _ = false

-- The counters of a rejection.
abbrev pub count_rejection : QuoteRejection → QuoteManagerMetrics → QuoteManagerMetrics
count_rejection generation_regression c = record c {
  intents_rejected = inc64 c.intents_rejected;
  generation_regressions = inc64 c.generation_regressions;
}
count_rejection rejected_expired c = record c {
  intents_rejected = inc64 c.intents_rejected;
  stale_intents = inc64 c.stale_intents;
}
count_rejection rejected_stale c = record c {
  intents_rejected = inc64 c.intents_rejected;
  stale_intents = inc64 c.stale_intents;
}
count_rejection _ c = record c { intents_rejected = inc64 c.intents_rejected }

abbrev pub desired_bid : QuoteAction → QuoteIntent → WorkingOrder → DesiredQuote
desired_bid quote intent resting = record {
  wanted = intent.quote_bid;
  price = intent.bid_price;
  quantity = intent.bid_quantity;
}
desired_bid no_change intent resting = record {
  wanted = is_live_order resting;
  price = resting.price;
  quantity = remaining resting;
}
desired_bid pull intent resting = unwanted

abbrev pub desired_ask : QuoteAction → QuoteIntent → WorkingOrder → DesiredQuote
desired_ask quote intent resting = record {
  wanted = intent.quote_ask;
  price = intent.ask_price;
  quantity = intent.ask_quantity;
}
desired_ask no_change intent resting = record {
  wanted = is_live_order resting;
  price = resting.price;
  quantity = remaining resting;
}
desired_ask pull intent resting = unwanted

-- The intent that a withdrawal makes its actions from.
abbrev pub synthetic : String → ℕ → QuoteIntent
synthetic owner generation = record {
  action = pull;
  quote_bid = false;
  quote_ask = false;
  bid_price = pos 0;
  ask_price = pos 0;
  bid_quantity = pos 0;
  ask_quantity = pos 0;
  strategy_name = owner;
  generation = generation;
  market_sequence = no_seq;
  computed_ns = pos 0;
  trace = 0;
}

module _ (d : Doubles) where
  unfoldable pub reset_manager : QuoteManager d → QuoteManager d
  reset_manager m = record m { last_generation = 0; bid_memory = no_memory; ask_memory = no_memory }

  -- The loop body of `disable_all_quotes`.
  unfoldable pub disable_slot :
      QuoteSlot
      → QuoteManagerInput
      → ActionReason
      → Nanos
      → Nanos
      → List OrderAction
      → QuoteManager d
      → SlotStep d
  unfolding push
  disable_slot slot input reason now issued actions m =
      let order = order_in slot input.working in
      let action =
        with_target order
          (make_action cancel slot reason (synthetic m.owner m.last_generation) input issued) in
      let pushed = push d action actions m in
      if order.present && not (is_owned order.owner m.owner slot)
      then stand d (decided frozen_unknown no_action_reason) actions (count_violation d m)
      else if not order.present || not (is_live_order order)
      then stand d (decided idle_outcome no_action_reason) actions m
      else if is_pending_cancel order.pending
      then stand d (decided awaiting_pending no_action_reason) actions (count_wait d m)
      else record {
        decision = decided cancel_outcome reason;
        actions = pushed.0;
        manager =
            set_memory d slot
              (record (memory_of d slot pushed.1) {
                last_action = cancel;
                last_action_ns = now;
                last_cancel_ns = now;
              })
              pushed.1;
      }

  -- The clock is read once for both slots, and once for each action.
  unfoldable pub disable_all_quotes :
      QuoteManagerInput
      → ActionReason
      → QuoteReadings
      → QuoteManager d
      → QuoteManagerResult × QuoteManager d
  unfolding disable_slot
  disable_all_quotes input reason t m =
      let first = disable_slot bid_slot input reason t.bid.now t.bid.issued [] m in
      let second =
        disable_slot ask_slot input reason t.bid.now t.ask.issued first.actions first.manager in
      (
        record {
          intent_accepted = true;
          rejection = no_rejection;
          actions = second.actions;
          bid = first.decision;
          ask = second.decision;
          generation = m.last_generation;
        },
        second.manager,
      )

  abbrev pub advance : ℕ → QuoteManager d → QuoteManager d
  advance generation m = record m {
    last_generation = if ltb m.last_generation generation then generation else m.last_generation;
  }

  abbrev pub timed : QuoteReadings → QuoteManager d → QuoteManager d
  timed t m = record m { latency = sub t.finished t.started ∷ m.latency }

  -- The counters at the start of an evaluation.
  unfoldable pub receive : QuoteIntent → QuoteManagerInput → QuoteManager d → QuoteManager d
  receive intent input m =
      let c = m.metrics in
      record m {
        metrics = record c {
          intents_received = inc64 c.intents_received;
          foreign_orders_seen =
              (c.foreign_orders_seen + input.working.foreign_order_count) % 2 ^ 64;
          duplicate_intents =
              if intent.generation == m.last_generation && not (m.last_generation == 0)
              then inc64 c.duplicate_intents
              else c.duplicate_intents;
        };
      }

  -- An intent that was rejected.
  unfoldable pub reject_intent :
      QuoteRejection
      → QuoteIntent
      → QuoteManagerInput
      → QuoteReadings
      → QuoteManager d
      → QuoteManagerResult × QuoteManager d
  unfolding disable_all_quotes
  reject_intent rejection intent input t m =
      case_option (withdrawal_reason rejection)
        (
          record {
            intent_accepted = false;
            rejection = rejection;
            actions = [];
            bid = decided idle_outcome no_action_reason;
            ask = decided idle_outcome no_action_reason;
            generation = intent.generation;
          },
          timed t m,
        )
        (λ reason.
          let withdraw = disable_all_quotes input reason t m in
          (
            record (withdraw.0) { rejection = rejection; generation = intent.generation },
            timed t (advance intent.generation withdraw.1),
          ))

  abbrev pub count_noop : List OrderAction → QuoteManager d → QuoteManager d
  count_noop actions m = if ltb 0 (length actions) then m else record m {
    metrics = record (m.metrics) { noop_evaluations = inc64 m.metrics.noop_evaluations };
  }

  -- Both slots, bid first.
  unfoldable pub resolve_slots :
      InstrumentSpec
      → QuoteIntent
      → QuoteManagerInput
      → QuoteReadings
      → QuoteManager d
      → QuoteManagerResult × QuoteManager d
  unfolding resolve_slot
  resolve_slots spec intent input t m =
      let bid = desired_bid intent.action intent input.working.bid in
      let ask = desired_ask intent.action intent input.working.ask in
      let first = resolve_slot d bid_slot bid spec intent input t.bid [] m in
      let second =
        resolve_slot d ask_slot ask spec intent input t.ask first.actions first.manager in
      (
        record {
          intent_accepted = true;
          rejection = no_rejection;
          actions = second.actions;
          bid = first.decision;
          ask = second.decision;
          generation = intent.generation;
        },
        timed t (count_noop second.actions (advance intent.generation second.manager)),
      )

  -- What follows the screening. Without an instrument the screening has rejected the intent.
  unfoldable pub act_on :
      QuoteRejection
      → Option InstrumentSpec
      → QuoteIntent
      → QuoteManagerInput
      → QuoteReadings
      → QuoteManager d
      → QuoteManagerResult × QuoteManager d
  unfolding reject_intent resolve_slots
  act_on rejection instrument intent input t m =
      let counted = record m { metrics = count_rejection rejection m.metrics } in
      let refused = reject_intent rejection intent input t counted in
      if is_admitted rejection
      then case_option instrument refused (λ spec. resolve_slots spec intent input t m)
      else refused

  unfoldable pub evaluate :
      QuoteIntent
      → QuoteManagerInput
      → QuoteReadings
      → QuoteManager d
      → QuoteManagerResult × QuoteManager d
  unfolding receive screen act_on
  evaluate intent input t m =
      let m' = receive intent input m in
      act_on (screen d intent input t.screened m') input.instrument intent input t m'
