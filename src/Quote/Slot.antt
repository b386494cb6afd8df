-- ===== src/Quote/Slot.antt =====
-- `resolve_slot` of src/quote/QuoteManager.cpp.
use crypto_mm_engine.Prelude.{ℕ, Bool, false, not, ◌&&◌, ◌||◌, List, if◌then◌else◌, case_option}
use crypto_mm_engine.Prelude.Int.{ltb_ℤ}
use crypto_mm_engine.Common.Types.{Nanos, inc64}
use crypto_mm_engine.Common.Fixed.{sub, is_positive}
use crypto_mm_engine.Common.Doubles.{Doubles}
use crypto_mm_engine.Common.Instrument.{InstrumentSpec, no_reject}
use crypto_mm_engine.Quote.Actions.{
  OrderAction, OrderActionType, new, cancel, replace, is_new, is_replace, ActionReason,
  no_action_reason, no_quote_resting, price_changed, quantity_changed, partial_fill_replenish,
  quote_disabled, replace_unsupported, QuoteSlot, bid_slot, ask_slot,
}
use crypto_mm_engine.Quote.Working.{
  WorkingOrder, QuoteIntent, order_in, is_owned, is_pending, is_uncertain, is_live_order,
  is_partially_filled,
}
use crypto_mm_engine.Quote.State.{
  QuoteManager, QuoteManagerConfig, QuoteManagerInput, DesiredQuote, SlotDecision, SlotMemory,
  SlotReadings, SlotStep, SlotOutcome, idle_outcome, keep_outcome, new_outcome, cancel_outcome,
  replace_outcome, cancel_then_new, awaiting_pending, frozen_unknown, suppressed_by_churn_control,
  blocked_invalid,
}
use crypto_mm_engine.Quote.Manager.{
  ticks_between, validate, is_valid_quote, make_action, with_target, with_quote, represents, push,
}

abbrev pub decided : SlotOutcome → ActionReason → SlotDecision
decided outcome reason = record { outcome = outcome; reason = reason; invalid_reason = no_reject }

module _ (d : Doubles) where
  abbrev pub memory_of : QuoteSlot → QuoteManager d → SlotMemory
  memory_of bid_slot m = m.bid_memory
  memory_of ask_slot m = m.ask_memory

  abbrev pub set_memory : QuoteSlot → SlotMemory → QuoteManager d → QuoteManager d
  set_memory bid_slot s m = record m { bid_memory = s }
  set_memory ask_slot s m = record m { ask_memory = s }

  abbrev pub remember : OrderActionType → QuoteSlot → ℕ → Nanos → QuoteManager d → QuoteManager d
  remember type slot generation now m =
      set_memory slot
        (record (memory_of slot m) {
          last_action = type;
          last_action_generation = generation;
          last_action_ns = now;
        })
        m

  abbrev pub remember_cancel : QuoteSlot → Nanos → QuoteManager d → QuoteManager d
  remember_cancel slot now m =
      set_memory slot (record (memory_of slot m) { last_cancel_ns = now }) m

  abbrev pub count_violation : QuoteManager d → QuoteManager d
  count_violation m = record m {
    metrics = record (m.metrics) { ownership_violations = inc64 m.metrics.ownership_violations };
  }

  abbrev pub count_wait : QuoteManager d → QuoteManager d
  count_wait m = record m {
    metrics = record (m.metrics) { pending_waits = inc64 m.metrics.pending_waits };
  }

  abbrev pub count_unknown : QuoteManager d → QuoteManager d
  count_unknown m = record m {
    metrics = record (m.metrics) { unknown_order_states = inc64 m.metrics.unknown_order_states };
  }

  abbrev pub count_invalid : QuoteManager d → QuoteManager d
  count_invalid m = record m {
    metrics = record (m.metrics) {
      invalid_quotes_blocked = inc64 m.metrics.invalid_quotes_blocked;
    };
  }

  abbrev pub count_suppression : QuoteManager d → QuoteManager d
  count_suppression m = record m {
    metrics = record (m.metrics) { churn_suppressions = inc64 m.metrics.churn_suppressions };
  }

  abbrev pub count_keep : QuoteManager d → QuoteManager d
  count_keep m = record m { metrics = record (m.metrics) { keeps = inc64 m.metrics.keeps } }

  -- A decision without an action.
  abbrev pub stand : SlotDecision → List OrderAction → QuoteManager d → SlotStep d
  stand decision actions m = record { decision = decision; actions = actions; manager = m }

  -- The cancel of an order whose quote is not wanted.
  unfoldable pub withdraw_quote :
      QuoteSlot
      → WorkingOrder
      → QuoteIntent
      → QuoteManagerInput
      → SlotReadings
      → List OrderAction
      → QuoteManager d
      → SlotStep d
  unfolding push
  withdraw_quote slot order intent input t actions m =
      let action =
        with_target order (make_action cancel slot quote_disabled intent input t.issued) in
      let pushed = push d action actions m in
      record {
        decision = decided cancel_outcome quote_disabled;
        actions = pushed.0;
        manager =
            remember_cancel slot t.now (remember cancel slot intent.generation t.now pushed.1);
      }

  unfoldable pub cools_down : QuoteManagerConfig d → SlotMemory → Nanos → Bool
  cools_down config memory now =
      is_positive config.cooldown_after_cancel_ns
      && is_positive memory.last_cancel_ns
      && ltb_ℤ (sub now memory.last_cancel_ns) config.cooldown_after_cancel_ns

  unfoldable pub replaces_too_soon : QuoteManagerConfig d → SlotMemory → Nanos → Bool
  replaces_too_soon config memory now =
      is_positive config.min_replace_interval_ns
      && is_positive memory.last_action_ns
      && ltb_ℤ (sub now memory.last_action_ns) config.min_replace_interval_ns

  unfoldable pub create_quote :
      QuoteSlot
      → DesiredQuote
      → QuoteIntent
      → QuoteManagerInput
      → SlotReadings
      → List OrderAction
      → QuoteManager d
      → SlotStep d
  unfolding push
  create_quote slot desired intent input t actions m =
      let action =
        with_quote desired (make_action new slot no_quote_resting intent input t.issued) in
      let pushed = push d action actions m in
      if cools_down m.config (memory_of slot m) t.now
      then stand (decided suppressed_by_churn_control no_action_reason) actions
          (count_suppression m)
      else record {
        decision = decided new_outcome no_quote_resting;
        actions = pushed.0;
        manager = remember new slot intent.generation t.now pushed.1;
      }

  -- Why the order that rests differs.
  unfoldable pub change_reason :
      QuoteManagerConfig d → WorkingOrder → DesiredQuote → InstrumentSpec → ActionReason
  change_reason config order desired spec =
      if ltb_ℤ (ticks_between order.price desired.price spec.tick_size) config.min_price_move_ticks
      then (if is_partially_filled order then partial_fill_replenish else quantity_changed)
      else price_changed

  abbrev pub has_atomic_replace : QuoteManagerInput → Bool
  has_atomic_replace input = case_option input.capabilities false (λ caps. caps.supports_replace)

  unfoldable pub replace_quote :
      QuoteSlot
      → WorkingOrder
      → DesiredQuote
      → ActionReason
      → QuoteIntent
      → QuoteManagerInput
      → SlotReadings
      → List OrderAction
      → QuoteManager d
      → SlotStep d
  unfolding push
  replace_quote slot order desired reason intent input t actions m =
      let action =
        with_target order
          (with_quote desired (make_action replace slot reason intent input t.issued)) in
      let pushed = push d action actions m in
      record {
        decision = decided replace_outcome reason;
        actions = pushed.0;
        manager = remember replace slot intent.generation t.now pushed.1;
      }

  unfoldable pub cancel_and_create :
      QuoteSlot
      → WorkingOrder
      → DesiredQuote
      → ActionReason
      → QuoteIntent
      → QuoteManagerInput
      → SlotReadings
      → List OrderAction
      → QuoteManager d
      → SlotStep d
  unfolding push
  cancel_and_create slot order desired reason intent input t actions m =
      let withdrawal =
        with_target order (make_action cancel slot replace_unsupported intent input t.issued) in
      let creation =
        with_quote desired (make_action new slot replace_unsupported intent input t.issued_again) in
      let first = push d withdrawal actions m in
      let second = push d creation first.0 first.1 in
      record {
        decision = decided cancel_then_new reason;
        actions = second.0;
        manager = remember_cancel slot t.now (remember new slot intent.generation t.now second.1);
      }

  -- An order rests that differs from what is wanted.
  unfoldable pub rewrite_quote :
      QuoteSlot
      → WorkingOrder
      → DesiredQuote
      → InstrumentSpec
      → QuoteIntent
      → QuoteManagerInput
      → SlotReadings
      → List OrderAction
      → QuoteManager d
      → SlotStep d
  unfolding change_reason replace_quote cancel_and_create
  rewrite_quote slot order desired spec intent input t actions m =
      let reason = change_reason m.config order desired spec in
      if replaces_too_soon m.config (memory_of slot m) t.now
      then stand (decided suppressed_by_churn_control reason) actions (count_suppression m)
      else if has_atomic_replace input
      then replace_quote slot order desired reason intent input t actions m
      else cancel_and_create slot order desired reason intent input t actions m

  -- A quote is wanted, and no request is outstanding.
  unfoldable pub pursue_quote :
      QuoteSlot
      → WorkingOrder
      → DesiredQuote
      → InstrumentSpec
      → QuoteIntent
      → QuoteManagerInput
      → SlotReadings
      → List OrderAction
      → QuoteManager d
      → SlotStep d
  unfolding create_quote rewrite_quote
  pursue_quote slot order desired spec intent input t actions m =
      let reason = validate slot desired spec input in
      if not (is_valid_quote reason)
      then stand
          (record { outcome = blocked_invalid; reason = no_action_reason; invalid_reason = reason })
          actions (count_invalid m)
      else if not (is_live_order order)
      then create_quote slot desired intent input t actions m
      else if represents d m.config order desired spec
      then stand (decided keep_outcome no_action_reason) actions (count_keep m)
      else rewrite_quote slot order desired spec intent input t actions m

  -- A request of its own that what works does not show yet.
  unfoldable pub awaits_own_request :
      QuoteManagerConfig d → SlotMemory → WorkingOrder → Nanos → Bool
  awaits_own_request config memory order now =
      (is_new memory.last_action || is_replace memory.last_action)
      && not (is_live_order order)
      && is_positive config.assume_request_lost_after_ns
      && ltb_ℤ (sub now memory.last_action_ns) config.assume_request_lost_after_ns

  -- Nothing is outstanding at the venue.
  unfoldable pub settled_slot :
      QuoteSlot
      → DesiredQuote
      → InstrumentSpec
      → QuoteIntent
      → QuoteManagerInput
      → SlotReadings
      → List OrderAction
      → QuoteManager d
      → SlotStep d
  unfolding withdraw_quote pursue_quote awaits_own_request
  settled_slot slot desired spec intent input t actions m =
      let order = order_in slot input.working in
      if awaits_own_request m.config (memory_of slot m) order t.now
      then stand (decided awaiting_pending no_action_reason) actions (count_wait m)
      else if not desired.wanted
      then (if not (is_live_order order)
          then stand (decided idle_outcome no_action_reason) actions m
          else withdraw_quote slot order intent input t actions m)
      else pursue_quote slot order desired spec intent input t actions m

  unfoldable pub resolve_slot :
      QuoteSlot
      → DesiredQuote
      → InstrumentSpec
      → QuoteIntent
      → QuoteManagerInput
      → SlotReadings
      → List OrderAction
      → QuoteManager d
      → SlotStep d
  unfolding withdraw_quote settled_slot
  resolve_slot slot desired spec intent input t actions m =
      let order = order_in slot input.working in
      if order.present && not (is_owned order.owner m.owner slot)
      then stand (decided frozen_unknown no_action_reason) actions (count_violation m)
      else if is_uncertain order
      then (if not desired.wanted && not (is_pending order.pending)
          then withdraw_quote slot order intent input t actions (count_unknown m)
          else stand (decided frozen_unknown no_action_reason) actions (count_unknown m))
      else if is_pending order.pending
      then stand (decided awaiting_pending no_action_reason) actions (count_wait m)
      else settled_slot slot desired spec intent input t actions m
