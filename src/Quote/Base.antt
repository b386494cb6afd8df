-- ===== src/Quote/Base.antt =====
-- What a slot of src/quote/QuoteManager.cpp leaves alone.
use crypto_mm_engine.Prelude.{◌≡◌, List, arith}
use crypto_mm_engine.Common.Types.{Nanos}
use crypto_mm_engine.Common.Doubles.{Doubles}
use crypto_mm_engine.Common.Instrument.{InstrumentSpec}
use crypto_mm_engine.Quote.Actions.{OrderAction, ActionReason, QuoteSlot, bid_slot, ask_slot}
use crypto_mm_engine.Quote.Working.{WorkingOrder, QuoteIntent, order_in}
use crypto_mm_engine.Quote.State.{QuoteManager, QuoteManagerInput, SlotReadings, DesiredQuote}
use crypto_mm_engine.Quote.Manager.{make_action, push}
use crypto_mm_engine.Quote.Slot.{
  count_unknown, change_reason, withdraw_quote, create_quote, replace_quote, cancel_and_create,
  rewrite_quote, pursue_quote, resolve_slot, settled_slot,
}
use crypto_mm_engine.Quote.Evaluate.{disable_slot}

module _ (d : Doubles) where
  -- The owner and the generation are left alone.
  pub record SameBase (m n : QuoteManager d) : Type 0 where
    pub owner : n.owner ≡ m.owner
    pub generation : n.last_generation ≡ m.last_generation

  withdraw_quote-SameBase :
      (slot : QuoteSlot) (order : WorkingOrder) (intent : QuoteIntent) (input : QuoteManagerInput)
      (t : SlotReadings) (actions : List OrderAction) (m : QuoteManager d)
      → SameBase m (withdraw_quote d slot order intent input t actions m).manager
  unfolding withdraw_quote push make_action
  withdraw_quote-SameBase bid_slot order intent input t actions m = ground arith
  withdraw_quote-SameBase ask_slot order intent input t actions m = ground arith

  create_quote-SameBase :
      (slot : QuoteSlot) (desired : DesiredQuote) (intent : QuoteIntent) (input : QuoteManagerInput)
      (t : SlotReadings) (actions : List OrderAction) (m : QuoteManager d)
      → SameBase m (create_quote d slot desired intent input t actions m).manager
  unfolding create_quote push make_action
  create_quote-SameBase bid_slot desired intent input t actions m = ground arith
  create_quote-SameBase ask_slot desired intent input t actions m = ground arith

  replace_quote-SameBase :
      (slot : QuoteSlot) (order : WorkingOrder) (desired : DesiredQuote) (reason : ActionReason)
      (intent : QuoteIntent) (input : QuoteManagerInput) (t : SlotReadings)
      (actions : List OrderAction) (m : QuoteManager d)
      → SameBase m (replace_quote d slot order desired reason intent input t actions m).manager
  unfolding replace_quote push make_action
  replace_quote-SameBase bid_slot order desired reason intent input t actions m = ground arith
  replace_quote-SameBase ask_slot order desired reason intent input t actions m = ground arith

  cancel_and_create-SameBase :
      (slot : QuoteSlot) (order : WorkingOrder) (desired : DesiredQuote) (reason : ActionReason)
      (intent : QuoteIntent) (input : QuoteManagerInput) (t : SlotReadings)
      (actions : List OrderAction) (m : QuoteManager d)
      → SameBase m (cancel_and_create d slot order desired reason intent input t actions m).manager
  unfolding cancel_and_create push make_action
  cancel_and_create-SameBase bid_slot order desired reason intent input t actions m = ground arith
  cancel_and_create-SameBase ask_slot order desired reason intent input t actions m = ground arith

  rewrite_quote-SameBase :
      (slot : QuoteSlot) (order : WorkingOrder) (desired : DesiredQuote) (spec : InstrumentSpec)
      (intent : QuoteIntent) (input : QuoteManagerInput) (t : SlotReadings)
      (actions : List OrderAction) (m : QuoteManager d)
      → SameBase m (rewrite_quote d slot order desired spec intent input t actions m).manager
  unfolding rewrite_quote
  rewrite_quote-SameBase slot order desired spec intent input t actions m =
      let reason = change_reason d m.config order desired spec in
      let replaced = replace_quote-SameBase slot order desired reason intent input t actions m in
      let split = cancel_and_create-SameBase slot order desired reason intent input t actions m in
      ground (arith, replaced, split)

  pursue_quote-SameBase :
      (slot : QuoteSlot) (order : WorkingOrder) (desired : DesiredQuote) (spec : InstrumentSpec)
      (intent : QuoteIntent) (input : QuoteManagerInput) (t : SlotReadings)
      (actions : List OrderAction) (m : QuoteManager d)
      → SameBase m (pursue_quote d slot order desired spec intent input t actions m).manager
  unfolding pursue_quote
  pursue_quote-SameBase slot order desired spec intent input t actions m =
      let created = create_quote-SameBase slot desired intent input t actions m in
      let rewritten = rewrite_quote-SameBase slot order desired spec intent input t actions m in
      ground (arith, created, rewritten)

  pub resolve_slot-SameBase :
      (slot : QuoteSlot) (desired : DesiredQuote) (spec : InstrumentSpec) (intent : QuoteIntent)
      (input : QuoteManagerInput) (t : SlotReadings) (actions : List OrderAction)
      (m : QuoteManager d)
      → SameBase m (resolve_slot d slot desired spec intent input t actions m).manager
  unfolding resolve_slot settled_slot
  resolve_slot-SameBase slot desired spec intent input t actions m =
      let order = order_in slot input.working in
      let counted = withdraw_quote-SameBase slot order intent input t actions (count_unknown d m) in
      let withdrawn = withdraw_quote-SameBase slot order intent input t actions m in
      let pursued = pursue_quote-SameBase slot order desired spec intent input t actions m in
      ground (arith, counted, withdrawn, pursued)

  pub disable_slot-SameBase :
      (slot : QuoteSlot) (input : QuoteManagerInput) (reason : ActionReason) (now issued : Nanos)
      (actions : List OrderAction) (m : QuoteManager d)
      → SameBase m (disable_slot d slot input reason now issued actions m).manager
  unfolding disable_slot push make_action
  disable_slot-SameBase bid_slot input reason now issued actions m = ground arith
  disable_slot-SameBase ask_slot input reason now issued actions m = ground arith
