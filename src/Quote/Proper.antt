-- ===== src/Quote/Proper.antt =====
-- The actions that the calls of src/quote/QuoteManager.cpp return.
use crypto_mm_engine.Prelude.{
  ◌≡◌, refl, true, not, ◌&&◌, ◌||◌, Option, some, List, [], All, arith, sym, ◌∙◌, subst, Bool-cases,
  Option-cases, inl, inr,
}
use crypto_mm_engine.Common.Types.{Nanos}
use crypto_mm_engine.Common.Doubles.{Doubles}
use crypto_mm_engine.Common.Instrument.{InstrumentSpec}
use crypto_mm_engine.Quote.Actions.{OrderAction, ActionReason, QuoteSlot, bid_slot, ask_slot}
use crypto_mm_engine.Quote.Working.{
  QuoteIntent, order_in, is_owned, is_pending_cancel, is_live_order,
}
use crypto_mm_engine.Quote.State.{QuoteManager, QuoteManagerInput, QuoteReadings, QuoteRejection}
use crypto_mm_engine.Quote.Manager.{screen}
use crypto_mm_engine.Quote.Slot.{resolve_slot}
use crypto_mm_engine.Quote.Evaluate.{
  disable_slot, disable_all_quotes, reject_intent, receive, resolve_slots, act_on, evaluate,
  withdrawal_reason, is_admitted, synthetic, desired_bid, desired_ask, count_rejection,
}
use crypto_mm_engine.Quote.Base.{resolve_slot-SameBase, disable_slot-SameBase}
use crypto_mm_engine.Quote.Ownership.{IsProper, AreProper, owned-live, cancel-IsProper, push-All}
use crypto_mm_engine.Quote.Resolve.{resolve_slot-proper}

module _ (d : Doubles) where
  disable_slot-proper :
      (slot : QuoteSlot) (input : QuoteManagerInput) (reason : ActionReason) (now issued : Nanos)
      (actions : List OrderAction) (m : QuoteManager d)
      → AreProper d m input actions
      → AreProper d m input (disable_slot d slot input reason now issued actions m).actions
  unfolding disable_slot
  disable_slot-proper slot input reason now issued actions m h =
      let order = order_in slot input.working in
      elim (Bool-cases (order.present && not (is_owned order.owner m.owner slot))) [
        | inl e ↦ rw e h
        | inr e ↦ rw e (elim (Bool-cases (not order.present || not (is_live_order order))) [
          | inl l ↦ rw l h
          | inr l ↦ rw l (elim (Bool-cases (is_pending_cancel order.pending)) [
            | inl p ↦ rw p h
            | inr p ↦
                (let live : is_live_order order ≡ true = ground (arith, l) in
                  rw p (
                    push-All d (IsProper m.owner input) _ actions m h (
                      cancel-IsProper d m.owner slot (synthetic m.owner m.last_generation) input
                        reason issued live (owned-live order m.owner slot e live))))
          ])
        ])
      ]

  disable_all_quotes-proper :
      (input : QuoteManagerInput) (reason : ActionReason) (t : QuoteReadings) (m : QuoteManager d)
      → AreProper d m input (disable_all_quotes d input reason t m).0.actions
  unfolding disable_all_quotes
  disable_all_quotes-proper input reason t m =
      let first = disable_slot d bid_slot input reason t.bid.now t.bid.issued [] m in
      let same =
        (disable_slot-SameBase d bid_slot input reason t.bid.now t.bid.issued [] m).owner in
      let earlier = disable_slot-proper bid_slot input reason t.bid.now t.bid.issued [] m tt in
      subst
        (λ owner.
          All (IsProper owner input)
            (disable_slot d ask_slot input reason t.bid.now t.ask.issued first.actions
              first.manager).actions)
        same
        (disable_slot-proper ask_slot input reason t.bid.now t.ask.issued first.actions
          first.manager
          (subst (λ owner. All (IsProper owner input) first.actions) (sym same) earlier))

  reject_intent-proper :
      (rejection : QuoteRejection) (intent : QuoteIntent) (input : QuoteManagerInput)
      (t : QuoteReadings) (m : QuoteManager d)
      → AreProper d m input (reject_intent d rejection intent input t m).0.actions
  unfolding reject_intent
  reject_intent-proper rejection intent input t m =
      elim (Option-cases (withdrawal_reason rejection)) [
        | inl e ↦ rw e tt
        | inr (reason, e) ↦ rw e (disable_all_quotes-proper input reason t m)
      ]

  resolve_slots-proper :
      (spec : InstrumentSpec) (intent : QuoteIntent) (input : QuoteManagerInput) (t : QuoteReadings)
      (m : QuoteManager d)
      → input.instrument ≡ some spec
      → AreProper d m input (resolve_slots d spec intent input t m).0.actions
  unfolding resolve_slots
  resolve_slots-proper spec intent input t m loaded =
      let bid = desired_bid intent.action intent input.working.bid in
      let ask = desired_ask intent.action intent input.working.ask in
      let first = resolve_slot d bid_slot bid spec intent input t.bid [] m in
      let same = (resolve_slot-SameBase d bid_slot bid spec intent input t.bid [] m).owner in
      let earlier = resolve_slot-proper d bid_slot bid spec intent input t.bid [] m loaded tt in
      subst
        (λ owner.
          All (IsProper owner input)
            (resolve_slot d ask_slot ask spec intent input t.ask first.actions
              first.manager).actions)
        same
        (resolve_slot-proper d ask_slot ask spec intent input t.ask first.actions first.manager
          loaded (subst (λ owner. All (IsProper owner input) first.actions) (sym same) earlier))

  act_on-proper :
      (rejection : QuoteRejection) (instrument : Option InstrumentSpec) (intent : QuoteIntent)
      (input : QuoteManagerInput) (t : QuoteReadings) (m : QuoteManager d)
      → input.instrument ≡ instrument
      → AreProper d m input (act_on d rejection instrument intent input t m).0.actions
  unfolding act_on
  act_on-proper rejection instrument intent input t m loaded =
      let counted : QuoteManager d = record m { metrics = count_rejection rejection m.metrics } in
      let refused = reject_intent-proper rejection intent input t counted in
      elim (Bool-cases (is_admitted rejection)) [
        | inl e ↦ rw e (elim (Option-cases instrument) [
          | inl f ↦ rw f refused
          | inr (spec, f) ↦ rw f (resolve_slots-proper spec intent input t m (loaded ∙ f))
        ])
        | inr e ↦ rw e refused
      ]

  -- Every action of an evaluation is proper: a cancel or a replacement is aimed, by its ids, at an order
  -- of its slot that is live and belongs to this manager's strategy; a new order or a replacement has a
  -- price and a quantity that the venue's rules accept, in a slot whose order is not in an unknown state
  -- and has no request outstanding.
  pub evaluate-AreProper :
      (intent : QuoteIntent) (input : QuoteManagerInput) (t : QuoteReadings) (m : QuoteManager d)
      → All (IsProper m.owner input) ((evaluate d intent input t m).0.actions)
  unfolding evaluate receive
  evaluate-AreProper intent input t m =
      let m' = receive d intent input m in
      act_on-proper (screen d intent input t.screened m') input.instrument intent input t m' refl
