-- ===== src/Quote/Resolve.antt =====
-- The actions that one slot of src/quote/QuoteManager.cpp makes.
use crypto_mm_engine.Prelude.{
  ◌≡◌, refl, true, false, not, ◌&&◌, some, List, arith, Bool-cases, inl, inr,
}
use crypto_mm_engine.Common.Doubles.{Doubles}
use crypto_mm_engine.Common.Instrument.{InstrumentSpec}
use crypto_mm_engine.Quote.Actions.{OrderAction, QuoteSlot, replace_unsupported, no_quote_resting}
use crypto_mm_engine.Quote.Working.{
  QuoteIntent, order_in, is_owned, is_pending, is_uncertain, is_live_order,
}
use crypto_mm_engine.Quote.State.{QuoteManager, QuoteManagerInput, SlotReadings, DesiredQuote}
use crypto_mm_engine.Quote.Manager.{validate, is_valid_quote, make_action, represents}
use crypto_mm_engine.Quote.Slot.{
  count_unknown, change_reason, cools_down, replaces_too_soon, settled_slot, memory_of,
  withdraw_quote, create_quote, replace_quote, cancel_and_create, rewrite_quote, pursue_quote,
  awaits_own_request, resolve_slot, has_atomic_replace,
}
use crypto_mm_engine.Quote.Ownership.{
  IsProper, uncertain-live, owned-live, validate-accepted, push-All, AreProper, new-IsProper,
  cancel-IsProper, MayQuote,
}

module _ (d : Doubles) where
  withdraw_quote-proper :
      (slot : QuoteSlot) (intent : QuoteIntent) (input : QuoteManagerInput) (t : SlotReadings)
      (actions : List OrderAction) (m : QuoteManager d)
      → is_live_order (order_in slot input.working) ≡ true
      → is_owned (order_in slot input.working).owner m.owner slot ≡ true
      → AreProper d m input actions
      → AreProper d m input
          (withdraw_quote d slot (order_in slot input.working) intent input t actions m).actions
  unfolding withdraw_quote make_action
  withdraw_quote-proper slot intent input t actions m live owned h =
      push-All d (IsProper m.owner input) _ actions m h (record {
        side = refl;
        aimed = λ _. record { live = live; owned = owned; client_id = refl; exchange_id = refl };
        cleared = λ c. absurd (ground arith);
      })

  create_quote-proper :
      (slot : QuoteSlot) (desired : DesiredQuote) (spec : InstrumentSpec) (intent : QuoteIntent)
      (input : QuoteManagerInput) (t : SlotReadings) (actions : List OrderAction)
      (m : QuoteManager d)
      → MayQuote d slot desired spec input
      → AreProper d m input actions
      → AreProper d m input (create_quote d slot desired intent input t actions m).actions
  unfolding create_quote make_action
  create_quote-proper slot desired spec intent input t actions m v h =
      let suppressed = cools_down d m.config (memory_of d slot m) t.now in
      elim (Bool-cases suppressed) [
        | inl e ↦ rw e h
        | inr e ↦ rw e (
            push-All d (IsProper m.owner input) _ actions m h
              (new-IsProper d m.owner slot desired spec intent input no_quote_resting t.issued v))
      ]

  rewrite_quote-proper :
      (slot : QuoteSlot) (desired : DesiredQuote) (spec : InstrumentSpec) (intent : QuoteIntent)
      (input : QuoteManagerInput) (t : SlotReadings) (actions : List OrderAction)
      (m : QuoteManager d)
      → is_live_order (order_in slot input.working) ≡ true
      → is_owned (order_in slot input.working).owner m.owner slot ≡ true
      → MayQuote d slot desired spec input
      → AreProper d m input actions
      → AreProper d m input
          (rewrite_quote d slot
            (order_in slot input.working)
            desired
            spec
            intent
            input
            t
            actions
            m).actions
  unfolding rewrite_quote replace_quote cancel_and_create make_action
  rewrite_quote-proper slot desired spec intent input t actions m live owned v h =
      let order = order_in slot input.working in
      let reason = change_reason d m.config order desired spec in
      elim (Bool-cases (replaces_too_soon d m.config (memory_of d slot m) t.now)) [
        | inl e ↦ rw e h
        | inr e ↦ rw e (elim (Bool-cases (has_atomic_replace d input)) [
          | inl f ↦ rw f (
              push-All d (IsProper m.owner input) _ actions m h (record {
                side = refl;
                aimed = λ _. record {
                  live = live;
                  owned = owned;
                  client_id = refl;
                  exchange_id = refl;
                };
                cleared = λ _. record {
                  spec = spec;
                  loaded = v.loaded;
                  accepted = v.accepted;
                  known = v.known;
                  settled = v.settled;
                };
              }))
          | inr f ↦ rw f (
              push-All d (IsProper m.owner input) _ _ _
                (push-All d (IsProper m.owner input) _ actions m h (
                  cancel-IsProper d m.owner slot intent input replace_unsupported t.issued live
                    owned))
                (new-IsProper d m.owner slot desired spec intent input replace_unsupported
                  t.issued_again v))
        ])
      ]

  pursue_quote-proper :
      (slot : QuoteSlot) (desired : DesiredQuote) (spec : InstrumentSpec) (intent : QuoteIntent)
      (input : QuoteManagerInput) (t : SlotReadings) (actions : List OrderAction)
      (m : QuoteManager d)
      → input.instrument ≡ some spec
      → is_uncertain (order_in slot input.working) ≡ false
      → is_pending (order_in slot input.working).pending ≡ false
      → (is_live_order (order_in slot input.working) ≡ true
          → is_owned (order_in slot input.working).owner m.owner slot ≡ true)
      → desired.wanted ≡ true
      → AreProper d m input actions
      → AreProper d m input
          (pursue_quote d slot
            (order_in slot input.working)
            desired
            spec
            intent
            input
            t
            actions
            m).actions
  unfolding pursue_quote
  pursue_quote-proper slot desired spec intent input t actions m loaded u p mine w h =
      let order = order_in slot input.working in
      elim (Bool-cases (is_valid_quote (validate slot desired spec input))) [
        | inl g ↦
            (let may : MayQuote d slot desired spec input = record {
              loaded = loaded;
              accepted = validate-accepted slot desired spec input w g;
              known = u;
              settled = p;
            } in
              rw g (elim (Bool-cases (is_live_order order)) [
                | inl l ↦ rw l (elim (Bool-cases (represents d m.config order desired spec)) [
                  | inl r ↦ rw r h
                  | inr r ↦ rw r (
                      rewrite_quote-proper slot desired spec intent input t actions m l (mine l) may
                        h)
                ])
                | inr l ↦
                    rw l (create_quote-proper slot desired spec intent input t actions m may h)
              ]))
        | inr g ↦ rw g h
      ]

  settled_slot-proper :
      (slot : QuoteSlot) (desired : DesiredQuote) (spec : InstrumentSpec) (intent : QuoteIntent)
      (input : QuoteManagerInput) (t : SlotReadings) (actions : List OrderAction)
      (m : QuoteManager d)
      → input.instrument ≡ some spec
      → is_uncertain (order_in slot input.working) ≡ false
      → is_pending (order_in slot input.working).pending ≡ false
      → (is_live_order (order_in slot input.working) ≡ true
          → is_owned (order_in slot input.working).owner m.owner slot ≡ true)
      → AreProper d m input actions
      → AreProper d m input (settled_slot d slot desired spec intent input t actions m).actions
  unfolding settled_slot
  settled_slot-proper slot desired spec intent input t actions m loaded u p mine h =
      let order = order_in slot input.working in
      elim (Bool-cases (awaits_own_request d m.config (memory_of d slot m) order t.now)) [
        | inl a ↦ rw a h
        | inr a ↦ rw a (elim (Bool-cases (not desired.wanted)) [
          | inr w ↦ rw w (
              pursue_quote-proper slot desired spec intent input t actions m loaded u p mine
                (ground (arith, w)) h)
          | inl w ↦ rw w (elim (Bool-cases (is_live_order order)) [
            | inl l ↦ rw l (withdraw_quote-proper slot intent input t actions m l (mine l) h)
            | inr l ↦ rw l h
          ])
        ])
      ]

  pub resolve_slot-proper :
      (slot : QuoteSlot) (desired : DesiredQuote) (spec : InstrumentSpec) (intent : QuoteIntent)
      (input : QuoteManagerInput) (t : SlotReadings) (actions : List OrderAction)
      (m : QuoteManager d)
      → input.instrument ≡ some spec
      → AreProper d m input actions
      → AreProper d m input (resolve_slot d slot desired spec intent input t actions m).actions
  unfolding resolve_slot
  resolve_slot-proper slot desired spec intent input t actions m loaded h =
      let order = order_in slot input.working in
      let known = λ (u : is_uncertain order ≡ true). uncertain-live order u in
      elim (Bool-cases (order.present && not (is_owned order.owner m.owner slot))) [
        | inl e ↦ rw e h
        | inr e ↦
            (let mine = λ (l : is_live_order order ≡ true). owned-live order m.owner slot e l in
              rw e (elim (Bool-cases (is_uncertain order)) [
                | inl u ↦
                    rw u (elim (Bool-cases (not desired.wanted && not (is_pending order.pending))) [
                      | inl w ↦ rw w (
                          withdraw_quote-proper slot intent input t actions (count_unknown d m)
                            (known u) (mine (known u)) h)
                      | inr w ↦ rw w h
                    ])
                | inr u ↦ rw u (elim (Bool-cases (is_pending order.pending)) [
                  | inl p ↦ rw p h
                  | inr p ↦ rw p (
                      settled_slot-proper slot desired spec intent input t actions m loaded u p mine
                        h)
                ])
              ]))
      ]
