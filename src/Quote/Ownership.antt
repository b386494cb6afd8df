-- ===== src/Quote/Ownership.antt =====
-- What the actions of src/quote/QuoteManager.cpp are about.
use crypto_mm_engine.Prelude.{
  String, ◌≡◌, refl, true, false, not, ◌&&◌, ◌||◌, some, List, [], ◌∷◌, ◌++◌, All, leb, length,
  arith, choose,
}
use crypto_mm_engine.Common.Types.{Nanos}
use crypto_mm_engine.Common.Doubles.{Doubles}
use crypto_mm_engine.Common.Instrument.{InstrumentSpec, RejectReason, no_reject}
use crypto_mm_engine.Oms.Lifecycle.{OrderStatus, is_terminal_status}
use crypto_mm_engine.Venue.{validate_order}
use crypto_mm_engine.Venue.Requests.{Refusal, accepted, invalid, unsupported}
use crypto_mm_engine.Quote.Actions.{
  OrderAction, ActionReason, QuoteSlot, new, cancel, is_cancel, is_replace, adds_exposure,
}
use crypto_mm_engine.Quote.Working.{
  WorkingOrder, QuoteIntent, order_in, is_owned, is_pending, is_uncertain, is_unknown_status,
  is_live_order, side_of,
}
use crypto_mm_engine.Quote.State.{QuoteManager, QuoteManagerInput, DesiredQuote}
use crypto_mm_engine.Quote.Manager.{
  validate, is_valid_quote, refusal_reason, probe, capabilities_of, make_action, with_target,
  with_quote, push,
}

-- The action is aimed at an order of the slot that is live and belongs to this owner.
pub record IsAimed (owner : String) (input : QuoteManagerInput) (a : OrderAction) : Type 0 where
  pub live : is_live_order (order_in a.slot input.working) ≡ true
  pub owned : is_owned (order_in a.slot input.working).owner owner a.slot ≡ true
  pub client_id : a.target_client_order_id ≡ (order_in a.slot input.working).client_order_id
  pub exchange_id : a.target_exchange_order_id ≡ (order_in a.slot input.working).exchange_order_id

-- The venue's rules accept the quote, and nothing about the slot is unknown or outstanding.
pub record IsCleared (input : QuoteManagerInput) (a : OrderAction) : Type 0 where
  pub spec : InstrumentSpec
  pub loaded : input.instrument ≡ some spec
  pub accepted :
      validate_order
        (probe a.slot (record { wanted = true; price = a.price; quantity = a.quantity }) input)
        spec
        (capabilities_of input)
      ≡ accepted
  pub known : is_uncertain (order_in a.slot input.working) ≡ false
  pub settled : is_pending (order_in a.slot input.working).pending ≡ false

pub record IsProper (owner : String) (input : QuoteManagerInput) (a : OrderAction) : Type 0 where
  pub side : a.side ≡ side_of a.slot
  pub aimed : (is_cancel a.type || is_replace a.type) ≡ true → IsAimed owner input a
  pub cleared : adds_exposure a.type ≡ true → IsCleared input a

unknown-live : (s : OrderStatus) → is_unknown_status s ≡ true → is_terminal_status s ≡ false
unfolding is_terminal_status
unknown-live OrderStatus.status_unknown h = refl
unknown-live _ h = absurd (ground arith)

pub uncertain-live : (o : WorkingOrder) → is_uncertain o ≡ true → is_live_order o ≡ true
unfolding is_uncertain is_live_order
uncertain-live o h = ground (arith, unknown-live o.status)

live-present : (o : WorkingOrder) → is_live_order o ≡ true → o.present ≡ true
unfolding is_live_order
live-present o h = ground arith

refused-invalid : (reason : RejectReason) → is_valid_quote (refusal_reason (invalid reason)) ≡ false
refused-invalid no_reject = refl
refused-invalid _ = refl

valid-accepted : (r : Refusal) → is_valid_quote (refusal_reason r) ≡ true → r ≡ accepted
valid-accepted accepted h = refl
valid-accepted unsupported h = absurd (ground arith)
valid-accepted (invalid reason) h = absurd (ground (arith, refused-invalid reason))

pub owned-live :
    (o : WorkingOrder) (owner : String) (slot : QuoteSlot)
    → (o.present && not (is_owned o.owner owner slot)) ≡ false
    → is_live_order o ≡ true
    → is_owned o.owner owner slot ≡ true
owned-live o owner slot e l = ground (arith, live-present o l)

All-snoc :
    (P : OrderAction → Type 0) (xs : List OrderAction) (a : OrderAction)
    → All P xs
    → P a
    → All P (xs ++ a ∷ [])
All-snoc P [] a h p = (p, tt)
All-snoc P (x ∷ xs) a (h, hs) p = (h, All-snoc P xs a hs p)

pub validate-accepted :
    (slot : QuoteSlot) (desired : DesiredQuote) (spec : InstrumentSpec) (input : QuoteManagerInput)
    → desired.wanted ≡ true
    → is_valid_quote (validate slot desired spec input) ≡ true
    → validate_order (probe slot desired input) spec (capabilities_of input) ≡ accepted
unfolding validate
validate-accepted slot desired spec input w h =
    valid-accepted (validate_order (probe slot desired input) spec (capabilities_of input))
      (ground (arith, w))

module _ (d : Doubles) where
  pub push-All :
      (P : OrderAction → Type 0) (a : OrderAction) (actions : List OrderAction) (m : QuoteManager d)
      → All P actions
      → P a
      → All P ((push d a actions m).0)
  unfolding push
  push-All P a actions m h p =
      choose (λ (r : List OrderAction × QuoteManager d). All P r.0) (leb 4 (length actions))
        (λ _. h) (λ _. All-snoc P actions a h p)

  -- Every action so far is proper.
  abbrev pub AreProper : QuoteManager d → QuoteManagerInput → List OrderAction → Type 0
  AreProper m input actions = All (IsProper m.owner input) actions

  -- What a new quote may rely on.
  pub record MayQuote (slot : QuoteSlot) (desired : DesiredQuote) (spec : InstrumentSpec)
      (input : QuoteManagerInput) : Type 0 where
    pub loaded : input.instrument ≡ some spec
    pub accepted : validate_order (probe slot desired input) spec (capabilities_of input) ≡ accepted
    pub known : is_uncertain (order_in slot input.working) ≡ false
    pub settled : is_pending (order_in slot input.working).pending ≡ false

  pub new-IsProper :
      (owner : String) (slot : QuoteSlot) (desired : DesiredQuote) (spec : InstrumentSpec)
      (intent : QuoteIntent) (input : QuoteManagerInput) (reason : ActionReason) (issued : Nanos)
      → MayQuote slot desired spec input
      → IsProper owner input (with_quote desired (make_action new slot reason intent input issued))
  unfolding make_action
  new-IsProper owner slot desired spec intent input reason issued v = record {
    side = refl;
    aimed = λ c. absurd (ground arith);
    cleared = λ _. record {
      spec = spec;
      loaded = v.loaded;
      accepted = v.accepted;
      known = v.known;
      settled = v.settled;
    };
  }

  pub cancel-IsProper :
      (owner : String) (slot : QuoteSlot) (intent : QuoteIntent) (input : QuoteManagerInput)
      (reason : ActionReason) (issued : Nanos)
      → is_live_order (order_in slot input.working) ≡ true
      → is_owned (order_in slot input.working).owner owner slot ≡ true
      → IsProper owner input (
          with_target
            (order_in slot input.working)
            (make_action cancel slot reason intent input issued))
  unfolding make_action
  cancel-IsProper owner slot intent input reason issued live owned = record {
    side = refl;
    aimed = λ _. record { live = live; owned = owned; client_id = refl; exchange_id = refl };
    cleared = λ c. absurd (ground arith);
  }
