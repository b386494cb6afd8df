-- ===== src/Quote/Working.antt =====
-- include/mm/quote/QuoteTypes.hpp, include/mm/quote/WorkingQuoteState.hpp and
-- include/mm/strategy/QuoteIntent.hpp: what rests, and what a strategy wants.
use crypto_mm_engine.Prelude.{ℕ, String, Bool, true, false, not, ◌&&◌, if◌then◌else◌}
use crypto_mm_engine.Prelude.Int.{pos}
use crypto_mm_engine.Common.Types.{Side, Seq, Nanos, is_empty, same_text}
use crypto_mm_engine.Common.Fixed.{Px, Qty, sub, is_positive}
use crypto_mm_engine.Oms.Lifecycle.{OrderStatus, status_unknown, is_terminal_status}
use crypto_mm_engine.Quote.Actions.{QuoteSlot, bid_slot, ask_slot}

abbrev pub side_of : QuoteSlot → Side
side_of bid_slot = Side.buy
side_of ask_slot = Side.sell

abbrev pub same_slot : QuoteSlot → QuoteSlot → Bool
same_slot bid_slot bid_slot = true
same_slot ask_slot ask_slot = true
same_slot _ _ = false

pub record QuoteOwner : Type 0 where
  pub strategy : String
  pub slot : QuoteSlot

-- `QuoteOwner::matches`.
unfoldable pub is_owned : QuoteOwner → String → QuoteSlot → Bool
is_owned o owner which =
    not (is_empty o.strategy) && same_text o.strategy owner && same_slot o.slot which

pub data PendingOperation : Type 0 where
  no_pending pending_new pending_cancel pending_replace : PendingOperation

abbrev pub is_pending : PendingOperation → Bool
is_pending no_pending = false
is_pending _ = true

abbrev pub is_pending_cancel : PendingOperation → Bool
is_pending_cancel pending_cancel = true
is_pending_cancel _ = false

pub record WorkingOrder : Type 0 where
  pub present : Bool
  pub owner : QuoteOwner
  pub price : Px
  pub original_quantity : Qty
  pub cumulative_quantity : Qty
  pub status : OrderStatus
  pub pending : PendingOperation
  pub client_order_id : String
  pub exchange_order_id : String

unfoldable pub remaining : WorkingOrder → Qty
remaining o =
    let left = sub o.original_quantity o.cumulative_quantity in
    if is_positive left then left else pos 0

unfoldable pub is_partially_filled : WorkingOrder → Bool
unfolding remaining
is_partially_filled o = is_positive o.cumulative_quantity && is_positive (remaining o)

unfoldable pub is_live_order : WorkingOrder → Bool
is_live_order o = o.present && not (is_terminal_status o.status)

abbrev pub is_unknown_status : OrderStatus → Bool
is_unknown_status status_unknown = true
is_unknown_status _ = false

unfoldable pub is_uncertain : WorkingOrder → Bool
is_uncertain o = o.present && is_unknown_status o.status

pub record WorkingQuoteState : Type 0 where
  pub bid : WorkingOrder
  pub ask : WorkingOrder
  pub foreign_order_count : ℕ

abbrev pub order_in : QuoteSlot → WorkingQuoteState → WorkingOrder
order_in bid_slot w = w.bid
order_in ask_slot w = w.ask

pub data QuoteAction : Type 0 where
  quote pull no_change : QuoteAction

-- The diagnostic reason and the version of the strategy are left out.
pub record QuoteIntent : Type 0 where
  pub action : QuoteAction
  pub quote_bid : Bool
  pub quote_ask : Bool
  pub bid_price : Px
  pub ask_price : Px
  pub bid_quantity : Qty
  pub ask_quantity : Qty
  pub strategy_name : String
  pub generation : ℕ
  pub market_sequence : Seq
  pub computed_ns : Nanos
  pub trace : ℕ
