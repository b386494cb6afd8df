-- ===== src/Quote/Actions.antt =====
-- include/mm/quote/OrderAction.hpp: the state changes that are asked for. Of the identity of a
-- strategy only the name is kept, and the numeric symbol id is left out.
use crypto_mm_engine.Prelude.{ℕ, String, Bool, true, false}
use crypto_mm_engine.Prelude.Int.{pos}
use crypto_mm_engine.Common.Types.{Side, Symbol, Seq, no_seq, Nanos}
use crypto_mm_engine.Common.Fixed.{Px, Qty}

pub data OrderActionType : Type 0 where
  noop new cancel replace : OrderActionType

pub data QuoteSlot : Type 0 where
  bid_slot ask_slot : QuoteSlot

pub data ActionReason : Type 0 where
  no_action_reason no_quote_resting price_changed quantity_changed : ActionReason
  partial_fill_replenish quote_disabled intent_expired market_data_stale : ActionReason
  strategy_not_running operator_disabled generation_superseded : ActionReason
  replace_unsupported : ActionReason

pub record OrderAction : Type 0 where
  pub type : OrderActionType
  pub slot : QuoteSlot
  pub reason : ActionReason
  pub symbol : Symbol
  pub side : Side
  pub price : Px
  pub quantity : Qty
  pub target_client_order_id : String
  pub target_exchange_order_id : String
  pub strategy_name : String
  pub generation : ℕ
  pub market_sequence : Seq
  pub issued_ns : Nanos
  pub trace : ℕ

-- `OrderAction{}`.
abbrev pub no_action : OrderAction
no_action = record {
  type = noop;
  slot = bid_slot;
  reason = no_action_reason;
  symbol = "";
  side = Side.buy;
  price = pos 0;
  quantity = pos 0;
  target_client_order_id = "";
  target_exchange_order_id = "";
  strategy_name = "";
  generation = 0;
  market_sequence = no_seq;
  issued_ns = pos 0;
  trace = 0;
}

abbrev pub is_noop : OrderActionType → Bool
is_noop noop = true
is_noop _ = false

abbrev pub is_new : OrderActionType → Bool
is_new new = true
is_new _ = false

abbrev pub is_cancel : OrderActionType → Bool
is_cancel cancel = true
is_cancel _ = false

abbrev pub is_replace : OrderActionType → Bool
is_replace replace = true
is_replace _ = false

abbrev pub adds_exposure : OrderActionType → Bool
adds_exposure new = true
adds_exposure replace = true
adds_exposure _ = false
