-- ===== src/Venue/Requests.antt =====
-- include/mm/exchange/common/OrderRequest.hpp and ExchangeCapabilities.hpp: what is asked of a venue.
-- Identifiers for tracing, time stamps and the capabilities that no rule reads are left out.
use crypto_mm_engine.Prelude.{ℕ, String, Bool, true, false, ◌||◌, not}
use crypto_mm_engine.Common.Types.{Side, Symbol}
use crypto_mm_engine.Common.Fixed.{Px, Qty}
use crypto_mm_engine.Common.Instrument.{RejectReason}

pub data OrderType : Type 0 where
  limit market limit_maker : OrderType

pub data TimeInForce : Type 0 where
  gtc ioc fok gtx : TimeInForce

abbrev pub is_market : OrderType → Bool
is_market market = true
is_market _ = false

abbrev pub is_limit_maker : OrderType → Bool
is_limit_maker limit_maker = true
is_limit_maker _ = false

abbrev pub is_gtc : TimeInForce → Bool
is_gtc gtc = true
is_gtc _ = false

-- IOC or FOK.
abbrev pub is_immediate : TimeInForce → Bool
is_immediate ioc = true
is_immediate fok = true
is_immediate _ = false

pub record OrderRequest : Type 0 where
  pub client_order_id : String
  pub symbol : Symbol
  pub side : Side
  pub type : OrderType
  pub tif : TimeInForce
  pub price : Px
  pub quantity : Qty
  pub post_only : Bool
  pub reduce_only : Bool

abbrev pub is_post_only : OrderRequest → Bool
is_post_only req = req.post_only || is_limit_maker req.type

abbrev pub requires_price : OrderRequest → Bool
requires_price req = not (is_market req.type)

pub record CancelRequest : Type 0 where
  pub client_order_id : String
  pub exchange_order_id : String
  pub symbol : Symbol

pub record ReplaceRequest : Type 0 where
  pub original_client_order_id : String
  pub original_exchange_order_id : String
  pub new_client_order_id : String
  pub symbol : Symbol
  pub new_price : Px
  pub new_quantity : Qty

pub record ExchangeCapabilities : Type 0 where
  pub supports_post_only : Bool
  pub supports_replace : Bool
  pub supports_reduce_only : Bool
  pub supports_client_order_id : Bool
  pub max_client_order_id_len : ℕ

-- `ExchangeCapabilities{}`.
abbrev pub default_capabilities : ExchangeCapabilities
default_capabilities = record {
  supports_post_only = false;
  supports_replace = false;
  supports_reduce_only = false;
  supports_client_order_id = true;
  max_client_order_id_len = 36;
}

pub data Refusal : Type 0 where
  accepted unsupported : Refusal
  invalid : RejectReason → Refusal

abbrev pub is_accepted : Refusal → Bool
is_accepted accepted = true
is_accepted _ = false
