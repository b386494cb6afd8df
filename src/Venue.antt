-- ===== src/Venue.antt =====
-- src/exchange/common/OrderRequest.cpp: what is refused before it is sent. An error is its category
-- and its reason; the outcome, always NotSent, and the text are left out.
pub mod Requests
use Prim.Native.String.{len}
use crypto_mm_engine.Prelude.{Bool, true, false, not, ◌&&◌, ◌||◌, if◌then◌else◌, ltb, ◌==◌}
use crypto_mm_engine.Prelude.Int.{ltb_ℤ}
use crypto_mm_engine.Common.Types.{is_empty, same_text}
use crypto_mm_engine.Common.Fixed.{Px, Qty, is_zero, is_positive, notional_of, is_on_step}
use crypto_mm_engine.Common.Instrument.{
  InstrumentSpec, RejectReason, is_valid_spec, is_trading, unknown_reject, symbol_not_trading,
  quantity_out_of_bounds, lot_size_violation, price_out_of_bounds, tick_size_violation,
  notional_too_small, unknown_order, duplicate_client_order_id,
}
use Requests.{
  OrderRequest, CancelRequest, ReplaceRequest, ExchangeCapabilities, Refusal, accepted, invalid,
  unsupported, is_post_only, requires_price, is_market, is_gtc, is_immediate,
}

unfoldable pub check_identity : OrderRequest → InstrumentSpec → ExchangeCapabilities → Refusal
check_identity req spec caps =
    if is_empty req.client_order_id
    then invalid unknown_reject
    else if ltb caps.max_client_order_id_len (len req.client_order_id)
    then invalid unknown_reject
    else if is_empty req.symbol
    then invalid symbol_not_trading
    else if not (is_valid_spec spec)
    then invalid symbol_not_trading
    else if not (same_text req.symbol spec.symbol)
    then invalid symbol_not_trading
    else if not (is_trading spec.status)
    then invalid symbol_not_trading
    else accepted

unfoldable pub check_quantity : Qty → InstrumentSpec → Refusal
check_quantity quantity spec =
    if not (is_positive quantity)
    then invalid quantity_out_of_bounds
    else if not (is_on_step quantity spec.lot_size)
    then invalid lot_size_violation
    else if is_positive spec.min_qty && ltb_ℤ quantity spec.min_qty
    then invalid quantity_out_of_bounds
    else if is_positive spec.max_qty && ltb_ℤ spec.max_qty quantity
    then invalid quantity_out_of_bounds
    else accepted

unfoldable pub check_price : Px → Qty → InstrumentSpec → Refusal
check_price price quantity spec =
    if not (is_positive price)
    then invalid price_out_of_bounds
    else if not (is_on_step price spec.tick_size)
    then invalid tick_size_violation
    else if is_positive spec.price_band_lo && ltb_ℤ price spec.price_band_lo
    then invalid price_out_of_bounds
    else if is_positive spec.price_band_hi && ltb_ℤ spec.price_band_hi price
    then invalid price_out_of_bounds
    else if is_positive spec.min_notional && ltb_ℤ (notional_of price quantity) spec.min_notional
    then invalid notional_too_small
    else accepted

unfoldable pub check_order_price : OrderRequest → InstrumentSpec → Refusal
unfolding check_price
check_order_price req spec =
    if requires_price req
    then check_price req.price req.quantity spec
    else if not (is_zero req.price)
    then invalid price_out_of_bounds
    else accepted

unfoldable pub check_coherence : OrderRequest → ExchangeCapabilities → Refusal
check_coherence req caps =
    if is_market req.type && is_gtc req.tif
    then invalid unknown_reject
    else if is_post_only req && is_market req.type
    then invalid unknown_reject
    else if is_post_only req && is_immediate req.tif
    then invalid unknown_reject
    else if is_post_only req && not caps.supports_post_only
    then unsupported
    else if req.reduce_only && not caps.supports_reduce_only
    then unsupported
    else if not caps.supports_client_order_id
    then unsupported
    else accepted

-- The first refusal counts.
infixr 30 ◌then_check◌
abbrev pub ◌then_check◌ : Refusal → Refusal → Refusal
accepted then_check r = r
(invalid reason) then_check r = invalid reason
unsupported then_check r = unsupported

unfoldable pub validate_order : OrderRequest → InstrumentSpec → ExchangeCapabilities → Refusal
validate_order req spec caps =
    check_identity req spec caps
    then_check check_quantity req.quantity spec
    then_check check_order_price req spec
    then_check check_coherence req caps

unfoldable pub validate_cancel : CancelRequest → ExchangeCapabilities → Refusal
validate_cancel req caps =
    if is_empty req.client_order_id && is_empty req.exchange_order_id
    then invalid unknown_order
    else if is_empty req.symbol
    then invalid symbol_not_trading
    else if is_empty req.exchange_order_id && not caps.supports_client_order_id
    then unsupported
    else accepted

unfoldable pub validate_replace : ReplaceRequest → InstrumentSpec → ExchangeCapabilities → Refusal
validate_replace req spec caps =
    if not caps.supports_replace
    then unsupported
    else if is_empty req.original_client_order_id && is_empty req.original_exchange_order_id
    then invalid unknown_order
    else if is_empty req.new_client_order_id
    then invalid unknown_reject
    else if same_text req.new_client_order_id req.original_client_order_id
    then invalid duplicate_client_order_id
    else if ltb caps.max_client_order_id_len (len req.new_client_order_id)
    then invalid unknown_reject
    else if not (is_valid_spec spec)
    then invalid symbol_not_trading
    else if not (is_positive req.new_quantity)
    then invalid quantity_out_of_bounds
    else if not (is_on_step req.new_quantity spec.lot_size)
    then invalid lot_size_violation
    else if not (is_positive req.new_price)
    then invalid price_out_of_bounds
    else if not (is_on_step req.new_price spec.tick_size)
    then invalid tick_size_violation
    else if is_positive spec.min_notional
        && ltb_ℤ (notional_of req.new_price req.new_quantity) spec.min_notional
    then invalid notional_too_small
    else accepted
