-- ===== src/Common/Instrument.antt =====
-- include/mm/common/Types.hpp: the trading rules of one instrument. Assets and ids that no rule reads
-- are left out.
use crypto_mm_engine.Prelude.{Bool, true, false, not, ◌&&◌}
use crypto_mm_engine.Common.Types.{Symbol, is_empty}
use crypto_mm_engine.Common.Fixed.{Px, Qty, Notional, is_positive}

pub data RejectReason : Type 0 where
  no_reject unknown_reject insufficient_balance price_out_of_bounds : RejectReason
  quantity_out_of_bounds notional_too_small tick_size_violation : RejectReason
  lot_size_violation post_only_would_cross duplicate_client_order_id : RejectReason
  unknown_order rate_limited market_closed symbol_not_trading : RejectReason
  reduce_only_violation risk_limit_exceeded connectivity internal_error : RejectReason

pub data MarketStatus : Type 0 where
  unknown_status trading halted auction_only delisted : MarketStatus

abbrev pub is_trading : MarketStatus → Bool
is_trading trading = true
is_trading _ = false

pub record InstrumentSpec : Type 0 where
  pub symbol : Symbol
  pub tick_size : Px
  pub lot_size : Qty
  pub min_qty : Qty
  pub max_qty : Qty
  pub min_notional : Notional
  pub price_band_lo : Px
  pub price_band_hi : Px
  pub status : MarketStatus

unfoldable pub is_valid_spec : InstrumentSpec → Bool
is_valid_spec s = not (is_empty s.symbol) && is_positive s.tick_size && is_positive s.lot_size
