-- ===== src/Portfolio/Types.antt =====
-- include/mm/portfolio/AccountingTypes.hpp.
use crypto_mm_engine.Prelude.{ℕ, Bool, true, false, ◌&&◌, Option, if◌then◌else◌, ◌>>=◌}
use crypto_mm_engine.Prelude.Int.{leb_ℤ}
use crypto_mm_engine.Common.Types.{Symbol, Nanos}
use crypto_mm_engine.Common.Fixed.{
  Px, Qty, Notional, is_positive, is_negative, checked_add, checked_sub,
}

pub data AccountingError : Type 0 where
  no_error invalid_quantity invalid_price duplicate_fill missing_trade_id : AccountingError
  arithmetic_overflow unknown_symbol capacity_exhausted invalid_mark stale_mark : AccountingError
  sequence_regression corrupt_snapshot account_faulted : AccountingError

abbrev pub is_none : AccountingError → Bool
is_none no_error = true
is_none _ = false

unfoldable pub corrupts_ledger : AccountingError → Bool
corrupts_ledger no_error = false
corrupts_ledger duplicate_fill = false
corrupts_ledger _ = true

pub record FillOutcome : Type 0 where
  pub error : AccountingError
  pub applied_quantity : Qty
  pub realized_delta : Notional
  pub fee : Notional
  pub flipped : Bool
  pub closed : Bool

pub record PnlBreakdown : Type 0 where
  pub realized : Notional
  pub unrealized : Notional
  pub fees : Notional
  pub funding : Notional
  pub unrealized_valid : Bool

unfoldable pub checked_net : PnlBreakdown → Option Notional
checked_net p = do
  gross ← checked_add p.realized p.unrealized
  total ← checked_add gross p.funding
  checked_sub total p.fees

pub record MarkPrice : Type 0 where
  pub symbol : Symbol
  pub bid : Px
  pub ask : Px
  pub as_of_ns : Nanos
  pub sequence : ℕ

unfoldable pub usable : MarkPrice → Bool
usable m = is_positive m.bid && is_positive m.ask && leb_ℤ m.bid m.ask

-- A long position is valued at the bid, a short one at the ask.
unfoldable pub for_position : MarkPrice → Qty → Px
for_position m position = if is_negative position then m.ask else m.bid
