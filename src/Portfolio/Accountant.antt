-- ===== src/Portfolio/Accountant.antt =====
-- include/mm/portfolio/PortfolioAccountant.hpp and src/portfolio/PortfolioAccountant.cpp: the ledger of
-- all symbols. The clock is an argument, and so is the capacity that `reserve` gives the balances.
pub mod Ledger
pub mod Recovery
pub mod Totals
pub mod Added
pub mod Sums
mod Tests
use crypto_mm_engine.Prelude.{
  ℕ, String, Bool, true, false, not, ◌&&◌, ◌||◌, Option, none, some, List, [], ◌∷◌, ◌++◌, map,
  if◌then◌else◌, leb, ltb, length, case_option, ◌%◌, ◌+◌, ◌^◌,
}
use crypto_mm_engine.Prelude.Int.{ℤ, pos}
use crypto_mm_engine.Common.Types.{Side, Symbol, TradeId, Nanos, is_empty, same_text, inc64}
use crypto_mm_engine.Common.Fixed.{
  Px, Qty, Notional, is_zero, is_positive, is_negative, checked_add, checked_notional_of,
  saturating_abs,
}
use crypto_mm_engine.Risk.Exposure.{PositionSnapshot, PortfolioState}
use crypto_mm_engine.Portfolio.Types.{
  AccountingError, no_error, invalid_quantity, duplicate_fill, arithmetic_overflow, unknown_symbol,
  capacity_exhausted, stale_mark, corrupt_snapshot, is_none, FillOutcome, MarkPrice, PnlBreakdown,
  checked_net,
}
use crypto_mm_engine.Portfolio.SeenTrades.{no_trades}
use crypto_mm_engine.Portfolio.Account.{
  PositionAccount, State, apply_fill, apply_mark, refused, fault, save, restore, checked_cost_basis,
  checked_gross_exposure, mark_or_average, pnl,
}

pub record AccountingConfig : Type 0 where
  pub max_mark_age_ns : Nanos
  pub max_symbols : ℕ

pub record AccountingMetrics : Type 0 where
  pub fills_applied : ℕ
  pub duplicate_fills : ℕ
  pub rejected_fills : ℕ
  pub flips : ℕ
  pub closes : ℕ
  pub marks_applied : ℕ
  pub marks_rejected : ℕ
  pub stale_marks : ℕ
  pub overflows : ℕ
  pub faults : ℕ

pub record AssetBalance : Type 0 where
  pub asset : String
  pub free : Qty
  pub locked : Qty
  pub as_of_ns : Nanos
  pub valid : Bool

pub record PortfolioAccountant : Type 0 where
  pub config : AccountingConfig
  pub accounts : List PositionAccount
  pub balances : List AssetBalance
  pub balance_capacity : ℕ
  pub sequence : ℕ
  pub metrics : AccountingMetrics

pub record FillEvent : Type 0 where
  pub trade_id : TradeId
  pub symbol : Symbol
  pub side : Side
  pub price : Px
  pub quantity : Qty
  pub fee : Notional

pub record BalanceUpdateEvent : Type 0 where
  pub asset : String
  pub free : Qty
  pub locked : Qty

-- `PositionAccount(symbol)`.
abbrev pub new_account : Symbol → PositionAccount
new_account symbol = record {
  symbol = symbol;
  position = pos 0;
  average_price = pos 0;
  realized = pos 0;
  unrealized = pos 0;
  fees = pos 0;
  last_mark = pos 0;
  fill_count = 0;
  unrealized_valid = true;
  faulted = false;
  seen = no_trades;
}

-- `find` and `mutable_find`.
unfoldable pub find : Symbol → List PositionAccount → Option PositionAccount
find symbol [] = none
find symbol (a ∷ as_) = if same_text a.symbol symbol then some a else find symbol as_

-- A write through the pointer that `mutable_find` returns.
unfoldable pub update : Symbol → PositionAccount → List PositionAccount → List PositionAccount
update symbol b [] = []
update symbol b (a ∷ as_) = if same_text a.symbol symbol then b ∷ as_ else a ∷ update symbol b as_

abbrev pub is_known : Symbol → List PositionAccount → Bool
is_known symbol as_ = case_option (find symbol as_) false (λ _. true)

unfoldable pub register_symbol :
    Symbol → PortfolioAccountant → AccountingError × PortfolioAccountant
register_symbol symbol p =
    if is_empty symbol
    then (unknown_symbol, p)
    else if is_known symbol p.accounts
    then (no_error, p)
    else if leb p.config.max_symbols (length p.accounts)
    then (capacity_exhausted, p)
    else (no_error, record p { accounts = p.accounts ++ new_account symbol ∷ [] })

-- The switch over the error of a fill: the account that was written to, the metrics and the sequence.
unfoldable pub account_fill :
    AccountingError
    → FillOutcome
    → Symbol
    → PositionAccount
    → PortfolioAccountant
    → PortfolioAccountant
account_fill no_error outcome symbol a p =
    let m = p.metrics in
    record p {
      accounts = update symbol a p.accounts;
      sequence = inc64 p.sequence;
      metrics = record m {
        fills_applied = inc64 m.fills_applied;
        flips = if outcome.flipped then inc64 m.flips else m.flips;
        closes = if outcome.closed then inc64 m.closes else m.closes;
      };
    }
account_fill duplicate_fill outcome symbol a p = record p {
  accounts = update symbol a p.accounts;
  metrics = record (p.metrics) { duplicate_fills = inc64 p.metrics.duplicate_fills };
}
account_fill arithmetic_overflow outcome symbol a p =
    let m = p.metrics in
    record p {
      accounts = update symbol (fault a) p.accounts;
      metrics = record m {
        overflows = inc64 m.overflows;
        rejected_fills = inc64 m.rejected_fills;
        faults = inc64 m.faults;
      };
    }
account_fill _ outcome symbol a p = record p {
  accounts = update symbol a p.accounts;
  metrics = record (p.metrics) { rejected_fills = inc64 p.metrics.rejected_fills };
}

unfoldable pub on_fill : FillEvent → PortfolioAccountant → FillOutcome × PortfolioAccountant
on_fill f p =
    case_option (find f.symbol p.accounts)
      (
        refused unknown_symbol,
        record p {
          metrics = record (p.metrics) { rejected_fills = inc64 p.metrics.rejected_fills };
        },
      )
      (λ a.
        let r = apply_fill f.trade_id f.side f.price f.quantity f.fee a in
        (r.0, account_fill r.0.error r.0 f.symbol r.1 p))

abbrev pub is_stale : AccountingError → Bool
is_stale stale_mark = true
is_stale _ = false

unfoldable pub account_mark : AccountingError → PortfolioAccountant → PortfolioAccountant
account_mark error p =
    let m = p.metrics in
    if is_none error
    then record p {
      sequence = inc64 p.sequence;
      metrics = record m { marks_applied = inc64 m.marks_applied };
    }
    else record p {
      metrics = record m {
        stale_marks = if is_stale error then inc64 m.stale_marks else m.stale_marks;
        marks_rejected = inc64 m.marks_rejected;
      };
    }

unfoldable pub on_mark :
    MarkPrice → Nanos → PortfolioAccountant → AccountingError × PortfolioAccountant
on_mark mark now p =
    case_option (find mark.symbol p.accounts)
      (
        unknown_symbol,
        record p {
          metrics = record (p.metrics) { marks_rejected = inc64 p.metrics.marks_rejected };
        },
      )
      (λ a.
        let r = apply_mark mark now p.config.max_mark_age_ns a in
        (r.0, account_mark r.0 (record p { accounts = update mark.symbol r.1 p.accounts })))

abbrev pub has_balance : String → List AssetBalance → Bool
has_balance asset [] = false
has_balance asset (b ∷ bs) = same_text b.asset asset || has_balance asset bs

unfoldable pub set_balance : BalanceUpdateEvent → Nanos → List AssetBalance → List AssetBalance
set_balance u now [] = []
set_balance u now (b ∷ bs) =
    if same_text b.asset u.asset
    then record b { free = u.free; locked = u.locked; as_of_ns = now; valid = true } ∷ bs
    else b ∷ set_balance u now bs

unfoldable pub on_balance :
    BalanceUpdateEvent → Nanos → PortfolioAccountant → AccountingError × PortfolioAccountant
on_balance u now p =
    if is_empty u.asset
    then (unknown_symbol, p)
    else if is_negative u.free || is_negative u.locked
    then (invalid_quantity, p)
    else if has_balance u.asset p.balances
    then (no_error, record p { balances = set_balance u now p.balances })
    else if leb p.balance_capacity (length p.balances)
    then (capacity_exhausted, p)
    else (
      no_error,
      record p {
        balances =
            p.balances
            ++ record {
              asset = u.asset;
              free = u.free;
              locked = u.locked;
              as_of_ns = now;
              valid = true;
            }
              ∷ [];
      },
    )

unfoldable pub degraded : List PositionAccount → Bool
degraded [] = false
degraded (a ∷ as_) = a.faulted || degraded as_

unfoldable pub position_snapshot : Symbol → Nanos → PortfolioAccountant → PositionSnapshot
position_snapshot symbol now p =
    let missing : PositionSnapshot = record {
      valid = false;
      symbol = symbol;
      quantity = pos 0;
      notional = pos 0;
      average_price = pos 0;
      as_of_ns = pos 0;
      sequence = 0;
    } in
    case_option (find symbol p.accounts) missing (λ a. if a.faulted then missing else record {
      valid = true;
      symbol = symbol;
      quantity = a.position;
      notional = case_option (checked_cost_basis a) (pos 0) (λ cost. cost);
      average_price = a.average_price;
      as_of_ns = now;
      sequence = p.sequence;
    })

unfoldable pub balance : String → List AssetBalance → Option AssetBalance
balance asset [] = none
balance asset (b ∷ bs) = if same_text b.asset asset then some b else balance asset bs

pub record RecoveryState : Type 0 where
  pub sequence : ℕ
  pub accounts : List State
  pub balances : List AssetBalance

unfoldable pub save_all : PortfolioAccountant → RecoveryState
save_all p = record { sequence = p.sequence; accounts = map save p.accounts; balances = p.balances }

-- The accounts that were restored before the first error, and that error.
unfoldable pub restore_accounts : List State → AccountingError × List PositionAccount
restore_accounts [] = (no_error, [])
restore_accounts (s ∷ ss) =
    let r = restore s (new_account "") in
    let rest = restore_accounts ss in if is_none r.0 then (rest.0, r.1 ∷ rest.1) else (r.0, [])

-- `capacity` is what the vector of balances has room for after the assignment.
unfoldable pub restore_all :
    RecoveryState → ℕ → PortfolioAccountant → AccountingError × PortfolioAccountant
restore_all state capacity p =
    if ltb 0 (length p.accounts)
    then (corrupt_snapshot, p)
    else if ltb p.config.max_symbols (length state.accounts)
    then (capacity_exhausted, p)
    else let r = restore_accounts state.accounts in
      if not (is_none r.0) then (r.0, record p { accounts = [] }) else (
        no_error,
        record p {
          accounts = r.1;
          balances = state.balances;
          balance_capacity = capacity;
          sequence = state.sequence;
        },
      )
