-- ===== src/Portfolio/Accountant/Tests.antt =====
-- A ledger of two symbols, and each theorem at it.
use crypto_mm_engine.Prelude.{◌≡◌, refl, true, false, [], ◌∷◌, map, arith}
use crypto_mm_engine.Prelude.Int.{pos, negsuc, ◌+ℤ◌, ◌-ℤ◌, ◌*ℤ◌, ◌/ℤ◌, wrap64}
use crypto_mm_engine.Common.Fixed.{
  narrow, checked_add, checked_sub, checked_notional_of, saturating_abs,
}
use crypto_mm_engine.Portfolio.Types.{no_error, checked_net}
use crypto_mm_engine.Portfolio.SeenTrades.{no_trades, no_trades-IsRing}
use crypto_mm_engine.Portfolio.Account.{
  PositionAccount, abs_notional, checked_gross_exposure, mark_or_average,
}
use crypto_mm_engine.Portfolio.Effect.{IsAccount}
use crypto_mm_engine.Portfolio.Accountant.{PortfolioAccountant, save_all, restore_all}
use crypto_mm_engine.Portfolio.Accountant.Totals.{
  portfolio_snapshot, add_accounts, add_account, count_position, add_net, add_pnl, add_total,
}
use crypto_mm_engine.Portfolio.Accountant.Sums.{IsExact, portfolio_snapshot-IsExact}
use crypto_mm_engine.Portfolio.Accountant.Recovery.{recovered, restore_all-save_all}

-- Two units long at 100, marked at 101.
abbrev long_two : PositionAccount
long_two = record {
  symbol = "BTCUSDT";
  position = pos 200_000_000;
  average_price = pos 10_000_000_000;
  realized = pos 700;
  unrealized = pos 200_000_000;
  fees = pos 5;
  last_mark = pos 10_100_000_000;
  fill_count = 1;
  unrealized_valid = true;
  faulted = false;
  seen = no_trades;
}

-- One unit short at 50.
abbrev short_one : PositionAccount
short_one = record {
  symbol = "ETHUSDT";
  position = negsuc 99_999_999;
  average_price = pos 5_000_000_000;
  realized = negsuc 99;
  unrealized = pos 0;
  fees = pos 6;
  last_mark = pos 5_000_000_000;
  fill_count = 1;
  unrealized_valid = true;
  faulted = false;
  seen = no_trades;
}

abbrev ledger : PortfolioAccountant
ledger = record {
  config = record { max_mark_age_ns = pos 500; max_symbols = 4 };
  accounts = long_two ∷ short_one ∷ [];
  balances = [];
  balance_capacity = 4;
  sequence = 2;
  metrics = record {
    fills_applied = 2;
    duplicate_fills = 0;
    rejected_fills = 0;
    flips = 0;
    closes = 0;
    marks_applied = 0;
    marks_rejected = 0;
    stale_marks = 0;
    overflows = 0;
    faults = 0;
  };
}

ledger-valid : (portfolio_snapshot (pos 9) ledger).valid ≡ true
unfolding portfolio_snapshot add_accounts add_account count_position add_net add_pnl add_total
    checked_gross_exposure mark_or_average checked_net checked_add checked_sub checked_notional_of
    narrow saturating_abs wrap64 abs_notional ◌+ℤ◌ ◌-ℤ◌ ◌*ℤ◌ ◌/ℤ◌
ledger-valid = refl

portfolio_snapshot-IsExact_example :
    IsExact (long_two ∷ short_one ∷ []) (portfolio_snapshot (pos 9) ledger)
portfolio_snapshot-IsExact_example = portfolio_snapshot-IsExact (pos 9) ledger ledger-valid

abbrev fresh : PortfolioAccountant
fresh = record ledger { accounts = []; sequence = 0 }

long_two-IsAccount : IsAccount long_two
long_two-IsAccount = record {
  position_range = omega arith;
  average_range = omega arith;
  basis = refl;
  fees_nonneg = refl;
  flat_value = λ z. absurd (ground arith);
  flat_valid = λ z. refl;
  ring = no_trades-IsRing;
}

short_one-IsAccount : IsAccount short_one
short_one-IsAccount = record {
  position_range = omega arith;
  average_range = omega arith;
  basis = refl;
  fees_nonneg = refl;
  flat_value = λ z. refl;
  flat_valid = λ z. refl;
  ring = no_trades-IsRing;
}

restore_all-save_all_example : restore_all (save_all ledger) 8 fresh ≡ (
  no_error,
  record fresh {
    accounts = map recovered ledger.accounts;
    balances = ledger.balances;
    balance_capacity = 8;
    sequence = ledger.sequence;
  },
)
restore_all-save_all_example =
    restore_all-save_all ledger fresh 8 (long_two-IsAccount, (short_one-IsAccount, tt)) refl refl
