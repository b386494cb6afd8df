-- ===== src/Portfolio/Tests.antt =====
-- Fills on a concrete account, and each theorem at one.
use crypto_mm_engine.Prelude.{◌≡◌, refl, true, false, some, arith, [], ◌∷◌}
use crypto_mm_engine.Prelude.Int.{pos, negsuc, ◌+ℤ◌, ◌-ℤ◌, ◌*ℤ◌, ◌/ℤ◌, ◌≤ℤ◌, wrap64}
use crypto_mm_engine.Common.Types.{Side}
use crypto_mm_engine.Common.Fixed.{
  is_positive, sub, narrow, checked_add, checked_sub, checked_notional_of, saturating_abs,
  min_Fixed,
}
use crypto_mm_engine.Portfolio.Types.{is_none}
use crypto_mm_engine.Portfolio.SeenTrades.{
  no_trades, contains, insert, insert_all, any_same, no_trades-IsRing, contains-insert_all,
}
use crypto_mm_engine.Portfolio.Account.{
  PositionAccount, weighted_average, signed_quantity, apply_fill, check_fill, plan_fill,
  change_cost, reduce, realized_of,
}
use crypto_mm_engine.Portfolio.Average.{weighted_average_between, max_Fixed}
use crypto_mm_engine.Portfolio.Model.{model_realized}
use crypto_mm_engine.Portfolio.Fill.{apply_fill_refused}
use crypto_mm_engine.Portfolio.Effect.{IsAccount, apply_fill-IsAccount}
use crypto_mm_engine.Portfolio.Exact.{FollowsFill, apply_fill-FollowsFill}

-- Two units long at 100.
abbrev long_two : PositionAccount
long_two = record {
  symbol = "BTCUSDT";
  position = pos 200_000_000;
  average_price = pos 10_000_000_000;
  realized = pos 0;
  unrealized = pos 0;
  fees = pos 0;
  last_mark = pos 0;
  fill_count = 1;
  unrealized_valid = false;
  faulted = false;
  seen = no_trades;
}

long_two-IsAccount : IsAccount long_two
long_two-IsAccount = record {
  position_range = omega arith;
  average_range = omega arith;
  basis = refl;
  fees_nonneg = refl;
  flat_value = λ z. refl;
  flat_valid = λ z. cc;
  ring = no_trades-IsRing;
}

-- Three units sold at 110: the two held units realize 20, and one unit short remains at 110.
flip_done :
    is_none
      (apply_fill "t1" Side.sell (pos 11_000_000_000) (pos 300_000_000) (pos 5) long_two).0.error
    ≡ true
unfolding apply_fill check_fill plan_fill change_cost reduce realized_of signed_quantity contains
    any_same checked_add checked_sub checked_notional_of narrow sub wrap64 saturating_abs ◌+ℤ◌ ◌-ℤ◌
    ◌*ℤ◌ ◌/ℤ◌
flip_done = refl

apply_fill-FollowsFill_example :
    FollowsFill Side.sell
      (pos 11_000_000_000)
      (pos 300_000_000)
      (pos 5)
      long_two
      (apply_fill "t1" Side.sell (pos 11_000_000_000) (pos 300_000_000) (pos 5) long_two)
apply_fill-FollowsFill_example =
    apply_fill-FollowsFill "t1" Side.sell (pos 11_000_000_000) (pos 300_000_000) (pos 5) long_two
      long_two-IsAccount (omega arith) (omega arith) (omega arith) flip_done

flip_realizes :
    model_realized
      (pos 200_000_000)
      (pos 10_000_000_000)
      (pos 11_000_000_000)
      (pos 0 -ℤ pos 300_000_000)
    ≡ pos 2_000_000_000
unfolding model_realized ◌-ℤ◌ ◌*ℤ◌ ◌/ℤ◌
flip_realizes = refl

apply_fill-IsAccount_example :
    IsAccount (apply_fill "t1" Side.sell (pos 11_000_000_000) (pos 300_000_000) (pos 5) long_two).1
apply_fill-IsAccount_example =
    apply_fill-IsAccount "t1" Side.sell (pos 11_000_000_000) (pos 300_000_000) (pos 5) long_two
      long_two-IsAccount (omega arith) (omega arith)

-- A fill without a trade id.
apply_fill_refused_example :
    (apply_fill "" Side.buy (pos 11_000_000_000) (pos 300_000_000) (pos 5) long_two).1 ≡ long_two
unfolding apply_fill check_fill
apply_fill_refused_example =
    apply_fill_refused "" Side.buy (pos 11_000_000_000) (pos 300_000_000) (pos 5) long_two refl

two_prices : weighted_average (pos 100) (pos 3) (pos 200) (negsuc 0) ≡ some (pos 125)
unfolding weighted_average checked_add narrow saturating_abs wrap64 ◌+ℤ◌ ◌-ℤ◌ ◌*ℤ◌ ◌/ℤ◌
two_prices = refl

weighted_average_between_example :
    (min_Fixed (pos 100) (pos 200) ≤ℤ pos 125)
    × (pos 125 ≤ℤ max_Fixed (pos 100) (pos 200))
    × (is_positive (pos 125) ≡ true)
weighted_average_between_example =
    weighted_average_between (pos 100) (pos 200) (pos 3) (negsuc 0) refl refl (omega arith)
      (omega arith) (omega arith) (omega arith) two_prices

contains-insert_all_example :
    contains "t1" (insert_all ("t2" ∷ "t1" ∷ "t3" ∷ []) (insert "t1" no_trades).1) ≡ true
unfolding contains any_same
contains-insert_all_example =
    contains-insert_all "t1" ("t2" ∷ "t1" ∷ "t3" ∷ []) no_trades no_trades-IsRing refl (omega arith)
