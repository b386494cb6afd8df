-- ===== src/Paper/Tests.antt =====
-- A bid against two asks, and each theorem at it.
use crypto_mm_engine.Prelude.{◌≡◌, refl, true, ap, [], ◌∷◌, arith}
use crypto_mm_engine.Prelude.Int.{pos, ◌+ℤ◌, ◌-ℤ◌, ◌*ℤ◌, ◌/ℤ◌, wrap64}
use crypto_mm_engine.Common.Types.{Side}
use crypto_mm_engine.Common.Fixed.{Px, Qty, is_positive, checked_add, checked_sub, narrow}
use crypto_mm_engine.Oms.Lifecycle.{status_new}
use crypto_mm_engine.OrderBook.Levels.{PriceLevel}
use crypto_mm_engine.Paper.Matcher.{
  PaperOrder, is_executable, displayed_liquidity, remaining_qty, apply_share, take_from,
  visit_level, walk_levels, match_displayed, match_and_consume,
}
use crypto_mm_engine.Paper.Price.{match_and_consume-KeepsLimit}
use crypto_mm_engine.Paper.Matching.{IsMatch, match_and_consume-IsMatch}

abbrev level : Px → Qty → PriceLevel
level price quantity = record { price = price; quantity = quantity }

-- Ten are wanted at 101 or better.
abbrev bid : PaperOrder
bid = record {
  side = Side.buy;
  price = pos 101;
  original_qty = pos 12;
  cumulative_qty = pos 2;
  status = status_new;
}

-- Half of what is shown may be taken: two at 100 and eight at 101.
matched_quantity :
    (match_and_consume bid
      (level (pos 100) (pos 4) ∷ level (pos 101) (pos 40) ∷ [])
      displayed_liquidity
      5_000).0.quantity
    ≡ pos 10
unfolding match_and_consume match_displayed walk_levels visit_level take_from apply_share
    remaining_qty checked_add checked_sub narrow wrap64 ◌+ℤ◌ ◌-ℤ◌ ◌*ℤ◌ ◌/ℤ◌
matched_quantity = refl

match_and_consume-IsMatch_example :
    IsMatch bid (level (pos 100) (pos 4) ∷ level (pos 101) (pos 40) ∷ []) (
      match_and_consume bid
        (level (pos 100) (pos 4) ∷ level (pos 101) (pos 40) ∷ [])
        displayed_liquidity
        5_000)
match_and_consume-IsMatch_example =
    match_and_consume-IsMatch bid (level (pos 100) (pos 4) ∷ level (pos 101) (pos 40) ∷ []) 5_000
      ((omega arith, (omega arith, omega arith)), ((omega arith, (omega arith, omega arith)), tt))

match_and_consume-KeepsLimit_example :
    is_executable Side.buy
      (pos 101)
      (match_and_consume bid
        (level (pos 100) (pos 4) ∷ level (pos 101) (pos 40) ∷ [])
        displayed_liquidity
        5_000).0.price
    ≡ true
match_and_consume-KeepsLimit_example =
    match_and_consume-KeepsLimit bid (level (pos 100) (pos 4) ∷ level (pos 101) (pos 40) ∷ []) 5_000
      (refl, (omega arith, omega arith))
      ((refl, (omega arith, omega arith)), ((refl, (omega arith, omega arith)), tt))
      (ap is_positive matched_quantity)
