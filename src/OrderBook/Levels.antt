-- ===== src/OrderBook/Levels.antt =====
-- Price levels and one side of the book as a list, best level first:
-- include/mm/exchange/common/MarketDataEvents.hpp and the helpers of src/orderbook/OrderBook.cpp.
use crypto_mm_engine.Prelude.{
  ℕ, Bool, true, false, ◌&&◌, ◌||◌, List, [], ◌∷◌, if◌then◌else◌, leb, take,
}
use crypto_mm_engine.Prelude.Int.{pos, ltb_ℤ, eqb_ℤ}
use crypto_mm_engine.Common.Types.{Side}
use crypto_mm_engine.Common.Fixed.{Px, Qty}

pub record PriceLevel : Type 0 where
  pub price : Px
  pub quantity : Qty

-- The two arrays of 16 levels with the number of levels in use.
pub record BookLevels : Type 0 where
  pub bids : List PriceLevel
  pub asks : List PriceLevel
  pub bid_count : ℕ
  pub ask_count : ℕ

abbrev pub max_levels_per_event : ℕ
max_levels_per_event = 16

unfoldable pub counts_are_sane : BookLevels → Bool
counts_are_sane l = leb l.bid_count max_levels_per_event && leb l.ask_count max_levels_per_event

-- The levels that a loop over the first `count` array entries visits.
unfoldable pub used_bids : BookLevels → List PriceLevel
used_bids l = take l.bid_count l.bids

unfoldable pub used_asks : BookLevels → List PriceLevel
used_asks l = take l.ask_count l.asks

-- A side is ordered best first: bids fall, asks rise.
abbrev pub is_better : Side → Px → Px → Bool
is_better Side.buy a b = ltb_ℤ b a
is_better Side.sell a b = ltb_ℤ a b

-- `std::lower_bound` over a partitioned range: the levels that are better than the price, and the
-- others. (The iterator stands between the two.)
unfoldable pub locate : Side → Px → List PriceLevel → List PriceLevel × List PriceLevel
locate which price [] = ([], [])
locate which price (l ∷ ls) =
    let rest = locate which price ls in
    if is_better which l.price price then (l ∷ rest.0, rest.1) else ([], l ∷ ls)

-- `it != end && it->price == price`
unfoldable pub found : Px → List PriceLevel → Bool
found price [] = false
found price (l ∷ ls) = eqb_ℤ l.price price

unfoldable pub is_end : List PriceLevel → Bool
is_end [] = true
is_end (l ∷ ls) = false

-- `side.erase(it)` and `it->quantity = quantity`, on the part from `it`.
unfoldable pub erase_first : List PriceLevel → List PriceLevel
erase_first [] = []
erase_first (l ∷ ls) = ls

unfoldable pub set_first : Qty → List PriceLevel → List PriceLevel
set_first quantity [] = []
set_first quantity (l ∷ ls) = record l { quantity = quantity } ∷ ls

-- `front()` of a side, or the zero that the accessors answer for an empty one.
unfoldable pub front_price : List PriceLevel → Px
front_price [] = pos 0
front_price (l ∷ ls) = l.price

unfoldable pub front_quantity : List PriceLevel → Qty
front_quantity [] = pos 0
front_quantity (l ∷ ls) = l.quantity

-- `std::sort` by the side's order: insertion of each level before the first that is not better.
-- (The order of equal prices is open in C++; such a side is rejected as a duplicate.)
unfoldable pub insert_sorted : Side → PriceLevel → List PriceLevel → List PriceLevel
insert_sorted which l [] = l ∷ []
insert_sorted which l (x ∷ xs) =
    let rest = x ∷ insert_sorted which l xs in
    if is_better which x.price l.price then rest else l ∷ x ∷ xs

unfoldable pub sort_levels : Side → List PriceLevel → List PriceLevel
unfolding insert_sorted
sort_levels which [] = []
sort_levels which (l ∷ ls) = insert_sorted which l (sort_levels which ls)

-- `std::adjacent_find` of two equal prices.
duplicates_from : Px → List PriceLevel → Bool
duplicates_from price [] = false
duplicates_from price (l ∷ ls) = eqb_ℤ price l.price || duplicates_from l.price ls

unfoldable pub has_duplicates : List PriceLevel → Bool
unfolding duplicates_from
has_duplicates [] = false
has_duplicates (l ∷ ls) = duplicates_from l.price ls
