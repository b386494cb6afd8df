-- ===== src/OrderBook/Queries.antt =====
-- The accessors and the audit of src/orderbook/OrderBook.cpp.
use crypto_mm_engine.Prelude.{
  ℕ, Bool, true, false, not, List, [], ◌∷◌, if◌then◌else◌, ltb, length, take,
}
use crypto_mm_engine.Prelude.Int.{pos, ◌+ℤ◌, ◌/ℤ◌, eqb_ℤ, wrap64}
use crypto_mm_engine.Common.Types.{Side, Seq}
use crypto_mm_engine.Common.Fixed.{Px, Qty, is_zero, is_positive, is_negative, add, sub}
use crypto_mm_engine.OrderBook.Levels.{
  PriceLevel, is_better, locate, found, front_price, front_quantity,
}
use crypto_mm_engine.OrderBook.{
  OrderBook, BookViolation, no_violation, crossed_book, locked_book, negative_quantity,
  zero_quantity_level, non_positive_price, unsorted_levels, duplicate_level, depth_exceeded,
  two_sided, is_crossed, is_locked, side_of,
}

pub record BestBidAsk : Type 0 where
  pub bid_px : Px
  pub bid_qty : Qty
  pub ask_px : Px
  pub ask_qty : Qty
  pub seq : Seq

unfoldable pub bbo : OrderBook → BestBidAsk
unfolding front_price front_quantity
bbo b = record {
  bid_px = front_price b.bids;
  bid_qty = front_quantity b.bids;
  ask_px = front_price b.asks;
  ask_qty = front_quantity b.asks;
  seq = b.last_update_id;
}

unfoldable pub spread : OrderBook → Px
unfolding two_sided front_price
spread b = if two_sided b.bids b.asks then sub (front_price b.asks) (front_price b.bids) else pos 0

unfoldable pub mid : OrderBook → Px
unfolding two_sided front_price
mid b =
    if two_sided b.bids b.asks
    then wrap64 (front_price b.bids +ℤ front_price b.asks) /ℤ pos 2
    else pos 0

unfoldable pub quantity_at : Side → Px → OrderBook → Qty
unfolding found front_quantity
quantity_at which price b =
    let rest = (locate which price (side_of which b)).1 in
    if found price rest then front_quantity rest else pos 0

unfoldable pub total_qty : Qty → List PriceLevel → Qty
total_qty acc [] = acc
total_qty acc (l ∷ ls) = total_qty (add acc l.quantity) ls

unfoldable pub cumulative_qty : Side → ℕ → OrderBook → Qty
unfolding total_qty
cumulative_qty which levels b = total_qty (pos 0) (take levels (side_of which b))

-- The loop of `audit_side` at the levels after one with the price `previous`.
unfoldable pub audit_from : Side → Px → List PriceLevel → BookViolation
audit_from which previous [] = no_violation
audit_from which previous (l ∷ ls) =
    let rest = audit_from which l.price ls in
    if not (is_positive l.price)
    then non_positive_price
    else if is_negative l.quantity
    then negative_quantity
    else if is_zero l.quantity
    then zero_quantity_level
    else if eqb_ℤ l.price previous
    then duplicate_level
    else if not (is_better which previous l.price)
    then unsorted_levels
    else rest

unfoldable pub audit_levels : Side → List PriceLevel → BookViolation
unfolding audit_from
audit_levels which [] = no_violation
audit_levels which (l ∷ ls) =
    if not (is_positive l.price)
    then non_positive_price
    else if is_negative l.quantity
    then negative_quantity
    else if is_zero l.quantity
    then zero_quantity_level
    else audit_from which l.price ls

unfoldable pub audit_side : ℕ → Side → List PriceLevel → BookViolation
unfolding audit_levels
audit_side max_depth which side =
    if ltb max_depth (length side) then depth_exceeded else audit_levels which side

abbrev pub is_clean : BookViolation → Bool
is_clean no_violation = true
is_clean _ = false

unfoldable pub check_invariants : OrderBook → BookViolation
check_invariants b =
    let bid_violation = audit_side b.max_depth Side.buy b.bids in
    if not (is_clean bid_violation)
    then bid_violation
    else let ask_violation = audit_side b.max_depth Side.sell b.asks in
      if not (is_clean ask_violation)
      then ask_violation
      else if is_crossed b.bids b.asks
      then crossed_book
      else if is_locked b.bids b.asks
      then locked_book
      else no_violation
