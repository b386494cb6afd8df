-- ===== src/OrderBook/Message.antt =====
-- What a book of src/orderbook/OrderBook.cpp answers after a whole update that it accepted.
use crypto_mm_engine.Prelude.{
  ◌+◌, ◌≤◌, ◌≡◌, refl, true, List, [], ◌∷◌, arith, length, All, ap, ◌∙◌, Bool-cases, inl, inr,
}
use crypto_mm_engine.Common.Types.{Side, Seq, is_ok}
use crypto_mm_engine.Common.Fixed.{Px}
use crypto_mm_engine.OrderBook.Levels.{PriceLevel, BookLevels, used_bids, used_asks}
use crypto_mm_engine.OrderBook.{
  OrderBook, side_of, apply_level, apply_levels, finish_update, apply_update,
}
use crypto_mm_engine.OrderBook.Queries.{quantity_at}
use crypto_mm_engine.OrderBook.Order.{IsOrdered}
use crypto_mm_engine.OrderBook.Invariant.{
  IsSound, place_buy-asks, place_sell-bids, apply_levels-SameFrame,
}
use crypto_mm_engine.OrderBook.Lookup.{
  IsUpdate, upsert_all, last_quantity, side_of-apply_levels, quantity_at-upsert_all,
}

-- The levels that an update has for a side.
abbrev pub used : Side → BookLevels → List PriceLevel
used Side.buy levels = used_bids levels
used Side.sell levels = used_asks levels

apply_level-IsUpdate :
    (which : Side) (l : PriceLevel) (b : OrderBook)
    → is_ok (apply_level which l b).0 ≡ true
    → IsUpdate l
unfolding apply_level
apply_level-IsUpdate which l b e = ground arith

apply_levels-IsUpdate :
    (which : Side) (ls : List PriceLevel) (b : OrderBook)
    → is_ok (apply_levels which ls b).0 ≡ true
    → All IsUpdate ls
unfolding apply_levels
apply_levels-IsUpdate which [] b e = tt
apply_levels-IsUpdate which (l ∷ ls) b e = elim (Bool-cases (is_ok (apply_level which l b).0)) [
  | inl o ↦ (
    apply_level-IsUpdate which l b o,
    apply_levels-IsUpdate which ls (apply_level which l b).1 (ground (arith, o)),
  )
  | inr o ↦ absurd (ground (arith, o))
]

apply_buy-asks : (l : PriceLevel) (b : OrderBook) → (apply_level Side.buy l b).1.asks ≡ b.asks
unfolding apply_level
apply_buy-asks l b = ground (arith, place_buy-asks l b)

apply_sell-bids : (l : PriceLevel) (b : OrderBook) → (apply_level Side.sell l b).1.bids ≡ b.bids
unfolding apply_level
apply_sell-bids l b = ground (arith, place_sell-bids l b)

apply_buys-asks :
    (ls : List PriceLevel) (b : OrderBook) → (apply_levels Side.buy ls b).1.asks ≡ b.asks
unfolding apply_levels
apply_buys-asks [] b = refl
apply_buys-asks (l ∷ ls) b =
    ground (arith, apply_buy-asks l b, apply_buys-asks ls (apply_level Side.buy l b).1)

apply_sells-bids :
    (ls : List PriceLevel) (b : OrderBook) → (apply_levels Side.sell ls b).1.bids ≡ b.bids
unfolding apply_levels
apply_sells-bids [] b = refl
apply_sells-bids (l ∷ ls) b =
    ground (arith, apply_sell-bids l b, apply_sells-bids ls (apply_level Side.sell l b).1)

-- An accepted update ran both loops to their ends, and its sides are what they left.
record RanBoth (levels : BookLevels) (n : Seq) (b : OrderBook) : Type 0 where
  bought : is_ok (apply_levels Side.buy (used_bids levels) b).0 ≡ true
  sold :
      is_ok
        (apply_levels Side.sell (used_asks levels) (apply_levels Side.buy (used_bids levels) b).1).0
      ≡ true
  bids :
      (apply_update levels n b).1.bids
      ≡ (apply_levels Side.sell
          (used_asks levels)
          (apply_levels Side.buy (used_bids levels) b).1).1.bids
  asks :
      (apply_update levels n b).1.asks
      ≡ (apply_levels Side.sell
          (used_asks levels)
          (apply_levels Side.buy (used_bids levels) b).1).1.asks

apply_update-RanBoth :
    (levels : BookLevels) (n : Seq) (b : OrderBook)
    → is_ok (apply_update levels n b).0 ≡ true
    → RanBoth levels n b
unfolding apply_update finish_update
apply_update-RanBoth levels n b e = ground arith

side_of-apply_update :
    (which : Side) (levels : BookLevels) (n : Seq) (b : OrderBook)
    → is_ok (apply_update levels n b).0 ≡ true
    → length (side_of which b) + length (used which levels) ≤ b.max_depth
    → side_of which (apply_update levels n b).1
      ≡ upsert_all which (used which levels) (side_of which b)
side_of-apply_update Side.buy levels n b e room =
    let ran = apply_update-RanBoth levels n b e in
    let bought = apply_levels Side.buy (used_bids levels) b in
    let valid = apply_levels-IsUpdate Side.buy (used_bids levels) b ran.bought in
    ran.bids
    ∙ apply_sells-bids (used_asks levels) bought.1
    ∙ (side_of-apply_levels Side.buy (used_bids levels) b valid room).1
side_of-apply_update Side.sell levels n b e room =
    let ran = apply_update-RanBoth levels n b e in
    let bought = apply_levels Side.buy (used_bids levels) b in
    let valid = apply_levels-IsUpdate Side.sell (used_asks levels) bought.1 ran.sold in
    let frame = apply_levels-SameFrame Side.buy (used_bids levels) b in
    let kept = apply_buys-asks (used_bids levels) b in
    let fits : length bought.1.asks + length (used_asks levels) ≤ bought.1.max_depth =
      omega (arith, ap length kept, frame.max_depth) in
    ran.asks
    ∙ (side_of-apply_levels Side.sell (used_asks levels) bought.1 valid fits).1
    ∙ ap (upsert_all Side.sell (used_asks levels)) kept

side-IsOrdered : (which : Side) (b : OrderBook) → IsSound b → IsOrdered which (side_of which b)
side-IsOrdered Side.buy b s = s.structured.bid_side.1
side-IsOrdered Side.sell b s = s.structured.ask_side.1

-- After an update that a well-formed book accepted, on a side that had room for all of the update's
-- levels, the book answers for each price the last quantity that the update gave it (a zero deletes),
-- and the old quantity for a price that is not in the update.
pub quantity_at-apply_update :
    (which : Side) (p : Px) (levels : BookLevels) (n : Seq) (b : OrderBook)
    → IsSound b
    → is_ok (apply_update levels n b).0 ≡ true
    → length (side_of which b) + length (used which levels) ≤ b.max_depth
    → quantity_at which p (apply_update levels n b).1
      ≡ last_quantity p (used which levels) (quantity_at which p b)
quantity_at-apply_update which p levels n b s e room =
    quantity_at-upsert_all which p (used which levels) b (apply_update levels n b).1
      (side-IsOrdered which b s) (side_of-apply_update which levels n b e room)
