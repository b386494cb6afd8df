-- ===== src/OrderBook/Invariant.antt =====
-- The invariant of a book (src/orderbook/OrderBook.cpp): both sides are well formed, what is staged
-- is live, and a book that is not marked invalid is not crossed.
use crypto_mm_engine.Prelude.{
  Bool-cases, inl, inr, ◌≡◌, true, false, List, [], ◌∷◌, arith, All, sym, subst,
}
use crypto_mm_engine.Common.Types.{is_ok, Side}
use crypto_mm_engine.Common.Fixed.{Qty, is_zero, is_positive, is_negative}
use crypto_mm_engine.OrderBook.Levels.{PriceLevel}
use crypto_mm_engine.OrderBook.{
  OrderBook, side_of, place_level, apply_level, apply_levels, is_crossed, is_locked,
}
use crypto_mm_engine.OrderBook.Sides.{IsLive, IsSide, take-upsert-IsSide}
use crypto_mm_engine.OrderBook.Refinement.{side_of-place_level}

pub record IsStructured (b : OrderBook) : Type 0 where
  pub bid_side : IsSide b.max_depth Side.buy b.bids
  pub ask_side : IsSide b.max_depth Side.sell b.asks
  pub staged_bids : All IsLive b.staging_bids
  pub staged_asks : All IsLive b.staging_asks

pub record IsSound (b : OrderBook) : Type 0 where
  pub structured : IsStructured b
  pub uncrossed : b.violated ≡ false → is_crossed b.bids b.asks ≡ false
  pub unlocked : b.violated ≡ false → is_locked b.bids b.asks ≡ false

-- What putting a level into a side leaves alone.
pub record SameFrame (b c : OrderBook) : Type 0 where
  pub max_depth : c.max_depth ≡ b.max_depth
  pub staging_bids : c.staging_bids ≡ b.staging_bids
  pub staging_asks : c.staging_asks ≡ b.staging_asks
  pub snapshot_applied : c.snapshot_applied ≡ b.snapshot_applied
  pub last_update_id : c.last_update_id ≡ b.last_update_id

place_level-SameFrame :
    (which : Side) (l : PriceLevel) (b : OrderBook) → SameFrame b (place_level which l b)
unfolding place_level
place_level-SameFrame Side.buy l b = ground arith
place_level-SameFrame Side.sell l b = ground arith

pub place_level-violated :
    (which : Side) (l : PriceLevel) (b : OrderBook) → (place_level which l b).violated ≡ b.violated
unfolding place_level
place_level-violated Side.buy l b = ground arith
place_level-violated Side.sell l b = ground arith

pub place_buy-asks : (l : PriceLevel) (b : OrderBook) → (place_level Side.buy l b).asks ≡ b.asks
unfolding place_level
place_buy-asks l b = ground arith

pub place_sell-bids : (l : PriceLevel) (b : OrderBook) → (place_level Side.sell l b).bids ≡ b.bids
unfolding place_level
place_sell-bids l b = ground arith

pub apply_level-SameFrame :
    (which : Side) (l : PriceLevel) (b : OrderBook) → SameFrame b (apply_level which l b).1
unfolding apply_level
apply_level-SameFrame which l b = ground (arith, place_level-SameFrame which l b)

pub trans-SameFrame : {b c d : OrderBook} → SameFrame b c → SameFrame c d → SameFrame b d
trans-SameFrame f g = ground arith

pub apply_levels-SameFrame :
    (which : Side) (ls : List PriceLevel) (b : OrderBook) → SameFrame b (apply_levels which ls b).1
unfolding apply_levels
apply_levels-SameFrame which [] b = ground arith
apply_levels-SameFrame which (l ∷ ls) b =
    let head = apply_level-SameFrame which l b in
    let tail = apply_levels-SameFrame which ls (apply_level which l b).1 in
    ground (arith, head, tail)

nonzero_positive : (q : Qty) → is_negative q ≡ false → is_zero q ≡ false → is_positive q ≡ true
nonzero_positive q n z = ground arith

place_level-side :
    (which : Side) (l : PriceLevel) (b : OrderBook)
    → is_positive l.price ≡ true
    → is_negative l.quantity ≡ false
    → IsSide b.max_depth which (side_of which b)
    → IsSide b.max_depth which (side_of which (place_level which l b))
place_level-side which l b p n s =
    subst (IsSide b.max_depth which) (sym (side_of-place_level which l b s.0))
      (take-upsert-IsSide b.max_depth which l (side_of which b) p (nonzero_positive l.quantity n) s)

place_level-IsStructured :
    (which : Side) (l : PriceLevel) (b : OrderBook)
    → is_positive l.price ≡ true
    → is_negative l.quantity ≡ false
    → IsStructured b
    → IsStructured (place_level which l b)
place_level-IsStructured Side.buy l b p n s = ground (
  arith,
  place_level-SameFrame Side.buy l b,
  place_buy-asks l b,
  place_level-side Side.buy l b p n s.bid_side,
)
place_level-IsStructured Side.sell l b p n s = ground (
  arith,
  place_level-SameFrame Side.sell l b,
  place_sell-bids l b,
  place_level-side Side.sell l b p n s.ask_side,
)

pub apply_level-IsStructured :
    (which : Side) (l : PriceLevel) (b : OrderBook)
    → IsStructured b
    → IsStructured (apply_level which l b).1
unfolding apply_level
apply_level-IsStructured which l b s = ground (arith, place_level-IsStructured which l b)

pub apply_levels-IsStructured :
    (which : Side) (ls : List PriceLevel) (b : OrderBook)
    → IsStructured b
    → IsStructured (apply_levels which ls b).1
unfolding apply_levels
apply_levels-IsStructured which [] b s = s
apply_levels-IsStructured which (l ∷ ls) b s =
    let head = apply_level-IsStructured which l b s in
    let tail = apply_levels-IsStructured which ls (apply_level which l b).1 head in
    elim (Bool-cases (is_ok (apply_level which l b).0)) [ inl e ↦ rw e tail | inr e ↦ rw e head ]
