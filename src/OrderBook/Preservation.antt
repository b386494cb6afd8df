-- ===== src/OrderBook/Preservation.antt =====
-- The invariant of a book through each operation of src/orderbook/OrderBook.cpp.
use crypto_mm_engine.Prelude.{
  ℕ, ◌≤◌, ◌≡◌, true, false, List, [], ◌∷◌, ◌++◌, arith, length, All, Bool-cases, inl, inr, ltb,
  length-take,
}
use crypto_mm_engine.Common.Types.{Side, Seq, Symbol, is_ok}
use crypto_mm_engine.OrderBook.Levels.{
  PriceLevel, BookLevels, used_bids, used_asks, sort_levels, has_duplicates,
}
use crypto_mm_engine.OrderBook.{
  OrderBook, apply_level, apply_levels, finish_update, apply_update, is_crossed, is_locked, clear,
  reset, begin_snapshot, add_snapshot_levels, stage_levels, finish_snapshot, resize_to, is_valid,
}
use crypto_mm_engine.OrderBook.Order.{IsOrdered}
use crypto_mm_engine.OrderBook.Sides.{
  IsLive, IsSide, sort_levels-IsOrdered, sort_levels-IsLive, take-IsOrdered, take-IsLive,
}
use crypto_mm_engine.OrderBook.Invariant.{
  IsStructured, IsSound, place_level-violated, apply_levels-SameFrame, apply_levels-IsStructured,
}

-- An update of a level that fails marks the book invalid.
apply_level-violated :
    (which : Side) (l : PriceLevel) (b : OrderBook)
    → is_ok (apply_level which l b).0 ≡ false
    → (apply_level which l b).1.violated ≡ true
unfolding apply_level
apply_level-violated which l b e = ground arith

apply_levels-violated :
    (which : Side) (ls : List PriceLevel) (b : OrderBook)
    → is_ok (apply_levels which ls b).0 ≡ false
    → (apply_levels which ls b).1.violated ≡ true
unfolding apply_levels
apply_levels-violated which [] b e = cc
apply_levels-violated which (l ∷ ls) b e = ground (
  arith,
  apply_level-violated which l b,
  apply_levels-violated which ls (apply_level which l b).1,
)

-- A mark of invalidity is never taken back by an update.
apply_level_keeps_violated :
    (which : Side) (l : PriceLevel) (b : OrderBook)
    → b.violated ≡ true
    → (apply_level which l b).1.violated ≡ true
unfolding apply_level
apply_level_keeps_violated which l b v = ground (arith, place_level-violated which l b)

pub apply_levels_keep_violated :
    (which : Side) (ls : List PriceLevel) (b : OrderBook)
    → b.violated ≡ true
    → (apply_levels which ls b).1.violated ≡ true
unfolding apply_levels
apply_levels_keep_violated which [] b v = v
apply_levels_keep_violated which (l ∷ ls) b v = ground (
  arith,
  apply_level_keeps_violated which l b v,
  apply_levels_keep_violated which ls (apply_level which l b).1,
)

finish_update-IsSound : (n : Seq) (b : OrderBook) → IsStructured b → IsSound (finish_update n b).1
unfolding finish_update
finish_update-IsSound n b s = ground arith

violated-IsSound : {b : OrderBook} → IsStructured b → b.violated ≡ true → IsSound b
violated-IsSound s v = record { structured = s; uncrossed = λ e. cc; unlocked = λ e. cc }

-- An update keeps the invariant, also when it stops halfway through its levels.
pub apply_update-IsSound :
    (levels : BookLevels) (n : Seq) (b : OrderBook)
    → IsSound b
    → IsSound (apply_update levels n b).1
unfolding apply_update
apply_update-IsSound levels n b s =
    let bids = apply_levels Side.buy (used_bids levels) b in
    let bid_structured = apply_levels-IsStructured Side.buy (used_bids levels) b s.structured in
    let asks = apply_levels Side.sell (used_asks levels) bids.1 in
    let ask_structured =
      apply_levels-IsStructured Side.sell (used_asks levels) bids.1 bid_structured in
    ground (
      arith,
      violated-IsSound {b = bids.1} bid_structured,
      violated-IsSound {b = asks.1} ask_structured,
      apply_levels-violated Side.buy (used_bids levels) b,
      apply_levels-violated Side.sell (used_asks levels) bids.1,
      finish_update-IsSound n asks.1 ask_structured,
    )

-- An update that fails never leaves a book that counts as valid.
pub apply_update-error :
    (levels : BookLevels) (n : Seq) (b : OrderBook)
    → is_ok (apply_update levels n b).0 ≡ false
    → is_valid (apply_update levels n b).1 ≡ false
unfolding apply_update is_valid finish_update
apply_update-error levels n b e = ground (
  arith,
  apply_levels-violated Side.buy (used_bids levels) b,
  apply_levels-violated Side.sell (used_asks levels) (apply_levels Side.buy (used_bids levels) b).1,
)

-- The last applied id never falls.
pub last_update_id-apply_update :
    (levels : BookLevels) (n : Seq) (b : OrderBook)
    → b.last_update_id ≤ (apply_update levels n b).1.last_update_id
unfolding apply_update finish_update
last_update_id-apply_update levels n b = ground (
  arith,
  apply_levels-SameFrame Side.buy (used_bids levels) b,
  apply_levels-SameFrame Side.sell (used_asks levels)
      (apply_levels Side.buy (used_bids levels) b).1,
)

All-append :
    (xs : List PriceLevel) (l : PriceLevel) → All IsLive xs → IsLive l → All IsLive (xs ++ l ∷ [])
All-append [] l a p = (p, tt)
All-append (x ∷ xs) l a p = (a.0, All-append xs l a.1 p)

stage_levels-IsLive :
    (staged ls : List PriceLevel) → All IsLive staged → All IsLive (stage_levels staged ls).1
unfolding stage_levels
stage_levels-IsLive staged [] a = a
stage_levels-IsLive staged (l ∷ ls) a = ground (
  arith,
  stage_levels-IsLive staged ls a,
  All-append staged l a,
  stage_levels-IsLive (staged ++ l ∷ []) ls,
)

pub add_snapshot_levels-IsSound :
    (levels : BookLevels) (b : OrderBook) → IsSound b → IsSound (add_snapshot_levels levels b).1
unfolding add_snapshot_levels
add_snapshot_levels-IsSound levels b s =
    let bids = stage_levels-IsLive b.staging_bids (used_bids levels) s.structured.staged_bids in
    let asks = stage_levels-IsLive b.staging_asks (used_asks levels) s.structured.staged_asks in
    ground (arith, bids, asks)

pub begin_snapshot-IsSound : (b : OrderBook) → IsSound b → IsSound (begin_snapshot b)
unfolding begin_snapshot
begin_snapshot-IsSound b s = ground arith

pub clear-IsSound : (b : OrderBook) → IsSound (clear b)
unfolding clear is_crossed is_locked
clear-IsSound b = ground arith

resize_to-IsSide :
    (depth : ℕ) (which : Side) (ls : List PriceLevel)
    → IsOrdered which ls
    → All IsLive ls
    → IsSide depth which (resize_to depth ls)
unfolding resize_to
resize_to-IsSide depth which ls o a = elim (Bool-cases (ltb depth (length ls))) [
  | inl long ↦
      rw long (
        omega (arith, length-take depth ls),
        take-IsOrdered which depth ls o,
        take-IsLive depth ls a,
      )
  | inr short ↦ rw short (ground arith, o, a)
]

finish_side-IsSide :
    (depth : ℕ) (which : Side) (ls : List PriceLevel)
    → All IsLive ls
    → has_duplicates (sort_levels which ls) ≡ false
    → IsSide depth which (resize_to depth (sort_levels which ls))
finish_side-IsSide depth which ls a d =
    resize_to-IsSide depth which (sort_levels which ls) (sort_levels-IsOrdered which ls d)
      (sort_levels-IsLive which ls a)

resize_to-IsLive :
    (depth : ℕ) (ls : List PriceLevel) → All IsLive ls → All IsLive (resize_to depth ls)
unfolding resize_to
resize_to-IsLive depth ls a = ground (arith, take-IsLive depth ls a)

-- A snapshot, accepted or refused, keeps the invariant.
pub finish_snapshot-IsSound :
    (n : Seq) (b : OrderBook) → IsSound b → IsSound (finish_snapshot n b).1
unfolding finish_snapshot
finish_snapshot-IsSound n b s =
    let bids = b.staging_bids in
    let asks = b.staging_asks in
    let live_bids = s.structured.staged_bids in
    let live_asks = s.structured.staged_asks in
    let sorted_bids = sort_levels-IsLive Side.buy bids live_bids in
    let sorted_asks = sort_levels-IsLive Side.sell asks live_asks in
    ground (
      arith,
      sorted_bids,
      sorted_asks,
      resize_to-IsLive b.max_depth (sort_levels Side.buy bids) sorted_bids,
      resize_to-IsLive b.max_depth (sort_levels Side.sell asks) sorted_asks,
      finish_side-IsSide b.max_depth Side.buy bids live_bids,
      finish_side-IsSide b.max_depth Side.sell asks live_asks,
    )

pub reset-IsSound : (s : Symbol) (depth : ℕ) (b : OrderBook) → IsSound (reset s depth b)
unfolding reset is_crossed is_locked
reset-IsSound s depth b = ground arith
