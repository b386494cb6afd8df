-- ===== src/OrderBook.antt =====
-- include/mm/orderbook/OrderBook.hpp and src/orderbook/OrderBook.cpp: the local L2 book. Reserving
-- memory is not modelled. Each operation returns its status with the new book.
pub mod Levels
pub mod Queries
pub mod Order
pub mod Sides
pub mod Refinement
pub mod Invariant
pub mod Preservation
pub mod Audit
pub mod Lookup
pub mod Message
pub mod History
mod Tests
use crypto_mm_engine.Prelude.{
  ℕ, ◌≤◌, ◌≡◌, Bool, true, false, not, ◌&&◌, ◌||◌, List, [], ◌∷◌, ◌++◌, if◌then◌else◌, ltb, leb,
  ◌==◌, length, take, ◌+◌,
}
use crypto_mm_engine.Prelude.Int.{pos, ◌+ℤ◌, ◌/ℤ◌, ltb_ℤ, leb_ℤ, eqb_ℤ, wrap64}
use crypto_mm_engine.Common.Types.{
  Side, Symbol, Seq, no_seq, inc64, Status, ok_code, invalid_argument, failed_precondition,
  out_of_range, is_ok,
}
use crypto_mm_engine.Common.Fixed.{Px, Qty, is_zero, is_positive, is_negative, add, sub}
use Levels.{
  PriceLevel, BookLevels, counts_are_sane, used_bids, used_asks, is_better, locate, found, is_end,
  erase_first, set_first, front_price, front_quantity, sort_levels, has_duplicates,
}

pub data BookViolation : Type 0 where
  no_violation crossed_book locked_book negative_quantity zero_quantity_level : BookViolation
  non_positive_price unsorted_levels duplicate_level depth_exceeded : BookViolation
  sequence_regression : BookViolation

pub record OrderBook : Type 0 where
  pub symbol : Symbol
  pub max_depth : ℕ
  pub bids : List PriceLevel
  pub asks : List PriceLevel
  pub staging_bids : List PriceLevel
  pub staging_asks : List PriceLevel
  pub building_snapshot : Bool
  pub last_update_id : Seq
  pub snapshot_applied : Bool
  pub violated : Bool
  pub violation : BookViolation
  pub updates_applied : ℕ
  pub levels_dropped : ℕ

abbrev pub default_max_depth : ℕ
default_max_depth = 50

unfoldable pub clear : OrderBook → OrderBook
clear b = record b {
  bids = [];
  asks = [];
  staging_bids = [];
  staging_asks = [];
  building_snapshot = false;
  last_update_id = no_seq;
  snapshot_applied = false;
  violated = false;
  violation = no_violation;
}

unfoldable pub reset : Symbol → ℕ → OrderBook → OrderBook
unfolding clear
reset symbol max_depth b = clear (record b {
  symbol = symbol;
  max_depth = if max_depth == 0 then default_max_depth else max_depth;
})

unfoldable pub mark_invalid : BookViolation → OrderBook → OrderBook
mark_invalid v b = record b { violated = true; violation = v }

unfoldable pub is_valid : OrderBook → Bool
is_valid b = b.snapshot_applied && not b.violated

unfoldable pub begin_snapshot : OrderBook → OrderBook
begin_snapshot b = record b { staging_bids = []; staging_asks = []; building_snapshot = true }

-- One loop of `add_snapshot_levels`: the staged levels, and whether an invalid level ended it.
unfoldable pub stage_levels : List PriceLevel → List PriceLevel → Bool × List PriceLevel
stage_levels staged [] = (true, staged)
stage_levels staged (l ∷ ls) =
    let skipped = stage_levels staged ls in
    let pushed = stage_levels (staged ++ l ∷ []) ls in
    if is_zero l.quantity
    then skipped
    else if not (is_positive l.price) || is_negative l.quantity
    then (false, staged)
    else pushed

unfoldable pub add_snapshot_levels : BookLevels → OrderBook → Status × OrderBook
add_snapshot_levels levels b =
    if not b.building_snapshot
    then (failed_precondition, b)
    else if not (counts_are_sane levels)
    then (out_of_range, b)
    else let (bids_ok, staged_bids) = stage_levels b.staging_bids (used_bids levels) in
      let b' = record b { staging_bids = staged_bids } in
      if not bids_ok
      then (invalid_argument, b')
      else let (asks_ok, staged_asks) = stage_levels b.staging_asks (used_asks levels) in
        let b'' = record b' { staging_asks = staged_asks } in
        if not asks_ok then (invalid_argument, b'') else (ok_code, b'')

-- `!bids.empty() && !asks.empty()`, and the two fronts compared.
unfoldable pub two_sided : List PriceLevel → List PriceLevel → Bool
unfolding is_end
two_sided bids asks = not (is_end bids) && not (is_end asks)

unfoldable pub is_crossed : List PriceLevel → List PriceLevel → Bool
unfolding two_sided front_price
is_crossed bids asks = two_sided bids asks && ltb_ℤ (front_price asks) (front_price bids)

unfoldable pub is_locked : List PriceLevel → List PriceLevel → Bool
unfolding two_sided front_price
is_locked bids asks = two_sided bids asks && eqb_ℤ (front_price bids) (front_price asks)

-- `resize(max_depth)` of a longer side.
unfoldable pub resize_to : ℕ → List PriceLevel → List PriceLevel
resize_to depth side = if ltb depth (length side) then take depth side else side

unfoldable pub finish_snapshot : Seq → OrderBook → Status × OrderBook
unfolding mark_invalid
finish_snapshot last_update_id b =
    if not b.building_snapshot
    then (failed_precondition, b)
    else let sorted_bids = sort_levels Side.buy b.staging_bids in
      let sorted_asks = sort_levels Side.sell b.staging_asks in
      let b' = record b {
        building_snapshot = false;
        staging_bids = sorted_bids;
        staging_asks = sorted_asks;
      } in
      if has_duplicates sorted_bids || has_duplicates sorted_asks
      then (invalid_argument, mark_invalid duplicate_level b')
      else let top_bids = resize_to b.max_depth sorted_bids in
        let top_asks = resize_to b.max_depth sorted_asks in
        let b'' = record b' { staging_bids = top_bids; staging_asks = top_asks } in
        if is_crossed top_bids top_asks || is_locked top_bids top_asks
        then (
          invalid_argument,
          mark_invalid (if is_locked top_bids top_asks then locked_book else crossed_book) b'',
        )
        else (
          ok_code,
          record b'' {
            bids = top_bids;
            asks = top_asks;
            staging_bids = [];
            staging_asks = [];
            last_update_id = last_update_id;
            snapshot_applied = true;
            violated = false;
            violation = no_violation;
          },
        )

abbrev pub side_of : Side → OrderBook → List PriceLevel
side_of Side.buy b = b.bids
side_of Side.sell b = b.asks

abbrev pub with_side : Side → List PriceLevel → OrderBook → OrderBook
with_side Side.buy side b = record b { bids = side }
with_side Side.sell side b = record b { asks = side }

unfoldable pub trim : Side → OrderBook → OrderBook
trim which b =
    if ltb b.max_depth (length (side_of which b))
    then record (with_side which (take b.max_depth (side_of which b)) b) {
      levels_dropped = inc64 b.levels_dropped;
    }
    else b

-- A level that passed the checks, put into its side.
unfoldable pub place_level : Side → PriceLevel → OrderBook → OrderBook
unfolding trim
place_level which level b =
    let side = side_of which b in
    let (before, rest) = locate which level.price side in
    if is_zero level.quantity
    then (if found level.price rest then with_side which (before ++ erase_first rest) b else b)
    else if found level.price rest
    then with_side which (before ++ set_first level.quantity rest) b
    else if leb b.max_depth (length side) && is_end rest
    then record b { levels_dropped = inc64 b.levels_dropped }
    else trim which (with_side which (before ++ level ∷ rest) b)

unfoldable pub apply_level : Side → PriceLevel → OrderBook → Status × OrderBook
unfolding mark_invalid
apply_level which level b =
    if not (is_positive level.price)
    then (invalid_argument, mark_invalid non_positive_price b)
    else if is_negative level.quantity
    then (invalid_argument, mark_invalid negative_quantity b)
    else (ok_code, place_level which level b)

-- A loop of `apply_update`, which returns at the first error.
unfoldable pub apply_levels : Side → List PriceLevel → OrderBook → Status × OrderBook
apply_levels which [] b = (ok_code, b)
apply_levels which (l ∷ ls) b =
    let (s, b') = apply_level which l b in
    let rest = apply_levels which ls b' in if is_ok s then rest else (s, b')

-- The check of the whole message, and the commit.
unfoldable pub finish_update : Seq → OrderBook → Status × OrderBook
unfolding mark_invalid
finish_update final_update_id b =
    if is_crossed b.bids b.asks
    then (failed_precondition, mark_invalid crossed_book b)
    else if is_locked b.bids b.asks
    then (failed_precondition, mark_invalid locked_book b)
    else (
      ok_code,
      record b {
        last_update_id = if final_update_id == no_seq then b.last_update_id else final_update_id;
        updates_applied = inc64 b.updates_applied;
      },
    )

unfoldable pub apply_update : BookLevels → Seq → OrderBook → Status × OrderBook
unfolding mark_invalid
apply_update levels final_update_id b =
    if not b.snapshot_applied
    then (failed_precondition, b)
    else if not (counts_are_sane levels)
    then (out_of_range, mark_invalid depth_exceeded b)
    else if not (final_update_id == no_seq) && ltb final_update_id b.last_update_id
    then (failed_precondition, mark_invalid sequence_regression b)
    else let (bids_status, b') = apply_levels Side.buy (used_bids levels) b in
      if not (is_ok bids_status)
      then (bids_status, b')
      else let (asks_status, b'') = apply_levels Side.sell (used_asks levels) b' in
        if not (is_ok asks_status) then (asks_status, b'') else finish_update final_update_id b''
