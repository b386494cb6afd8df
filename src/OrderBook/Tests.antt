-- ===== src/OrderBook/Tests.antt =====
-- Runs of the book, and each theorem at a concrete book.
use crypto_mm_engine.Prelude.{
  ℕ, ◌≤◌, ◌≡◌, ◌↔◌, refl, true, false, List, [], ◌∷◌, arith, length, take,
}
use crypto_mm_engine.Prelude.Int.{pos}
use crypto_mm_engine.Common.Types.{Side, is_ok}
use crypto_mm_engine.OrderBook.Levels.{
  PriceLevel, BookLevels, front_price, used_bids, used_asks, counts_are_sane, locate, found, is_end,
  erase_first, set_first, sort_levels, has_duplicates,
}
use crypto_mm_engine.OrderBook.{
  OrderBook, no_violation, is_valid, side_of, clear, reset, begin_snapshot, add_snapshot_levels,
  stage_levels, finish_snapshot, apply_update, place_level, apply_level, apply_levels,
  finish_update, is_crossed, is_locked, resize_to,
}
use crypto_mm_engine.OrderBook.Queries.{check_invariants, quantity_at, audit_side}
use crypto_mm_engine.OrderBook.Order.{upsert}
use crypto_mm_engine.OrderBook.Sides.{IsSide}
use crypto_mm_engine.OrderBook.Refinement.{side_of-place_level}
use crypto_mm_engine.OrderBook.Invariant.{IsSound}
use crypto_mm_engine.OrderBook.Preservation.{apply_update-error, last_update_id-apply_update}
use crypto_mm_engine.OrderBook.Audit.{audit_side_iff}
use crypto_mm_engine.OrderBook.Lookup.{last_quantity, best_bid_lost}
use crypto_mm_engine.OrderBook.Message.{quantity_at-apply_update}
use crypto_mm_engine.OrderBook.History.{
  empty_book, BookCall, resets, begins, adds, finishes, updates, call, run, run-clean,
}

abbrev at_price : ℕ → ℕ → PriceLevel
at_price p q = record { price = pos p; quantity = pos q }

abbrev message : List PriceLevel → List PriceLevel → BookLevels
message bids asks = record {
  bids = bids;
  asks = asks;
  bid_count = length bids;
  ask_count = length asks;
}

-- A snapshot of two bids and one ask, and an update that moves the best bid.
abbrev morning : List BookCall
morning =
    resets "BTCUSDT" 2
    ∷ begins
    ∷ adds (message (at_price 99 5 ∷ at_price 100 3 ∷ []) (at_price 102 4 ∷ []))
    ∷ finishes 10
    ∷ updates (message (at_price 101 1 ∷ at_price 100 0 ∷ []) []) 11
    ∷ []

abbrev one_bid : OrderBook
one_bid = record empty_book { max_depth = 1; bids = at_price 100 3 ∷ []; snapshot_applied = true }

run-morning : (run morning empty_book).bids ≡ at_price 101 1 ∷ []
unfolding run call reset clear begin_snapshot add_snapshot_levels stage_levels counts_are_sane
    used_bids used_asks finish_snapshot sort_levels has_duplicates resize_to is_crossed is_locked
    apply_update apply_levels apply_level place_level locate found is_end erase_first set_first
    finish_update
run-morning = refl

run-morning_valid : is_valid (run morning empty_book) ≡ true
unfolding is_valid run call reset clear begin_snapshot add_snapshot_levels stage_levels
    counts_are_sane used_bids used_asks finish_snapshot sort_levels has_duplicates resize_to
    is_crossed is_locked apply_update apply_levels apply_level place_level locate found is_end
    erase_first set_first finish_update
run-morning_valid = refl

run-clean_example : check_invariants (run morning empty_book) ≡ no_violation
run-clean_example = run-clean morning run-morning_valid

side_of-place_level_example :
    side_of Side.buy (place_level Side.buy (at_price 101 7) one_bid)
    ≡ take 1 (upsert Side.buy (at_price 101 7) (at_price 100 3 ∷ []))
side_of-place_level_example = side_of-place_level Side.buy (at_price 101 7) one_bid (omega arith)

roomy-IsSound : IsSound (record one_bid { max_depth = 5 })
unfolding is_crossed is_locked
roomy-IsSound = ground arith

-- Within one message a price is set, deleted and set again.
abbrev roomy : OrderBook
roomy = record one_bid { max_depth = 5 }

abbrev again : BookLevels
again = message (at_price 99 2 ∷ at_price 100 0 ∷ at_price 99 4 ∷ []) (at_price 105 1 ∷ [])

again-ok : is_ok (apply_update again 12 roomy).0 ≡ true
unfolding apply_update counts_are_sane used_bids used_asks apply_levels apply_level place_level
    locate found is_end erase_first set_first finish_update is_crossed is_locked
again-ok = refl

quantity_at-apply_update_example :
    quantity_at Side.buy (pos 99) (apply_update again 12 roomy).1
    ≡ last_quantity (pos 99) (used_bids again) (quantity_at Side.buy (pos 99) roomy)
unfolding used_bids
quantity_at-apply_update_example =
    quantity_at-apply_update Side.buy (pos 99) again 12 roomy roomy-IsSound again-ok (omega arith)

-- An update whose second level has no price.
apply_update-error_example :
    is_valid (apply_update (message (at_price 99 2 ∷ at_price 0 1 ∷ []) []) 12 one_bid).1 ≡ false
unfolding run call reset clear begin_snapshot add_snapshot_levels stage_levels counts_are_sane
    used_bids used_asks finish_snapshot sort_levels has_duplicates resize_to is_crossed is_locked
    apply_update apply_levels apply_level place_level locate found is_end erase_first set_first
    finish_update
apply_update-error_example =
    apply_update-error (message (at_price 99 2 ∷ at_price 0 1 ∷ []) []) 12 one_bid refl

last_update_id-apply_update_example :
    0 ≤ (apply_update (message [] (at_price 105 1 ∷ [])) 12 one_bid).1.last_update_id
last_update_id-apply_update_example =
    last_update_id-apply_update (message [] (at_price 105 1 ∷ [])) 12 one_bid

audit_side_iff_example :
    (audit_side 2 Side.buy (at_price 100 3 ∷ at_price 99 5 ∷ []) ≡ no_violation)
    ↔ IsSide 2 Side.buy (at_price 100 3 ∷ at_price 99 5 ∷ [])
audit_side_iff_example = audit_side_iff 2 Side.buy (at_price 100 3 ∷ at_price 99 5 ∷ [])

best_bid_lost_example :
    (front_price (apply_level Side.buy (at_price 100 0) one_bid).1.bids ≡ pos 0)
    × (front_price (upsert Side.buy (at_price 100 0) (at_price 100 3 ∷ at_price 99 5 ∷ []))
        ≡ pos 99)
    × (is_valid (apply_level Side.buy (at_price 100 0) one_bid).1 ≡ is_valid one_bid)
best_bid_lost_example =
    best_bid_lost (at_price 100 3) (at_price 99 5) one_bid (ground arith) (ground arith)
      (ground arith) refl refl
