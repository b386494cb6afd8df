-- ===== src/BookSync/Tests.antt =====
-- A session from the first connection to a quotable book, and the theorems at it.
use crypto_mm_engine.Prelude.{ℕ, ◌≤◌, ◌≡◌, refl, true, List, [], ◌∷◌, length}
use crypto_mm_engine.Prelude.Int.{pos}
use crypto_mm_engine.OrderBook.Levels.{
  PriceLevel, BookLevels, used_bids, used_asks, counts_are_sane, locate, found, is_end, erase_first,
  set_first, sort_levels, has_duplicates,
}
use crypto_mm_engine.OrderBook.{
  no_violation, is_valid, clear, reset, begin_snapshot, add_snapshot_levels, stage_levels,
  finish_snapshot, apply_update, place_level, apply_level, apply_levels, finish_update, is_crossed,
  is_locked, resize_to,
}
use crypto_mm_engine.OrderBook.Queries.{check_invariants, audit_side}
use crypto_mm_engine.Session.{is_quotable, is_legal_transition}
use crypto_mm_engine.BookSync.State.{
  BookUpdateEvent, BookSnapshotEvent, SyncConfig, BookSynchronizer,
}
use crypto_mm_engine.BookSync.{
  transition, touch_data_clock, continues_from, apply_update_to_book, drop_stale, spans_snapshot,
  drain, publish, reconcile, finish_sync,
}
use crypto_mm_engine.BookSync.Handlers.{
  new_synchronizer, on_connecting, on_connected, on_subscribed, open_snapshot, accept_snapshot,
  on_snapshot, buffer_update, live_update, dispatch_update, on_update, note_snapshot_requested,
}
use crypto_mm_engine.BookSync.Quotable.{
  SyncCall, link_connected, link_subscribed, snapshot_request, snapshot_chunk, update_event, handle,
  handle_all, quotable_book_clean, buffer_bounded,
}
use crypto_mm_engine.Prelude.{false, ◌⊎◌, ◌≢◌}
use crypto_mm_engine.Common.Types.{no_seq, is_ok}
use crypto_mm_engine.OrderBook.History.{empty_book}
use crypto_mm_engine.Session.{syncing}
use crypto_mm_engine.BookSync.Chain.{Follows, applied, Takes, GaveUp}
use crypto_mm_engine.BookSync.Continuity.{IsReconciled, reconcile-IsChain, live_update-continues}

abbrev at_price : ℕ → ℕ → PriceLevel
at_price p q = record { price = pos p; quantity = pos q }

abbrev message : List PriceLevel → List PriceLevel → BookLevels
message bids asks = record {
  bids = bids;
  asks = asks;
  bid_count = length bids;
  ask_count = length asks;
}

abbrev config : SyncConfig
config = record {
  max_data_age_ns = pos 500;
  snapshot_retry_delay_ns = pos 500;
  max_snapshot_retries = pos 5;
  max_buffered_updates = 2;
  max_protocol_errors = pos 20;
  max_depth = 3;
}

-- An update that carries the ids that it spans and one bid.
abbrev diff : ℕ → ℕ → PriceLevel → BookUpdateEvent
diff from to level = record {
  symbol = "BTCUSDT";
  first_update_id = from;
  final_update_id = to;
  prev_final_update_id = 0;
  levels = message (level ∷ []) [];
  is_last = true;
}

abbrev image : BookSnapshotEvent
image = record {
  symbol = "BTCUSDT";
  last_update_id = 10;
  levels = message (at_price 99 5 ∷ []) (at_price 102 4 ∷ []);
  is_first = true;
  is_last = true;
}

-- One update is older than the snapshot, one spans it, and one follows live.
abbrev startup : List SyncCall
startup =
    link_connected
    ∷ link_subscribed
    ∷ snapshot_request (pos 1)
    ∷ update_event (diff 8 9 (at_price 98 1)) (pos 2)
    ∷ update_event (diff 10 12 (at_price 100 2)) (pos 3)
    ∷ snapshot_chunk image (pos 4)
    ∷ update_event (diff 13 14 (at_price 101 6)) (pos 5)
    ∷ []

abbrev started : BookSynchronizer
started = handle_all startup (new_synchronizer "BTCUSDT" config)

started-state : is_quotable started.state ≡ true
unfolding handle_all handle new_synchronizer on_connected on_subscribed on_connecting
    note_snapshot_requested on_update on_snapshot touch_data_clock dispatch_update buffer_update
    live_update open_snapshot accept_snapshot finish_sync reconcile drop_stale spans_snapshot drain
    publish apply_update_to_book continues_from transition is_legal_transition is_quotable reset
    clear begin_snapshot add_snapshot_levels stage_levels counts_are_sane used_bids used_asks
    finish_snapshot sort_levels has_duplicates resize_to is_crossed is_locked apply_update
    apply_levels apply_level place_level locate found is_end erase_first set_first finish_update
    check_invariants audit_side is_valid
started-state = refl

started-bids : started.book.bids ≡ at_price 101 6 ∷ at_price 100 2 ∷ at_price 99 5 ∷ []
unfolding handle_all handle new_synchronizer on_connected on_subscribed on_connecting
    note_snapshot_requested on_update on_snapshot touch_data_clock dispatch_update buffer_update
    live_update open_snapshot accept_snapshot finish_sync reconcile drop_stale spans_snapshot drain
    publish apply_update_to_book continues_from transition is_legal_transition is_quotable reset
    clear begin_snapshot add_snapshot_levels stage_levels counts_are_sane used_bids used_asks
    finish_snapshot sort_levels has_duplicates resize_to is_crossed is_locked apply_update
    apply_levels apply_level place_level locate found is_end erase_first set_first finish_update
    check_invariants audit_side is_valid
started-bids = refl

quotable_book_clean_example :
    (is_valid started.book ≡ true) × (check_invariants started.book ≡ no_violation)
quotable_book_clean_example = quotable_book_clean "BTCUSDT" config startup started-state

buffer_bounded_example : length started.buffer ≤ started.config.max_buffered_updates
buffer_bounded_example = buffer_bounded "BTCUSDT" config startup

-- A synchronizer that has its snapshot, with three updates buffered.
abbrev waiting : BookSynchronizer
waiting = record (new_synchronizer "BTCUSDT" config) {
  state = syncing;
  book = record empty_book { max_depth = 3; last_update_id = 10; snapshot_applied = true };
  buffer =
      diff 8 9 (at_price 98 1) ∷ diff 10 12 (at_price 100 2) ∷ diff 13 14 (at_price 101 6) ∷ [];
}

reconcile-waiting : is_ok (reconcile 10 waiting).0 ≡ true
unfolding handle_all handle new_synchronizer on_connected on_subscribed on_connecting
    note_snapshot_requested on_update on_snapshot touch_data_clock dispatch_update buffer_update
    live_update open_snapshot accept_snapshot finish_sync reconcile drop_stale spans_snapshot drain
    publish apply_update_to_book continues_from transition is_legal_transition is_quotable reset
    clear begin_snapshot add_snapshot_levels stage_levels counts_are_sane used_bids used_asks
    finish_snapshot sort_levels has_duplicates resize_to is_crossed is_locked apply_update
    apply_levels apply_level place_level locate found is_end erase_first set_first finish_update
    check_invariants audit_side is_valid
reconcile-waiting = refl

reconcile-IsChain_example :
    IsReconciled 10 waiting.buffer waiting.book (reconcile 10 waiting).1.book
reconcile-IsChain_example = reconcile-IsChain 10 waiting reconcile-waiting

abbrev newest : BookUpdateEvent
newest = diff 11 15 (at_price 97 3)

live_update-waiting : is_ok (live_update newest waiting).0 ≡ true
unfolding handle_all handle new_synchronizer on_connected on_subscribed on_connecting
    note_snapshot_requested on_update on_snapshot touch_data_clock dispatch_update buffer_update
    live_update open_snapshot accept_snapshot finish_sync reconcile drop_stale spans_snapshot drain
    publish apply_update_to_book continues_from transition is_legal_transition is_quotable reset
    clear begin_snapshot add_snapshot_levels stage_levels counts_are_sane used_bids used_asks
    finish_snapshot sort_levels has_duplicates resize_to is_crossed is_locked apply_update
    apply_levels apply_level place_level locate found is_end erase_first set_first finish_update
    check_invariants audit_side is_valid
live_update-waiting = refl

live_update-continues_example :
    ((is_ok (live_update newest waiting).0 ≡ true)
      × ((live_update newest waiting).1.book ≡ waiting.book)
      × (newest.final_update_id ≢ no_seq)
      × (15 ≤ 10))
    ⊎ ((is_ok (live_update newest waiting).0 ≡ true)
        × Follows newest 10
        × Takes newest waiting.book (live_update newest waiting).1.book)
    ⊎ ((is_ok (live_update newest waiting).0 ≡ false)
        × ((¬ Follows newest 10) ⊎ (is_ok (applied newest waiting.book).0 ≡ false))
        × GaveUp (live_update newest waiting).1)
live_update-continues_example = live_update-continues newest waiting
