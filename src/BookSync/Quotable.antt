-- ===== src/BookSync/Quotable.antt =====
-- Histories of calls on one synchronizer of src/orderbook/BookSynchronizer.cpp.
use crypto_mm_engine.Prelude.{◌≤◌, ◌≡◌, refl, true, List, [], ◌∷◌, length}
use crypto_mm_engine.Common.Types.{Symbol, Nanos}
use crypto_mm_engine.OrderBook.{no_violation, is_valid}
use crypto_mm_engine.OrderBook.Queries.{check_invariants}
use crypto_mm_engine.OrderBook.Audit.{check_invariants-clean}
use crypto_mm_engine.Session.{connecting, backoff, is_quotable}
use crypto_mm_engine.BookSync.State.{
  BookUpdateEvent, BookSnapshotEvent, BookSynchronizer, SyncConfig,
}
use crypto_mm_engine.BookSync.Handlers.{
  new_synchronizer, on_connecting, on_connected, on_subscribed, on_disconnected, on_backoff,
  on_fatal, on_protocol_error, on_snapshot, on_update, on_timer, note_snapshot_requested,
  note_snapshot_failed,
}
use crypto_mm_engine.BookSync.Invariant.{IsSynced}
use crypto_mm_engine.BookSync.Live.{
  new_synchronizer-IsSynced, leave-IsSynced, on_connected-IsSynced, on_subscribed-IsSynced,
  on_disconnected-IsSynced, on_fatal-IsSynced, on_protocol_error-IsSynced, on_snapshot-IsSynced,
  on_update-IsSynced, on_timer-IsSynced, note_snapshot_failed-IsSynced,
}

-- The calls of the public interface that change a synchronizer.
pub data SyncCall : Type 0 where
  link_connecting link_connected link_subscribed link_down link_backoff link_fatal : SyncCall
  snapshot_chunk : BookSnapshotEvent → Nanos → SyncCall
  update_event : BookUpdateEvent → Nanos → SyncCall
  protocol_error request_failed : SyncCall
  timer_tick snapshot_request : Nanos → SyncCall

unfoldable pub handle : SyncCall → BookSynchronizer → BookSynchronizer
handle link_connecting s = on_connecting s
handle link_connected s = on_connected s
handle link_subscribed s = on_subscribed s
handle link_down s = on_disconnected s
handle link_backoff s = on_backoff s
handle link_fatal s = on_fatal s
handle (snapshot_chunk e now) s = (on_snapshot e now s).1
handle (update_event u now) s = (on_update u now s).1
handle protocol_error s = on_protocol_error s
handle request_failed s = note_snapshot_failed s
handle (timer_tick now) s = on_timer now s
handle (snapshot_request now) s = note_snapshot_requested now s

unfoldable pub handle_all : List SyncCall → BookSynchronizer → BookSynchronizer
handle_all [] s = s
handle_all (c ∷ cs) s = handle_all cs (handle c s)

handle-IsSynced : (c : SyncCall) (s : BookSynchronizer) → IsSynced s → IsSynced (handle c s)
unfolding handle on_connecting on_backoff note_snapshot_requested
handle-IsSynced link_connecting s v = leave-IsSynced connecting s v refl
handle-IsSynced link_connected s v = on_connected-IsSynced s v
handle-IsSynced link_subscribed s v = on_subscribed-IsSynced s v
handle-IsSynced link_down s v = on_disconnected-IsSynced s v
handle-IsSynced link_backoff s v = leave-IsSynced backoff s v refl
handle-IsSynced link_fatal s v = on_fatal-IsSynced s
handle-IsSynced (snapshot_chunk e now) s v = on_snapshot-IsSynced e now s v
handle-IsSynced (update_event u now) s v = on_update-IsSynced u now s v
handle-IsSynced protocol_error s v = on_protocol_error-IsSynced s v
handle-IsSynced request_failed s v = note_snapshot_failed-IsSynced s v
handle-IsSynced (timer_tick now) s v = on_timer-IsSynced now s v
handle-IsSynced (snapshot_request now) s v = record {
  sound = v.sound;
  valid = v.valid;
  bounded = v.bounded;
}

pub handle_all-IsSynced :
    (cs : List SyncCall) (s : BookSynchronizer) → IsSynced s → IsSynced (handle_all cs s)
unfolding handle_all
handle_all-IsSynced [] s v = v
handle_all-IsSynced (c ∷ cs) s v = handle_all-IsSynced cs (handle c s) (handle-IsSynced c s v)

-- After any sequence of calls on a new synchronizer, a session that is quotable has a valid book that
-- passes its own audit.
pub quotable_book_clean :
    (symbol : Symbol) (config : SyncConfig) (cs : List SyncCall)
    → is_quotable (handle_all cs (new_synchronizer symbol config)).state ≡ true
    → (is_valid (handle_all cs (new_synchronizer symbol config)).book ≡ true)
      × (check_invariants (handle_all cs (new_synchronizer symbol config)).book ≡ no_violation)
unfolding is_quotable
quotable_book_clean symbol config cs q =
    let new = new_synchronizer symbol config in
    let synced = handle_all-IsSynced cs new (new_synchronizer-IsSynced symbol config) in
    let valid = synced.valid (rw q refl) in
    (valid, check_invariants-clean (handle_all cs new).book synced.sound valid)

-- After any sequence of calls on a new synchronizer, at most the configured number of updates waits.
pub buffer_bounded :
    (symbol : Symbol) (config : SyncConfig) (cs : List SyncCall)
    → length (handle_all cs (new_synchronizer symbol config)).buffer
      ≤ (handle_all cs (new_synchronizer symbol config)).config.max_buffered_updates
buffer_bounded symbol config cs =
    (handle_all-IsSynced cs (new_synchronizer symbol config)
      (new_synchronizer-IsSynced symbol config)).bounded
