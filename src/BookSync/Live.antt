-- ===== src/BookSync/Live.antt =====
-- The invariant of a synchronizer through each handler of src/orderbook/BookSynchronizer.cpp.
use crypto_mm_engine.Prelude.{
  ◌≤◌, ◌≡◌, refl, Bool, true, false, not, ◌&&◌, [], ◌∷◌, if◌then◌else◌, leb, ◌==◌, length,
  length-append, arith,
}
use crypto_mm_engine.Common.Types.{
  inc64, inc32, Symbol, no_seq, Nanos, Status, ok_code, failed_precondition, is_ok,
}
use crypto_mm_engine.OrderBook.{is_valid, add_snapshot_levels}
use crypto_mm_engine.OrderBook.Preservation.{
  clear-IsSound, reset-IsSound, begin_snapshot-IsSound, add_snapshot_levels-IsSound,
}
use crypto_mm_engine.OrderBook.History.{empty_book}
use crypto_mm_engine.Session.{
  SessionState, ready, stale, subscribed, connecting, connected, is_state,
}
use crypto_mm_engine.BookSync.State.{
  sequence_gap, invalid_update, buffer_overflow, data_stale, protocol_error_budget,
  snapshot_retry_budget, BookUpdateEvent, BookSnapshotEvent, BookSynchronizer, SyncConfig,
}
use crypto_mm_engine.BookSync.{
  transition, touch_data_clock, begin_resync, continues_from, count_gap, apply_update_to_book,
}
use crypto_mm_engine.BookSync.Handlers.{
  new_synchronizer, on_connected, on_subscribed, on_disconnected, on_fatal, on_protocol_error,
  open_snapshot, accept_snapshot, on_snapshot, buffer_update, live_update, dispatch_update,
  on_update, on_timer, note_snapshot_failed,
}
use crypto_mm_engine.BookSync.Invariant.{
  is_live, IsSynced, transition-IsSynced, begin_resync-IsSynced, apply_update_to_book-IsPending,
}
use crypto_mm_engine.BookSync.Sync.{finish_sync-IsSynced}

pub new_synchronizer-IsSynced :
    (symbol : Symbol) (config : SyncConfig) → IsSynced (new_synchronizer symbol config)
unfolding new_synchronizer
new_synchronizer-IsSynced symbol config =
    ground (arith, reset-IsSound symbol config.max_depth empty_book)

-- A change to a state that is not live.
pub leave-IsSynced :
    (to : SessionState) (s : BookSynchronizer)
    → IsSynced s
    → is_live to ≡ false
    → IsSynced (transition to s)
leave-IsSynced to s v h = transition-IsSynced to s v (λ e. ground arith)

pub on_connected-IsSynced : (s : BookSynchronizer) → IsSynced s → IsSynced (on_connected s)
unfolding on_connected
on_connected-IsSynced s v = ground (
  arith,
  leave-IsSynced connected s v refl,
  leave-IsSynced connected (transition connecting s) (leave-IsSynced connecting s v refl) refl,
)

pub on_subscribed-IsSynced : (s : BookSynchronizer) → IsSynced s → IsSynced (on_subscribed s)
unfolding on_subscribed
on_subscribed-IsSynced s v = ground (arith, leave-IsSynced subscribed s v refl)

pub on_disconnected-IsSynced : (s : BookSynchronizer) → IsSynced s → IsSynced (on_disconnected s)
unfolding on_disconnected transition
on_disconnected-IsSynced s v = ground (arith, clear-IsSound s.book)

pub on_fatal-IsSynced : (s : BookSynchronizer) → IsSynced (on_fatal s)
unfolding on_fatal transition
on_fatal-IsSynced s = ground (arith, clear-IsSound s.book)

pub on_protocol_error-IsSynced :
    (s : BookSynchronizer) → IsSynced s → IsSynced (on_protocol_error s)
unfolding on_protocol_error
on_protocol_error-IsSynced s v =
    let s' = record s {
      diag = record (s.diag) { protocol_error_count = inc64 s.diag.protocol_error_count };
      protocol_errors = inc32 s.protocol_errors;
    } in
    ground (arith, on_fatal-IsSynced (record s' { last_failure = protocol_error_budget }))

accept_snapshot-IsSynced :
    (e : BookSnapshotEvent) (s : BookSynchronizer)
    → IsSynced s
    → is_live s.state ≡ false
    → IsSynced (accept_snapshot e s).1
unfolding accept_snapshot
accept_snapshot-IsSynced e s v l =
    let r = add_snapshot_levels e.levels s.book in
    let sound = add_snapshot_levels-IsSound e.levels s.book v.sound in
    ground (arith, sound, finish_sync-IsSynced e.last_update_id (record s { book = r.1 }) sound)

open_snapshot-IsSynced :
    (s : BookSynchronizer)
    → IsSynced s
    → IsSynced (open_snapshot s) × (is_live (open_snapshot s).state ≡ false)
unfolding open_snapshot transition
open_snapshot-IsSynced s v = ground (arith, begin_snapshot-IsSound s.book v.sound)

pub on_snapshot-IsSynced :
    (e : BookSnapshotEvent) (now : Nanos) (s : BookSynchronizer)
    → IsSynced s
    → IsSynced (on_snapshot e now s).1
unfolding on_snapshot touch_data_clock
on_snapshot-IsSynced e now s v =
    let s' = touch_data_clock now s in
    let synced : IsSynced s' = record { sound = v.sound; valid = v.valid; bounded = v.bounded } in
    let opened = open_snapshot-IsSynced s' synced in
    ground (
      arith,
      accept_snapshot-IsSynced e (open_snapshot s') opened.0 opened.1,
      accept_snapshot-IsSynced e s' synced,
    )

buffer_update-IsSynced :
    (u : BookUpdateEvent) (s : BookSynchronizer) → IsSynced s → IsSynced (buffer_update u s).1
unfolding buffer_update
buffer_update-IsSynced u s v =
    let over = record s {
      diag = record (s.diag) { buffer_overflows = inc64 s.diag.buffer_overflows };
    } in
    ground (
      arith,
      v.sound,
      v.valid,
      begin_resync-IsSynced buffer_overflow over,
      length-append s.buffer (u ∷ []),
    )

apply_update_to_book-SameSession :
    (u : BookUpdateEvent) (s : BookSynchronizer)
    → ((apply_update_to_book u s).1.state ≡ s.state)
      × ((apply_update_to_book u s).1.buffer ≡ s.buffer)
      × ((apply_update_to_book u s).1.config ≡ s.config)
unfolding apply_update_to_book
apply_update_to_book-SameSession u s = ground arith

refresh-IsSynced :
    (s : BookSynchronizer)
    → IsSynced s
    → is_valid s.book ≡ true
    → IsSynced (if is_state s.state stale then transition ready s else s)
refresh-IsSynced s v e = ground (arith, transition-IsSynced ready s v (λ l. e))

updated-IsSynced :
    (u : BookUpdateEvent) (s : BookSynchronizer)
    → IsSynced s
    → is_live s.state ≡ true
    → is_ok (apply_update_to_book u s).0 ≡ true
    → IsSynced (apply_update_to_book u s).1 × (is_valid (apply_update_to_book u s).1.book ≡ true)
updated-IsSynced u s v l e =
    let s' = (apply_update_to_book u s).1 in
    let same = apply_update_to_book-SameSession u s in
    let pending =
      apply_update_to_book-IsPending u s (record { sound = v.sound; valid = v.valid l }) e in
    let bounded : length s'.buffer ≤ s'.config.max_buffered_updates =
      rw (same.1, same.2) v.bounded in
    (record { sound = pending.sound; valid = λ x. pending.valid; bounded = bounded }, pending.valid)

choose-IsSynced :
    (a b c : Bool) (x y z w : Status × BookSynchronizer)
    → IsSynced x.1
    → IsSynced y.1
    → IsSynced z.1
    → (c ≡ true → IsSynced w.1)
    → IsSynced (if a then x else if not b then y else if not c then z else w).1
choose-IsSynced true b c x y z w p q r f = p
choose-IsSynced false false c x y z w p q r f = q
choose-IsSynced false true false x y z w p q r f = r
choose-IsSynced false true true x y z w p q r f = f refl

live_update-IsSynced :
    (u : BookUpdateEvent) (s : BookSynchronizer)
    → IsSynced s
    → is_live s.state ≡ true
    → IsSynced (live_update u s).1
unfolding live_update
live_update-IsSynced u s v l =
    let r = apply_update_to_book u s in
    let counted = record s {
      diag = record (s.diag) {
        updates_discarded_duplicate = inc64 s.diag.updates_discarded_duplicate;
      };
    } in
    choose-IsSynced
      (not (u.final_update_id == no_seq) && leb u.final_update_id s.book.last_update_id)
      (continues_from u s.book.last_update_id) (is_ok r.0) (ok_code, counted)
      (failed_precondition, begin_resync sequence_gap (count_gap s))
      (r.0, begin_resync invalid_update r.1)
      (ok_code, if is_state r.1.state stale then transition ready r.1 else r.1)
      (record { sound = v.sound; valid = v.valid; bounded = v.bounded })
      (begin_resync-IsSynced sequence_gap (count_gap s)) (begin_resync-IsSynced invalid_update r.1)
      (λ e. let done = updated-IsSynced u s v l e in refresh-IsSynced r.1 done.0 done.1)

dispatch_update-IsSynced :
    (u : BookUpdateEvent) (s : BookSynchronizer)
    → IsSynced s
    → IsSynced (dispatch_update s.state u s).1
unfolding dispatch_update
dispatch_update-IsSynced u s v =
    ground (arith, buffer_update-IsSynced u s v, live_update-IsSynced u s v)

pub on_update-IsSynced :
    (u : BookUpdateEvent) (now : Nanos) (s : BookSynchronizer)
    → IsSynced s
    → IsSynced (on_update u now s).1
unfolding on_update touch_data_clock
on_update-IsSynced u now s v =
    let synced : IsSynced (touch_data_clock now s) = record {
      sound = v.sound;
      valid = v.valid;
      bounded = v.bounded;
    } in
    ground (
      arith,
      on_protocol_error-IsSynced s v,
      dispatch_update-IsSynced u (touch_data_clock now s) synced,
    )

pub on_timer-IsSynced :
    (now : Nanos) (s : BookSynchronizer) → IsSynced s → IsSynced (on_timer now s)
unfolding on_timer transition
on_timer-IsSynced now s v = ground (arith, begin_resync-IsSynced data_stale s)

pub note_snapshot_failed-IsSynced :
    (s : BookSynchronizer) → IsSynced s → IsSynced (note_snapshot_failed s)
unfolding note_snapshot_failed
note_snapshot_failed-IsSynced s v = ground (
  arith,
  on_fatal-IsSynced (record s { snapshot_requested = false; last_failure = snapshot_retry_budget }),
)
