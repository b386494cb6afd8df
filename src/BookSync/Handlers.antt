-- ===== src/BookSync/Handlers.antt =====
-- The handlers of src/orderbook/BookSynchronizer.cpp.
use crypto_mm_engine.Prelude.{
  Bool, true, false, not, ◌&&◌, ◌||◌, [], ◌∷◌, ◌++◌, if◌then◌else◌, ltb, leb, ◌==◌, length,
}
use crypto_mm_engine.Prelude.Int.{pos, ◌*ℤ◌, ltb_ℤ, leb_ℤ, eqb_ℤ, int64_max, wrap64}
use crypto_mm_engine.Common.Types.{
  Symbol, no_seq, Nanos, inc64, inc32, same_text, Status, ok_code, invalid_argument,
  failed_precondition, out_of_range, overflow, is_ok,
}
use crypto_mm_engine.Common.Fixed.{sub}
use crypto_mm_engine.OrderBook.Levels.{counts_are_sane}
use crypto_mm_engine.OrderBook.{clear, reset, begin_snapshot, add_snapshot_levels}
use crypto_mm_engine.OrderBook.History.{empty_book}
use crypto_mm_engine.Session.{
  SessionState, disconnected, connecting, connected, subscribed, syncing, ready, stale,
  resync_required, backoff, error, is_state,
}
use crypto_mm_engine.BookSync.State.{
  no_failure, sequence_gap, buffer_overflow, invalid_update, data_stale, lost_connection,
  protocol_error_budget, snapshot_retry_budget, BookUpdateEvent, BookSnapshotEvent,
  BookSynchronizer, SyncConfig, SyncDiagnostics,
}
use crypto_mm_engine.BookSync.{
  transition, touch_data_clock, begin_resync, continues_from, count_gap, apply_update_to_book,
  finish_sync,
}

abbrev no_diagnostics : SyncDiagnostics
no_diagnostics = record {
  snapshots_applied = 0;
  updates_applied = 0;
  updates_buffered = 0;
  updates_discarded_stale = 0;
  updates_discarded_duplicate = 0;
  sequence_gaps = 0;
  resyncs = 0;
  stale_transitions = 0;
  protocol_error_count = 0;
  snapshot_requests = 0;
  buffer_overflows = 0;
}

-- The constructor.
unfoldable pub new_synchronizer : Symbol → SyncConfig → BookSynchronizer
new_synchronizer symbol config = record {
  symbol = symbol;
  config = config;
  state = disconnected;
  book = reset symbol config.max_depth empty_book;
  buffer = [];
  last_data_ns = pos 0;
  has_data = false;
  last_snapshot_request_ns = pos 0;
  snapshot_requested = false;
  snapshot_attempts = pos 0;
  protocol_errors = pos 0;
  last_failure = no_failure;
  diag = no_diagnostics;
  notified = [];
}

unfoldable pub data_age_ns : Nanos → BookSynchronizer → Nanos
data_age_ns now s = if not s.has_data then int64_max else sub now s.last_data_ns

unfoldable pub on_connecting : BookSynchronizer → BookSynchronizer
on_connecting s = transition connecting s

unfoldable pub on_connected : BookSynchronizer → BookSynchronizer
on_connected s = transition connected (
    if is_state s.state disconnected || is_state s.state backoff
    then transition connecting s
    else s)

unfoldable pub on_subscribed : BookSynchronizer → BookSynchronizer
on_subscribed s = record (transition subscribed s) {
  buffer = [];
  snapshot_requested = false;
  snapshot_attempts = pos 0;
}

unfoldable pub on_disconnected : BookSynchronizer → BookSynchronizer
on_disconnected s = transition disconnected (record s {
  last_failure = lost_connection;
  book = clear s.book;
  buffer = [];
  has_data = false;
  snapshot_requested = false;
})

unfoldable pub on_backoff : BookSynchronizer → BookSynchronizer
on_backoff s = transition backoff s

unfoldable pub on_fatal : BookSynchronizer → BookSynchronizer
on_fatal s = transition error (record s { book = clear s.book; buffer = [] })

unfoldable pub on_protocol_error : BookSynchronizer → BookSynchronizer
on_protocol_error s =
    let s' = record s {
      diag = record (s.diag) { protocol_error_count = inc64 s.diag.protocol_error_count };
      protocol_errors = inc32 s.protocol_errors;
    } in
    if leb_ℤ s'.config.max_protocol_errors s'.protocol_errors
    then on_fatal (record s' { last_failure = protocol_error_budget })
    else s'

-- The first chunk of a snapshot opens it.
unfoldable pub open_snapshot : BookSynchronizer → BookSynchronizer
open_snapshot s =
    let s' = if is_state s.state syncing then s else transition syncing s in
    record s' { book = begin_snapshot s'.book }

unfoldable pub accept_snapshot : BookSnapshotEvent → BookSynchronizer → Status × BookSynchronizer
accept_snapshot snapshot s =
    let (status, book) = add_snapshot_levels snapshot.levels s.book in
    let s' = record s { book = book } in
    if not (is_ok status)
    then (status, s')
    else if not snapshot.is_last
    then (ok_code, s')
    else finish_sync snapshot.last_update_id s'

unfoldable pub on_snapshot :
    BookSnapshotEvent → Nanos → BookSynchronizer → Status × BookSynchronizer
on_snapshot snapshot now s =
    if not (same_text snapshot.symbol s.symbol)
    then (invalid_argument, s)
    else if not (
        is_state s.state subscribed || is_state s.state syncing || is_state s.state resync_required)
    then (failed_precondition, s)
    else let s' = touch_data_clock now s in
      accept_snapshot snapshot (if snapshot.is_first then open_snapshot s' else s')

-- Before the snapshot updates wait in the buffer.
unfoldable pub buffer_update : BookUpdateEvent → BookSynchronizer → Status × BookSynchronizer
buffer_update u s =
    if leb s.config.max_buffered_updates (length s.buffer)
    then (
      overflow,
      begin_resync buffer_overflow (record s {
        diag = record (s.diag) { buffer_overflows = inc64 s.diag.buffer_overflows };
      }),
    )
    else (
      ok_code,
      record s {
        buffer = s.buffer ++ u ∷ [];
        diag = record (s.diag) { updates_buffered = inc64 s.diag.updates_buffered };
      },
    )

unfoldable pub live_update : BookUpdateEvent → BookSynchronizer → Status × BookSynchronizer
live_update u s =
    if not (u.final_update_id == no_seq) && leb u.final_update_id s.book.last_update_id
    then (
      ok_code,
      record s {
        diag = record (s.diag) {
          updates_discarded_duplicate = inc64 s.diag.updates_discarded_duplicate;
        };
      },
    )
    else if not (continues_from u s.book.last_update_id)
    then (failed_precondition, begin_resync sequence_gap (count_gap s))
    else let (status, s') = apply_update_to_book u s in
      if not (is_ok status)
      then (status, begin_resync invalid_update s')
      else (ok_code, if is_state s'.state stale then transition ready s' else s')

unfoldable pub dispatch_update :
    SessionState → BookUpdateEvent → BookSynchronizer → Status × BookSynchronizer
dispatch_update subscribed u s = buffer_update u s
dispatch_update syncing u s = buffer_update u s
dispatch_update ready u s = live_update u s
dispatch_update stale u s = live_update u s
dispatch_update _ u s = (ok_code, s)

unfoldable pub on_update : BookUpdateEvent → Nanos → BookSynchronizer → Status × BookSynchronizer
on_update u now s =
    if not (same_text u.symbol s.symbol)
    then (invalid_argument, s)
    else if not (counts_are_sane u.levels)
    then (out_of_range, on_protocol_error s)
    else if not (u.final_update_id == no_seq) && ltb u.final_update_id u.first_update_id
    then (invalid_argument, on_protocol_error s)
    else dispatch_update s.state u (touch_data_clock now s)

unfoldable pub on_timer : Nanos → BookSynchronizer → BookSynchronizer
on_timer now s =
    if is_state s.state ready
    then (if ltb_ℤ s.config.max_data_age_ns (data_age_ns now s)
        then transition stale (record s {
          diag = record (s.diag) { stale_transitions = inc64 s.diag.stale_transitions };
          last_failure = data_stale;
        })
        else s)
    else if is_state s.state stale
        && ltb_ℤ (wrap64 (s.config.max_data_age_ns *ℤ pos 10)) (data_age_ns now s)
    then begin_resync data_stale s
    else s

unfoldable pub wants_snapshot : Nanos → BookSynchronizer → Bool
wants_snapshot now s =
    if not (is_state s.state subscribed) && not (is_state s.state resync_required)
    then false
    else if s.snapshot_requested
    then false
    else if eqb_ℤ s.snapshot_attempts (pos 0)
    then true
    else leb_ℤ s.config.snapshot_retry_delay_ns (sub now s.last_snapshot_request_ns)

unfoldable pub note_snapshot_requested : Nanos → BookSynchronizer → BookSynchronizer
note_snapshot_requested now s = record s {
  snapshot_requested = true;
  last_snapshot_request_ns = now;
  snapshot_attempts = inc32 s.snapshot_attempts;
  diag = record (s.diag) { snapshot_requests = inc64 s.diag.snapshot_requests };
}

unfoldable pub note_snapshot_failed : BookSynchronizer → BookSynchronizer
note_snapshot_failed s =
    if leb_ℤ s.config.max_snapshot_retries s.snapshot_attempts
    then on_fatal (record s { snapshot_requested = false; last_failure = snapshot_retry_budget })
    else record s { snapshot_requested = false }
