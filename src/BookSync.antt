-- ===== src/BookSync.antt =====
-- src/orderbook/BookSynchronizer.cpp: snapshots and buffered updates made into a live book. The clock
-- is an argument. Each handler returns its status with the new state.
pub mod State
pub mod Handlers
pub mod Invariant
pub mod Sync
pub mod Live
pub mod Quotable
pub mod Chain
pub mod Continuity
mod Tests
use crypto_mm_engine.Prelude.{
  ℕ, Bool, true, false, not, ◌&&◌, ◌||◌, List, [], ◌∷◌, if◌then◌else◌, ltb, leb, ◌==◌,
}
use crypto_mm_engine.Prelude.Int.{pos}
use crypto_mm_engine.Common.Types.{
  Seq, no_seq, Nanos, inc64, Status, ok_code, failed_precondition, internal, is_ok,
}
use crypto_mm_engine.OrderBook.{is_valid, clear, apply_update, finish_snapshot}
use crypto_mm_engine.OrderBook.Queries.{check_invariants, is_clean}
use crypto_mm_engine.Session.{
  SessionState, subscribed, ready, resync_required, error, is_state, is_legal_transition,
}
use State.{
  SyncFailure, no_failure, sequence_gap, stale_snapshot, crossed, invalid_update, BookUpdateEvent,
  BookSynchronizer,
}

-- The state change, or Error where it is illegal, and the callback.
unfoldable pub transition : SessionState → BookSynchronizer → BookSynchronizer
transition to s =
    if is_state s.state to
    then s
    else if not (is_legal_transition s.state to)
    then record s { state = error; notified = (s.state, error) ∷ s.notified }
    else record s { state = to; notified = (s.state, to) ∷ s.notified }

unfoldable pub touch_data_clock : Nanos → BookSynchronizer → BookSynchronizer
touch_data_clock now s = record s { last_data_ns = now; has_data = true }

-- `begin_resync` up to its early return.
unfoldable pub discard : SyncFailure → BookSynchronizer → BookSynchronizer
discard failure s = record s {
  last_failure = failure;
  book = clear s.book;
  buffer = [];
  snapshot_requested = false;
  snapshot_attempts = pos 0;
}

unfoldable pub begin_resync : SyncFailure → BookSynchronizer → BookSynchronizer
begin_resync failure s =
    if is_state s.state subscribed
    then discard failure s
    else let s' = discard failure s in
      transition resync_required
        (record s' { diag = record (s'.diag) { resyncs = inc64 s'.diag.resyncs } })

unfoldable pub continues_from : BookUpdateEvent → Seq → Bool
continues_from u last_applied =
    if not (u.prev_final_update_id == no_seq)
    then u.prev_final_update_id == last_applied
      && (u.first_update_id == no_seq || u.first_update_id == inc64 u.prev_final_update_id)
    else u.first_update_id == inc64 last_applied

unfoldable pub count_gap : BookSynchronizer → BookSynchronizer
count_gap s = record s { diag = record (s.diag) { sequence_gaps = inc64 s.diag.sequence_gaps } }

unfoldable pub apply_update_to_book : BookUpdateEvent → BookSynchronizer → Status × BookSynchronizer
apply_update_to_book u s =
    let (status, book) =
      apply_update u.levels (if u.is_last then u.final_update_id else no_seq) s.book in
    let s' = record s { book = book } in
    if not (is_ok status)
    then (status, s')
    else if u.is_last
    then (
      ok_code,
      record s' { diag = record (s'.diag) { updates_applied = inc64 s'.diag.updates_applied } },
    )
    else (ok_code, s')

-- The buffered updates that the snapshot covers are dropped.
unfoldable pub drop_stale : Seq → List BookUpdateEvent → BookSynchronizer → BookSynchronizer
drop_stale snapshot_id [] s = record s { buffer = [] }
drop_stale snapshot_id (u ∷ us) s =
    let rest = drop_stale snapshot_id us (record s {
      diag = record (s.diag) { updates_discarded_stale = inc64 s.diag.updates_discarded_stale };
    }) in
    if leb u.final_update_id snapshot_id then rest else record s { buffer = u ∷ us }

unfoldable pub spans_snapshot : Seq → List BookUpdateEvent → Bool
spans_snapshot snapshot_id [] = true
spans_snapshot snapshot_id (u ∷ us) =
    leb u.first_update_id (inc64 snapshot_id) && leb (inc64 snapshot_id) u.final_update_id

-- The buffered updates are applied in order, each continuing the one before.
unfoldable pub drain : Bool → List BookUpdateEvent → BookSynchronizer → Status × BookSynchronizer
drain first_applied [] s = (ok_code, record s { buffer = [] })
drain first_applied (u ∷ us) s =
    let s₁ = record s { buffer = us } in
    let (status, s₂) = apply_update_to_book u s₁ in
    let rest = drain (u.is_last || first_applied) us s₂ in
    if first_applied && not (continues_from u s.book.last_update_id)
    then (failed_precondition, begin_resync sequence_gap (count_gap s₁))
    else if not (is_ok status)
    then (status, begin_resync invalid_update s₂)
    else rest

-- The audit and the step to Ready.
unfoldable pub publish : BookSynchronizer → Status × BookSynchronizer
publish s =
    if not (is_clean (check_invariants s.book)) then (internal, begin_resync crossed s) else (
      ok_code,
      transition ready (record s { last_failure = no_failure; snapshot_attempts = pos 0 }),
    )

-- `on_snapshot` after the snapshot was accepted.
unfoldable pub reconcile : Seq → BookSynchronizer → Status × BookSynchronizer
reconcile snapshot_id s =
    let s₁ = drop_stale snapshot_id s.buffer s in
    if not (spans_snapshot snapshot_id s₁.buffer)
    then (failed_precondition, begin_resync stale_snapshot (count_gap s₁))
    else let (status, s₂) = drain false s₁.buffer s₁ in
      if not (is_ok status) then (status, s₂) else publish s₂

-- `on_snapshot` from `finish_snapshot` on.
unfoldable pub finish_sync : Seq → BookSynchronizer → Status × BookSynchronizer
finish_sync snapshot_id s =
    let (status, book) = finish_snapshot snapshot_id s.book in
    let s' = record s { book = book } in
    if not (is_ok status)
    then (status, begin_resync crossed s')
    else reconcile snapshot_id (record s' {
      diag = record (s'.diag) { snapshots_applied = inc64 s'.diag.snapshots_applied };
      snapshot_requested = false;
    })
