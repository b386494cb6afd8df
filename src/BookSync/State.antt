-- ===== src/BookSync/State.antt =====
-- The state of include/mm/orderbook/BookSynchronizer.hpp and the events that it consumes. The texts
-- of reasons are left out; the calls of the state callback are recorded in `notified`, newest first.
use crypto_mm_engine.Prelude.{ℕ, Bool, List}
use crypto_mm_engine.Prelude.Int.{ℤ}
use crypto_mm_engine.Common.Types.{Symbol, Seq, Nanos}
use crypto_mm_engine.OrderBook.Levels.{BookLevels}
use crypto_mm_engine.OrderBook.{OrderBook}
use crypto_mm_engine.Session.{SessionState}

pub data SyncFailure : Type 0 where
  no_failure sequence_gap stale_snapshot buffer_overflow crossed invalid_update : SyncFailure
  data_stale lost_connection protocol_error_budget snapshot_retry_budget : SyncFailure

pub record SyncConfig : Type 0 where
  pub max_data_age_ns : Nanos
  pub snapshot_retry_delay_ns : Nanos
  pub max_snapshot_retries : ℤ
  pub max_buffered_updates : ℕ
  pub max_protocol_errors : ℤ
  pub max_depth : ℕ

pub record SyncDiagnostics : Type 0 where
  pub snapshots_applied : ℕ
  pub updates_applied : ℕ
  pub updates_buffered : ℕ
  pub updates_discarded_stale : ℕ
  pub updates_discarded_duplicate : ℕ
  pub sequence_gaps : ℕ
  pub resyncs : ℕ
  pub stale_transitions : ℕ
  pub protocol_error_count : ℕ
  pub snapshot_requests : ℕ
  pub buffer_overflows : ℕ

pub record BookSnapshotEvent : Type 0 where
  pub symbol : Symbol
  pub last_update_id : Seq
  pub levels : BookLevels
  pub is_first : Bool
  pub is_last : Bool

pub record BookUpdateEvent : Type 0 where
  pub symbol : Symbol
  pub first_update_id : Seq
  pub final_update_id : Seq
  pub prev_final_update_id : Seq
  pub levels : BookLevels
  pub is_last : Bool

pub record BookSynchronizer : Type 0 where
  pub symbol : Symbol
  pub config : SyncConfig
  pub state : SessionState
  pub book : OrderBook
  pub buffer : List BookUpdateEvent
  pub last_data_ns : Nanos
  pub has_data : Bool
  pub last_snapshot_request_ns : Nanos
  pub snapshot_requested : Bool
  pub snapshot_attempts : ℤ
  pub protocol_errors : ℤ
  pub last_failure : SyncFailure
  pub diag : SyncDiagnostics
  pub notified : List (SessionState × SessionState)
