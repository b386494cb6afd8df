-- ===== src/BookSync/Sync.antt =====
-- Lemmas on a synchronization in src/orderbook/BookSynchronizer.cpp, from an accepted snapshot on.
use crypto_mm_engine.Prelude.{
  ◌≡◌, refl, Bool, true, false, ◌||◌, List, [], ◌∷◌, arith, Bool-cases, inl, inr,
}
use crypto_mm_engine.Common.Types.{inc64, Seq, is_ok}
use crypto_mm_engine.OrderBook.{OrderBook, is_valid, finish_snapshot}
use crypto_mm_engine.OrderBook.Invariant.{IsSound}
use crypto_mm_engine.OrderBook.Preservation.{finish_snapshot-IsSound}
use crypto_mm_engine.BookSync.State.{
  stale_snapshot, crossed, sequence_gap, invalid_update, BookUpdateEvent, BookSynchronizer,
}
use crypto_mm_engine.BookSync.{
  count_gap, apply_update_to_book, drop_stale, drain, reconcile, finish_sync,
}
use crypto_mm_engine.BookSync.Invariant.{
  IsSynced, IsPending, begin_resync-IsSynced, apply_update_to_book-IsPending, publish-IsSynced,
}

drop_stale-IsPending :
    (id : Seq) (us : List BookUpdateEvent) (s : BookSynchronizer)
    → IsPending s
    → IsPending (drop_stale id us s)
unfolding drop_stale
drop_stale-IsPending id [] s p = record { sound = p.sound; valid = p.valid }
drop_stale-IsPending id (u ∷ us) s p =
    let s' = record s {
      diag = record (s.diag) { updates_discarded_stale = inc64 s.diag.updates_discarded_stale };
    } in
    ground (arith, drop_stale-IsPending id us s' (record { sound = p.sound; valid = p.valid }))

-- The loop either drains the buffer on a sound, valid book or has given the book up.
drain-IsSynced :
    (first : Bool) (us : List BookUpdateEvent) (s : BookSynchronizer)
    → IsPending s
    → (is_ok (drain first us s).0 ≡ true
        → IsPending (drain first us s).1 × ((drain first us s).1.buffer ≡ []))
      × (is_ok (drain first us s).0 ≡ false → IsSynced (drain first us s).1)
unfolding drain
drain-IsSynced first [] s p =
    (λ e. (record { sound = p.sound; valid = p.valid }, refl), λ e. ground arith)
drain-IsSynced first (u ∷ us) s p =
    let s₁ = record s { buffer = us } in
    let r = apply_update_to_book u s₁ in
    let p₂ = apply_update_to_book-IsPending u s₁ (record { sound = p.sound; valid = p.valid }) in
    ground (
      arith,
      begin_resync-IsSynced sequence_gap (count_gap s₁),
      begin_resync-IsSynced invalid_update r.1,
      p₂,
      drain-IsSynced (u.is_last || first) us r.1,
    )

reconcile-IsSynced : (id : Seq) (s : BookSynchronizer) → IsPending s → IsSynced (reconcile id s).1
unfolding reconcile
reconcile-IsSynced id s p =
    let s₁ = drop_stale id s.buffer s in
    let r = drain false s₁.buffer s₁ in
    ground (
      arith,
      begin_resync-IsSynced stale_snapshot (count_gap s₁),
      drain-IsSynced false s₁.buffer s₁ (drop_stale-IsPending id s.buffer s p),
      publish-IsSynced r.1,
    )

finish_snapshot_valid :
    (id : Seq) (b : OrderBook)
    → is_ok (finish_snapshot id b).0 ≡ true
    → is_valid (finish_snapshot id b).1 ≡ true
unfolding finish_snapshot is_valid
finish_snapshot_valid id b e = ground arith

-- A snapshot that is accepted whole leaves a synchronized session, whatever the book was.
pub finish_sync-IsSynced :
    (id : Seq) (s : BookSynchronizer) → IsSound s.book → IsSynced (finish_sync id s).1
unfolding finish_sync
finish_sync-IsSynced id s p =
    let r = finish_snapshot id s.book in
    let s' = record s { book = r.1 } in
    let s₂ = record s' {
      diag = record (s'.diag) { snapshots_applied = inc64 s'.diag.snapshots_applied };
      snapshot_requested = false;
    } in
    elim (Bool-cases (is_ok r.0)) [
      | inl e ↦ rw e (
          reconcile-IsSynced id s₂ (record {
            sound = finish_snapshot-IsSound id s.book p;
            valid = finish_snapshot_valid id s.book e;
          }))
      | inr e ↦ rw e (begin_resync-IsSynced crossed s')
    ]
