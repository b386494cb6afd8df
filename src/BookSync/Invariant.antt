-- ===== src/BookSync/Invariant.antt =====
-- The invariant of src/orderbook/BookSynchronizer.cpp, and the steps that the handlers share.
use crypto_mm_engine.Prelude.{
  ◌≤◌, ◌≡◌, refl, Bool, true, ◌||◌, List, [], ◌∷◌, if◌then◌else◌, length, arith, ap,
}
use crypto_mm_engine.Common.Types.{Side, Seq, no_seq, is_ok}
use crypto_mm_engine.OrderBook.Levels.{PriceLevel, BookLevels, used_bids, used_asks}
use crypto_mm_engine.OrderBook.{
  OrderBook, is_valid, apply_update, apply_levels, apply_level, finish_update,
}
use crypto_mm_engine.OrderBook.Invariant.{IsSound, place_level-violated, apply_levels-SameFrame}
use crypto_mm_engine.OrderBook.Preservation.{clear-IsSound, apply_update-IsSound}
use crypto_mm_engine.Session.{SessionState, ready, stale, is_state}
use crypto_mm_engine.BookSync.State.{SyncFailure, crossed, BookUpdateEvent, BookSynchronizer}
use crypto_mm_engine.BookSync.{transition, discard, begin_resync, apply_update_to_book, publish}

abbrev pub is_live : SessionState → Bool
is_live s = is_state s ready || is_state s stale

pub record IsSynced (s : BookSynchronizer) : Type 0 where
  pub sound : IsSound s.book
  pub valid : is_live s.state ≡ true → is_valid s.book ≡ true
  pub bounded : length s.buffer ≤ s.config.max_buffered_updates

-- A state change to a live state needs a valid book; to any other state nothing.
pub transition-IsSynced :
    (to : SessionState) (s : BookSynchronizer)
    → IsSynced s
    → (is_live to ≡ true → is_valid s.book ≡ true)
    → IsSynced (transition to s)
unfolding transition
transition-IsSynced to s v h = ground arith

-- Beginning a resync gives up the book and is never live.
pub begin_resync-IsSynced : (f : SyncFailure) (s : BookSynchronizer) → IsSynced (begin_resync f s)
unfolding begin_resync discard transition
begin_resync-IsSynced f s = ground (arith, clear-IsSound s.book)

-- A level that is accepted, and a whole update, keep a valid book valid.
apply_level_valid :
    (which : Side) (l : PriceLevel) (b : OrderBook)
    → is_ok (apply_level which l b).0 ≡ true
    → (apply_level which l b).1.violated ≡ b.violated
unfolding apply_level
apply_level_valid which l b e = ground (arith, place_level-violated which l b)

apply_levels_valid :
    (which : Side) (ls : List PriceLevel) (b : OrderBook)
    → is_ok (apply_levels which ls b).0 ≡ true
    → (apply_levels which ls b).1.violated ≡ b.violated
unfolding apply_levels
apply_levels_valid which [] b e = refl
apply_levels_valid which (l ∷ ls) b e =
    ground
      (arith, apply_level_valid which l b, apply_levels_valid which ls (apply_level which l b).1)

pub apply_update_valid :
    (levels : BookLevels) (n : Seq) (b : OrderBook)
    → is_ok (apply_update levels n b).0 ≡ true
    → is_valid b ≡ true
    → is_valid (apply_update levels n b).1 ≡ true
unfolding apply_update finish_update is_valid
apply_update_valid levels n b e v =
    let bids = apply_levels Side.buy (used_bids levels) b in
    ground (
      arith,
      apply_levels_valid Side.buy (used_bids levels) b,
      apply_levels-SameFrame Side.buy (used_bids levels) b,
      apply_levels_valid Side.sell (used_asks levels) bids.1,
      apply_levels-SameFrame Side.sell (used_asks levels) bids.1,
    )

-- What the steps of a synchronization carry: a sound book that is valid.
pub record IsPending (s : BookSynchronizer) : Type 0 where
  pub sound : IsSound s.book
  pub valid : is_valid s.book ≡ true

pub apply_update_to_book-IsPending :
    (u : BookUpdateEvent) (s : BookSynchronizer)
    → IsPending s
    → is_ok (apply_update_to_book u s).0 ≡ true
    → IsPending (apply_update_to_book u s).1
unfolding apply_update_to_book
apply_update_to_book-IsPending u s p e =
    let n = if u.is_last then u.final_update_id else no_seq in
    ground
      (arith, apply_update-IsSound u.levels n s.book p.sound, apply_update_valid u.levels n s.book)

pub publish-IsSynced : (s : BookSynchronizer) → IsPending s → s.buffer ≡ [] → IsSynced (publish s).1
unfolding publish transition
publish-IsSynced s p empty = ground (arith, begin_resync-IsSynced crossed s, ap length empty)
