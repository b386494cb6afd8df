-- ===== src/OrderBook/History.antt =====
-- Histories of calls on one book, from its construction on.
use crypto_mm_engine.Prelude.{ℕ, ◌≡◌, true, false, [], List, ◌∷◌}
use crypto_mm_engine.Common.Types.{Symbol, Seq}
use crypto_mm_engine.OrderBook.Levels.{BookLevels}
use crypto_mm_engine.OrderBook.{
  OrderBook, no_violation, is_valid, clear, reset, begin_snapshot, add_snapshot_levels,
  finish_snapshot, apply_update, default_max_depth,
}
use crypto_mm_engine.OrderBook.Queries.{check_invariants}
use crypto_mm_engine.OrderBook.Invariant.{IsSound}
use crypto_mm_engine.OrderBook.Preservation.{
  clear-IsSound, reset-IsSound, begin_snapshot-IsSound, add_snapshot_levels-IsSound,
  finish_snapshot-IsSound, apply_update-IsSound,
}
use crypto_mm_engine.OrderBook.Audit.{check_invariants-clean}

-- `OrderBook()`.
abbrev pub empty_book : OrderBook
empty_book = record {
  symbol = "";
  max_depth = default_max_depth;
  bids = [];
  asks = [];
  staging_bids = [];
  staging_asks = [];
  building_snapshot = false;
  last_update_id = 0;
  snapshot_applied = false;
  violated = false;
  violation = no_violation;
  updates_applied = 0;
  levels_dropped = 0;
}

pub data BookCall : Type 0 where
  resets : Symbol → ℕ → BookCall
  clears begins : BookCall
  adds : BookLevels → BookCall
  finishes : Seq → BookCall
  updates : BookLevels → Seq → BookCall

unfoldable pub call : BookCall → OrderBook → OrderBook
call (resets s d) b = reset s d b
call clears b = clear b
call begins b = begin_snapshot b
call (adds levels) b = (add_snapshot_levels levels b).1
call (finishes n) b = (finish_snapshot n b).1
call (updates levels n) b = (apply_update levels n b).1

unfoldable pub run : List BookCall → OrderBook → OrderBook
run [] b = b
run (c ∷ cs) b = run cs (call c b)

call-IsSound : (c : BookCall) (b : OrderBook) → IsSound b → IsSound (call c b)
unfolding call
call-IsSound (resets s d) b h = reset-IsSound s d b
call-IsSound clears b h = clear-IsSound b
call-IsSound begins b h = begin_snapshot-IsSound b h
call-IsSound (adds levels) b h = add_snapshot_levels-IsSound levels b h
call-IsSound (finishes n) b h = finish_snapshot-IsSound n b h
call-IsSound (updates levels n) b h = apply_update-IsSound levels n b h

pub run-IsSound : (cs : List BookCall) (b : OrderBook) → IsSound b → IsSound (run cs b)
unfolding run
run-IsSound [] b h = h
run-IsSound (c ∷ cs) b h = run-IsSound cs (call c b) (call-IsSound c b h)

pub empty_book-IsSound : IsSound empty_book
unfolding clear
empty_book-IsSound = clear-IsSound empty_book

-- After any sequence of calls, a book that counts as valid passes its own audit: within its depth,
-- strictly ordered, no level with a price or a quantity that is not positive, not crossed or locked.
pub run-clean :
    (cs : List BookCall)
    → is_valid (run cs empty_book) ≡ true
    → check_invariants (run cs empty_book) ≡ no_violation
run-clean cs v = check_invariants-clean _ (run-IsSound cs empty_book empty_book-IsSound) v
