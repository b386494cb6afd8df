-- ===== src/BookSync/Chain.antt =====
-- Chains of updates that src/orderbook/BookSynchronizer.cpp applies to a book.
use crypto_mm_engine.Prelude.{
  ◌≡◌, ◌≢◌, ◌⊎◌, ◌==◌, inl, inr, Bool, true, false, not, ◌&&◌, ◌||◌, List, [], ◌∷◌, if◌then◌else◌,
  arith, ap, ◌∙◌, Bool-cases,
}
use crypto_mm_engine.Common.Types.{Side, Seq, no_seq, Status, inc64, is_ok}
use crypto_mm_engine.OrderBook.Levels.{BookLevels, used_bids, used_asks}
use crypto_mm_engine.OrderBook.{
  OrderBook, clear, is_valid, apply_levels, apply_update, finish_update,
}
use crypto_mm_engine.OrderBook.Invariant.{apply_levels-SameFrame}
use crypto_mm_engine.Session.{subscribed, is_state, is_legal_transition, is_quotable}
use crypto_mm_engine.BookSync.State.{SyncFailure, BookUpdateEvent, BookSynchronizer}
use crypto_mm_engine.BookSync.{
  transition, discard, begin_resync, continues_from, apply_update_to_book,
}

-- The id of a book after an update: only the last chunk moves it.
abbrev pub advance : BookUpdateEvent → Seq → Seq
advance u n = if u.is_last && not (u.final_update_id == no_seq) then u.final_update_id else n

-- Where an update stands in the venue's stream, if `n` is the id of the last one applied: either it
-- names the one before it, which is `n`, and starts right after it where it says so, or it names none
-- and starts right after `n`.
abbrev pub Follows : BookUpdateEvent → Seq → Type 0
Follows u n =
    ((u.prev_final_update_id ≡ n)
      × (u.prev_final_update_id ≢ no_seq)
      × ((u.first_update_id ≡ no_seq) ⊎ (u.first_update_id ≡ inc64 n)))
    ⊎ ((u.prev_final_update_id ≡ no_seq) × (u.first_update_id ≡ inc64 n))

pub continues_from-Follows :
    (u : BookUpdateEvent) (n : Seq) → continues_from u n ≡ true → Follows u n
unfolding continues_from
continues_from-Follows u n h = ground arith

pub Follows-continues_from :
    (u : BookUpdateEvent) (n : Seq) → Follows u n → continues_from u n ≡ true
unfolding continues_from
Follows-continues_from u n h = ground arith

-- The book with an update's levels applied, and whether the book accepted them.
abbrev pub applied : BookUpdateEvent → OrderBook → Status × OrderBook
applied u b = apply_update u.levels (if u.is_last then u.final_update_id else no_seq) b

-- A book takes an update: it accepts its levels, and its id moves with the last chunk.
pub record Takes (u : BookUpdateEvent) (b c : OrderBook) : Type 0 where
  pub accepts : is_ok (applied u b).0 ≡ true
  pub book : c ≡ (applied u b).1
  pub id : c.last_update_id ≡ advance u b.last_update_id

-- A list of updates that leads from one book to another: the levels of each are applied in turn, and
-- each follows the ids before it; the first whole update is exempt unless `checked`.
pub data IsChain : Bool → OrderBook → List BookUpdateEvent → OrderBook → Type 0 where
  chain_end : {checked : Bool} {b : OrderBook} → IsChain checked b [] b
  chain_link :
      {checked : Bool} {b c e : OrderBook} {u : BookUpdateEvent} {us : List BookUpdateEvent}
      → (checked ≡ true → Follows u b.last_update_id)
      → Takes u b c
      → IsChain (u.is_last || checked) c us e
      → IsChain checked b (u ∷ us) e

apply_update_id :
    (levels : BookLevels) (n : Seq) (b : OrderBook)
    → is_ok (apply_update levels n b).0 ≡ true
    → (apply_update levels n b).1.last_update_id ≡ (if n == no_seq then b.last_update_id else n)
unfolding apply_update finish_update
apply_update_id levels n b e = ground (
  arith,
  apply_levels-SameFrame Side.buy (used_bids levels) b,
  apply_levels-SameFrame Side.sell (used_asks levels)
      (apply_levels Side.buy (used_bids levels) b).1,
)

pub apply_update_to_book-Takes :
    (u : BookUpdateEvent) (s : BookSynchronizer)
    → is_ok (apply_update_to_book u s).0 ≡ true
    → Takes u s.book (apply_update_to_book u s).1.book
unfolding apply_update_to_book
apply_update_to_book-Takes u s e =
    let accepts : is_ok (applied u s.book).0 ≡ true = ground (arith, e) in
    let book : (apply_update_to_book u s).1.book ≡ (applied u s.book).1 = ground arith in
    record {
      accepts = accepts;
      book = book;
      id =
          ap (λ (b : OrderBook). b.last_update_id) book
          ∙ apply_update_id u.levels (if u.is_last then u.final_update_id else no_seq) s.book
              accepts
          ∙ advanced u s.book.last_update_id;
    }
  where
    advanced :
        (u : BookUpdateEvent) (n : Seq)
        → (if (if u.is_last then u.final_update_id else no_seq) == no_seq
            then n
            else (if u.is_last then u.final_update_id else no_seq))
          ≡ advance u n
    advanced u n = ground arith

pub apply_update_to_book-refused :
    (u : BookUpdateEvent) (s : BookSynchronizer)
    → is_ok (apply_update_to_book u s).0 ≡ false
    → is_ok (applied u s.book).0 ≡ false
unfolding apply_update_to_book
apply_update_to_book-refused u s e = ground (arith, e)

-- What a synchronizer that gave up its book is left with.
pub record GaveUp (s : BookSynchronizer) : Type 0 where
  pub invalid : is_valid s.book ≡ false
  pub emptied : (s.book.bids ≡ []) × (s.book.asks ≡ []) × (s.buffer ≡ [])
  pub quiet : is_quotable s.state ≡ false

pub begin_resync-GaveUp :
    (reason : SyncFailure) (s : BookSynchronizer) → GaveUp (begin_resync reason s)
unfolding begin_resync discard transition clear is_valid is_quotable is_legal_transition
begin_resync-GaveUp reason s = elim (Bool-cases (is_state s.state subscribed)) [
  | inl e ↦ record {
    invalid = ground (arith, e);
    emptied = ground (arith, e);
    quiet = ground (arith, e);
  }
  | inr e ↦ record {
    invalid = ground (arith, e);
    emptied = ground (arith, e);
    quiet = ground (arith, e);
  }
]
