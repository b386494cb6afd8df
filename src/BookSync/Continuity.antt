-- ===== src/BookSync/Continuity.antt =====
-- Continuity of the updates that src/orderbook/BookSynchronizer.cpp applies.
use crypto_mm_engine.Prelude.{
  ◌≤◌, ◌≡◌, ◌≢◌, ◌⊎◌, ◌==◌, inl, inr, refl, Bool, true, false, not, ◌&&◌, ◌||◌, List, [], ◌∷◌, ◌++◌,
  if◌then◌else◌, leb, arith, ap, subst, sym, All, Bool-cases,
}
use crypto_mm_engine.Common.Types.{Seq, no_seq, Status, failed_precondition, inc64, is_ok}
use crypto_mm_engine.OrderBook.{OrderBook}
use crypto_mm_engine.Session.{ready, stale, is_state}
use crypto_mm_engine.BookSync.State.{
  stale_snapshot, sequence_gap, invalid_update, BookUpdateEvent, BookSynchronizer,
}
use crypto_mm_engine.BookSync.{
  transition, begin_resync, count_gap, continues_from, apply_update_to_book, drop_stale,
  spans_snapshot, drain, publish, reconcile,
}
use crypto_mm_engine.BookSync.Handlers.{live_update}
use crypto_mm_engine.BookSync.Chain.{
  Follows, continues_from-Follows, Follows-continues_from, applied, Takes, IsChain, chain_end,
  chain_link, apply_update_to_book-Takes, apply_update_to_book-refused, GaveUp, begin_resync-GaveUp,
}

-- Two refusals before a result: if the whole is accepted, neither refused.
accepted :
    (a c : Bool) (x y w : Status × BookSynchronizer)
    → is_ok x.0 ≡ false
    → (c ≡ false → is_ok y.0 ≡ false)
    → is_ok (if a then x else if not c then y else w).0 ≡ true
    → (a ≡ false)
      × (c ≡ true)
      × (is_ok w.0 ≡ true)
      × ((if a then x else if not c then y else w) ≡ w)
accepted true c x y w p q e = ground arith
accepted false true x y w p q e = (refl, refl, e, refl)
accepted false false x y w p q e = ground (arith, q refl)

checked_continues : (f c : Bool) → (f && not c) ≡ false → f ≡ true → c ≡ true
checked_continues f c e t = ground arith

drain-IsChain :
    (first : Bool) (us : List BookUpdateEvent) (s : BookSynchronizer)
    → is_ok (drain first us s).0 ≡ true
    → IsChain first s.book us (drain first us s).1.book
unfolding drain
drain-IsChain first [] s e = chain_end
drain-IsChain first (u ∷ us) s e =
    let s₁ = record s { buffer = us } in
    let r = apply_update_to_book u s₁ in
    let rest = drain (u.is_last || first) us r.1 in
    let facts =
      accepted (first && not (continues_from u s.book.last_update_id)) (is_ok r.0)
        (failed_precondition, begin_resync sequence_gap (count_gap s₁))
        (r.0, begin_resync invalid_update r.1) rest refl (λ x. x) e in
    let tail = drain-IsChain (u.is_last || first) us r.1 facts.2 in
    let taken = apply_update_to_book-Takes u s₁ facts.1 in
    let exempt : first ≡ true → Follows u s.book.last_update_id = λ f.
      continues_from-Follows u s.book.last_update_id
        (checked_continues first (continues_from u s.book.last_update_id) facts.0 f) in
    rw (facts.3) (chain_link exempt taken tail)

publish-book : (s : BookSynchronizer) → is_ok (publish s).0 ≡ true → (publish s).1.book ≡ s.book
unfolding publish transition
publish-book s e = ground arith

drop_stale-book :
    (id : Seq) (us : List BookUpdateEvent) (s : BookSynchronizer)
    → (drop_stale id us s).book ≡ s.book
unfolding drop_stale
drop_stale-book id [] s = refl
drop_stale-book id (u ∷ us) s =
    let s' = record s {
      diag = record (s.diag) { updates_discarded_stale = inc64 s.diag.updates_discarded_stale };
    } in
    ground (arith, drop_stale-book id us s')

spans_snapshot_true : (b : Bool) → not b ≡ false → b ≡ true
spans_snapshot_true b e = ground arith

-- The first update that is applied on top of a snapshot covers the id after the snapshot's.
abbrev pub Spans : Seq → List BookUpdateEvent → Type 0
Spans id [] = Unit
Spans id (u ∷ us) = (u.first_update_id ≤ inc64 id) × (inc64 id ≤ u.final_update_id)

spans_snapshot-Spans :
    (id : Seq) (us : List BookUpdateEvent) → spans_snapshot id us ≡ true → Spans id us
unfolding spans_snapshot
spans_snapshot-Spans id [] h = tt
spans_snapshot-Spans id (u ∷ us) h = (ground arith, ground arith)

-- The updates that a snapshot covers, cut off the front of a buffer.
pub record IsCut (id : Seq) (buffer kept : List BookUpdateEvent) : Type 0 where
  pub dropped : List BookUpdateEvent
  pub split : buffer ≡ dropped ++ kept
  pub covered : All (λ u. u.final_update_id ≤ id) dropped

drop_stale-IsCut :
    (id : Seq) (us : List BookUpdateEvent) (s : BookSynchronizer)
    → IsCut id us (drop_stale id us s).buffer
unfolding drop_stale
drop_stale-IsCut id [] s = record { dropped = []; split = refl; covered = tt }
drop_stale-IsCut id (u ∷ us) s =
    let s' = record s {
      diag = record (s.diag) { updates_discarded_stale = inc64 s.diag.updates_discarded_stale };
    } in
    let rest = drop_stale-IsCut id us s' in
    elim (Bool-cases (leb u.final_update_id id)) [
      | inl old ↦ rw old (record {
        dropped = u ∷ rest.dropped;
        split = ap (λ vs. u ∷ vs) rest.split;
        covered = (ground (arith, old), rest.covered);
      })
      | inr new ↦ rw new (record { dropped = []; split = refl; covered = tt })
    ]

-- What a synchronization does to a buffer and a book.
pub record IsReconciled (id : Seq) (buffer : List BookUpdateEvent) (b c : OrderBook) : Type 0 where
  pub kept : List BookUpdateEvent
  pub cut : IsCut id buffer kept
  pub spans : Spans id kept
  pub chain : IsChain false b kept c

-- A synchronization that succeeds drops from the front of the buffer updates that the snapshot covers
-- and applies the levels of all others to the book, in order: the first of these spans the id after
-- the snapshot's, each after the first whole one follows the book's id in the venue's stream, and each
-- whole one with an id moves the book's id to its own.
pub reconcile-IsChain :
    (id : Seq) (s : BookSynchronizer)
    → is_ok (reconcile id s).0 ≡ true
    → IsReconciled id s.buffer s.book (reconcile id s).1.book
unfolding reconcile
reconcile-IsChain id s e =
    let s₁ = drop_stale id s.buffer s in
    let r = drain false s₁.buffer s₁ in
    let facts =
      accepted (not (spans_snapshot id s₁.buffer)) (is_ok r.0)
        (failed_precondition, begin_resync stale_snapshot (count_gap s₁)) r (publish r.1) refl
        (λ x. x) e in
    let chain = drain-IsChain false s₁.buffer s₁ facts.1 in
    let same = drop_stale-book id s.buffer s in
    let kept = publish-book r.1 facts.2 in
    record {
      kept = s₁.buffer;
      cut = drop_stale-IsCut id s.buffer s;
      spans =
          spans_snapshot-Spans id s₁.buffer
            (spans_snapshot_true (spans_snapshot id s₁.buffer) facts.0);
      chain = rw (facts.3, kept) (subst (λ b. IsChain false b s₁.buffer r.1.book) same chain);
    }

revived-book :
    (s : BookSynchronizer)
    → (if is_state s.state stale then transition ready s else s).book ≡ s.book
unfolding transition
revived-book s = ground arith

-- A live update has one of three outcomes. It is accepted and leaves the book as it is, since it has an
-- id that is not newer than the book's. Or it is accepted, follows the book's id in the venue's stream,
-- and the book took its levels, with the id moved by a last chunk only. Or it is refused, since it does
-- not follow the book's id or the book refuses its levels, and the book and the buffer are emptied, the
-- book does not count as valid, and the session is not quotable.
pub live_update-continues :
    (u : BookUpdateEvent) (s : BookSynchronizer)
    → ((is_ok (live_update u s).0 ≡ true)
        × ((live_update u s).1.book ≡ s.book)
        × (u.final_update_id ≢ no_seq)
        × (u.final_update_id ≤ s.book.last_update_id))
      ⊎ ((is_ok (live_update u s).0 ≡ true)
          × Follows u s.book.last_update_id
          × Takes u s.book (live_update u s).1.book)
      ⊎ ((is_ok (live_update u s).0 ≡ false)
          × ((¬ Follows u s.book.last_update_id) ⊎ (is_ok (applied u s.book).0 ≡ false))
          × GaveUp (live_update u s).1)
unfolding live_update
live_update-continues u s =
    elim (Bool-cases
      (not (u.final_update_id == no_seq) && leb u.final_update_id s.book.last_update_id)) [
        | inl e ↦ rw e (inl (refl, refl, ground (arith, e), ground (arith, e)))
        | inr e ↦ elim (Bool-cases (continues_from u s.book.last_update_id)) [
          | inr c ↦
              rw (e, c)
                (inr (
                  inr (
                    refl,
                    inl (λ f.
                        absurd
                          (ground (arith, c, Follows-continues_from u s.book.last_update_id f))),
                    begin_resync-GaveUp sequence_gap (count_gap s),
                  )))
          | inl c ↦ elim (Bool-cases (is_ok (apply_update_to_book u s).0)) [
            | inl o ↦
                rw (e, c, o)
                  (inr (
                    inl (
                      refl,
                      continues_from-Follows u s.book.last_update_id c,
                      subst (Takes u s.book) (sym (revived-book (apply_update_to_book u s).1))
                          (apply_update_to_book-Takes u s o),
                    )))
            | inr o ↦
                rw (e, c, o)
                  (inr (
                    inr (
                      o,
                      inr (apply_update_to_book-refused u s o),
                      begin_resync-GaveUp invalid_update (apply_update_to_book u s).1,
                    )))
          ]
        ]
      ]
