-- ===== src/OrderBook/Audit.antt =====
-- The audit `check_invariants` of src/orderbook/OrderBook.cpp and the invariant.
use crypto_mm_engine.Prelude.{ℕ, ◌≡◌, ◌↔◌, true, List, [], ◌∷◌, arith, All, refl}
use crypto_mm_engine.Common.Types.{Side}
use crypto_mm_engine.Common.Fixed.{Px}
use crypto_mm_engine.OrderBook.Levels.{PriceLevel}
use crypto_mm_engine.OrderBook.{OrderBook, no_violation, is_valid}
use crypto_mm_engine.OrderBook.Queries.{audit_from, audit_side, check_invariants}
use crypto_mm_engine.OrderBook.Order.{OrderedFrom}
use crypto_mm_engine.OrderBook.Sides.{IsLive, IsSide}
use crypto_mm_engine.OrderBook.Invariant.{IsSound}

audit_from-clean :
    (which : Side) (p : Px) (ls : List PriceLevel)
    → OrderedFrom which p ls
    → All IsLive ls
    → audit_from which p ls ≡ no_violation
unfolding audit_from
audit_from-clean which p [] o a = refl
audit_from-clean Side.buy p (l ∷ ls) o a =
    ground (arith, audit_from-clean Side.buy l.price ls o.1 a.1)
audit_from-clean Side.sell p (l ∷ ls) o a =
    ground (arith, audit_from-clean Side.sell l.price ls o.1 a.1)

audit_from_sound :
    (which : Side) (p : Px) (ls : List PriceLevel)
    → audit_from which p ls ≡ no_violation
    → OrderedFrom which p ls × All IsLive ls
unfolding audit_from
audit_from_sound which p [] e = (tt, tt)
audit_from_sound which p (l ∷ ls) e = ground (arith, audit_from_sound which l.price ls)

-- A side passes the audit exactly if it is within its depth, strictly ordered, and every level has
-- a positive price and quantity.
pub audit_side_iff :
    (depth : ℕ) (which : Side) (ls : List PriceLevel)
    → (audit_side depth which ls ≡ no_violation) ↔ IsSide depth which ls
unfolding audit_side
audit_side_iff depth which [] = (λ e. (ground arith, tt, tt), λ s. ground arith)
audit_side_iff depth which (l ∷ ls) = (
  λ e. ground (arith, audit_from_sound which l.price ls),
  λ s. ground (arith, audit_from-clean which l.price ls s.1 s.2.1),
)

-- A book with the invariant that counts as valid passes the audit.
pub check_invariants-clean :
    (b : OrderBook) → IsSound b → is_valid b ≡ true → check_invariants b ≡ no_violation
unfolding check_invariants is_valid
check_invariants-clean b s v = ground (
  arith,
  (audit_side_iff b.max_depth Side.buy b.bids).1 s.structured.bid_side,
  (audit_side_iff b.max_depth Side.sell b.asks).1 s.structured.ask_side,
)
