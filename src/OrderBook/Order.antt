-- ===== src/OrderBook/Order.antt =====
-- One side: its order, and the update of a level against a plain insertion into the ordered list.
use crypto_mm_engine.Prelude.{◌≡◌, true, false, List, [], ◌∷◌, ◌++◌, if◌then◌else◌, arith, refl}
use crypto_mm_engine.Prelude.Int.{eqb_ℤ}
use crypto_mm_engine.Common.Types.{Side}
use crypto_mm_engine.Common.Fixed.{Px, is_zero}
use crypto_mm_engine.OrderBook.Levels.{PriceLevel, is_better, locate, found, erase_first, set_first}

-- Every price is worse than the one before it; `price` stands before the first.
abbrev pub OrderedFrom : Side → Px → List PriceLevel → Type 0
OrderedFrom which price [] = Unit
OrderedFrom which price (l ∷ ls) =
    (is_better which price l.price ≡ true) × OrderedFrom which l.price ls

abbrev pub IsOrdered : Side → List PriceLevel → Type 0
IsOrdered which [] = Unit
IsOrdered which (l ∷ ls) = OrderedFrom which l.price ls

-- The reference: one level put into an ordered list, in one pass. Zero quantity deletes.
unfoldable pub upsert : Side → PriceLevel → List PriceLevel → List PriceLevel
upsert which l [] = if is_zero l.quantity then [] else l ∷ []
upsert which l (x ∷ xs) =
    let rest = x ∷ upsert which l xs in
    if is_better which x.price l.price
    then rest
    else if eqb_ℤ x.price l.price
    then (if is_zero l.quantity then xs else record x { quantity = l.quantity } ∷ xs)
    else (if is_zero l.quantity then x ∷ xs else l ∷ x ∷ xs)

pub better_trans :
    (which : Side) (a b c : Px)
    → is_better which a b ≡ true
    → is_better which b c ≡ true
    → is_better which a c ≡ true
better_trans Side.buy a b c p q = ground arith
better_trans Side.sell a b c p q = ground arith

-- The splitting code and the one-pass reference agree, operation by operation.
pub locate-append :
    (which : Side) (p : Px) (ls : List PriceLevel)
    → (locate which p ls).0 ++ (locate which p ls).1 ≡ ls
unfolding locate
locate-append which p [] = refl
locate-append which p (x ∷ xs) = ground (arith, locate-append which p xs)

pub upsert_delete :
    (which : Side) (l : PriceLevel) (ls : List PriceLevel)
    → is_zero l.quantity ≡ true
    → upsert which l ls ≡ (
        if found l.price (locate which l.price ls).1
        then (locate which l.price ls).0 ++ erase_first (locate which l.price ls).1
        else ls)
unfolding upsert locate found erase_first
upsert_delete which l [] z = ground arith
upsert_delete which l (x ∷ xs) z = ground (arith, upsert_delete which l xs)

pub upsert_replace :
    (which : Side) (l : PriceLevel) (ls : List PriceLevel)
    → is_zero l.quantity ≡ false
    → found l.price (locate which l.price ls).1 ≡ true
    → upsert which l ls
      ≡ (locate which l.price ls).0 ++ set_first l.quantity (locate which l.price ls).1
unfolding upsert locate found set_first
upsert_replace which l [] z f = ground arith
upsert_replace which l (x ∷ xs) z f = ground (arith, upsert_replace which l xs)

pub upsert_insert :
    (which : Side) (l : PriceLevel) (ls : List PriceLevel)
    → is_zero l.quantity ≡ false
    → found l.price (locate which l.price ls).1 ≡ false
    → upsert which l ls ≡ (locate which l.price ls).0 ++ l ∷ (locate which l.price ls).1
unfolding upsert locate found
upsert_insert which l [] z f = ground arith
upsert_insert which l (x ∷ xs) z f = ground (arith, upsert_insert which l xs)
