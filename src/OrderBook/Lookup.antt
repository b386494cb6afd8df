-- ===== src/OrderBook/Lookup.antt =====
-- What a book of src/orderbook/OrderBook.cpp answers for a price.
use crypto_mm_engine.Prelude.{
  ◌+◌, ◌≤◌, ◌<◌, ◌≡◌, true, false, List, [], ◌∷◌, if◌then◌else◌, arith, length, All, refl, take,
  take_all, ap, sym, ◌∙◌, subst,
}
use crypto_mm_engine.Prelude.Int.{pos, eqb_ℤ}
use crypto_mm_engine.Common.Types.{Side, is_ok}
use crypto_mm_engine.Common.Fixed.{Px, Qty, is_positive, is_negative}
use crypto_mm_engine.OrderBook.Levels.{
  PriceLevel, is_better, locate, found, front_quantity, front_price, erase_first,
}
use crypto_mm_engine.OrderBook.{
  OrderBook, side_of, place_level, apply_level, apply_levels, is_valid,
}
use crypto_mm_engine.OrderBook.Queries.{quantity_at}
use crypto_mm_engine.OrderBook.Order.{IsOrdered, OrderedFrom, upsert}
use crypto_mm_engine.OrderBook.Sides.{IsLive}
use crypto_mm_engine.OrderBook.Refinement.{side_of-place_level}
use crypto_mm_engine.OrderBook.Invariant.{apply_level-SameFrame}
use crypto_mm_engine.OrderBook.Sides.{upsert-IsOrdered}

-- The abstract view of a side: the quantity that rests at each price.
unfoldable pub depth_at : Px → List PriceLevel → Qty
depth_at p [] = pos 0
depth_at p (l ∷ ls) = if eqb_ℤ l.price p then l.quantity else depth_at p ls

worse_absent :
    (which : Side) (p q : Px) (ls : List PriceLevel)
    → is_better which p q ≡ true
    → OrderedFrom which q ls
    → depth_at p ls ≡ pos 0
unfolding depth_at
worse_absent which p q [] h o = refl
worse_absent Side.buy p q (l ∷ ls) h o = ground (arith, worse_absent Side.buy p l.price ls)
worse_absent Side.sell p q (l ∷ ls) h o = ground (arith, worse_absent Side.sell p l.price ls)

here_absent :
    (which : Side) (p : Px) (ls : List PriceLevel) → OrderedFrom which p ls → depth_at p ls ≡ pos 0
unfolding depth_at
here_absent which p [] o = refl
here_absent Side.buy p (l ∷ ls) o = ground (arith, worse_absent Side.buy p l.price ls)
here_absent Side.sell p (l ∷ ls) o = ground (arith, worse_absent Side.sell p l.price ls)

weaken_from :
    (which : Side) (p : Px) (l : PriceLevel) (ls : List PriceLevel)
    → OrderedFrom which l.price ls
    → IsOrdered which ls
weaken_from which p l [] o = tt
weaken_from which p l (x ∷ xs) o = o.1

locate_depth :
    (which : Side) (p : Px) (ls : List PriceLevel)
    → IsOrdered which ls
    → (if found p (locate which p ls).1 then front_quantity (locate which p ls).1 else pos 0)
      ≡ depth_at p ls
unfolding locate found front_quantity depth_at
locate_depth which p [] o = refl
locate_depth Side.buy p (l ∷ ls) o = ground (
  arith,
  locate_depth Side.buy p ls (weaken_from Side.buy p l ls o),
  worse_absent Side.buy p l.price ls,
)
locate_depth Side.sell p (l ∷ ls) o = ground (
  arith,
  locate_depth Side.sell p ls (weaken_from Side.sell p l ls o),
  worse_absent Side.sell p l.price ls,
)

upsert_depth :
    (which : Side) (p : Px) (l : PriceLevel) (ls : List PriceLevel)
    → IsOrdered which ls
    → depth_at p (upsert which l ls) ≡ (if eqb_ℤ l.price p then l.quantity else depth_at p ls)
unfolding upsert depth_at
upsert_depth which p l [] o = ground arith
upsert_depth Side.buy p l (x ∷ xs) o = ground (
  arith,
  upsert_depth Side.buy p l xs (weaken_from Side.buy p x xs o),
  here_absent Side.buy x.price xs,
  worse_absent Side.buy p x.price xs,
)
upsert_depth Side.sell p l (x ∷ xs) o = ground (
  arith,
  upsert_depth Side.sell p l xs (weaken_from Side.sell p x xs o),
  here_absent Side.sell x.price xs,
  worse_absent Side.sell p x.price xs,
)

-- On an ordered side the binary search finds what a plain scan finds.
pub quantity_at-eq-depth_at :
    (which : Side) (p : Px) (b : OrderBook)
    → IsOrdered which (side_of which b)
    → quantity_at which p b ≡ depth_at p (side_of which b)
unfolding quantity_at
quantity_at-eq-depth_at which p b o = locate_depth which p (side_of which b) o

pub length-upsert :
    (which : Side) (l : PriceLevel) (ls : List PriceLevel)
    → length (upsert which l ls) ≤ length ls + 1
unfolding upsert
length-upsert which l [] = ground arith
length-upsert which l (x ∷ xs) = ground (arith, length-upsert which l xs)

-- A level of an update that the book accepts.
abbrev pub IsUpdate : PriceLevel → Type 0
IsUpdate l = (is_positive l.price ≡ true) × (is_negative l.quantity ≡ false)

pub side_of-apply_level :
    (which : Side) (l : PriceLevel) (b : OrderBook)
    → IsUpdate l
    → length (side_of which b) < b.max_depth
    → side_of which (apply_level which l b).1 ≡ upsert which l (side_of which b)
unfolding apply_level
side_of-apply_level which l b u room =
    rw (u.0, u.1)
      (side_of-place_level which l b (omega arith)
        ∙ take_all b.max_depth _ (omega (arith, length-upsert which l (side_of which b))))

apply_level_ok :
    (which : Side) (l : PriceLevel) (b : OrderBook)
    → IsUpdate l
    → is_ok (apply_level which l b).0 ≡ true
unfolding apply_level
apply_level_ok which l b u = rw (u.0, u.1)

-- The reference for a whole message: its levels one after another.
unfoldable pub upsert_all : Side → List PriceLevel → List PriceLevel → List PriceLevel
upsert_all which [] side = side
upsert_all which (l ∷ ls) side = upsert_all which ls (upsert which l side)

pub side_of-apply_levels :
    (which : Side) (ls : List PriceLevel) (b : OrderBook)
    → All IsUpdate ls
    → length (side_of which b) + length ls ≤ b.max_depth
    → (is_ok (apply_levels which ls b).0 ≡ true)
      × (side_of which (apply_levels which ls b).1 ≡ upsert_all which ls (side_of which b))
unfolding apply_levels upsert_all
side_of-apply_levels which [] b u room = (refl, refl)
side_of-apply_levels which (l ∷ ls) b u room =
    let step = side_of-apply_level which l b u.0 (omega arith) in
    let rest = side_of-apply_levels which ls (apply_level which l b).1 u.1 (
      omega (
        arith,
        ap length step,
        length-upsert which l (side_of which b),
        (apply_level-SameFrame which l b).max_depth,
      )) in
    rw (apply_level_ok which l b u.0) (rest.0, rest.1 ∙ ap (upsert_all which ls) step)

-- The last quantity that a message gives for a price, or the one before the message.
unfoldable pub last_quantity : Px → List PriceLevel → Qty → Qty
last_quantity p [] q = q
last_quantity p (l ∷ ls) q = last_quantity p ls (if eqb_ℤ l.price p then l.quantity else q)

upsert_all_depth :
    (which : Side) (p : Px) (ls side : List PriceLevel)
    → IsOrdered which side
    → depth_at p (upsert_all which ls side) ≡ last_quantity p ls (depth_at p side)
unfolding upsert_all last_quantity
upsert_all_depth which p [] side o = refl
upsert_all_depth which p (l ∷ ls) side o =
    upsert_all_depth which p ls (upsert which l side) (upsert-IsOrdered which l side o)
    ∙ ap (last_quantity p ls) (upsert_depth which p l side o)

upsert_all-IsOrdered :
    (which : Side) (ls side : List PriceLevel)
    → IsOrdered which side
    → IsOrdered which (upsert_all which ls side)
unfolding upsert_all
upsert_all-IsOrdered which [] side o = o
upsert_all-IsOrdered which (l ∷ ls) side o =
    upsert_all-IsOrdered which ls (upsert which l side) (upsert-IsOrdered which l side o)

-- Where a side became the reference for a message, the book answers by the message.
pub quantity_at-upsert_all :
    (which : Side) (p : Px) (ls : List PriceLevel) (b c : OrderBook)
    → IsOrdered which (side_of which b)
    → side_of which c ≡ upsert_all which ls (side_of which b)
    → quantity_at which p c ≡ last_quantity p ls (quantity_at which p b)
quantity_at-upsert_all which p ls b c ordered step =
    let after =
      subst (IsOrdered which) (sym step)
        (upsert_all-IsOrdered which ls (side_of which b) ordered) in
    quantity_at-eq-depth_at which p c after
    ∙ ap (depth_at p) step
    ∙ upsert_all_depth which p ls (side_of which b) ordered
    ∙ ap (last_quantity p ls) (sym (quantity_at-eq-depth_at which p b ordered))

-- A truncated side forgets what lies beyond its depth: when its only tracked level is deleted, the
-- book answers that there is no bid at all, though the venue still shows the next level, and the
-- book goes on counting as valid.
pub best_bid_lost :
    (first second : PriceLevel) (b : OrderBook)
    → IsLive first
    → IsLive second
    → is_better Side.buy first.price second.price ≡ true
    → b.max_depth ≡ 1
    → b.bids ≡ take 1 (first ∷ second ∷ [])
    → let deletion = record first { quantity = pos 0 } in
      let b' = (apply_level Side.buy deletion b).1 in
      (front_price b'.bids ≡ pos 0)
      × (front_price (upsert Side.buy deletion (first ∷ second ∷ [])) ≡ second.price)
      × (is_valid b' ≡ is_valid b)
unfolding apply_level place_level upsert front_price is_valid locate found erase_first
best_bid_lost first second b f s order depth bids = ground arith
