-- ===== src/OrderBook/Sides.antt =====
-- What keeps a side well formed: its order, its live levels and its depth, through `upsert`, the cut
-- to the depth and the sort of a snapshot.
use crypto_mm_engine.Prelude.{
  ℕ, ◌≤◌, ◌≡◌, true, false, List, [], ◌∷◌, arith, length, All, take, zero, suc, length-take,
}
use crypto_mm_engine.Common.Types.{Side}
use crypto_mm_engine.Common.Fixed.{Px, is_zero, is_positive}
use crypto_mm_engine.OrderBook.Levels.{
  PriceLevel, is_better, insert_sorted, sort_levels, has_duplicates,
}
use crypto_mm_engine.OrderBook.Order.{OrderedFrom, IsOrdered, upsert}

-- A stored level has a positive price and a positive quantity.
abbrev pub IsLive : PriceLevel → Type 0
IsLive l = (is_positive l.price ≡ true) × (is_positive l.quantity ≡ true)

abbrev pub IsSide : ℕ → Side → List PriceLevel → Type 0
IsSide depth which ls = (length ls ≤ depth) × IsOrdered which ls × All IsLive ls

upsert-OrderedFrom :
    (which : Side) (p : Px) (l : PriceLevel) (ls : List PriceLevel)
    → is_better which p l.price ≡ true
    → OrderedFrom which p ls
    → OrderedFrom which p (upsert which l ls)
unfolding upsert
upsert-OrderedFrom Side.buy p l [] h o = ground arith
upsert-OrderedFrom Side.sell p l [] h o = ground arith
upsert-OrderedFrom Side.buy p l (x ∷ []) h o =
    ground (arith, upsert-OrderedFrom Side.buy x.price l [])
upsert-OrderedFrom Side.sell p l (x ∷ []) h o =
    ground (arith, upsert-OrderedFrom Side.sell x.price l [])
upsert-OrderedFrom Side.buy p l (x ∷ y ∷ ys) h o =
    ground (arith, upsert-OrderedFrom Side.buy x.price l (y ∷ ys))
upsert-OrderedFrom Side.sell p l (x ∷ y ∷ ys) h o =
    ground (arith, upsert-OrderedFrom Side.sell x.price l (y ∷ ys))

pub upsert-IsOrdered :
    (which : Side) (l : PriceLevel) (ls : List PriceLevel)
    → IsOrdered which ls
    → IsOrdered which (upsert which l ls)
unfolding upsert
upsert-IsOrdered Side.buy l [] o = ground arith
upsert-IsOrdered Side.sell l [] o = ground arith
upsert-IsOrdered Side.buy l (x ∷ []) o = ground (arith, upsert-OrderedFrom Side.buy x.price l [])
upsert-IsOrdered Side.sell l (x ∷ []) o = ground (arith, upsert-OrderedFrom Side.sell x.price l [])
upsert-IsOrdered Side.buy l (x ∷ y ∷ ys) o =
    ground (arith, upsert-OrderedFrom Side.buy x.price l (y ∷ ys))
upsert-IsOrdered Side.sell l (x ∷ y ∷ ys) o =
    ground (arith, upsert-OrderedFrom Side.sell x.price l (y ∷ ys))

pub upsert-IsLive :
    (which : Side) (l : PriceLevel) (ls : List PriceLevel)
    → is_positive l.price ≡ true
    → (is_zero l.quantity ≡ false → is_positive l.quantity ≡ true)
    → All IsLive ls
    → All IsLive (upsert which l ls)
unfolding upsert
upsert-IsLive which l [] p q a = ground arith
upsert-IsLive which l (x ∷ xs) p q a = ground (arith, upsert-IsLive which l xs p q)

take-OrderedFrom :
    (which : Side) (p : Px) (n : ℕ) (ls : List PriceLevel)
    → OrderedFrom which p ls
    → OrderedFrom which p (take n ls)
take-OrderedFrom which p zero ls o = tt
take-OrderedFrom which p (suc n) [] o = tt
take-OrderedFrom which p (suc n) (x ∷ xs) o = (o.0, take-OrderedFrom which x.price n xs o.1)

pub take-IsOrdered :
    (which : Side) (n : ℕ) (ls : List PriceLevel) → IsOrdered which ls → IsOrdered which (take n ls)
take-IsOrdered which zero ls o = tt
take-IsOrdered which (suc n) [] o = tt
take-IsOrdered which (suc n) (x ∷ xs) o = take-OrderedFrom which x.price n xs o

pub take-IsLive : (n : ℕ) (ls : List PriceLevel) → All IsLive ls → All IsLive (take n ls)
take-IsLive zero ls a = tt
take-IsLive (suc n) [] a = tt
take-IsLive (suc n) (x ∷ xs) a = (a.0, take-IsLive n xs a.1)

-- One level put into a side, and the side cut to its depth.
pub take-upsert-IsSide :
    (depth : ℕ) (which : Side) (l : PriceLevel) (ls : List PriceLevel)
    → is_positive l.price ≡ true
    → (is_zero l.quantity ≡ false → is_positive l.quantity ≡ true)
    → IsSide depth which ls
    → IsSide depth which (take depth (upsert which l ls))
take-upsert-IsSide depth which l ls p q (n, o, a) = (
  omega (arith, length-take depth (upsert which l ls)),
  take-IsOrdered which depth (upsert which l ls) (upsert-IsOrdered which l ls o),
  take-IsLive depth (upsert which l ls) (upsert-IsLive which l ls p q a),
)

-- Weakly ordered: what a sort gives. Without duplicates it is strict.
abbrev WeaklyFrom : Side → Px → List PriceLevel → Type 0
WeaklyFrom which price [] = Unit
WeaklyFrom which price (l ∷ ls) =
    (is_better which l.price price ≡ false) × WeaklyFrom which l.price ls

abbrev IsWeaklyOrdered : Side → List PriceLevel → Type 0
IsWeaklyOrdered which [] = Unit
IsWeaklyOrdered which (l ∷ ls) = WeaklyFrom which l.price ls

insert_sorted-WeaklyFrom :
    (which : Side) (p : Px) (l : PriceLevel) (ls : List PriceLevel)
    → is_better which l.price p ≡ false
    → WeaklyFrom which p ls
    → WeaklyFrom which p (insert_sorted which l ls)
unfolding insert_sorted
insert_sorted-WeaklyFrom which p l [] h o = (h, tt)
insert_sorted-WeaklyFrom Side.buy p l (x ∷ xs) h o =
    ground (arith, insert_sorted-WeaklyFrom Side.buy x.price l xs)
insert_sorted-WeaklyFrom Side.sell p l (x ∷ xs) h o =
    ground (arith, insert_sorted-WeaklyFrom Side.sell x.price l xs)

insert_sorted-IsWeaklyOrdered :
    (which : Side) (l : PriceLevel) (ls : List PriceLevel)
    → IsWeaklyOrdered which ls
    → IsWeaklyOrdered which (insert_sorted which l ls)
unfolding insert_sorted
insert_sorted-IsWeaklyOrdered which l [] o = tt
insert_sorted-IsWeaklyOrdered Side.buy l (x ∷ xs) o =
    ground (arith, insert_sorted-WeaklyFrom Side.buy x.price l xs)
insert_sorted-IsWeaklyOrdered Side.sell l (x ∷ xs) o =
    ground (arith, insert_sorted-WeaklyFrom Side.sell x.price l xs)

sort_levels-IsWeaklyOrdered :
    (which : Side) (ls : List PriceLevel) → IsWeaklyOrdered which (sort_levels which ls)
unfolding sort_levels
sort_levels-IsWeaklyOrdered which [] = tt
sort_levels-IsWeaklyOrdered which (l ∷ ls) =
    insert_sorted-IsWeaklyOrdered which l _ (sort_levels-IsWeaklyOrdered which ls)

strict_from :
    (which : Side) (l : PriceLevel) (ls : List PriceLevel)
    → WeaklyFrom which l.price ls
    → has_duplicates (l ∷ ls) ≡ false
    → OrderedFrom which l.price ls
unfolding has_duplicates
strict_from which l [] o d = tt
strict_from Side.buy l (x ∷ xs) o d = ground (arith, strict_from Side.buy x xs o.1)
strict_from Side.sell l (x ∷ xs) o d = ground (arith, strict_from Side.sell x xs o.1)

strict :
    (which : Side) (ls : List PriceLevel)
    → IsWeaklyOrdered which ls
    → has_duplicates ls ≡ false
    → IsOrdered which ls
strict which [] o d = tt
strict which (l ∷ ls) o d = strict_from which l ls o d

-- A sorted snapshot without duplicates is strictly ordered.
pub sort_levels-IsOrdered :
    (which : Side) (ls : List PriceLevel)
    → has_duplicates (sort_levels which ls) ≡ false
    → IsOrdered which (sort_levels which ls)
sort_levels-IsOrdered which ls d =
    strict which (sort_levels which ls) (sort_levels-IsWeaklyOrdered which ls) d

insert_sorted-IsLive :
    (which : Side) (l : PriceLevel) (ls : List PriceLevel)
    → IsLive l
    → All IsLive ls
    → All IsLive (insert_sorted which l ls)
unfolding insert_sorted
insert_sorted-IsLive which l [] p a = (p, tt)
insert_sorted-IsLive which l (x ∷ xs) p a = ground (arith, insert_sorted-IsLive which l xs p a.1)

pub sort_levels-IsLive :
    (which : Side) (ls : List PriceLevel) → All IsLive ls → All IsLive (sort_levels which ls)
unfolding sort_levels
sort_levels-IsLive which [] a = tt
sort_levels-IsLive which (l ∷ ls) a =
    insert_sorted-IsLive which l _ a.0 (sort_levels-IsLive which ls a.1)
