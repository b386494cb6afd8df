-- ===== src/OrderBook/Refinement.antt =====
-- `apply_level` of src/orderbook/OrderBook.cpp and its reference, one insertion into an ordered list.
use mathlib.Core.List.{append-nil}
use crypto_mm_engine.Prelude.{
  ℕ, ◌+◌, ◌≤◌, ◌≡◌, Bool, true, false, List, [], ◌∷◌, ◌++◌, arith, length, refl, take, take_all, ap,
  sym, length-append, Bool-cases, inl, inr, leb, ◌&&◌, ◌∙◌,
}
use crypto_mm_engine.Common.Types.{Side}
use crypto_mm_engine.Common.Fixed.{Px, Qty, is_zero}
use crypto_mm_engine.OrderBook.Levels.{PriceLevel, locate, found, is_end, erase_first, set_first}
use crypto_mm_engine.OrderBook.{OrderBook, side_of, with_side, trim, place_level}
use crypto_mm_engine.OrderBook.Order.{
  upsert, upsert_delete, upsert_replace, upsert_insert, locate-append,
}

length-locate :
    (which : Side) (p : Px) (ls : List PriceLevel)
    → length (locate which p ls).0 + length (locate which p ls).1 ≡ length ls
length-locate which p ls =
    sym (length-append (locate which p ls).0 _) ∙ ap length (locate-append which p ls)

length_append_locate :
    (which : Side) (p : Px) (ls : List PriceLevel)
    → length ((locate which p ls).0 ++ (locate which p ls).1) ≡ length ls
length_append_locate which p ls = ap length (locate-append which p ls)

take_append : (xs ys : List PriceLevel) → take (length xs) (xs ++ ys) ≡ xs
take_append [] ys = refl
take_append (x ∷ xs) ys = ap (◌∷◌ x) (take_append xs ys)

append_end : (xs ls : List PriceLevel) → is_end ls ≡ true → xs ++ ls ≡ xs
unfolding is_end
append_end xs [] e = append-nil xs
append_end xs (l ∷ ls) e = cc

-- Where the price belongs behind the last level, all levels stand before it.
locate_end :
    (which : Side) (p : Px) (ls : List PriceLevel)
    → is_end (locate which p ls).1 ≡ true
    → (locate which p ls).0 ≡ ls
locate_end which p ls e = sym (append_end _ (locate which p ls).1 e) ∙ locate-append which p ls

full_at_end : (d n : ℕ) (e : Bool) → leb d n && e ≡ true → (d ≤ n) × (e ≡ true)
full_at_end d n e h = ground arith

side_of-trim :
    (which : Side) (b : OrderBook) (ls : List PriceLevel)
    → side_of which (trim which (with_side which ls b)) ≡ take b.max_depth ls
unfolding trim
side_of-trim Side.buy b ls = ground (arith, take_all b.max_depth ls)
side_of-trim Side.sell b ls = ground (arith, take_all b.max_depth ls)

side_of-with_side :
    (which : Side) (ls : List PriceLevel) (b : OrderBook)
    → side_of which (with_side which ls b) ≡ ls
side_of-with_side Side.buy ls b = refl
side_of-with_side Side.sell ls b = refl

side_of-dropped :
    (which : Side) (n : ℕ) (b : OrderBook)
    → side_of which (record b { levels_dropped = n }) ≡ side_of which b
side_of-dropped Side.buy n b = refl
side_of-dropped Side.sell n b = refl

length-erase : (xs rest : List PriceLevel) → length (xs ++ erase_first rest) ≤ length (xs ++ rest)
unfolding erase_first
length-erase [] [] = omega arith
length-erase [] (x ∷ rest) = omega arith
length-erase (x ∷ xs) rest = omega (arith, length-erase xs rest)

length-set_first :
    (q : Qty) (xs rest : List PriceLevel) → length (xs ++ set_first q rest) ≡ length (xs ++ rest)
unfolding set_first
length-set_first q [] [] = omega arith
length-set_first q [] (x ∷ rest) = omega arith
length-set_first q (x ∷ xs) rest = omega (arith, length-set_first q xs rest)

take_full : (n : ℕ) (xs ys : List PriceLevel) → length xs ≡ n → take n (xs ++ ys) ≡ xs
take_full n xs ys e = rw (← e) (take_append xs ys)

module _ (which : Side) (l : PriceLevel) (b : OrderBook)
    (fits : length (side_of which b) ≤ b.max_depth) where
  place_deletion :
      is_zero l.quantity ≡ true
      → side_of which (place_level which l b) ≡ take b.max_depth (upsert which l (side_of which b))
  unfolding place_level
  place_deletion z = elim (Bool-cases (found l.price (locate which l.price (side_of which b)).1)) [
    | inl f ↦
        rw (upsert_delete which l (side_of which b) z, z, f)
          (side_of-with_side which _ b
            ∙ sym (
                take_all b.max_depth _ (
                  omega (
                    arith,
                    length-erase (locate which l.price (side_of which b)).0
                        (locate which l.price (side_of which b)).1,
                    length_append_locate which l.price (side_of which b),
                  ))))
    | inr f ↦
        rw (upsert_delete which l (side_of which b) z, z, f)
          (sym (take_all b.max_depth (side_of which b) fits))
  ]

  place_replacement :
      is_zero l.quantity ≡ false
      → found l.price (locate which l.price (side_of which b)).1 ≡ true
      → side_of which (place_level which l b) ≡ take b.max_depth (upsert which l (side_of which b))
  unfolding place_level
  place_replacement z f =
      rw (upsert_replace which l (side_of which b) z f, z, f)
        (side_of-with_side which _ b
          ∙ sym (
              take_all b.max_depth _ (
                omega (
                  arith,
                  length-set_first l.quantity (locate which l.price (side_of which b)).0
                      (locate which l.price (side_of which b)).1,
                  length_append_locate which l.price (side_of which b),
                ))))

  place_dropped :
      b.max_depth ≤ length (side_of which b)
      → is_end (locate which l.price (side_of which b)).1 ≡ true
      → side_of which b
        ≡ take b.max_depth (
            (locate which l.price (side_of which b)).0
            ++ l ∷ (locate which l.price (side_of which b)).1)
  place_dropped long last =
      let whole = locate_end which l.price (side_of which b) last in
      sym whole
      ∙ sym (
          take_full b.max_depth (locate which l.price (side_of which b)).0 _
            (ap length whole ∙ sym (full_length long)))
    where
      full_length : b.max_depth ≤ length (side_of which b) → b.max_depth ≡ length (side_of which b)
      full_length h = omega arith

  place_insertion :
      is_zero l.quantity ≡ false
      → found l.price (locate which l.price (side_of which b)).1 ≡ false
      → side_of which (place_level which l b) ≡ take b.max_depth (upsert which l (side_of which b))
  unfolding place_level
  place_insertion z f =
      elim (Bool-cases (
        leb b.max_depth (length (side_of which b))
        && is_end (locate which l.price (side_of which b)).1)) [
          | inl full ↦
              rw (upsert_insert which l (side_of which b) z f, z, f, full)
                (side_of-dropped which _ b
                  ∙ place_dropped (full_at_end _ _ _ full).0 (full_at_end _ _ _ full).1)
          | inr room ↦
              rw (upsert_insert which l (side_of which b) z f, z, f, room) (side_of-trim which b _)
        ]

  -- Whatever the level does, the side becomes the reference's, cut to the depth.
  pub side_of-place_level :
      side_of which (place_level which l b) ≡ take b.max_depth (upsert which l (side_of which b))
  side_of-place_level = elim (Bool-cases (is_zero l.quantity)) [
    | inl z ↦ place_deletion z
    | inr z ↦ elim (Bool-cases (found l.price (locate which l.price (side_of which b)).1)) [
      | inl f ↦ place_replacement z f
      | inr f ↦ place_insertion z f
    ]
  ]
