-- ===== src/Paper/Price.antt =====
-- The price of a match of src/exchange/paper/PaperMatcher.cpp, against the order's limit.
use crypto_mm_engine.Prelude.{
  ℕ, ◌+◌, ◌*◌, ◌/◌, ◌-◌, ◌^◌, ◌≤◌, ◌<◌, ◌≡◌, refl, true, List, [], ◌∷◌, All, arith, sym, ◌∙◌, subst,
  Bool-cases, Option-cases, inl, inr,
}
use native.Mathlib.Nat.{div-le_of_le-mul, le-div_iff_mul-le, mul-le-mul_left}
use crypto_mm_engine.Prelude.Int.{
  ℤ, pos, negsuc, pos_part, ◌+ℤ◌, ◌*ℤ◌, ◌/ℤ◌, wrap64, wrap64_id, IsInt64,
}
use crypto_mm_engine.Common.Types.{Side}
use crypto_mm_engine.Common.Fixed.{Px, Qty, is_positive, checked_add, checked_sub, min_Fixed}
use crypto_mm_engine.Common.Fixed.Checked.{checked_add-some}
use crypto_mm_engine.OrderBook.Levels.{PriceLevel}
use crypto_mm_engine.Paper.Matcher.{
  PaperOrder, MatchResult, no_match, Walk, displayed_liquidity, apply_share, take_from, visit_level,
  walk_levels, match_displayed, match_and_consume, remaining_qty, is_open_status, is_executable,
}

-- A price that is a limit: positive and in range.
abbrev pub IsPrice : Px → Type 0
IsPrice p = (is_positive p ≡ true) × IsInt64 p

-- The value of a quantity, against the limit.
abbrev IsWithin : Side → ℕ → ℕ → ℕ → Type 0
IsWithin Side.buy limit f v = v ≤ f * limit
IsWithin Side.sell limit f v = f * limit ≤ v

-- The locals of the walk: the value is that of the quantity at prices that the limit permits.
record IsPriced (side : Side) (limit : ℕ) (w : Walk) : Type 0 where
  pub quantity : ℕ
  pub worth : ℕ
  pub filled : w.filled ≡ pos quantity
  pub value : w.value ≡ pos worth
  pub ranged : worth ≤ quantity * (2 ^ 63 - 1)
  pub within : IsWithin side limit quantity worth

add_ranged : (f v t p : ℕ) → p < 2 ^ 63 → v ≤ f * (2 ^ 63 - 1) → v + t * p ≤ (f + t) * (2 ^ 63 - 1)
add_ranged f v t p h k =
    let less : p ≤ 2 ^ 63 - 1 = omega arith in
    let more = mul-le-mul_left t less in omega (arith, more)

add-IsWithin :
    (side : Side) (limit f v t p : ℕ)
    → is_executable side (pos limit) (pos p) ≡ true
    → IsWithin side limit f v
    → IsWithin side limit (f + t) (v + t * p)
add-IsWithin Side.buy limit f v t p e h =
    let less : p ≤ limit = ground (arith, e) in
    let more = mul-le-mul_left t less in omega (arith, more)
add-IsWithin Side.sell limit f v t p e h =
    let less : limit ≤ p = ground (arith, e) in
    let more = mul-le-mul_left t less in omega (arith, more)

sum_pos : (a b : ℕ) → pos a +ℤ pos b ≡ pos (a + b)
unfolding ◌+ℤ◌
sum_pos a b = ground arith

product_pos : (a b : ℕ) → pos a *ℤ pos b ≡ pos (a * b)
unfolding ◌*ℤ◌
product_pos a b = ground arith

quotient_pos : (a b : ℕ) → pos a /ℤ pos b ≡ pos (a / b)
unfolding ◌/ℤ◌
quotient_pos a b = ground arith

nonneg_pos : (a : ℤ) → is_positive a ≡ true → a ≡ pos (pos_part a)
nonneg_pos (pos n) h = refl
nonneg_pos (negsuc n) h = absurd (ground arith)

min_positive :
    (a b : ℤ) → is_positive a ≡ true → is_positive b ≡ true → is_positive (min_Fixed a b) ≡ true
min_positive a b h k = ground arith

executable_pos :
    (side : Side) (a b : ℤ) {m n : ℕ}
    → a ≡ pos m
    → b ≡ pos n
    → is_executable side a b ≡ true
    → is_executable side (pos m) (pos n) ≡ true
executable_pos side a b la lb e = rw (← la, ← lb) e

take_from-IsPriced :
    (side : Side) (limit : ℕ) (remaining : Qty) (l : PriceLevel) (taken : Qty) (p t : ℕ) (w : Walk)
    → l.price ≡ pos p
    → taken ≡ pos t
    → p < 2 ^ 63
    → is_executable side (pos limit) (pos p) ≡ true
    → IsPriced side limit w
    → IsPriced side limit (take_from remaining l taken w).walk
unfolding take_from
take_from-IsPriced side limit remaining l taken p t w lp lt small e v =
    elim (Option-cases (checked_add w.filled taken)) [
      | inl f ↦ rw f v
      | inr (next, f) ↦
          (let exact = (checked_add-some w.filled taken f).0 in
            rw f (record {
              quantity = v.quantity + t;
              worth = v.worth + t * p;
              filled = exact ∙ (rw (v.filled, lt) (sum_pos v.quantity t));
              value = rw (v.value, lt, lp, product_pos t p) (sum_pos v.worth (t * p));
              ranged = add_ranged v.quantity v.worth t p small v.ranged;
              within = add-IsWithin side limit v.quantity v.worth t p e v.within;
            }))
    ]

visit_level-IsPriced :
    (o : PaperOrder) (bps limit : ℕ) (remaining : Qty) (l : PriceLevel) (w : Walk)
    → o.price ≡ pos limit
    → IsPrice l.price
    → IsPriced o.side limit w
    → IsPriced o.side limit (visit_level o bps remaining l w).walk
unfolding visit_level
visit_level-IsPriced o bps limit remaining l w at_limit priced v =
    let available = apply_share l.quantity bps in
    let price = nonneg_pos l.price priced.0 in
    elim (Bool-cases (is_executable o.side o.price l.price)) [
      | inr e ↦ rw e v
      | inl e ↦
          (let may = executable_pos o.side o.price l.price at_limit price e in
            rw e (elim (Bool-cases (is_positive available)) [
              | inr p ↦ rw p v
              | inl p ↦ rw p (elim (Option-cases (checked_sub remaining w.filled)) [
                | inl f ↦ rw f v
                | inr (room, f) ↦ rw f (elim (Bool-cases (is_positive room)) [
                  | inr q ↦ rw q v
                  | inl q ↦
                      (let taken =
                          nonneg_pos (min_Fixed available room) (min_positive available room p q) in
                        rw q (
                          take_from-IsPriced o.side limit remaining l (min_Fixed available room)
                            (pos_part l.price) (pos_part (min_Fixed available room)) w price taken
                            priced.1.0 may v))
                ])
              ])
            ]))
    ]

walk_levels-IsPriced :
    (o : PaperOrder) (bps limit : ℕ) (remaining : Qty) (levels : List PriceLevel) (w : Walk)
    → o.price ≡ pos limit
    → All (λ l. IsPrice l.price) levels
    → IsPriced o.side limit w
    → IsPriced o.side limit (walk_levels o bps remaining levels w).1
unfolding walk_levels
walk_levels-IsPriced o bps limit remaining [] w at_limit priced v = v
walk_levels-IsPriced o bps limit remaining (l ∷ ls) w at_limit (priced, rest_priced) v =
    let s = visit_level o bps remaining l w in
    let here = visit_level-IsPriced o bps limit remaining l w at_limit priced v in
    elim (Bool-cases s.goes_on) [
      | inl g ↦
          rw g (walk_levels-IsPriced o bps limit remaining ls s.walk at_limit rest_priced here)
      | inr g ↦ rw g here
    ]

average_permitted :
    (side : Side) (limit f v : ℕ)
    → 0 < f
    → IsWithin side limit f v
    → is_executable side (pos limit) (pos (v / f)) ≡ true
average_permitted Side.buy limit f v h k = (let d = div-le_of_le-mul f k in ground (arith, d))
average_permitted Side.sell limit f v h k =
    let swapped : limit * f ≤ v = omega arith in
    let d : limit ≤ v / f = (le-div_iff_mul-le h).1 swapped in ground (arith, d)

positive_part : {a : ℤ} (n : ℕ) → a ≡ pos n → is_positive a ≡ true → 0 < n
positive_part n e h = ground (arith, e)

priced-KeepsLimit :
    (side : Side) (limit : ℕ) (w : Walk)
    → IsPriced side limit w
    → is_positive w.filled ≡ true
    → is_executable side (pos limit) (wrap64 (w.value /ℤ w.filled)) ≡ true
priced-KeepsLimit side limit w v h =
    let positive : 0 < v.quantity = positive_part v.quantity v.filled h in
    let ranged : v.worth / v.quantity ≤ 2 ^ 63 - 1 = div-le_of_le-mul v.quantity v.ranged in
    rw
      (
        v.value,
        v.filled,
        quotient_pos v.worth v.quantity,
        wrap64_id (pos (v.worth / v.quantity)) (omega arith, omega arith),
      )
      (average_permitted side limit v.quantity v.worth positive v.within)

start-IsPriced :
    (side : Side) (limit : ℕ)
    → IsPriced side limit (record { filled = pos 0; value = pos 0; consumed = 0 })
start-IsPriced Side.buy limit = record {
  quantity = 0;
  worth = 0;
  filled = refl;
  value = refl;
  ranged = omega arith;
  within = omega arith;
}
start-IsPriced Side.sell limit = record {
  quantity = 0;
  worth = 0;
  filled = refl;
  value = refl;
  ranged = omega arith;
  within = omega arith;
}

-- A match that is not empty has a price that the limit permits.
abbrev pub KeepsLimit : PaperOrder → MatchResult → Type 0
KeepsLimit o r = is_positive r.quantity ≡ true → is_executable o.side o.price r.price ≡ true

no_match-KeepsLimit :
    (o : PaperOrder) (consumed : ℕ) → KeepsLimit o (record no_match { levels_consumed = consumed })
no_match-KeepsLimit o consumed h = absurd (ground arith)

match_displayed-KeepsLimit :
    (o : PaperOrder) (levels : List PriceLevel) (bps : ℕ)
    → IsPrice o.price
    → All (λ l. IsPrice l.price) levels
    → KeepsLimit o (match_displayed o bps (remaining_qty o) levels).0
unfolding match_displayed
match_displayed-KeepsLimit o levels bps price priced =
    let at_limit = nonneg_pos o.price price.0 in
    let limit = pos_part o.price in
    let start : Walk = record { filled = pos 0; value = pos 0; consumed = 0 } in
    let w = (walk_levels o bps (remaining_qty o) levels start).1 in
    let walked =
      walk_levels-IsPriced o bps limit (remaining_qty o) levels start at_limit priced
        (start-IsPriced o.side limit) in
    elim (Bool-cases (is_positive w.filled)) [
      | inr p ↦ rw p (no_match-KeepsLimit o w.consumed)
      | inl p ↦ rw p (λ _.
          subst (λ x. is_executable o.side x (wrap64 (w.value /ℤ w.filled)) ≡ true) (sym at_limit)
            (priced-KeepsLimit o.side limit w walked p))
    ]

match_and_consume-cases :
    (o : PaperOrder) (levels : List PriceLevel) (bps : ℕ)
    → IsPrice o.price
    → All (λ l. IsPrice l.price) levels
    → KeepsLimit o (match_and_consume o levels displayed_liquidity bps).0
unfolding match_and_consume
match_and_consume-cases o levels bps price priced = elim (Bool-cases (is_open_status o.status)) [
  | inr e ↦ rw e (no_match-KeepsLimit o 0)
  | inl e ↦ rw e (elim (Bool-cases (is_positive (remaining_qty o))) [
    | inr p ↦ rw p (no_match-KeepsLimit o 0)
    | inl p ↦ rw p (match_displayed-KeepsLimit o levels bps price priced)
  ])
]

-- Against displayed liquidity at positive prices, the price of a match that is not empty is one that the
-- order's limit permits: a purchase pays no more than its limit, a sale gets no less.
pub match_and_consume-KeepsLimit :
    (o : PaperOrder) (levels : List PriceLevel) (bps : ℕ)
    → IsPrice o.price
    → All (λ l. IsPrice l.price) levels
    → is_positive (match_and_consume o levels displayed_liquidity bps).0.quantity ≡ true
    → is_executable o.side o.price (match_and_consume o levels displayed_liquidity bps).0.price
      ≡ true
match_and_consume-KeepsLimit o levels bps price priced =
    match_and_consume-cases o levels bps price priced
