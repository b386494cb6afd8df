-- ===== src/Portfolio/Model.antt =====
-- The accounting model of the header of PositionAccount.hpp, in exact arithmetic: the new average
-- entry price and the realized PnL, from the old position `q` at the average `a` and a fill of `f`
-- at the price `p`. A fill that closes the position leaves no average, which the table of
-- docs/accounting.md lists on its own and the header counts among the reductions.
use native.Mathlib.Nat.{add-zero}
use crypto_mm_engine.Prelude.{
  ℕ, ◌+◌, ◌*◌, ◌/◌, ◌<◌, ◌≡◌, refl, Bool, true, false, not, ◌&&◌, some, if◌then◌else◌, ◌>>=◌, arith,
  Bool-cases, some_inj, >>=-eq-some, inl, inr, le-total, sym, ◌∙◌, ap, ◌^◌, ltb, ◌==◌, min,
}
use crypto_mm_engine.Prelude.Int.{
  ℤ, pos, negsuc, pos_part, neg_part, magnitude, ◌+ℤ◌, ◌-ℤ◌, ◌*ℤ◌, ◌/ℤ◌, ltb_ℤ, IsInt64, wrap64_id,
  -ℤ_parts, positive_parts, parts_disjoint, eq_of_parts,
}
use crypto_mm_engine.Common.Types.{Side}
use crypto_mm_engine.Common.Fixed.{
  Px, Qty, Notional, is_zero, is_positive, is_negative, sub, checked_sub, checked_notional_of,
  scale,
}
use crypto_mm_engine.Common.Fixed.Checked.{
  checked_sub-some, narrow-some, saturating_abs-magnitude, size,
}
use crypto_mm_engine.Portfolio.Account.{
  PositionAccount, CostChange, reduce, change_cost, signed_quantity, weighted_average, realized_of,
  same_sign,
}
use crypto_mm_engine.Portfolio.Average.{weighted_average_lem, some_average}

abbrev pub opposes : Qty → Qty → Bool
opposes q f = not (is_zero q) && not (same_sign (is_negative q) (is_negative f))

-- The price of what is held afterwards.
unfoldable pub model_average : Qty → Px → Px → Qty → Px
model_average q a p f =
    if is_zero q
    then p
    else if opposes q f
    then (if ltb (magnitude f) (magnitude q)
        then a
        else if magnitude f == magnitude q
        then pos 0
        else p)
    else pos ((pos_part a * magnitude q + pos_part p * magnitude f) / (magnitude q + magnitude f))

-- What is realized: the price move on the part that closes, in the direction that was held.
unfoldable pub model_realized : Qty → Px → Px → Qty → Notional
model_realized q a p f =
    if opposes q f
    then ((if is_negative q then a -ℤ p else p -ℤ a) *ℤ pos (min (magnitude f) (magnitude q)))
      /ℤ scale
    else pos 0

-- The signed size of a fill.
abbrev pub exact_sign : Side → Qty → ℤ
exact_sign Side.buy quantity = quantity
exact_sign Side.sell quantity = pos 0 -ℤ quantity

pub signed_quantity_exact :
    (side : Side) (quantity : Qty)
    → IsInt64 quantity
    → is_positive quantity ≡ true
    → signed_quantity side quantity ≡ exact_sign side quantity
unfolding signed_quantity sub
signed_quantity_exact Side.buy q i p = refl
signed_quantity_exact Side.sell q i p =
    wrap64_id (pos 0 -ℤ q)
      (omega (arith, -ℤ_parts (pos 0) q, i.0, positive_parts q p, parts_disjoint (pos 0 -ℤ q)))

-- Two positive prices differ by less than the range, so neither the move nor its negation wraps.
short_move :
    (entry exit_price : Px)
    → is_positive entry ≡ true
    → is_positive exit_price ≡ true
    → IsInt64 entry
    → IsInt64 exit_price
    → sub (pos 0) (exit_price -ℤ entry) ≡ entry -ℤ exit_price
unfolding sub
short_move a b pa pb ia ib =
    wrap64_id (pos 0 -ℤ (b -ℤ a)) (
      omega (
        arith,
        -ℤ_parts (pos 0) (b -ℤ a),
        -ℤ_parts b a,
        positive_parts a pa,
        positive_parts b pb,
        ia.0,
        ib.0,
        parts_disjoint (b -ℤ a),
        parts_disjoint (pos 0 -ℤ (b -ℤ a)),
      ))
    ∙ eq_of_parts _ _ (omega (arith, -ℤ_parts (pos 0) (b -ℤ a), -ℤ_parts b a, -ℤ_parts a b))

-- The code's realized PnL is the exact product, divided once and rounded towards zero.
pub realized_of-some :
    (entry exit_price : Px) (closed : Qty) (long_position : Bool) {r : Notional}
    → is_positive entry ≡ true
    → is_positive exit_price ≡ true
    → IsInt64 entry
    → IsInt64 exit_price
    → IsInt64 closed
    → neg_part closed < 2 ^ 63
    → realized_of entry exit_price closed long_position ≡ some r
    → r
      ≡ ((if long_position then exit_price -ℤ entry else entry -ℤ exit_price)
          *ℤ pos (magnitude closed))
        /ℤ scale
unfolding realized_of checked_notional_of
realized_of-some entry exit_price closed long_position {r} pe px ie ix ic nc e =
    let (move, e₁, r₁) = >>=-eq-some (checked_sub exit_price entry) _ e in
    let exact = (checked_sub-some exit_price entry e₁).0 in
    (narrow-some _ r₁).0
    ∙ rw (saturating_abs-magnitude closed nc ic, exact) (by_direction long_position)
  where
    by_direction :
        (b : Bool)
        → (if b then exit_price -ℤ entry else sub (pos 0) (exit_price -ℤ entry))
            *ℤ pos (magnitude closed)
            /ℤ scale
          ≡ (if b then exit_price -ℤ entry else entry -ℤ exit_price)
            *ℤ pos (magnitude closed)
            /ℤ scale
    by_direction true = refl
    by_direction false = rw (short_move entry exit_price pe px ie ix)

-- Against the position: what is left is zero exactly if the sizes agree.
left_over : (q f : Qty) → opposes q f ≡ true → is_zero (q +ℤ f) ≡ (magnitude f == magnitude q)
unfolding ◌+ℤ◌
left_over q f o = ground arith

closed_size : (m n : ℕ) → (if ltb_ℤ (pos m) (pos n) then pos m else pos n) ≡ pos (min m n)
closed_size m n = elim (le-total n m) [ inl h ↦ ground arith | inr h ↦ ground arith ]

-- The hypotheses on an account and a fill under which the code follows the model.
pub record Fillable (a : PositionAccount) (p : Px) (f : Qty) : Type 0 where
  pub price : is_positive p ≡ true
  pub price_range : IsInt64 p
  pub fill_range : IsInt64 f
  pub fill_size : neg_part f < 2 ^ 63
  pub fill_nonzero : is_zero f ≡ false
  pub position_range : IsInt64 a.position
  pub position_size : neg_part a.position < 2 ^ 63
  pub average_range : IsInt64 a.average_price
  pub basis : is_zero a.position ≡ false → is_positive a.average_price ≡ true

abbrev pub FollowsModel : PositionAccount → Px → Qty → CostChange → Type 0
FollowsModel a p f c =
    (c.average ≡ model_average a.position a.average_price p f)
    × (c.delta ≡ model_realized a.position a.average_price p f)

positive_pos : (v : ℤ) → is_positive v ≡ true → v ≡ pos (pos_part v)
positive_pos (pos n) h = refl
positive_pos (negsuc n) h = ground arith

size-eq-magnitude : (v : ℤ) → IsInt64 v → neg_part v < 2 ^ 63 → size v ≡ magnitude v
size-eq-magnitude v i h = omega (arith, parts_disjoint v, i.0)

average_by_size :
    (a p : Px) (q f : Qty) {r : Px}
    → is_positive a ≡ true
    → is_positive p ≡ true
    → IsInt64 a
    → IsInt64 p
    → IsInt64 q
    → IsInt64 f
    → weighted_average a q p f ≡ some r
    → r ≡ pos ((pos_part a * size q + pos_part p * size f) / (size q + size f))
average_by_size (pos a) (pos p) q f {r} pa pp ia ip iq iff e =
    (some_average (a * size q + p * size f) (size q + size f) r
      (sym (weighted_average_lem a p q f ia.0 ip.0 iq iff) ∙ e)).1
average_by_size (negsuc a) p q f pa pp ia ip iq iff e = ground arith
average_by_size (pos a) (negsuc p) q f pa pp ia ip iq iff e = ground arith

module _ (a : PositionAccount) (p : Px) (f : Qty) (h : Fillable a p f) where
  increase_model :
      {r : Px}
      → is_zero a.position ≡ false
      → opposes a.position f ≡ false
      → weighted_average a.average_price a.position p f ≡ some r
      → r ≡ model_average a.position a.average_price p f
  unfolding model_average
  increase_model {r} z o e =
      average_by_size a.average_price p a.position f (h.basis z) h.price h.average_range
        h.price_range h.position_range h.fill_range e
      ∙ rw (
        size-eq-magnitude a.position h.position_range h.position_size,
        size-eq-magnitude f h.fill_range h.fill_size,
        o,
        z,
      )

  -- The change of the cost basis once the realized PnL is known.
  reduced : Notional → CostChange
  reduced delta =
      if ltb_ℤ (pos (magnitude a.position)) (pos (magnitude f))
      then record { average = p; delta = delta; flips = true }
      else if magnitude f == magnitude a.position
      then record { average = pos 0; delta = delta; flips = false }
      else record { average = a.average_price; delta = delta; flips = false }

  reduce_lem :
      opposes a.position f ≡ true
      → reduce a p f (a.position +ℤ f) ≡ (
          realized_of a.average_price p
            (pos (min (magnitude f) (magnitude a.position)))
            (is_positive a.position)
          >>= λ delta. some (reduced delta))
  unfolding reduce reduced
  reduce_lem o = rw (
    saturating_abs-magnitude a.position h.position_size h.position_range,
    saturating_abs-magnitude f h.fill_size h.fill_range,
    left_over a.position f o,
    closed_size (magnitude f) (magnitude a.position),
  )

  opposed_nonzero : opposes a.position f ≡ true → is_zero a.position ≡ false
  opposed_nonzero o = ground arith

  opposed_long : opposes a.position f ≡ true → is_positive a.position ≡ not (is_negative a.position)
  opposed_long o = ground arith

  reduced_average :
      (d : Notional)
      → opposes a.position f ≡ true
      → (reduced d).average ≡ model_average a.position a.average_price p f
  unfolding reduced model_average
  reduced_average d o = rw (o, opposed_nonzero o) (ground arith)

  reduced_delta : (d : Notional) → (reduced d).delta ≡ d
  unfolding reduced
  reduced_delta d = ground arith

  closed_parts :
      IsInt64 (pos (min (magnitude f) (magnitude a.position)))
      × (neg_part (pos (min (magnitude f) (magnitude a.position))) < 2 ^ 63)
  closed_parts =
      let m = parts_disjoint f in
      ((omega (arith, m, h.fill_range.0, h.fill_size), omega arith), omega arith)

  realized_model :
      {d : Notional}
      → opposes a.position f ≡ true
      → realized_of a.average_price p
          (pos (min (magnitude f) (magnitude a.position)))
          (is_positive a.position)
        ≡ some d
      → d ≡ model_realized a.position a.average_price p f
  unfolding model_realized
  realized_model {d} o e =
      let exact =
        realized_of-some a.average_price p _ _ (h.basis (opposed_nonzero o)) h.price h.average_range
          h.price_range closed_parts.0 closed_parts.1 e in
      exact ∙ rw (o, opposed_long o) (by_sign (is_negative a.position))
    where
      by_sign :
          (b : Bool)
          → (if not b then p -ℤ a.average_price else a.average_price -ℤ p)
              *ℤ pos (min (magnitude f) (magnitude a.position) + 0)
              /ℤ scale
            ≡ (if b then a.average_price -ℤ p else p -ℤ a.average_price)
              *ℤ pos (min (magnitude f) (magnitude a.position))
              /ℤ scale
      by_sign true = rw (add-zero (min (magnitude f) (magnitude a.position)))
      by_sign false = rw (add-zero (min (magnitude f) (magnitude a.position)))

  reduce_model :
      {c : CostChange}
      → opposes a.position f ≡ true
      → reduce a p f (a.position +ℤ f) ≡ some c
      → FollowsModel a p f c
  reduce_model {c} o e =
      let (d, e₁, r₁) =
        >>=-eq-some
          (realized_of a.average_price p (pos (min (magnitude f) (magnitude a.position)))
            (is_positive a.position))
          (λ delta. some (reduced delta)) (sym (reduce_lem o) ∙ e) in
      let same = some_inj r₁ in
      (
        sym (ap (λ c. c.average) same) ∙ reduced_average d o,
        sym (ap (λ c. c.delta) same) ∙ reduced_delta d ∙ realized_model o e₁,
      )

-- The branches of `change_cost`.
module _ (a : PositionAccount) (p : Px) (f n : Qty) where
  pub change_cost_opening :
      is_zero a.position ≡ true
      → change_cost a p f n ≡ some (record { average = p; delta = pos 0; flips = false })
  unfolding change_cost
  change_cost_opening z = rw z

  pub change_cost_increasing :
      is_zero a.position ≡ false
      → same_sign (is_negative a.position) (is_negative f) ≡ true
      → change_cost a p f n ≡ (
          weighted_average a.average_price a.position p f >>= λ average.
          some (record { average = average; delta = pos 0; flips = false }))
  unfolding change_cost
  change_cost_increasing z s = rw (z, s)

  pub change_cost_reducing :
      is_zero a.position ≡ false
      → same_sign (is_negative a.position) (is_negative f) ≡ false
      → change_cost a p f n ≡ reduce a p f n
  unfolding change_cost
  change_cost_reducing z s = rw (z, s)

module _ (a : PositionAccount) (p : Px) (f : Qty) (h : Fillable a p f) where
  opening_model :
      {c : CostChange} (n : Qty)
      → is_zero a.position ≡ true
      → change_cost a p f n ≡ some c
      → FollowsModel a p f c
  unfolding model_average model_realized
  opening_model {c} n z e =
      let same = some_inj (sym (change_cost_opening a p f n z) ∙ e) in
      (sym (ap (λ d. d.average) same) ∙ rw z, sym (ap (λ d. d.delta) same) ∙ rw z)

  increasing_model :
      {c : CostChange} (n : Qty)
      → is_zero a.position ≡ false
      → same_sign (is_negative a.position) (is_negative f) ≡ true
      → change_cost a p f n ≡ some c
      → FollowsModel a p f c
  unfolding model_realized
  increasing_model {c} n z s e =
      let apart : opposes a.position f ≡ false = rw (z, s) in
      let (r, e₁, r₁) =
        >>=-eq-some (weighted_average a.average_price a.position p f) _
          (sym (change_cost_increasing a p f n z s) ∙ e) in
      let same = some_inj r₁ in
      (
        sym (ap (λ d. d.average) same) ∙ increase_model a p f h z apart e₁,
        sym (ap (λ d. d.delta) same) ∙ rw apart,
      )

  reducing_model :
      {c : CostChange}
      → is_zero a.position ≡ false
      → same_sign (is_negative a.position) (is_negative f) ≡ false
      → change_cost a p f (a.position +ℤ f) ≡ some c
      → FollowsModel a p f c
  reducing_model {c} z s e =
      let against : opposes a.position f ≡ true = rw (z, s) in
      reduce_model a p f h against (sym (change_cost_reducing a p f _ z s) ∙ e)

-- For every fill that the code accepts, the new average entry price and the realized PnL are those
-- of the accounting model.
pub change_cost-FollowsModel :
    (a : PositionAccount) (p : Px) (f : Qty)
    → Fillable a p f
    → {c : CostChange} → change_cost a p f (a.position +ℤ f) ≡ some c
    → FollowsModel a p f c
change_cost-FollowsModel a p f h {c} e = elim (Bool-cases (is_zero a.position)) [
  | inl flat ↦ opening_model a p f h _ flat e
  | inr held ↦ elim (Bool-cases (same_sign (is_negative a.position) (is_negative f))) [
    | inl same ↦ increasing_model a p f h _ held same e
    | inr against ↦ reducing_model a p f h held against e
  ]
]
