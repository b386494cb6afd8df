-- ===== src/Portfolio/Effect.antt =====
-- The invariant of an account, and the effect of an applied fill on every field.
use crypto_mm_engine.Prelude.{
  ◌<◌, ◌≡◌, refl, true, false, not, some, if◌then◌else◌, ◌>>=◌, arith, Bool-cases, >>=-eq-some,
  some_inj, inl, inr, sym, ◌∙◌, ap, subst, ◌^◌,
}
use crypto_mm_engine.Prelude.Int.{
  pos, neg_part, ◌+ℤ◌, ◌-ℤ◌, ltb_ℤ, IsInt64, -ℤ_parts, +ℤ_parts, parts_disjoint, positive_parts,
}
use crypto_mm_engine.Common.Types.{Side, TradeId}
use crypto_mm_engine.Common.Fixed.{
  Px, Qty, Notional, is_zero, is_positive, is_negative, checked_add, saturating_abs,
}
use crypto_mm_engine.Common.Fixed.Checked.{checked_add-some, size, saturating_abs-size}
use crypto_mm_engine.Portfolio.Types.{is_none}
use crypto_mm_engine.Portfolio.SeenTrades.{IsRing, insert-IsRing}
use crypto_mm_engine.Portfolio.Account.{
  PositionAccount, CostChange, FillPlan, reduce, change_cost, commit, signed_quantity, apply_fill,
  weighted_average, realized_of, same_sign,
}
use crypto_mm_engine.Portfolio.Average.{weighted_average_between, weighted_average-IsInt64}
use crypto_mm_engine.Portfolio.Model.{
  change_cost_opening, change_cost_increasing, change_cost_reducing, signed_quantity_exact,
}
use crypto_mm_engine.Portfolio.Fill.{
  Planned, Applied, apply_fill-Applied, apply_fill_refused, check_fill-passed,
}

pub record IsAccount (a : PositionAccount) : Type 0 where
  pub position_range : IsInt64 a.position
  pub average_range : IsInt64 a.average_price
  pub basis : is_positive a.average_price ≡ not (is_zero a.position)
  pub fees_nonneg : is_negative a.fees ≡ false
  pub flat_value : is_zero a.position ≡ true → a.unrealized ≡ pos 0
  pub flat_valid : is_zero a.position ≡ true → a.unrealized_valid ≡ true
  pub ring : IsRing a.seen

-- The basis of what is held after a fill: positive exactly if something is held.
abbrev HasBasis : CostChange → Qty → Type 0
HasBasis c n = (is_positive c.average ≡ not (is_zero n)) × IsInt64 c.average

sum_nonzero :
    (q f : Qty)
    → is_zero q ≡ false
    → same_sign (is_negative q) (is_negative f) ≡ true
    → is_zero (q +ℤ f) ≡ false
unfolding ◌+ℤ◌
sum_nonzero q f z s = ground arith

flip_nonzero : (q f : Qty) → size q < size f → is_zero (q +ℤ f) ≡ false
unfolding ◌+ℤ◌
flip_nonzero q f h = ground arith

reduce-HasBasis :
    (a : PositionAccount) (p : Px) (f n : Qty) {c : CostChange}
    → (ltb_ℤ (saturating_abs a.position) (saturating_abs f) ≡ true → is_zero n ≡ false)
    → is_positive p ≡ true
    → IsInt64 p
    → is_positive a.average_price ≡ true
    → IsInt64 a.average_price
    → reduce a p f n ≡ some c
    → HasBasis c n
unfolding reduce
reduce-HasBasis a p f n {c} flip pp ip pa ia e =
    let (d, e₁, r₁) =
      >>=-eq-some
        (realized_of a.average_price p
          (if ltb_ℤ (saturating_abs f) (saturating_abs a.position)
            then saturating_abs f
            else saturating_abs a.position)
          (is_positive a.position))
        _ e in
    ground (arith, r₁)

change_cost-HasBasis :
    (a : PositionAccount) (p : Px) (f : Qty) {c : CostChange}
    → IsAccount a
    → is_positive p ≡ true
    → IsInt64 p
    → IsInt64 f
    → is_zero f ≡ false
    → change_cost a p f (a.position +ℤ f) ≡ some c
    → HasBasis c (a.position +ℤ f)
change_cost-HasBasis a p f {c} v pp ip iff nz e = elim (Bool-cases (is_zero a.position)) [
  | inl flat ↦ opened flat (some_inj (sym (change_cost_opening a p f _ flat) ∙ e))
  | inr held ↦ elim (Bool-cases (same_sign (is_negative a.position) (is_negative f))) [
    | inl same ↦ increased held same (sym (change_cost_increasing a p f _ held same) ∙ e)
    | inr against ↦
        reduce-HasBasis a p f _ flips pp ip (v.basis ∙ ap not held) v.average_range
          (sym (change_cost_reducing a p f _ held against) ∙ e)
  ]
]
  where
    flat_sum : (q f : Qty) → is_zero q ≡ true → is_zero f ≡ false → is_zero (q +ℤ f) ≡ false
    flat_sum q f z n = ground (arith, +ℤ_parts q f)

    opened :
        is_zero a.position ≡ true
        → ◌≡◌ {A = CostChange} (record { average = p; delta = pos 0; flips = false }) c
        → HasBasis c (a.position +ℤ f)
    opened z same =
        subst (λ c. HasBasis c (a.position +ℤ f)) same
          (pp ∙ sym (ap not (flat_sum a.position f z nz)), ip)

    increased :
        is_zero a.position ≡ false
        → same_sign (is_negative a.position) (is_negative f) ≡ true
        → (weighted_average a.average_price a.position p f >>= λ average.
            some (record { average = average; delta = pos 0; flips = false }))
          ≡ some c
        → HasBasis c (a.position +ℤ f)
    increased z s e =
        let (r, e₁, r₁) = >>=-eq-some (weighted_average a.average_price a.position p f) _ e in
        let between =
          weighted_average_between a.average_price p a.position f (v.basis ∙ ap not z) pp
            v.average_range ip v.position_range iff e₁ in
        subst (λ c. HasBasis c (a.position +ℤ f)) (some_inj r₁)
          (
            between.2 ∙ sym (ap not (sum_nonzero a.position f z s)),
            weighted_average-IsInt64 _ _ _ _ e₁,
          )

    flips :
        ltb_ℤ (saturating_abs a.position) (saturating_abs f) ≡ true
        → is_zero (a.position +ℤ f) ≡ false
    flips h = flip_nonzero a.position f (
        ground
          (arith, h, saturating_abs-size a.position v.position_range, saturating_abs-size f iff))

-- The signed fill is in range and not zero.
pub signed_facts :
    (side : Side) (q : Qty)
    → IsInt64 q
    → is_positive q ≡ true
    → IsInt64 (signed_quantity side q)
      × (is_zero (signed_quantity side q) ≡ false)
      × (neg_part (signed_quantity side q) < 2 ^ 63)
signed_facts Side.buy q i p =
    rw (signed_quantity_exact Side.buy q i p) (i, ground arith, omega (arith, positive_parts q p))
signed_facts Side.sell q i p =
    let positive = positive_parts q p in
    let parts = -ℤ_parts (pos 0) q in
    let apart = parts_disjoint (pos 0 -ℤ q) in
    rw (signed_quantity_exact Side.sell q i p) (
      omega (arith, positive, parts, apart, i.0),
      ground (arith, positive, parts),
      omega (arith, positive, parts, apart, i.0),
    )

pub Planned-cost :
    {a : PositionAccount} {price : Px} {f : Qty} {fee : Notional} {p : FillPlan}
    → Planned a price f fee p
    → change_cost a price f (a.position +ℤ f) ≡ some p.cost
Planned-cost {a} {price} {f} {fee} {p} x =
    subst (λ n. change_cost a price f n ≡ some p.cost) (checked_add-some a.position f x.position).0
      x.cost

fees_sum :
    (x y : Notional) {r : Notional}
    → is_negative x ≡ false
    → is_negative y ≡ false
    → checked_add x y ≡ some r
    → is_negative r ≡ false
fees_sum x y {r} nx ny e = rw ((checked_add-some x y e).0) (ground (arith, +ℤ_parts x y))

module _ (id : TradeId) (side : Side) (price : Px) (quantity : Qty) (fee : Notional)
    (a : PositionAccount) (v : IsAccount a) (ip : IsInt64 price) (iq : IsInt64 quantity) where
  commit-IsAccount : (x : Applied id side price quantity fee a) → IsAccount (commit id x.plan a)
  unfolding commit
  commit-IsAccount x =
      let f = signed_quantity side quantity in
      let (ready, positive, priced, nonneg, new) =
        check_fill-passed id price quantity fee a x.checked in
      let (range, nonzero, _) = signed_facts side quantity iq positive in
      let sum = checked_add-some a.position f x.planned.position in
      let basis =
        change_cost-HasBasis a price f v priced ip range nonzero (Planned-cost x.planned) in
      record {
        position_range = sum.1;
        average_range = basis.1;
        basis = basis.0 ∙ ap (λ n. not (is_zero n)) (sym sum.0);
        fees_nonneg = fees_sum a.fees fee v.fees_nonneg nonneg x.planned.fees;
        flat_value = λ z. refl;
        flat_valid = λ z. z;
        ring = insert-IsRing id a.seen v.ring;
      }

  -- A fill, applied or refused, keeps the invariant of the account.
  pub apply_fill-IsAccount : IsAccount (apply_fill id side price quantity fee a).1
  apply_fill-IsAccount =
      elim (Bool-cases (is_none (apply_fill id side price quantity fee a).0.error)) [
        | inl done ↦
            let x = apply_fill-Applied id side price quantity fee a done in
            subst IsAccount (sym (ap (λ r. r.1) x.outcome)) (commit-IsAccount x)
        | inr failed ↦
            subst IsAccount (sym (apply_fill_refused id side price quantity fee a failed)) v
      ]
