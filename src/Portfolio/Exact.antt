-- ===== src/Portfolio/Exact.antt =====
-- Applied fills of src/portfolio/PositionAccount.cpp and the accounting model.
use crypto_mm_engine.Prelude.{◌<◌, ◌≡◌, true, false, not, sym, ◌∙◌, ap, subst, ◌^◌}
use crypto_mm_engine.Prelude.Int.{neg_part, ◌+ℤ◌, IsInt64}
use crypto_mm_engine.Common.Types.{Side, TradeId}
use crypto_mm_engine.Common.Fixed.{Px, Qty, Notional, is_zero, is_positive}
use crypto_mm_engine.Common.Fixed.Checked.{checked_add-some, size}
use crypto_mm_engine.Portfolio.Types.{is_none, FillOutcome}
use crypto_mm_engine.Portfolio.Account.{PositionAccount, commit, signed_quantity, apply_fill}
use crypto_mm_engine.Portfolio.Model.{
  change_cost-FollowsModel, exact_sign, signed_quantity_exact, model_average, model_realized,
}
use crypto_mm_engine.Portfolio.Fill.{apply_fill-Applied, check_fill-passed}
use crypto_mm_engine.Portfolio.Effect.{IsAccount, signed_facts, Planned-cost}

-- What an applied fill does, in exact arithmetic.
abbrev pub FollowsFill :
    Side → Px → Qty → Notional → PositionAccount → FillOutcome × PositionAccount → Type 0
FollowsFill side price quantity fee a (o, a') =
    (a'.position ≡ a.position +ℤ exact_sign side quantity)
    × (a'.average_price ≡ model_average a.position a.average_price price (exact_sign side quantity))
    × (o.realized_delta
        ≡ model_realized a.position a.average_price price (exact_sign side quantity))
    × (a'.realized ≡ a.realized +ℤ o.realized_delta)
    × (a'.fees ≡ a.fees +ℤ fee)

basis_of :
    (a : PositionAccount)
    → IsAccount a
    → is_zero a.position ≡ false
    → is_positive a.average_price ≡ true
basis_of a v z = v.basis ∙ ap not z

-- An applied fill moves the position by exactly the signed quantity, sets the average entry price
-- and realizes the PnL of the accounting model, and adds that PnL and the fee exactly.
pub apply_fill-FollowsFill :
    (id : TradeId) (side : Side) (price : Px) (quantity : Qty) (fee : Notional)
    (a : PositionAccount)
    → IsAccount a
    → neg_part a.position < 2 ^ 63
    → IsInt64 price
    → IsInt64 quantity
    → is_none (apply_fill id side price quantity fee a).0.error ≡ true
    → FollowsFill side price quantity fee a (apply_fill id side price quantity fee a)
unfolding commit
apply_fill-FollowsFill id side price quantity fee a v small ip iq done =
    let x = apply_fill-Applied id side price quantity fee a done in
    let f = signed_quantity side quantity in
    let (ready, positive, priced, nonneg, new) =
      check_fill-passed id price quantity fee a x.checked in
    let (range, nonzero, size) = signed_facts side quantity iq positive in
    let exact = signed_quantity_exact side quantity iq positive in
    let follows =
      change_cost-FollowsModel a price f
        (record {
          price = priced;
          price_range = ip;
          fill_range = range;
          fill_size = size;
          fill_nonzero = nonzero;
          position_range = v.position_range;
          position_size = small;
          average_range = v.average_range;
          basis = basis_of a v;
        })
        (Planned-cost x.planned) in
    subst (FollowsFill side price quantity fee a) (sym x.outcome) (
      subst
        (λ f.
          (x.plan.position ≡ a.position +ℤ f)
          × (x.plan.cost.average ≡ model_average a.position a.average_price price f)
          × (x.plan.cost.delta ≡ model_realized a.position a.average_price price f)
          × (x.plan.realized ≡ a.realized +ℤ x.plan.cost.delta)
          × (x.plan.fees ≡ a.fees +ℤ fee))
        exact
        (
          (checked_add-some a.position f x.planned.position).0,
          follows.0,
          follows.1,
          (checked_add-some a.realized x.plan.cost.delta x.planned.realized).0,
          (checked_add-some a.fees fee x.planned.fees).0,
        ))
