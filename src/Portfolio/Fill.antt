-- ===== src/Portfolio/Fill.antt =====
-- What a fill of src/portfolio/PositionAccount.cpp does to an account.
use crypto_mm_engine.Prelude.{◌≡◌, true, false, some, arith, Option-cases, >>=-eq-some, inl, inr}
use crypto_mm_engine.Common.Types.{Side, TradeId}
use crypto_mm_engine.Common.Fixed.{
  Px, Qty, Notional, is_zero, is_positive, is_negative, checked_add, checked_notional_of,
}
use crypto_mm_engine.Portfolio.Types.{AccountingError, no_error, is_none, FillOutcome}
use crypto_mm_engine.Portfolio.SeenTrades.{contains}
use crypto_mm_engine.Portfolio.Account.{
  PositionAccount, FillPlan, change_cost, plan_fill, commit, signed_quantity, check_fill,
  apply_fill, finish_fill, after_checks,
}

-- A fill that is not applied leaves every field of the account as it was.
pub apply_fill_refused :
    (id : TradeId) (side : Side) (price : Px) (quantity : Qty) (fee : Notional)
    (a : PositionAccount)
    → is_none (apply_fill id side price quantity fee a).0.error ≡ false
    → (apply_fill id side price quantity fee a).1 ≡ a
unfolding apply_fill
apply_fill_refused id side price quantity fee a e = ground arith

-- What a plan computes, step by step.
pub record Planned (a : PositionAccount) (price : Px) (f : Qty) (fee : Notional) (p : FillPlan)
    : Type 0 where
  pub position : checked_add a.position f ≡ some p.position
  pub cost : change_cost a price f p.position ≡ some p.cost
  pub worth : Notional
  pub valued : checked_notional_of p.cost.average p.position ≡ some worth
  pub realized : checked_add a.realized p.cost.delta ≡ some p.realized
  pub fees : checked_add a.fees fee ≡ some p.fees

pub plan_fill-Planned :
    (a : PositionAccount) (price : Px) (f : Qty) (fee : Notional) {p : FillPlan}
    → plan_fill a price f fee ≡ some p
    → Planned a price f fee p
unfolding plan_fill
plan_fill-Planned a price f fee e =
    let (position, e₁, r₁) = >>=-eq-some (checked_add a.position f) _ e in
    let (cost, e₂, r₂) = >>=-eq-some (change_cost a price f position) _ r₁ in
    let (worth, e₃, r₃) = >>=-eq-some (checked_notional_of cost.average position) _ r₂ in
    let (realized, e₄, r₄) = >>=-eq-some (checked_add a.realized cost.delta) _ r₃ in
    let (fees, e₅, r₅) = >>=-eq-some (checked_add a.fees fee) _ r₄ in
    record {
      position = ground (arith, e₁, r₅);
      cost = ground (arith, e₂, r₅);
      worth = worth;
      valued = ground (arith, e₃, r₅);
      realized = ground (arith, e₄, r₅);
      fees = ground (arith, e₅, r₅);
    }

-- A fill that is applied passed every check and was committed from its plan.
pub record Applied (id : TradeId) (side : Side) (price : Px) (quantity : Qty) (fee : Notional)
    (a : PositionAccount) : Type 0 where
  pub plan : FillPlan
  pub checked : check_fill id price quantity fee a ≡ no_error
  pub planned : Planned a price (signed_quantity side quantity) fee plan
  pub outcome : apply_fill id side price quantity fee a ≡ (
    record {
      error = no_error;
      applied_quantity = signed_quantity side quantity;
      realized_delta = plan.cost.delta;
      fee = fee;
      flipped = plan.cost.flips;
      closed = is_zero plan.position;
    },
    commit id plan a,
  )

unchecked_fails :
    (e : AccountingError) (r : FillOutcome × PositionAccount) (a : PositionAccount)
    → is_none (after_checks e r a).0.error ≡ true
    → e ≡ no_error
unchecked_fails e r a h = ground arith

pub apply_fill-Applied :
    (id : TradeId) (side : Side) (price : Px) (quantity : Qty) (fee : Notional)
    (a : PositionAccount)
    → is_none (apply_fill id side price quantity fee a).0.error ≡ true
    → Applied id side price quantity fee a
unfolding apply_fill
apply_fill-Applied id side price quantity fee a e =
    let checks =
      unchecked_fails _
        (finish_fill id (signed_quantity side quantity) fee a
          (plan_fill a price (signed_quantity side quantity) fee))
        a e in
    elim (Option-cases (plan_fill a price (signed_quantity side quantity) fee)) [
      | inl failed ↦ ground arith
      | inr (p, made) ↦ record {
        plan = p;
        checked = checks;
        planned = plan_fill-Planned a price (signed_quantity side quantity) fee made;
        outcome = rw (checks, made);
      }
    ]

-- The guards leave a positive quantity and price, a fee of zero or more, and a new trade id.
pub check_fill-passed :
    (id : TradeId) (price : Px) (quantity : Qty) (fee : Notional) (a : PositionAccount)
    → check_fill id price quantity fee a ≡ no_error
    → (a.faulted ≡ false)
      × (is_positive quantity ≡ true)
      × (is_positive price ≡ true)
      × (is_negative fee ≡ false)
      × (contains id a.seen ≡ false)
unfolding check_fill
check_fill-passed id price quantity fee a e = ground arith
