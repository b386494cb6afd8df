-- ===== src/Risk/Safety.antt =====
-- What a decision of src/risk/RiskEngine.cpp lets through.
use crypto_mm_engine.Prelude.{
  ◌≡◌, refl, true, false, not, ◌||◌, some, Option-cases, Bool-cases, inl, inr, arith, subst,
}
use crypto_mm_engine.Prelude.Int.{◌≤ℤ◌, leb_ℤ}
use crypto_mm_engine.Common.Fixed.{Qty, is_positive}
use crypto_mm_engine.Common.Doubles.{Doubles}
use crypto_mm_engine.Quote.Actions.{OrderAction, is_noop, is_cancel, adds_exposure}
use crypto_mm_engine.Risk.Types.{
  RiskState, RiskReason, no_reason, rate_limit, configuration_missing, is_reducible, approve,
  reduce, is_clear,
}
use crypto_mm_engine.Risk.Limits.{SymbolLimits, find}
use crypto_mm_engine.Risk.Exposure.{ExposureSnapshot}
use crypto_mm_engine.Risk.Decision.{
  RiskInput, LimitContext, Readings, RiskDecision, RiskEngine, permits_exposure, is_approved,
  rejected, granted, no_context,
}
use crypto_mm_engine.Risk.Checks.{screen, without_replaced, check_order_bounds}
use crypto_mm_engine.Risk.Engine.{
  evaluate, evaluate_exposure, evaluate_cancel, approve_cancel, admit, judge, revalidate, grant,
  refuse, conclude, stamp_approval, check_both, acquire, largest_permitted_quantity, first_context,
}
use crypto_mm_engine.Risk.Outcomes.{choose_outcome, choose_admission, acquire-SameSetup}
use crypto_mm_engine.Risk.Sizing.{IsSized, check_order_bounds-IsSized}
use crypto_mm_engine.Risk.Bounds.{IsCovered, check_exposure-IsCovered}

module _ (d : Doubles) where
  refuse_never :
      (t : Readings) (action : OrderAction) (r : RiskReason) (e : RiskEngine d)
      → permits_exposure (refuse d t action r e).0 ≡ false
  unfolding refuse conclude rejected permits_exposure
  refuse_never t action r e = refl

  grant_approved :
      (t : Readings) (x : RiskDecision) (e : RiskEngine d) → (grant d t x e).0.approved ≡ x.approved
  unfolding grant conclude stamp_approval
  grant_approved t x e = ground arith

  -- An approved quantity that is safe for the limits that it was measured against.
  pub record IsSafe (state : RiskState) (requested approved : OrderAction) (input : RiskInput)
      (limits : SymbolLimits) : Type 0 where
    pub sized : IsSized d approved approved.quantity input limits
    pub rest : ExposureSnapshot
    pub replaced : without_replaced approved input ≡ some rest
    pub covered : IsCovered state approved approved.quantity input limits rest
    pub no_larger : approved.quantity ≤ℤ requested.quantity

  check_both-parts :
      (state : RiskState) (action : OrderAction) (q : Qty) (input : RiskInput)
      (limits : SymbolLimits) (c : LimitContext)
      → is_clear (check_both d state action q input limits c).0 ≡ true
      → IsSized d action q input limits
        × ((rest : ExposureSnapshot) × (without_replaced action input ≡ some rest)
            × IsCovered state action q input limits rest)
  unfolding check_both
  check_both-parts state action q input limits c h =
      let bounds = check_order_bounds d action q input limits c in
      elim (Bool-cases (is_clear bounds.0)) [
        | inl e ↦ (
          check_order_bounds-IsSized d action q input limits c e,
          check_exposure-IsCovered state action q input limits bounds.1 (ground (arith, e)),
        )
        | inr e ↦ absurd (ground (arith, e))
      ]

  abbrev LetsOnlySafe :
      RiskState → OrderAction → RiskInput → SymbolLimits → RiskDecision × RiskEngine d → Type 0
  LetsOnlySafe state action input limits r =
      permits_exposure r.0 ≡ true → IsSafe state action r.0.approved input limits

  refuse-safe :
      (t : Readings) (action : OrderAction) (r : RiskReason) (e : RiskEngine d) (input : RiskInput)
      (limits : SymbolLimits)
      → LetsOnlySafe e.state action input limits (refuse d t action r e)
  refuse-safe t action r e input limits h = absurd (ground (arith, refuse_never t action r e))

  checked-IsSafe :
      (state : RiskState) (requested action : OrderAction) (input : RiskInput)
      (limits : SymbolLimits) (c : LimitContext)
      → action.quantity ≤ℤ requested.quantity
      → is_clear (check_both d state action action.quantity input limits c).0 ≡ true
      → IsSafe state requested action input limits
  checked-IsSafe state requested action input limits c l h =
      let (sized, (rest, replaced, covered)) =
        check_both-parts state action action.quantity input limits c h in
      record { sized = sized; rest = rest; replaced = replaced; covered = covered; no_larger = l }

  judge-IsSafe :
      (action : OrderAction) (input : RiskInput) (limits : SymbolLimits) (t : Readings)
      (e : RiskEngine d)
      → LetsOnlySafe e.state action input limits (judge d action input limits t e)
  unfolding judge revalidate granted
  judge-IsSafe action input limits t e =
      let context = first_context input limits in
      let check = check_both d e.state action action.quantity input limits context in
      let permitted = largest_permitted_quantity d e.state action input limits in
      let reduced = record action { quantity = permitted } in
      let recheck = check_both d e.state reduced permitted input limits context in
      let whole = granted approve no_reason e.state action action check.1 t.started in
      let part = granted reduce check.0 e.state action reduced recheck.1 t.started in
      choose_outcome d (LetsOnlySafe e.state action input limits) (is_clear check.0)
        (is_reducible check.0) (not (is_positive permitted) || leb_ℤ action.quantity permitted)
        (is_clear recheck.0) (grant d t whole e) (refuse d t action check.0 e)
        (refuse d t action check.0 e) (refuse d t action recheck.0 e) (grant d t part e)
        (λ clear _.
          rw (grant_approved t whole e)
            (checked-IsSafe e.state action action input limits context (omega arith) clear))
        (refuse-safe t action check.0 e input limits) (refuse-safe t action check.0 e input limits)
        (refuse-safe t action recheck.0 e input limits)
        (λ smaller clear _.
          rw (grant_approved t part e)
            (checked-IsSafe e.state action reduced input limits context (ground arith) clear))

  admit-IsSafe :
      (action : OrderAction) (input : RiskInput) (limits : SymbolLimits) (t : Readings)
      (e : RiskEngine d)
      → LetsOnlySafe e.state action input limits (admit d action input limits t e)
  unfolding admit
  admit-IsSafe action input limits t e =
      let e' = (acquire d action t.started e).1 in
      let same = (acquire-SameSetup d action t.started e).state in
      let judged : LetsOnlySafe e.state action input limits (judge d action input limits t e') =
        subst (λ s. LetsOnlySafe s action input limits (judge d action input limits t e')) same
          (judge-IsSafe action input limits t e') in
      let refused : LetsOnlySafe e.state action input limits (refuse d t action rate_limit e') =
        subst (λ s. LetsOnlySafe s action input limits (refuse d t action rate_limit e')) same
          (refuse-safe t action rate_limit e' input limits) in
      choose_admission d (LetsOnlySafe e.state action input limits) (adds_exposure action.type)
        (acquire d action t.started e).0 (judge d action input limits t e)
        (refuse d t action rate_limit e') (judge d action input limits t e')
        (judge-IsSafe action input limits t e) refused judged

  -- What an action that adds exposure met before it was approved.
  pub record IsLet (action approved : OrderAction) (input : RiskInput) (t : Readings)
      (e : RiskEngine d) : Type 0 where
    pub screened : is_clear (screen e.state e.limits.global t action input) ≡ true
    pub limits : SymbolLimits
    pub configured : find input.symbol e.limits ≡ some limits
    pub safe : IsSafe e.state action approved input limits

  evaluate_exposure-IsLet :
      (action : OrderAction) (input : RiskInput) (t : Readings) (e : RiskEngine d)
      → permits_exposure (evaluate_exposure d action input t e).0 ≡ true
      → IsLet action (evaluate_exposure d action input t e).0.approved input t e
  unfolding evaluate_exposure
  evaluate_exposure-IsLet action input t e h = elim (Option-cases (find input.symbol e.limits)) [
    | inl f ↦ absurd (
        ground (
          arith,
          f,
          refuse_never t action (screen e.state e.limits.global t action input) e,
          refuse_never t action configuration_missing e,
        ))
    | inr (limits, f) ↦
        elim (Bool-cases (is_clear (screen e.state e.limits.global t action input))) [
          | inl c ↦
              rw (c, f)
                (record {
                  screened = c;
                  limits = limits;
                  configured = f;
                  safe = admit-IsSafe action input limits t e (ground (arith, c, f));
                })
          | inr c ↦ absurd (
              ground
                (arith, c, refuse_never t action (screen e.state e.limits.global t action input) e))
        ]
  ]

  pub evaluate_cancel_never :
      (action : OrderAction) (input : RiskInput) (t : Readings) (e : RiskEngine d)
      → is_cancel action.type ≡ true
      → permits_exposure (evaluate_cancel d action input t e).0 ≡ false
  unfolding evaluate_cancel approve_cancel stamp_approval granted rejected permits_exposure
      is_approved
  evaluate_cancel_never action input t e c = ground arith

  grant_noop_never :
      (action : OrderAction) (t : Readings) (e : RiskEngine d)
      → is_noop action.type ≡ true
      → permits_exposure
          (grant d t (granted approve no_reason e.state action action no_context t.started) e).0
        ≡ false
  unfolding grant conclude stamp_approval granted permits_exposure is_approved
  grant_noop_never action t e n = ground arith

  pub evaluate-IsLet :
      (action : OrderAction) (input : RiskInput) (t : Readings) (e : RiskEngine d)
      → permits_exposure (evaluate d action input t e).0 ≡ true
      → IsLet action (evaluate d action input t e).0.approved input t e
  unfolding evaluate
  evaluate-IsLet action input t e h = elim (Bool-cases (is_noop action.type)) [
    | inl n ↦ absurd (ground (arith, n, grant_noop_never action t e n))
    | inr n ↦ elim (Bool-cases (is_cancel action.type)) [
      | inl c ↦ absurd (ground (arith, n, c, evaluate_cancel_never action input t e c))
      | inr c ↦ rw (n, c) (evaluate_exposure-IsLet action input t e (ground (arith, n, c)))
    ]
  ]
