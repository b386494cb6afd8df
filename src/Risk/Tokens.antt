-- ===== src/Risk/Tokens.antt =====
-- The approval token that a decision of src/risk/RiskEngine.cpp carries, and the way out by a cancel.
use crypto_mm_engine.Prelude.{ℕ, ◌≡◌, refl, true, false, not, Bool-cases, inl, inr, arith}
use crypto_mm_engine.Common.Types.{inc64}
use crypto_mm_engine.Common.Doubles.{Doubles}
use crypto_mm_engine.Quote.Actions.{OrderAction, is_noop, is_cancel}
use crypto_mm_engine.Risk.Types.{RiskReason, no_reason, ownership_violation, approve}
use crypto_mm_engine.Risk.Decision.{
  RiskInput, Readings, RiskDecision, RiskEngine, is_approved, rejected, granted, no_context,
}
use crypto_mm_engine.Risk.Checks.{is_foreign}
use crypto_mm_engine.Risk.Outcomes.{evaluate_exposure-outcome}
use crypto_mm_engine.Risk.Engine.{
  evaluate, evaluate_cancel, approve_cancel, grant, refuse, conclude, stamp_approval,
}

-- The token is valid exactly if the decision approves; then it is for the approved action, with the
-- next number. A decision that does not approve carries an action that does nothing.
pub record IsStamped {d : Doubles} (before : ℕ) (r : RiskDecision × RiskEngine d) : Type 0 where
  pub valid : r.0.approval.valid ≡ is_approved r.0
  pub for_approved : is_approved r.0 ≡ true → r.0.approval.action ≡ r.0.approved
  pub numbered :
      is_approved r.0 ≡ true
      → (r.0.approval.sequence ≡ inc64 before) × (r.1.approval_sequence ≡ inc64 before)
  pub harmless : is_approved r.0 ≡ false → is_noop r.0.approved.type ≡ true

module _ (d : Doubles) where
  refuse-IsStamped :
      (t : Readings) (action : OrderAction) (r : RiskReason) (e : RiskEngine d) (n : ℕ)
      → IsStamped n (refuse d t action r e)
  unfolding refuse conclude rejected is_approved
  refuse-IsStamped t action r e n = ground arith

  grant-IsStamped :
      (t : Readings) (x : RiskDecision) (e : RiskEngine d)
      → is_approved x ≡ true
      → IsStamped e.approval_sequence (grant d t x e)
  unfolding grant conclude stamp_approval is_approved
  grant-IsStamped t x e h = ground arith

  evaluate_cancel-IsStamped :
      (action : OrderAction) (input : RiskInput) (t : Readings) (e : RiskEngine d)
      → IsStamped e.approval_sequence (evaluate_cancel d action input t e)
  unfolding evaluate_cancel approve_cancel stamp_approval granted rejected is_approved
  evaluate_cancel-IsStamped action input t e = ground arith

  -- A cancel is approved as it is in every state of the engine, unless it is for the order of another
  -- strategy; then it is refused.
  pub cancel_passes :
      (action : OrderAction) (input : RiskInput) (t : Readings) (e : RiskEngine d)
      → is_cancel action.type ≡ true
      → (is_approved (evaluate d action input t e).0 ≡ not (is_foreign action input))
        × (is_foreign action input ≡ false → (evaluate d action input t e).0.approved ≡ action)
        × (is_foreign action input ≡ true
            → (evaluate d action input t e).0.reason ≡ ownership_violation)
  unfolding evaluate evaluate_cancel approve_cancel stamp_approval granted rejected is_approved
  cancel_passes action input t e c = ground arith

  -- Every decision carries a token that is valid exactly if the decision approves; then the token is
  -- for the approved action, with the next number. A decision that refuses approves a Noop.
  pub evaluate-IsStamped :
      (action : OrderAction) (input : RiskInput) (t : Readings) (e : RiskEngine d)
      → IsStamped e.approval_sequence (evaluate d action input t e)
  unfolding evaluate granted is_approved
  evaluate-IsStamped action input t e =
      let noop =
        grant-IsStamped t (granted approve no_reason e.state action action no_context t.started) e
          refl in
      let cancelled = evaluate_cancel-IsStamped action input t e in
      let exposed =
        evaluate_exposure-outcome d (IsStamped e.approval_sequence) action t input e
          (λ x f s a. rw (← s.approval_sequence) (grant-IsStamped t x f a))
          (λ r f s. refuse-IsStamped t action r f e.approval_sequence) in
      elim (Bool-cases (is_noop action.type)) [
        | inl n ↦ rw n noop
        | inr n ↦ elim (Bool-cases (is_cancel action.type)) [
          | inl c ↦ rw (n, c) cancelled
          | inr c ↦ rw (n, c) exposed
        ]
      ]
