-- ===== src/Risk/Histories.antt =====
-- Histories of calls on one engine of src/risk/RiskEngine.cpp.
use crypto_mm_engine.Prelude.{
  ◌≡◌, refl, Bool, true, false, ◌||◌, List, [], ◌∷◌, Bool-cases, inl, inr, arith, ◌∙◌, All,
}
use crypto_mm_engine.Common.Doubles.{Doubles}
use crypto_mm_engine.Quote.Actions.{OrderAction, is_noop, is_cancel, adds_exposure}
use crypto_mm_engine.Risk.Types.{
  RiskState, disarmed, armed, warning, killed, faulted, is_state, needs_operator_recovery,
  is_legal_transition, RiskReason, no_reason, is_clear, approve,
}
use crypto_mm_engine.Risk.Decision.{
  RiskInput, Readings, RiskDecision, RiskEngine, permits_exposure, granted, rejected, is_approved,
  no_context,
}
use crypto_mm_engine.Risk.Checks.{screen, screen_state}
use crypto_mm_engine.Risk.Engine.{
  transition, arm, warn, kill, fault, rearm, evaluate, evaluate_cancel, approve_cancel, grant,
  refuse, conclude, stamp_approval,
}
use crypto_mm_engine.Risk.Outcomes.{SameSetup, evaluate_exposure-outcome}
use crypto_mm_engine.Risk.Safety.{evaluate-IsLet}

-- The calls of the public interface that change an engine.
pub data RiskCall : Type 0 where
  arms rearms : RiskCall
  warns kills faults : RiskReason → RiskCall
  evaluates cancels : OrderAction → RiskInput → Readings → RiskCall

abbrev pub is_rearm : RiskCall → Bool
is_rearm rearms = true
is_rearm _ = false

module _ (d : Doubles) where
  unfoldable pub handle : RiskCall → RiskEngine d → RiskEngine d
  handle arms e = (arm d e).1
  handle rearms e = (rearm d e).1
  handle (warns r) e = warn d r e
  handle (kills r) e = kill d r e
  handle (faults r) e = fault d r e
  handle (evaluates action input t) e = (evaluate d action input t e).1
  handle (cancels action input t) e = (approve_cancel d action input t e).1

  unfoldable pub handle_all : List RiskCall → RiskEngine d → RiskEngine d
  handle_all [] e = e
  handle_all (c ∷ cs) e = handle_all cs (handle c e)

  -- What an evaluation leaves alone.
  pub record SameRules (e f : RiskEngine d) : Type 0 where
    pub state : f.state ≡ e.state
    pub limits : f.limits ≡ e.limits

  pub approve_cancel-SameRules :
      (action : OrderAction) (input : RiskInput) (t : Readings) (e : RiskEngine d)
      → SameRules e (approve_cancel d action input t e).1
  unfolding approve_cancel stamp_approval granted is_approved
  approve_cancel-SameRules action input t e = ground arith

  grant-SameRules :
      (t : Readings) (x : RiskDecision) (e : RiskEngine d) → SameRules e (grant d t x e).1
  unfolding grant conclude stamp_approval
  grant-SameRules t x e = ground arith

  refuse-SameRules :
      (t : Readings) (action : OrderAction) (r : RiskReason) (e : RiskEngine d)
      → SameRules e (refuse d t action r e).1
  unfolding refuse conclude
  refuse-SameRules t action r e = record { state = refl; limits = refl }

  trans-SameRules : (e f g : RiskEngine d) → SameSetup e f → SameRules f g → SameRules e g
  trans-SameRules e f g s r = record { state = r.state ∙ s.state; limits = r.limits ∙ s.limits }

  pub evaluate-SameRules :
      (action : OrderAction) (input : RiskInput) (t : Readings) (e : RiskEngine d)
      → SameRules e (evaluate d action input t e).1
  unfolding evaluate evaluate_cancel
  evaluate-SameRules action input t e =
      let noop =
        grant-SameRules t (granted approve no_reason e.state action action no_context t.started)
          e in
      let cancelled = approve_cancel-SameRules action input t e in
      let exposed =
        evaluate_exposure-outcome d (λ r. SameRules e r.1) action t input e
          (λ x f s _. trans-SameRules e f (grant d t x f).1 s (grant-SameRules t x f))
          (λ r f s.
            trans-SameRules e f (refuse d t action r f).1 s (refuse-SameRules t action r f)) in
      elim (Bool-cases (is_noop action.type)) [
        | inl n ↦ rw n noop
        | inr n ↦ elim (Bool-cases (is_cancel action.type)) [
          | inl c ↦ rw (n, c) (record { state = cancelled.state; limits = cancelled.limits })
          | inr c ↦ rw (n, c) exposed
        ]
      ]

  handle_stopped :
      (c : RiskCall) (e : RiskEngine d)
      → is_rearm c ≡ false
      → needs_operator_recovery e.state ≡ true
      → needs_operator_recovery (handle c e).state ≡ true
  unfolding handle arm warn kill fault transition is_legal_transition needs_operator_recovery
  handle_stopped arms e n s = ground arith
  handle_stopped rearms e n s = ground arith
  handle_stopped (warns r) e n s = ground arith
  handle_stopped (kills r) e n s = ground arith
  handle_stopped (faults r) e n s = ground arith
  handle_stopped (evaluates action input t) e n s =
      rw ((evaluate-SameRules action input t e).state) s
  handle_stopped (cancels action input t) e n s =
      rw ((approve_cancel-SameRules action input t e).state) s

  handle_all_stopped :
      (cs : List RiskCall) (e : RiskEngine d)
      → All (λ c. is_rearm c ≡ false) cs
      → needs_operator_recovery e.state ≡ true
      → needs_operator_recovery (handle_all cs e).state ≡ true
  unfolding handle_all
  handle_all_stopped [] e n s = s
  handle_all_stopped (c ∷ cs) e n s =
      handle_all_stopped cs (handle c e) n.1 (handle_stopped c e n.0 s)

  pub screen_stopped :
      (state : RiskState) (e : RiskEngine d) (action : OrderAction) (input : RiskInput)
      (t : Readings)
      → is_clear (screen state e.limits.global t action input) ≡ true
      → is_state state armed || is_state state warning ≡ true
  unfolding screen screen_state
  screen_stopped disarmed e action input t c = ground arith
  screen_stopped armed e action input t c = refl
  screen_stopped warning e action input t c = refl
  screen_stopped killed e action input t c = ground arith
  screen_stopped faulted e action input t c = ground arith

  evaluate_stopped :
      (action : OrderAction) (input : RiskInput) (t : Readings) (e : RiskEngine d)
      → needs_operator_recovery e.state ≡ true
      → permits_exposure (evaluate d action input t e).0 ≡ false
  unfolding needs_operator_recovery
  evaluate_stopped action input t e stopped =
      elim (Bool-cases (permits_exposure (evaluate d action input t e).0)) [
        | inl p ↦ absurd (
            ground (
              arith,
              stopped,
              screen_stopped e.state e action input t
                  (evaluate-IsLet d action input t e p).screened,
            ))
        | inr p ↦ p
      ]

  approve_cancel_stopped :
      (action : OrderAction) (input : RiskInput) (t : Readings) (e : RiskEngine d)
      → permits_exposure (approve_cancel d action input t e).0 ≡ true
      → adds_exposure action.type ≡ true
  unfolding approve_cancel stamp_approval granted rejected permits_exposure is_approved
  approve_cancel_stopped action input t e p = ground arith

  -- Once an engine is killed or faulted, after no sequence of calls without a rearm does an evaluation
  -- let new exposure through, and `approve_cancel`, which does not look at the state, lets exposure
  -- through only if its caller handed it an action that adds exposure, not a cancel.
  pub stopped_until_rearm :
      (cs : List RiskCall) (action : OrderAction) (input : RiskInput) (t : Readings)
      (e : RiskEngine d)
      → needs_operator_recovery e.state ≡ true
      → All (λ c. is_rearm c ≡ false) cs
      → (permits_exposure (evaluate d action input t (handle_all cs e)).0 ≡ false)
        × (permits_exposure (approve_cancel d action input t (handle_all cs e)).0 ≡ true
            → adds_exposure action.type ≡ true)
  stopped_until_rearm cs action input t e s n =
      let f = handle_all cs e in
      (
        evaluate_stopped action input t f (handle_all_stopped cs e n s),
        approve_cancel_stopped action input t f,
      )
