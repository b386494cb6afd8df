-- ===== src/Risk/Outcomes.antt =====
-- The outcomes of an evaluation in src/risk/RiskEngine.cpp: it grants or it refuses.
use crypto_mm_engine.Prelude.{
  ◌≡◌, refl, Bool, true, false, not, ◌||◌, if◌then◌else◌, Option-cases, Bool-cases, inl, inr, arith,
}
use crypto_mm_engine.Prelude.Int.{leb_ℤ}
use crypto_mm_engine.Common.Types.{Nanos}
use crypto_mm_engine.Common.Fixed.{is_positive}
use crypto_mm_engine.Common.Doubles.{Doubles}
use crypto_mm_engine.Quote.Actions.{OrderAction, adds_exposure}
use crypto_mm_engine.Risk.Types.{
  RiskReason, no_reason, rate_limit, configuration_missing, is_clear, is_reducible, approve, reduce,
}
use crypto_mm_engine.Risk.Limits.{SymbolLimits, find}
use crypto_mm_engine.Risk.Decision.{
  RiskInput, Readings, RiskDecision, RiskEngine, is_approved, granted,
}
use crypto_mm_engine.Risk.Checks.{screen}
use crypto_mm_engine.Risk.Engine.{
  evaluate_exposure, admit, judge, revalidate, grant, refuse, acquire, check_both,
  largest_permitted_quantity, first_context,
}

-- What an evaluation has not changed when it decides.
pub record SameSetup {d : Doubles} (e f : RiskEngine d) : Type 0 where
  pub state : f.state ≡ e.state
  pub limits : f.limits ≡ e.limits
  pub approval_sequence : f.approval_sequence ≡ e.approval_sequence

module _ (d : Doubles) where
  -- The four tests of `judge`, and what each outcome has to meet.
  pub choose_outcome :
      (P : RiskDecision × RiskEngine d → Type 0)
      → (a b c f : Bool) (x y z w v : RiskDecision × RiskEngine d) → (a ≡ true → P x)
      → P y
      → P z
      → P w
      → (c ≡ false → f ≡ true → P v)
      → P (if a then x else if not b then y else if c then z else if not f then w else v)
  choose_outcome P true b c f x y z w v px py pz pw pv = px refl
  choose_outcome P false false c f x y z w v px py pz pw pv = py
  choose_outcome P false true true f x y z w v px py pz pw pv = pz
  choose_outcome P false true false false x y z w v px py pz pw pv = pw
  choose_outcome P false true false true x y z w v px py pz pw pv = pv refl refl

  pub choose_admission :
      (P : RiskDecision × RiskEngine d → Type 0)
      → (a b : Bool) (x y z : RiskDecision × RiskEngine d) → P x
      → P y
      → P z
      → P (if not a then x else if not b then y else z)
  choose_admission P false b x y z px py pz = px
  choose_admission P true false x y z px py pz = py
  choose_admission P true true x y z px py pz = pz

  pub acquire-SameSetup :
      (action : OrderAction) (now : Nanos) (e : RiskEngine d)
      → SameSetup e (acquire d action now e).1
  unfolding acquire
  acquire-SameSetup action now e = ground arith

module _ (d : Doubles) (P : RiskDecision × RiskEngine d → Type 0) (action : OrderAction)
    (t : Readings) where
  judge-outcome :
      (input : RiskInput) (limits : SymbolLimits) (e : RiskEngine d)
      → ((x : RiskDecision) → is_approved x ≡ true → P (grant d t x e))
      → ((r : RiskReason) → P (refuse d t action r e))
      → P (judge d action input limits t e)
  unfolding judge revalidate granted is_approved
  judge-outcome input limits e g f =
      let context = first_context input limits in
      let check = check_both d e.state action action.quantity input limits context in
      let permitted = largest_permitted_quantity d e.state action input limits in
      let reduced = record action { quantity = permitted } in
      let recheck = check_both d e.state reduced permitted input limits context in
      let whole = granted approve no_reason e.state action action check.1 t.started in
      let part = granted reduce check.0 e.state action reduced recheck.1 t.started in
      choose_outcome d P (is_clear check.0) (is_reducible check.0)
        (not (is_positive permitted) || leb_ℤ action.quantity permitted) (is_clear recheck.0)
        (grant d t whole e) (refuse d t action check.0 e) (refuse d t action check.0 e)
        (refuse d t action recheck.0 e) (grant d t part e) (λ _. g whole refl) (f check.0)
        (f check.0) (f recheck.0) (λ _ _. g part refl)

  -- An action that adds exposure is granted or refused, on an engine with the same setup.
  pub evaluate_exposure-outcome :
      (input : RiskInput) (e : RiskEngine d)
      → ((x : RiskDecision) (f : RiskEngine d)
          → SameSetup e f
          → is_approved x ≡ true
          → P (grant d t x f))
      → ((r : RiskReason) (f : RiskEngine d) → SameSetup e f → P (refuse d t action r f))
      → P (evaluate_exposure d action input t e)
  unfolding evaluate_exposure admit
  evaluate_exposure-outcome input e g f =
      let same : SameSetup e e = record { state = refl; limits = refl; approval_sequence = refl } in
      let e' = (acquire d action t.started e).1 in
      let same' = acquire-SameSetup d action t.started e in
      let admitted = λ (limits : SymbolLimits).
        choose_admission d P (adds_exposure action.type) (acquire d action t.started e).0
          (judge d action input limits t e) (refuse d t action rate_limit e')
          (judge d action input limits t e')
          (judge-outcome input limits e (λ x a. g x e same a) (λ r. f r e same))
          (f rate_limit e' same')
          (judge-outcome input limits e' (λ x a. g x e' same' a) (λ r. f r e' same')) in
      elim (Bool-cases (is_clear (screen e.state e.limits.global t action input))) [
        | inl c ↦ rw c (elim (Option-cases (find input.symbol e.limits)) [
          | inl n ↦ rw n (f configuration_missing e same)
          | inr (limits, n) ↦ rw n (admitted limits)
        ])
        | inr c ↦ rw c (f (screen e.state e.limits.global t action input) e same)
      ]
