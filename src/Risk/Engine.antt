-- ===== src/Risk/Engine.antt =====
-- src/risk/RiskEngine.cpp: the state machine of the engine and the evaluation of an action. The search
-- for a smaller order takes fuel; Risk/Search is about it.
use crypto_mm_engine.Prelude.{
  ℕ, zero, suc, Bool, true, false, not, ◌||◌, List, ◌∷◌, if◌then◌else◌, ltb, length, set, get_elem?,
  case_option, replicate, [],
}
use crypto_mm_engine.Prelude.Int.{ℤ, pos, ◌+ℤ◌, ◌-ℤ◌, ◌*ℤ◌, ◌/ℤ◌, ltb_ℤ, leb_ℤ, wrap64}
use crypto_mm_engine.Common.Types.{Nanos, inc64, Status, ok_code, failed_precondition, is_ok}
use crypto_mm_engine.Common.Fixed.{Qty, is_positive, sub}
use crypto_mm_engine.Common.Doubles.{Doubles}
use crypto_mm_engine.Quote.Actions.{OrderAction, is_noop, is_cancel, is_new, adds_exposure}
use crypto_mm_engine.Risk.Types.{
  RiskState, disarmed, armed, warning, killed, faulted, is_legal_transition, permits_new_exposure,
  needs_operator_recovery, RiskVerdict, approve, reduce, reject, RiskReason, no_reason, rate_limit,
  ownership_violation, configuration_missing, reason_index, is_clear, is_reducible,
}
use crypto_mm_engine.Risk.Limits.{RiskLimits, SymbolLimits, find, validate_for_arming}
use crypto_mm_engine.Risk.RateLimiter.{new_limiter, try_acquire}
use crypto_mm_engine.Risk.Decision.{
  RiskInput, LimitContext, no_context, Readings, RiskDecision, RiskEngine, RiskMetrics, rejected,
  granted, is_approved,
}
use crypto_mm_engine.Risk.Checks.{is_foreign, screen, check_order_bounds, check_exposure}

abbrev pub tally_size : ℕ
tally_size = 32

abbrev pub no_metrics : RiskMetrics
no_metrics = record {
  evaluations = 0;
  approvals = 0;
  reductions = 0;
  rejections = 0;
  cancels_permitted_while_blocked = 0;
  kills = 0;
  rejections_by_reason = replicate tally_size 0;
}

-- `RiskMetrics::count`.
unfoldable pub count : RiskReason → RiskMetrics → ℕ
count reason m =
    if ltb (reason_index reason) (length m.rejections_by_reason)
    then case_option (get_elem? m.rejections_by_reason (reason_index reason)) 0 (λ n. n)
    else 0

unfoldable pub tally : RiskReason → List ℕ → List ℕ
tally reason counts =
    if ltb (reason_index reason) (length counts)
    then set counts (reason_index reason)
        (case_option (get_elem? counts (reason_index reason)) 0 (λ n. inc64 n))
    else counts

unfoldable pub record_verdict : RiskVerdict → RiskReason → RiskMetrics → RiskMetrics
unfolding tally
record_verdict approve _ m = record m { approvals = inc64 m.approvals }
record_verdict reduce _ m = record m { reductions = inc64 m.reductions }
record_verdict reject reason m = record m {
  rejections = inc64 m.rejections;
  rejections_by_reason = tally reason m.rejections_by_reason;
}

-- `RiskEngine::record`.
unfoldable pub record_decision : RiskDecision → RiskMetrics → RiskMetrics
unfolding record_verdict
record_decision d m =
    record_verdict d.verdict d.reason (record m { evaluations = inc64 m.evaluations })

-- The interval that is left of the search, `low` below `high` while it is open.
abbrev pub Interval : Type 0
Interval = ℤ × ℤ

-- The loop of `largest_permitted_quantity` over numbers of lots.
unfoldable pub search_lots : ℕ → (ℤ → Bool) → Interval → Interval
search_lots zero ok interval = interval
search_lots (suc fuel) ok (low, high) =
    let mid = wrap64 (low +ℤ wrap64 (wrap64 (high -ℤ low) +ℤ pos 1) /ℤ pos 2) in
    let rest = search_lots fuel ok (if ok mid then (mid, high) else (low, wrap64 (mid -ℤ pos 1))) in
    if ltb_ℤ low high then rest else (low, high)

-- More than the number of halvings of a 64-bit interval.
abbrev pub search_fuel : ℕ
search_fuel = 64

-- The largest multiple of the step that fits, by the search.
unfoldable pub largest_fitting : (Qty → Bool) → Qty → Qty → Qty
unfolding search_lots
largest_fitting fit quantity step =
    let high = quantity /ℤ step in
    if leb_ℤ high (pos 0)
    then pos 0
    else if not (fit step)
    then pos 0
    else wrap64
        ((search_lots search_fuel (λ lots. fit (wrap64 (lots *ℤ step))) (pos 0, high)).0 *ℤ step)

abbrev pub lot_step : RiskInput → Qty
lot_step input = if is_positive input.instrument.lot_size then input.instrument.lot_size else pos 1

abbrev pub first_context : RiskInput → SymbolLimits → LimitContext
first_context input limits = record no_context {
  max_position = limits.max_position;
  open_orders = input.exposure.open_order_count;
}

module _ (d : Doubles) where
  -- The constructor.
  unfoldable pub new_engine : RiskLimits → RiskEngine d
  new_engine limits =
      let g = limits.global in
      let bucket = λ (rate : ℤ).
        new_limiter d (if is_positive g.burst_capacity then g.burst_capacity else rate) rate in
      record {
        limits = limits;
        state = disarmed;
        state_reason = no_reason;
        new_orders = bucket g.max_new_orders_per_second;
        cancels = bucket g.max_cancels_per_second;
        replaces = bucket g.max_replaces_per_second;
        all_actions = bucket g.max_actions_per_second;
        approval_sequence = 0;
        metrics = no_metrics;
        latency = [];
      }

  unfoldable pub transition : RiskState → RiskReason → RiskEngine d → RiskEngine d
  transition to reason e =
      if not (is_legal_transition e.state to)
      then e
      else record e { state = to; state_reason = reason }

  unfoldable pub arm : RiskEngine d → Status × RiskEngine d
  unfolding transition
  arm e =
      if needs_operator_recovery e.state
      then (failed_precondition, e)
      else if not (is_ok (validate_for_arming e.limits))
      then (validate_for_arming e.limits, e)
      else (ok_code, transition armed no_reason e)

  unfoldable pub warn : RiskReason → RiskEngine d → RiskEngine d
  unfolding transition
  warn reason e = transition warning reason e

  unfoldable pub kill : RiskReason → RiskEngine d → RiskEngine d
  unfolding transition
  kill reason e =
      transition killed reason
        (record e { metrics = record (e.metrics) { kills = inc64 e.metrics.kills } })

  unfoldable pub fault : RiskReason → RiskEngine d → RiskEngine d
  unfolding transition
  fault reason e = transition faulted reason e

  unfoldable pub rearm : RiskEngine d → Status × RiskEngine d
  rearm e =
      if not (needs_operator_recovery e.state)
      then (failed_precondition, e)
      else (ok_code, record e { state = disarmed; state_reason = no_reason })

  unfoldable pub stamp_approval : RiskDecision → RiskEngine d → RiskDecision × RiskEngine d
  stamp_approval decision e =
      if not (is_approved decision)
      then (decision, e)
      else let sequence = inc64 e.approval_sequence in
        (
          record decision {
            approval = record { action = decision.approved; sequence = sequence; valid = true };
          },
          record e { approval_sequence = sequence },
        )

  abbrev pub recorded : RiskDecision → RiskEngine d → RiskEngine d
  recorded decision e = record e { metrics = record_decision decision e.metrics }

  -- The decision is recorded and the latency measured.
  unfoldable pub conclude : Readings → RiskDecision → RiskEngine d → RiskDecision × RiskEngine d
  conclude t decision e =
      (decision, record (recorded decision e) { latency = sub t.finished t.started ∷ e.latency })

  unfoldable pub refuse :
      Readings → OrderAction → RiskReason → RiskEngine d → RiskDecision × RiskEngine d
  refuse t action reason e = conclude t (rejected action reason e.state t.started) e

  unfoldable pub grant : Readings → RiskDecision → RiskEngine d → RiskDecision × RiskEngine d
  grant t decision e = let (stamped, e') = stamp_approval decision e in conclude t stamped e'

  -- The stamp comes before the ownership check, so a foreign cancel uses up a sequence number.
  unfoldable pub approve_cancel :
      OrderAction → RiskInput → Readings → RiskEngine d → RiskDecision × RiskEngine d
  approve_cancel action input t e =
      let (decision, e') =
        stamp_approval (granted approve no_reason e.state action action no_context t.at_cancel) e in
      if is_foreign action input
      then (
        rejected action ownership_violation e.state t.at_cancel,
        recorded (rejected action ownership_violation e.state t.at_cancel) e',
      )
      else let e'' = record e' { cancels = (try_acquire d t.at_cancel e'.cancels).1 } in
        let counted = if permits_new_exposure e''.state then e'' else record e'' {
          metrics = record (e''.metrics) {
            cancels_permitted_while_blocked = inc64 e''.metrics.cancels_permitted_while_blocked;
          };
        } in
        (decision, recorded decision counted)

  -- Both checks of one quantity, and what they leave in the context.
  unfoldable pub check_both :
      RiskState
      → OrderAction
      → Qty
      → RiskInput
      → SymbolLimits
      → LimitContext
      → RiskReason × LimitContext
  check_both state action quantity input limits context =
      let bounds = check_order_bounds d action quantity input limits context in
      if is_clear bounds.0
      then check_exposure state action quantity input limits bounds.1
      else bounds

  abbrev pub fits : RiskState → OrderAction → Qty → RiskInput → SymbolLimits → Bool
  fits state action quantity input limits =
      is_clear (check_both state action quantity input limits no_context).0

  unfoldable pub largest_permitted_quantity :
      RiskState → OrderAction → RiskInput → SymbolLimits → Qty
  largest_permitted_quantity state action input limits =
      largest_fitting (λ q. fits state action q input limits) action.quantity (lot_step input)

  -- A smaller order is checked again, in full.
  unfoldable pub revalidate :
      OrderAction
      → Qty
      → RiskReason
      → RiskInput
      → SymbolLimits
      → Readings
      → RiskEngine d
      → RiskDecision × RiskEngine d
  revalidate action permitted failure input limits t e =
      let reduced = record action { quantity = permitted } in
      let recheck =
        check_both e.state reduced reduced.quantity input limits (first_context input limits) in
      if not (is_clear recheck.0)
      then refuse t action recheck.0 e
      else grant t (granted reduce failure e.state action reduced recheck.1 t.started) e

  unfoldable pub judge :
      OrderAction → RiskInput → SymbolLimits → Readings → RiskEngine d → RiskDecision × RiskEngine d
  judge action input limits t e =
      let check =
        check_both e.state action action.quantity input limits (first_context input limits) in
      let permitted = largest_permitted_quantity e.state action input limits in
      if is_clear check.0
      then grant t (granted approve no_reason e.state action action check.1 t.started) e
      else if not (is_reducible check.0)
      then refuse t action check.0 e
      else if not (is_positive permitted) || leb_ℤ action.quantity permitted
      then refuse t action check.0 e
      else revalidate action permitted check.0 input limits t e

  -- The bucket of the action's kind, then the one for all actions.
  unfoldable pub acquire : OrderAction → Nanos → RiskEngine d → Bool × RiskEngine d
  acquire action now e =
      let first = try_acquire d now (if is_new action.type then e.new_orders else e.replaces) in
      let e' =
        if is_new action.type
        then record e { new_orders = first.1 }
        else record e { replaces = first.1 } in
      let second = try_acquire d now e'.all_actions in
      if not first.0 then (false, e') else (second.0, record e' { all_actions = second.1 })

  unfoldable pub admit :
      OrderAction → RiskInput → SymbolLimits → Readings → RiskEngine d → RiskDecision × RiskEngine d
  admit action input limits t e =
      let acquired = acquire action t.started e in
      if not (adds_exposure action.type)
      then judge action input limits t e
      else if not acquired.0
      then refuse t action rate_limit acquired.1
      else judge action input limits t acquired.1

  unfoldable pub evaluate_exposure :
      OrderAction → RiskInput → Readings → RiskEngine d → RiskDecision × RiskEngine d
  evaluate_exposure action input t e =
      let screened = screen e.state e.limits.global t action input in
      if not (is_clear screened)
      then refuse t action screened e
      else case_option (find input.symbol e.limits) (refuse t action configuration_missing e)
          (λ limits. admit action input limits t e)

  unfoldable pub evaluate_cancel :
      OrderAction → RiskInput → Readings → RiskEngine d → RiskDecision × RiskEngine d
  unfolding approve_cancel
  evaluate_cancel action input t e =
      let r = approve_cancel action input t e in
      (r.0, record (r.1) { latency = sub t.finished t.started ∷ r.1.latency })

  unfoldable pub evaluate :
      OrderAction → RiskInput → Readings → RiskEngine d → RiskDecision × RiskEngine d
  evaluate action input t e =
      if is_noop action.type
      then grant t (granted approve no_reason e.state action action no_context t.started) e
      else if is_cancel action.type
      then evaluate_cancel action input t e
      else evaluate_exposure action input t e
