-- ===== src/Risk/Types.antt =====
-- include/mm/risk/RiskTypes.hpp and src/risk/RiskTypes.cpp: states, verdicts and reasons.
use crypto_mm_engine.Prelude.{ℕ, ◌==◌, Bool, true, false, ◌||◌, if◌then◌else◌}

pub data RiskState : Type 0 where
  disarmed armed warning killed faulted : RiskState

abbrev pub state_number : RiskState → ℕ
state_number disarmed = 0
state_number armed = 1
state_number warning = 2
state_number killed = 3
state_number faulted = 4

abbrev pub is_state : RiskState → RiskState → Bool
is_state s t = state_number s == state_number t

unfoldable pub permits_new_exposure : RiskState → Bool
permits_new_exposure s = is_state s armed

unfoldable pub is_reduce_only : RiskState → Bool
is_reduce_only s = is_state s warning

unfoldable pub needs_operator_recovery : RiskState → Bool
needs_operator_recovery s = is_state s killed || is_state s faulted

-- The switch over the state that is left.
unfoldable pub may_become : RiskState → RiskState → Bool
may_become disarmed to = is_state to armed
may_become armed to = is_state to warning
may_become warning to = is_state to armed
may_become killed to = is_state to disarmed
may_become faulted to = is_state to disarmed

unfoldable pub is_legal_transition : RiskState → RiskState → Bool
unfolding may_become
is_legal_transition from to =
    if is_state from to
    then true
    else if is_state to killed || is_state to faulted
    then true
    else may_become from to

pub data RiskVerdict : Type 0 where
  approve reduce reject : RiskVerdict

pub data RiskReason : Type 0 where
  no_reason max_position max_position_notional max_order_quantity : RiskReason
  max_order_notional max_working_exposure max_side_exposure max_open_orders : RiskReason
  max_portfolio_notional stale_market invalid_price invalid_quantity : RiskReason
  price_outside_band reference_price_unavailable instrument_invalid : RiskReason
  risk_disarmed risk_killed risk_faulted reduce_only system_not_ready : RiskReason
  position_unavailable position_stale portfolio_unavailable portfolio_stale : RiskReason
  pnl_indeterminate unknown_exposure rate_limit ownership_violation : RiskReason
  arithmetic_overflow configuration_missing reduction_invalid max_daily_loss : RiskReason
  max_session_loss emergency_loss : RiskReason

-- The value of the enumerator, which indexes the tallies.
abbrev pub reason_index : RiskReason → ℕ
reason_index no_reason = 0
reason_index max_position = 1
reason_index max_position_notional = 2
reason_index max_order_quantity = 3
reason_index max_order_notional = 4
reason_index max_working_exposure = 5
reason_index max_side_exposure = 6
reason_index max_open_orders = 7
reason_index max_portfolio_notional = 8
reason_index stale_market = 9
reason_index invalid_price = 10
reason_index invalid_quantity = 11
reason_index price_outside_band = 12
reason_index reference_price_unavailable = 13
reason_index instrument_invalid = 14
reason_index risk_disarmed = 15
reason_index risk_killed = 16
reason_index risk_faulted = 17
reason_index reduce_only = 18
reason_index system_not_ready = 19
reason_index position_unavailable = 20
reason_index position_stale = 21
reason_index portfolio_unavailable = 22
reason_index portfolio_stale = 23
reason_index pnl_indeterminate = 24
reason_index unknown_exposure = 25
reason_index rate_limit = 26
reason_index ownership_violation = 27
reason_index arithmetic_overflow = 28
reason_index configuration_missing = 29
reason_index reduction_invalid = 30
reason_index max_daily_loss = 31
reason_index max_session_loss = 32
reason_index emergency_loss = 33

abbrev pub is_clear : RiskReason → Bool
is_clear no_reason = true
is_clear _ = false

-- The reasons that a smaller order may avoid.
abbrev pub is_reducible : RiskReason → Bool
is_reducible max_position = true
is_reducible max_position_notional = true
is_reducible max_order_quantity = true
is_reducible max_order_notional = true
is_reducible max_side_exposure = true
is_reducible max_working_exposure = true
is_reducible _ = false

-- The first reason counts.
infixr 30 ◌or_else◌
abbrev pub ◌or_else◌ : RiskReason → RiskReason → RiskReason
a or_else b = if is_clear a then b else a
