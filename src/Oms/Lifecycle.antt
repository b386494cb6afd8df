-- ===== src/Oms/Lifecycle.antt =====
-- include/mm/oms/OrderTypes.hpp and src/oms/OrderTypes.cpp: the states of an order and the legal
-- transitions between them. States are compared by their numbers, as in C++.
use crypto_mm_engine.Prelude.{ℕ, ◌==◌, Bool, true, false, not, ◌&&◌, ◌||◌, if◌then◌else◌}

pub data OrderState : Type 0 where
  created pending_new working partially_filled pending_cancel pending_replace : OrderState
  filled cancelled rejected expired unknown orphaned : OrderState

-- The value of the enumerator.
abbrev pub value : OrderState → ℕ
value created = 0
value pending_new = 1
value working = 2
value partially_filled = 3
value pending_cancel = 4
value pending_replace = 5
value filled = 6
value cancelled = 7
value rejected = 8
value expired = 9
value unknown = 10
value orphaned = 11

abbrev pub is_state : OrderState → OrderState → Bool
is_state s t = value s == value t

unfoldable pub is_terminal : OrderState → Bool
is_terminal s =
    is_state s filled || is_state s cancelled || is_state s rejected || is_state s expired

unfoldable pub consumes_exposure : OrderState → Bool
consumes_exposure s = not (is_terminal s) && not (is_state s created) && not (is_state s orphaned)

unfoldable pub is_live : OrderState → Bool
is_live s =
    is_state s working
    || is_state s partially_filled
    || is_state s pending_cancel
    || is_state s pending_replace

unfoldable pub has_pending_request : OrderState → Bool
has_pending_request s =
    is_state s pending_new || is_state s pending_cancel || is_state s pending_replace

-- The switch over the state that is left.
unfoldable pub may_become : OrderState → OrderState → Bool
may_become created to = is_state to pending_new || is_state to rejected
may_become pending_new to =
    is_state to working
    || is_state to partially_filled
    || is_state to filled
    || is_state to rejected
    || is_state to expired
may_become working to =
    is_state to partially_filled
    || is_state to filled
    || is_state to pending_cancel
    || is_state to pending_replace
    || is_state to cancelled
    || is_state to expired
    || is_state to rejected
may_become partially_filled to =
    is_state to filled
    || is_state to pending_cancel
    || is_state to pending_replace
    || is_state to cancelled
    || is_state to expired
may_become pending_cancel to =
    is_state to cancelled
    || is_state to filled
    || is_state to partially_filled
    || is_state to working
    || is_state to expired
may_become pending_replace to =
    is_state to working
    || is_state to partially_filled
    || is_state to filled
    || is_state to cancelled
    || is_state to rejected
    || is_state to expired
may_become unknown to = true
may_become orphaned to = is_state to cancelled || is_state to unknown
may_become from to = false

unfoldable pub is_legal_transition : OrderState → OrderState → Bool
unfolding is_terminal may_become
is_legal_transition from to =
    if is_state from to
    then true
    else if is_terminal from
    then false
    else if is_state to unknown
    then not (is_state from created)
    else if is_state to orphaned
    then true
    else may_become from to

-- include/mm/exchange/common/ExchangeTypes.hpp: the status that the venue reports.
pub data OrderStatus : Type 0 where
  status_unknown status_new status_partially_filled status_filled status_canceled : OrderStatus
  status_rejected status_expired status_pending_cancel status_pending_replace : OrderStatus

unfoldable pub is_terminal_status : OrderStatus → Bool
is_terminal_status status_filled = true
is_terminal_status status_canceled = true
is_terminal_status status_rejected = true
is_terminal_status status_expired = true
is_terminal_status _ = false

unfoldable pub from_venue_status : OrderStatus → OrderState
from_venue_status status_new = working
from_venue_status status_partially_filled = partially_filled
from_venue_status status_filled = filled
from_venue_status status_canceled = cancelled
from_venue_status status_rejected = rejected
from_venue_status status_expired = expired
from_venue_status status_pending_cancel = pending_cancel
from_venue_status status_pending_replace = pending_replace
from_venue_status status_unknown = unknown
