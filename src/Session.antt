-- ===== src/Session.antt =====
-- include/mm/exchange/common/ExchangeTypes.hpp and src/exchange/common/ExchangeTypes.cpp: the states
-- of a market-data session. States are compared by their numbers, as in C++.
pub mod Paths
mod Tests
use crypto_mm_engine.Prelude.{ℕ, ◌==◌, Bool, true, false, not, ◌&&◌, ◌||◌, if◌then◌else◌}

pub data SessionState : Type 0 where
  disconnected connecting connected authenticated subscribed syncing ready stale : SessionState
  resync_required backoff error : SessionState

-- The value of the enumerator.
abbrev pub value : SessionState → ℕ
value disconnected = 0
value connecting = 1
value connected = 2
value authenticated = 3
value subscribed = 4
value syncing = 5
value ready = 6
value stale = 7
value resync_required = 8
value backoff = 9
value error = 10

abbrev pub is_state : SessionState → SessionState → Bool
is_state s t = value s == value t

unfoldable pub is_quotable : SessionState → Bool
is_quotable s = is_state s ready

-- The switch over the state that is left.
unfoldable pub may_become : SessionState → SessionState → Bool
may_become disconnected to = is_state to connecting
may_become connecting to = is_state to connected
may_become connected to = is_state to authenticated || is_state to subscribed
may_become authenticated to = is_state to subscribed
may_become subscribed to = is_state to syncing
may_become syncing to = is_state to ready || is_state to resync_required
may_become ready to = is_state to stale || is_state to resync_required
may_become stale to = is_state to ready || is_state to resync_required
may_become resync_required to = is_state to syncing
may_become backoff to = is_state to connecting
may_become error to = false

unfoldable pub is_legal_transition : SessionState → SessionState → Bool
unfolding may_become
is_legal_transition from to =
    if is_state from to
    then true
    else if is_state to disconnected || is_state to error
    then true
    else if is_state to backoff
    then not (is_state from disconnected) && not (is_state from error)
    else may_become from to
