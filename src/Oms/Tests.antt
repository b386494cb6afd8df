-- ===== src/Oms/Tests.antt =====
-- The lifecycle theorems at concrete orders.
use crypto_mm_engine.Prelude.{◌≡◌, ◌⊎◌, refl, true}
use crypto_mm_engine.Oms.Lifecycle.{
  created, filled, rejected, unknown, working, cancelled, orphaned, is_terminal, consumes_exposure,
  is_legal_transition, is_state, status_canceled, from_venue_status, is_terminal_status,
}
use crypto_mm_engine.Oms.Paths.{
  here, next, terminal_forever, start, then_to, IsUnsent, IsUnsent-stays, exposure_released,
  is_unknown_status, from_venue_status-terminal,
}

terminal_forever_example : filled ≡ filled
unfolding is_legal_transition
terminal_forever_example = terminal_forever {s = filled} {t = filled} refl (next here refl)

IsUnsent-stays_example : IsUnsent rejected
unfolding is_legal_transition
IsUnsent-stays_example = IsUnsent-stays {s = created} {t = rejected} refl (then_to start refl refl)

exposure_released_example :
    (is_terminal cancelled ≡ true)
    ⊎ (cancelled ≡ orphaned)
    ⊎ ((working ≡ unknown) × (cancelled ≡ created))
unfolding is_legal_transition consumes_exposure
exposure_released_example = exposure_released working cancelled refl refl refl

from_venue_status-terminal_example :
    (is_terminal (from_venue_status status_canceled) ≡ is_terminal_status status_canceled)
    × (is_state (from_venue_status status_canceled) unknown ≡ is_unknown_status status_canceled)
from_venue_status-terminal_example = from_venue_status-terminal status_canceled
