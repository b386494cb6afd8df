-- ===== src/Oms/Paths.antt =====
-- Sequences of legal transitions of an order (src/oms/OrderTypes.cpp).
use crypto_mm_engine.Prelude.{◌∙◌, ◌≡◌, ◌⊎◌, refl, Bool, true, false, ◌||◌, arith}
use crypto_mm_engine.Oms.Lifecycle.{
  OrderState, created, pending_new, rejected, unknown, orphaned, is_state, is_terminal,
  consumes_exposure, is_legal_transition, OrderStatus, is_terminal_status, from_venue_status,
  status_unknown,
}

pub data Reach (s : OrderState) : OrderState → Type 0 where
  here : Reach s s
  next : {t u : OrderState} → Reach s t → is_legal_transition t u ≡ true → Reach s u

abbrev pub is_unknown_status : OrderStatus → Bool
is_unknown_status status_unknown = true
is_unknown_status _ = false

terminal_step : (s t : OrderState) → is_terminal s ≡ true → is_legal_transition s t ≡ true → t ≡ s
unfolding is_legal_transition
terminal_step s t f l = ground arith

-- An order in a terminal state stays in it for ever.
pub terminal_forever : {s t : OrderState} → is_terminal s ≡ true → Reach s t → t ≡ s
terminal_forever f here = refl
terminal_forever {s} f (next {t = t} {u = u} r l) =
    let same = terminal_forever f r in terminal_step t u (rw same f) l ∙ same

-- Nothing was sent: the order was made, or rejected before it went out.
abbrev pub IsUnsent : OrderState → Type 0
IsUnsent s = (is_state s created || is_state s rejected) ≡ true

IsUnsent-step :
    (s t : OrderState)
    → IsUnsent s
    → (is_state t pending_new || is_state t orphaned) ≡ false
    → is_legal_transition s t ≡ true
    → IsUnsent t
unfolding is_legal_transition
IsUnsent-step s t u a l = ground arith

-- Sequences of legal transitions that never enter a state of the given kind.
pub data ReachAvoiding (avoided : OrderState → Bool) (s : OrderState) : OrderState → Type 0 where
  start : ReachAvoiding avoided s s
  then_to :
      {t u : OrderState}
      → ReachAvoiding avoided s t
      → is_legal_transition t u ≡ true
      → avoided u ≡ false
      → ReachAvoiding avoided s u

abbrev pub sent_or_quarantined : OrderState → Bool
sent_or_quarantined t = is_state t pending_new || is_state t orphaned

-- An order that is Created or Rejected gets, without a pending new-order request and without
-- quarantine, no further than Created or Rejected.
pub IsUnsent-stays :
    {s t : OrderState} → IsUnsent s → ReachAvoiding sent_or_quarantined s t → IsUnsent t
IsUnsent-stays u start = u
IsUnsent-stays u (then_to {t = t} {u = v} r l a) = IsUnsent-step t v (IsUnsent-stays u r) a l

-- A legal transition takes an order out of the exposure only by ending it, by quarantining it, or
-- from Unknown back to Created.
pub exposure_released :
    (s t : OrderState)
    → is_legal_transition s t ≡ true
    → consumes_exposure s ≡ true
    → consumes_exposure t ≡ false
    → (is_terminal t ≡ true) ⊎ (t ≡ orphaned) ⊎ ((s ≡ unknown) × (t ≡ created))
unfolding is_legal_transition consumes_exposure
exposure_released s t l c n = ground arith

-- A venue status is mapped to a terminal state exactly if the status is terminal, and only the
-- unknown status is mapped to Unknown.
pub from_venue_status-terminal :
    (v : OrderStatus)
    → (is_terminal (from_venue_status v) ≡ is_terminal_status v)
      × (is_state (from_venue_status v) unknown ≡ is_unknown_status v)
unfolding from_venue_status is_terminal is_terminal_status
from_venue_status-terminal v = ground arith
