-- ===== src/Session/Paths.antt =====
-- Sequences of legal transitions of a session (src/exchange/common/ExchangeTypes.cpp).
use crypto_mm_engine.Prelude.{◌≡◌, refl, Bool, true, false, ◌||◌, arith}
use crypto_mm_engine.Session.{
  SessionState, disconnected, syncing, ready, stale, error, is_state, is_quotable,
  is_legal_transition,
}

-- Sequences of legal transitions that never enter a state of the given kind.
pub data ReachAvoiding (avoided : SessionState → Bool) (s : SessionState)
    : SessionState → Type 0 where
  start : ReachAvoiding avoided s s
  then_to :
      {t u : SessionState}
      → ReachAvoiding avoided s t
      → is_legal_transition t u ≡ true
      → avoided u ≡ false
      → ReachAvoiding avoided s u

abbrev pub is_disconnected : SessionState → Bool
is_disconnected s = is_state s disconnected

abbrev pub is_syncing : SessionState → Bool
is_syncing s = is_state s syncing

error_step :
    (s : SessionState) → is_legal_transition error s ≡ true → is_disconnected s ≡ false → s ≡ error
unfolding is_legal_transition
error_step s l d = ground arith

-- A session in Error stays there until it is disconnected.
pub error_stays : {s : SessionState} → ReachAvoiding is_disconnected error s → s ≡ error
error_stays start = refl
error_stays (then_to {t = t} {u = u} r l a) = error_step u (rw (← error_stays r) l) a

-- The states in which a book was synchronized.
abbrev pub is_synchronized : SessionState → Bool
is_synchronized s = is_state s ready || is_state s stale || is_state s syncing

unsynchronized_step :
    (s t : SessionState)
    → is_synchronized s ≡ false
    → is_legal_transition s t ≡ true
    → is_syncing t ≡ false
    → is_synchronized t ≡ false
unfolding is_legal_transition
unsynchronized_step s t n l a = ground arith

unsynchronized_stays :
    {s t : SessionState}
    → is_synchronized s ≡ false
    → ReachAvoiding is_syncing s t
    → is_synchronized t ≡ false
unsynchronized_stays n start = n
unsynchronized_stays n (then_to {t = t} {u = u} r l a) =
    unsynchronized_step t u (unsynchronized_stays n r) l a

-- From a state that is not synchronized, no sequence of legal transitions that never enters Syncing
-- leads to a quotable state.
pub not_quotable_without_sync :
    {s t : SessionState}
    → is_synchronized s ≡ false
    → ReachAvoiding is_syncing s t
    → is_quotable t ≡ false
unfolding is_quotable
not_quotable_without_sync {s} {t} n r = let out = unsynchronized_stays n r in ground (arith, out)
