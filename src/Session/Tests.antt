-- ===== src/Session/Tests.antt =====
-- The theorems about sessions at concrete histories.
use crypto_mm_engine.Prelude.{◌≡◌, refl, false}
use crypto_mm_engine.Session.{
  connecting, disconnected, backoff, error, is_quotable, is_legal_transition,
}
use crypto_mm_engine.Session.Paths.{start, then_to, error_stays, not_quotable_without_sync}

error_stays_example : error ≡ error
unfolding is_legal_transition
error_stays_example = error_stays (then_to start refl refl)

not_quotable_without_sync_example : is_quotable backoff ≡ false
unfolding is_legal_transition
not_quotable_without_sync_example =
    not_quotable_without_sync {s = disconnected} {t = backoff} refl
      (then_to {t = connecting} (then_to start refl refl) refl refl)
