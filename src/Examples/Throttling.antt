-- ===== src/Examples/Throttling.antt =====
-- Failures on one key.
use one_ai.Prelude.{◌≡◌, [], ◌∷◌, arith, keep_if}
use one_ai.Identity.RateLimit.{RateLimitPolicy, empty_state}
use one_ai.Identity.RateLimit.Window.{fail_all, last_of, in_window, failures_exact}

abbrev two_strikes : RateLimitPolicy
two_strikes = record {
  max_attempts = 2;
  window_seconds = 60;
  base_lockout_seconds = 30;
  max_lockout_seconds = 100;
}

failures_exact_example :
    (fail_all two_strikes (1 ∷ 50 ∷ 70 ∷ []) empty_state).failures
    ≡ keep_if (in_window 60 (last_of 0 (1 ∷ 50 ∷ 70 ∷ []))) (1 ∷ 50 ∷ 70 ∷ [])
failures_exact_example =
    failures_exact two_strikes (1 ∷ 50 ∷ 70 ∷ []) (omega arith, (omega arith, (omega arith, tt)))
