-- ===== src/Identity/RateLimit/Lockout.antt =====
-- What a locked key costs: the lockout begins at the limit, lasts as long as the policy says, and
-- touches no other key.
use one_ai.Prelude.{
  ℕ, ◌+◌, ◌-◌, ◌^◌, ◌≤◌, ◌<◌, Time, String, ◌≡◌, ◌≢◌, inl, inr, none, some, arith, ltb, length,
  value_or, str_eq_iff, Option-cases, if◌then◌else◌,
}
use native.Mathlib.Nat.{pow-le-pow_right}
use one_ai.Identity.RateLimit.{
  RateLimiter, RateLimitPolicy, KeyState, empty_state, policy_for, check, register_failure,
  fail_once, lockout_of,
}

abbrev pub state_of : RateLimiter → String → KeyState
state_of l key = value_or empty_state (l.state key)

-- the failures that count once this one is registered
abbrev pub counted : RateLimiter → String → Time → ℕ
counted l key now = length (fail_once (policy_for l key) now (state_of l key)).failures

-- A failure that reaches the limit blocks its key at once: every check in the lockout is refused
-- with the seconds that are left, and the first check after it passes.
pub check-register_failure_locked :
    (l : RateLimiter) (key : String) (now later : Time)
    → (policy_for l key).max_attempts ≤ counted l key now
    → check (register_failure key now l) key later ≡ (
        let until = now + lockout_of (policy_for l key) (counted l key now) in
        if ltb later until then some (until - later + 1) else none)
unfolding check register_failure fail_once
check-register_failure_locked l key now later full = ground (arith, str_eq_iff key key, full)

-- Below the limit a failure does not change what a check of its key answers.
check-register_failure_open :
    (l : RateLimiter) (key : String) (now later : Time)
    → counted l key now < (policy_for l key).max_attempts
    → check (register_failure key now l) key later ≡ check l key later
unfolding check register_failure fail_once
check-register_failure_open l key now later room = elim (Option-cases (l.state key)) [
  | inl e ↦ ground (arith, e, str_eq_iff key key, room)
  | inr (s, e) ↦ ground (arith, e, str_eq_iff key key, room)
]

-- A failure on one key changes neither the count nor the lockout of another.
pub check-register_failure_other :
    (l : RateLimiter) (key other : String) (now later : Time)
    → other ≢ key
    → (check (register_failure key now l) other later ≡ check l other later)
      × (counted (register_failure key now l) other later ≡ counted l other later)
unfolding check register_failure policy_for
check-register_failure_other l key other now later apart = ground (arith, str_eq_iff other key)

-- The lockout never exceeds the ceiling and never shrinks as failures pile up.
lockout_of_bounds :
    (policy : RateLimitPolicy) (m n : ℕ)
    → m ≤ n
    → (lockout_of policy n ≤ policy.max_lockout_seconds)
      × (lockout_of policy m ≤ lockout_of policy n)
unfolding lockout_of
lockout_of_bounds policy m n le =
    let grows : 2 ^ (m - policy.max_attempts) ≤ 2 ^ (n - policy.max_attempts) =
      pow-le-pow_right (omega arith) (omega arith) in
    grind (arith, grows)
