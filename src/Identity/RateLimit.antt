-- ===== src/Identity/RateLimit.antt =====
-- backend/app/identity/security/rate_limit.py: the throttle in front of a login. The clock counts
-- whole seconds.
pub mod Window
pub mod Lockout
use Prim.Native.String.{◌++◌ as concat}
use text.Mathlib.Text.{starts_with}
use one_ai.Prelude.{
  ℕ, ◌+◌, ◌-◌, ◌*◌, ◌^◌, min, Time, String, Option, none, some, List, [], ◌∷◌, ◌++◌, ltb, leb,
  str_eq, value_or, length, if◌then◌else◌,
}

abbrev pub account_key_prefix : String
account_key_prefix = "account:"

-- an empty address is falsy too
unfoldable pub ip_key : Option String → String
ip_key none = concat "ip:" "unknown"
ip_key (some client_ip) =
    if str_eq client_ip "" then concat "ip:" "unknown" else concat "ip:" client_ip

unfoldable pub account_key : String → String
account_key email = concat account_key_prefix email

pub record KeyState : Type 0 where
  pub failures : List Time
  pub locked_until : Time

pub record RateLimitPolicy : Type 0 where
  pub max_attempts : ℕ
  pub window_seconds : ℕ
  pub base_lockout_seconds : ℕ
  pub max_lockout_seconds : ℕ

pub record RateLimiter : Type 0 where
  pub ip_policy : RateLimitPolicy
  pub account_policy : RateLimitPolicy
  pub state : String → Option KeyState

unfoldable pub reset : RateLimiter → RateLimiter
reset l = record l { state = λ key. none }

unfoldable pub policy_for : RateLimiter → String → RateLimitPolicy
policy_for l key = if starts_with key account_key_prefix then l.account_policy else l.ip_policy

-- a refusal carries the seconds to wait
abbrev check_state : Time → Option KeyState → Option ℕ
check_state now none = none
check_state now (some s) = if ltb now s.locked_until then some (s.locked_until - now + 1) else none

unfoldable pub check : RateLimiter → String → Time → Option ℕ
check l key now = check_state now (l.state key)

-- `while failures and failures[0] < now - window: popleft()`
unfoldable pub trim : ℕ → Time → List Time → List Time
trim window now [] = []
trim window now (t ∷ ts) =
    let rest = trim window now ts in if ltb (t + window) now then rest else t ∷ ts

unfoldable pub lockout_of : RateLimitPolicy → ℕ → ℕ
lockout_of policy count =
    min (policy.base_lockout_seconds * 2 ^ (count - policy.max_attempts)) policy.max_lockout_seconds

-- `register_failure` on the state of one key
unfoldable pub fail_once : RateLimitPolicy → Time → KeyState → KeyState
unfolding trim lockout_of
fail_once policy now s =
    let failures = trim policy.window_seconds now s.failures ++ now ∷ [] in
    record {
      failures = failures;
      locked_until =
          if leb policy.max_attempts (length failures)
          then now + lockout_of policy (length failures)
          else s.locked_until;
    }

abbrev pub empty_state : KeyState
empty_state = record { failures = []; locked_until = 0 }

unfoldable pub register_failure : String → Time → RateLimiter → RateLimiter
unfolding fail_once policy_for
register_failure key now l = record l {
  state = λ k.
      if str_eq k key
      then some (fail_once (policy_for l key) now (value_or empty_state (l.state key)))
      else l.state k;
}
