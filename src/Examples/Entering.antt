-- ===== src/Examples/Entering.antt =====
-- Logins, a logout and a suspension on one organization.
use one_ai.Prelude.{
  ◌&&◌, if◌then◌else◌, ℕ, ◌≡◌, refl, true, false, none, some, [], ◌∷◌, str_eq, arith,
}
use one_ai.Result.{err, is_ok}
use one_ai.Audit.{Principal, platform_admin}
use one_ai.Examples.Signing.{plain_hash, token_of}
use one_ai.Examples.Staffing.{user_of}
use one_ai.Identity.Console.{refresh_admin}
use one_ai.Identity.Console.Domains.{domains_apart}
use one_ai.Identity.Denylist.{is_revoked}
use one_ai.Identity.Denylist.Eviction.{empty_denylist}
use one_ai.Identity.Login.{
  throttled, register_both, Crypto, Call, rate_limited, refresh_token_invalid, login,
}
use one_ai.Identity.Login.Lockout.{login_locked_out}
use one_ai.Identity.Platform.{OrganizationDetailResponse, set_status, to_detail}
use one_ai.Identity.RateLimit.{
  RateLimitPolicy, check, register_failure, policy_for, fail_once, account_key, ip_key, lockout_of,
}
use one_ai.Identity.Realm.{get_with_user_count, active, suspended, Realm}
use one_ai.Identity.Session.{refresh, logout}
use one_ai.Identity.Session.Logout.{logout_ends_session}
use one_ai.Identity.Session.Suspension.{suspended_org_is_out}
use one_ai.Identity.Tokens.{get_by_hash}
use one_ai.Identity.Users.{member, get_by_email, get_by_subject_id}

abbrev crypto : Crypto
crypto = record {
  verify_password = λ password hash. str_eq password hash;
  sha256_hex = plain_hash;
  jwt_encode = λ claims. "jwt";
  access_token_ttl = 900;
  refresh_token_ttl = 5000;
}

abbrev call_at : ℕ → Call
call_at now = record {
  client_ip = some "10.0.0.1";
  tick = now;
  now = now;
  jti = 1;
  raw_refresh = "fresh";
}

abbrev strikes : RateLimitPolicy
strikes = record {
  max_attempts = 2;
  window_seconds = 60;
  base_lockout_seconds = 30;
  max_lockout_seconds = 100;
}

-- one failure at 10 on the account of the user, whose password is empty
abbrev pub realm : Realm
realm = record {
  organizations =
      record { id = 1; name = "One"; slug = "one"; status = active; legal_hold = false } ∷ [];
  platform_admins = [];
  users = user_of 5 member ∷ [];
  refresh_tokens = token_of "t" ∷ [];
  support_grants = [];
  trail = [];
  rate_limiter = record {
    ip_policy = record strikes { max_attempts = 10 };
    account_policy = strikes;
    state = λ key.
        if str_eq key "account:a@example"
        then some (record { failures = 10 ∷ []; locked_until = 0 })
        else none;
  };
  denylist = empty_denylist 900;
}

abbrev pub operator : Principal
operator = record { subject_id = 9; org_id = none; role = none; subject_type = platform_admin }

abbrev seen : OrganizationDetailResponse
seen = record {
  id = 1;
  name = "One";
  slug = "one";
  status = suspended;
  user_count = 1;
  legal_hold = false;
}

login_locked_out_example :
    (w : ℕ) × (login crypto "a@example" ""
        (call_at 25)
        (login crypto "a@example" "wrong" (call_at 20) realm).1
      ≡ (err (rate_limited w), (login crypto "a@example" "wrong" (call_at 20) realm).1))
unfolding login throttled check register_both register_failure get_by_email policy_for fail_once
    account_key ip_key lockout_of
login_locked_out_example =
    login_locked_out crypto "a@example" "wrong" "" (call_at 20) (call_at 25) realm
      (login crypto "a@example" "wrong" (call_at 20) realm).1 refl (omega arith) refl (omega arith)

logout_ends_session_example :
    ((refresh crypto "t" (call_at 40) (logout crypto "t" (call_at 30) realm)).0
      ≡ err refresh_token_invalid)
    × (is_revoked (logout crypto "t" (call_at 30) realm).denylist 5 (some 1) (some 20) ≡ true)
unfolding get_by_hash
logout_ends_session_example =
    logout_ends_session crypto "t" (call_at 30) (call_at 40) realm (token_of "t") 20 (some 1) refl
      (omega arith)

suspended_org_is_out_example :
    (is_ok (login crypto "a@example" "" (call_at 40) (set_status 1 suspended operator 30 realm).1).0
      ≡ false)
    × (is_ok (refresh crypto "t" (call_at 41) (set_status 1 suspended operator 30 realm).1).0
        ≡ false)
    × (is_revoked (set_status 1 suspended operator 30 realm).1.denylist 5 (some 1) (some 20) ≡ true)
unfolding get_by_hash get_by_email get_by_subject_id set_status get_with_user_count to_detail
suspended_org_is_out_example =
    suspended_org_is_out crypto 1 operator 30 20 5 realm
      (set_status 1 suspended operator 30 realm).1 (set_status 1 suspended operator 30 realm).1 seen
      "a@example" "" "t" (call_at 40) (call_at 41) refl refl refl (omega arith) refl refl

domains_apart_example :
    (is_ok (refresh crypto "t" (call_at 30) realm).0
      && is_ok (refresh_admin crypto "t" (call_at 30) realm).0)
    ≡ false
domains_apart_example = domains_apart crypto (call_at 30) realm "t"
