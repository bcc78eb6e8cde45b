-- ===== src/Identity/Login.antt =====
-- backend/app/identity/services/auth_service.py over services/token_issuer.py and the claims of
-- security/tokens.py. A raised error rolls the session back, so it leaves the tables as they were;
-- the throttle, the denylist and the independent audit session keep what they have. The hash that is
-- verified for an unknown account, which only takes time, is left out.
pub mod Lockout
use one_ai.Prelude.{
  ℕ, ◌+◌, Uuid, Time, String, Bool, true, false, not, ◌&&◌, Option, none, some, List, [], ◌∷◌, ◌++◌,
  if◌then◌else◌,
}
use one_ai.Result.{Result, ok, err}
use one_ai.Audit.{
  AuditAction, AuditEvent, Principal, record_event, login_success, login_failure, login_blocked,
  refresh, logout, user, text,
}
use one_ai.Audit
use one_ai.Identity.Denylist.{revoke_subject}
use one_ai.Identity.RateLimit.{RateLimiter, ip_key, account_key, check, register_failure}
use one_ai.Identity.Realm.{Organization, is_suspended, Realm, get_by_id}
use one_ai.Identity.Tokens.{RefreshToken, consume, revoke, add}
use one_ai.Identity.Users.{User, UserRole, role_text, get_by_email, get_by_subject_id}

-- the claims of an access token
pub record AccessClaims : Type 0 where
  pub sub : Uuid
  pub aud : String
  pub role : Option String
  pub org_id : Option Uuid
  pub iat : Time
  pub exp : Time
  pub jti : Uuid

-- the libraries that sign, hash and verify, and the settings
pub record Crypto : Type 0 where
  pub verify_password : String → String → Bool
  pub sha256_hex : String → String
  pub jwt_encode : AccessClaims → String
  pub access_token_ttl : ℕ
  pub refresh_token_ttl : ℕ

-- what a request brings: its address, the clock of the throttle and that of the tokens, and the random
-- values that are drawn for it
pub record Call : Type 0 where
  pub client_ip : Option String
  pub tick : Time
  pub now : Time
  pub jti : Uuid
  pub raw_refresh : String

pub data AuthError : Type 0 where
  rate_limited : ℕ → AuthError
  invalid_credentials refresh_token_invalid organization_not_found organization_suspended :
      AuthError

pub record AuthenticatedUserResponse : Type 0 where
  pub id : Uuid
  pub email : String
  pub full_name : String
  pub role : UserRole
  pub org_id : Uuid
  pub org_name : String

pub record TokenPairResponse : Type 0 where
  pub access_token : String
  pub refresh_token : String
  pub user : Option AuthenticatedUserResponse

-- an address that is over its budget, or else an account
abbrev pub first_refusal : Option ℕ → Option ℕ → Option ℕ
first_refusal none o = o
first_refusal (some w) o = some w

unfoldable pub throttled : RateLimiter → String → Call → Option ℕ
unfolding check
throttled l email c =
    first_refusal (check l (ip_key c.client_ip) c.tick) (check l (account_key email) c.tick)

-- both budgets
unfoldable pub register_both : String → Call → RateLimiter → RateLimiter
register_both email c l =
    register_failure (account_key email) c.tick (register_failure (ip_key c.client_ip) c.tick l)

abbrev pub auth_event : AuditAction → Option Uuid → Option String → Option Uuid → AuditEvent
auth_event action actor_id actor_email org_id = record {
  action = action;
  actor_type = user;
  actor_id = actor_id;
  actor_email = actor_email;
  org_id = org_id;
  entity_type = none;
  entity_id = none;
  details = [];
}

unfoldable pub principal_for : User → Principal
principal_for u = record {
  subject_id = u.id;
  org_id = some u.org_id;
  role = some (role_text u.role);
  subject_type = user;
}

unfoldable pub build_user_view : User → Organization → AuthenticatedUserResponse
build_user_view u o = record {
  id = u.id;
  email = u.email;
  full_name = u.full_name;
  role = u.role;
  org_id = u.org_id;
  org_name = o.name;
}

abbrev pub loginable : Option Organization → Result AuthError Organization
loginable none = err organization_not_found
loginable (some o) = if is_suspended o.status then err organization_suspended else ok o

unfoldable pub load_loginable_org : Uuid → List Organization → Result AuthError Organization
unfolding get_by_id
load_loginable_org org_id table = loginable (get_by_id org_id table)

module _ (k : Crypto) where
  -- tokens.py, `encode_access_token`
  unfoldable pub encode_access_token : Principal → String → Call → String
  encode_access_token p audience c = k.jwt_encode (record {
    sub = p.subject_id;
    aud = audience;
    role = p.role;
    org_id = p.org_id;
    iat = c.now;
    exp = c.now + k.access_token_ttl;
    jti = c.jti;
  })

  -- token_issuer.py
  unfoldable pub issue_pair :
      Principal → String → String → Call → List RefreshToken → (String × String) × List RefreshToken
  unfolding encode_access_token add
  issue_pair p audience subject_type c table = (
    (encode_access_token p audience c, c.raw_refresh),
    add
        (record {
          subject_id = p.subject_id;
          subject_type = subject_type;
          token_hash = k.sha256_hex c.raw_refresh;
          expires_at = c.now + k.refresh_token_ttl;
          revoked_at = none;
        })
        table,
  )

  abbrev pub rejected : String → Call → Realm → Result AuthError TokenPairResponse × Realm
  rejected email c s = (
    err invalid_credentials,
    record s {
      rate_limiter = register_both email c s.rate_limiter;
      trail =
          record_event
            (record (auth_event login_failure none (some email) none) {
              details = ("reason", text "invalid_credentials") ∷ [];
            })
            s.trail;
    },
  )

  -- the credentials are valid; the organization decides
  abbrev pub admitted :
      User
      → Call
      → Result AuthError Organization
      → Realm
      → Result AuthError TokenPairResponse × Realm
  admitted u c (ok o) s =
      let ((access_token, refresh_token), table) =
        issue_pair (principal_for u) "company" "user" c s.refresh_tokens in
      (
        ok (record {
          access_token = access_token;
          refresh_token = refresh_token;
          user = some (build_user_view u o);
        }),
        record s {
          refresh_tokens = table;
          trail =
              record_event (auth_event login_success (some u.id) (some u.email) (some u.org_id))
                s.trail;
        },
      )
  admitted u c (err organization_suspended) s = (
    err organization_suspended,
    record s {
      trail =
          record_event
            (record (auth_event login_blocked (some u.id) (some u.email) (some u.org_id)) {
              details = ("reason", text "org_suspended") ∷ [];
            })
            s.trail;
    },
  )
  admitted u c (err e) s = (err e, s)

  abbrev pub authenticated :
      String → String → Call → Option User → Realm → Result AuthError TokenPairResponse × Realm
  authenticated email password c none s = rejected email c s
  authenticated email password c (some u) s =
      if not u.is_active
      then rejected email c s
      else if not (k.verify_password password u.password_hash)
      then rejected email c s
      else admitted u c (load_loginable_org u.org_id s.organizations) s

  abbrev pub refuse : ℕ → Realm → Result AuthError TokenPairResponse × Realm
  refuse w s = (err (rate_limited w), s)

  abbrev pub login_unless :
      Option ℕ → String → String → Call → Realm → Result AuthError TokenPairResponse × Realm
  login_unless (some w) email password c s = refuse w s
  login_unless none email password c s =
      authenticated email password c (get_by_email email s.users) s

  unfoldable pub login : String → String → Call → Realm → Result AuthError TokenPairResponse × Realm
  unfolding throttled register_both load_loginable_org get_by_email issue_pair principal_for
      build_user_view
  login email password c s = login_unless (throttled s.rate_limiter email c) email password c s
