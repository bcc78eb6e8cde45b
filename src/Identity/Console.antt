-- ===== src/Identity/Console.antt =====
-- backend/app/identity/services/platform_auth_service.py: the login of the platform administrators,
-- over the throttle, the tokens and the denylist that the companies use too.
pub mod Domains
use one_ai.Prelude.{
  ℕ, Uuid, String, Bool, true, false, not, ◌||◌, Option, none, some, List, [], ◌∷◌, map,
  if◌then◌else◌,
}
use one_ai.Result.{Result, ok, err}
use one_ai.Audit.{
  AuditAction, AuditEvent, Principal, record_event, login_success, login_failure, platform_admin,
  text,
}
use one_ai.Audit
use one_ai.Identity.Login.{
  Crypto, Call, AuthError, rate_limited, invalid_credentials, refresh_token_invalid, throttled,
  register_both, issue_pair,
}
use one_ai.Identity.Realm.{
  OrganizationStatus, Organization, PlatformAdmin, Realm, get_admin_by_email, get_admin_by_id,
  list_all_with_user_counts,
}
use one_ai.Identity.Session.{revoked_subject}
use one_ai.Identity.Tokens.{RefreshToken, consume, revoke}

abbrev console_event : AuditAction → Option Uuid → Option String → AuditEvent
console_event action actor_id actor_email = record {
  action = action;
  actor_type = platform_admin;
  actor_id = actor_id;
  actor_email = actor_email;
  org_id = none;
  entity_type = none;
  entity_id = none;
  details = [];
}

abbrev admin_principal : PlatformAdmin → Principal
admin_principal a = record {
  subject_id = a.id;
  org_id = none;
  role = some "platform_admin";
  subject_type = platform_admin;
}

-- an active row, or nobody
abbrev pub active_admin : Option PlatformAdmin → Option PlatformAdmin
active_admin none = none
active_admin (some a) = if a.is_active then some a else none

unfoldable pub build_admin_view_by_id : Uuid → Realm → Result AuthError PlatformAdmin
unfolding get_admin_by_id
build_admin_view_by_id admin_id s =
    elim (active_admin (get_admin_by_id admin_id s.platform_admins)) [
      | none ↦ err invalid_credentials
      | some a ↦ ok a
    ]

unfoldable pub list_organizations : Realm → List (Organization × ℕ)
unfolding list_all_with_user_counts
list_organizations s = list_all_with_user_counts s

module _ (k : Crypto) where
  -- a new pair beside the table
  abbrev pub entered :
      AuditAction
      → PlatformAdmin
      → Call
      → List RefreshToken
      → Realm
      → Result AuthError (String × String) × Realm
  entered action a c table s =
      let (pair, table') = issue_pair k (admin_principal a) "platform" "platform_admin" c table in
      (
        ok pair,
        record s {
          refresh_tokens = table';
          trail = record_event (console_event action (some a.id) (some a.email)) s.trail;
        },
      )

  abbrev pub turned_away : String → Call → Realm → Result AuthError (String × String) × Realm
  turned_away email c s = (
    err invalid_credentials,
    record s {
      rate_limiter = register_both email c s.rate_limiter;
      trail =
          record_event
            (record (console_event login_failure none (some email)) {
              details = ("reason", text "invalid_credentials") ∷ [];
            })
            s.trail;
    },
  )

  abbrev pub recognised :
      String
      → String
      → Call
      → Option PlatformAdmin
      → Realm
      → Result AuthError (String × String) × Realm
  recognised email password c none s = turned_away email c s
  recognised email password c (some a) s =
      if not a.is_active || not (k.verify_password password a.password_hash)
      then turned_away email c s
      else entered login_success a c s.refresh_tokens s

  unfoldable pub login_admin :
      String → String → Call → Realm → Result AuthError (String × String) × Realm
  unfolding throttled register_both get_admin_by_email issue_pair
  login_admin email password c s = elim (throttled s.rate_limiter email c) [
    | some w ↦ (err (rate_limited w), s)
    | none ↦ recognised email password c (get_admin_by_email email s.platform_admins) s
  ]

  abbrev pub continued :
      Option PlatformAdmin
      → Call
      → List RefreshToken
      → Realm
      → Result AuthError (String × String) × Realm
  continued none c table s = (err invalid_credentials, s)
  continued (some a) c table s = entered Audit.refresh a c table s

  abbrev pub rotated_admin :
      Option RefreshToken × List RefreshToken
      → Call
      → Realm
      → Result AuthError (String × String) × Realm
  rotated_admin (none, table) c s = (err refresh_token_invalid, s)
  rotated_admin (some stored, table) c s =
      continued (active_admin (get_admin_by_id stored.subject_id s.platform_admins)) c table s

  unfoldable pub refresh_admin : String → Call → Realm → Result AuthError (String × String) × Realm
  unfolding consume get_admin_by_id issue_pair
  refresh_admin raw c s =
      rotated_admin (consume k.sha256_hex raw "platform_admin" c.now s.refresh_tokens) c s

  unfoldable pub logout_admin : String → Call → Realm → Realm
  unfolding revoke
  logout_admin raw c s =
      let (subject_id, table) = revoke k.sha256_hex raw c.now s.refresh_tokens in
      record s {
        refresh_tokens = table;
        denylist = revoked_subject k subject_id c.now s.denylist;
        trail = record_event (console_event Audit.logout none none) s.trail;
      }
