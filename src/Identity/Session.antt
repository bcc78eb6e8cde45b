-- ===== src/Identity/Session.antt =====
-- backend/app/identity/services/auth_service.py: the rotation of a session, its end, and the view of
-- the caller.
pub mod Suspension
pub mod Logout
use one_ai.Prelude.{
  ℕ, Uuid, Time, String, Bool, not, Option, none, some, List, [], ◌∷◌, if◌then◌else◌,
}
use one_ai.Result.{Result, ok, err}
use one_ai.Audit.{record_event, login_success}
use one_ai.Audit
use one_ai.Identity.Denylist.{InProcessTokenDenylist, revoke_subject}
use one_ai.Identity.Login.{
  Crypto, Call, AuthError, invalid_credentials, refresh_token_invalid, organization_not_found,
  AuthenticatedUserResponse, TokenPairResponse, auth_event, principal_for, build_user_view,
  load_loginable_org, issue_pair,
}
use one_ai.Identity.Realm.{Organization, Realm, get_by_id}
use one_ai.Identity.Tokens.{RefreshToken, consume, revoke}
use one_ai.Identity.Users.{User, get_by_subject_id}

-- an active row, or nobody
abbrev pub active_only : Option User → Option User
active_only none = none
active_only (some u) = if u.is_active then some u else none

abbrev viewed : User → Option Organization → Result AuthError AuthenticatedUserResponse
viewed u none = err organization_not_found
viewed u (some o) = ok (build_user_view u o)

abbrev view_of : Option User → List Organization → Result AuthError AuthenticatedUserResponse
view_of none organizations = err invalid_credentials
view_of (some u) organizations = viewed u (get_by_id u.org_id organizations)

unfoldable pub build_authenticated_user_by_id :
    Uuid → Realm → Result AuthError AuthenticatedUserResponse
unfolding get_by_subject_id get_by_id build_user_view
build_authenticated_user_by_id user_id s =
    view_of (active_only (get_by_subject_id user_id s.users)) s.organizations

module _ (k : Crypto) where
  -- a new pair beside the rotated table
  abbrev pub renewed :
      User
      → Call
      → List RefreshToken
      → Result AuthError Organization
      → Realm
      → Result AuthError TokenPairResponse × Realm
  renewed u c table (err e) s = (err e, s)
  renewed u c table (ok o) s =
      let ((access_token, refresh_token), table') =
        issue_pair k (principal_for u) "company" "user" c table in
      (
        ok (record { access_token = access_token; refresh_token = refresh_token; user = none }),
        record s {
          refresh_tokens = table';
          trail =
              record_event (auth_event Audit.refresh (some u.id) (some u.email) (some u.org_id))
                s.trail;
        },
      )

  abbrev pub refreshed :
      Option User → Call → List RefreshToken → Realm → Result AuthError TokenPairResponse × Realm
  refreshed none c table s = (err invalid_credentials, s)
  refreshed (some u) c table s = renewed u c table (load_loginable_org u.org_id s.organizations) s

  abbrev pub rotated :
      Option RefreshToken × List RefreshToken
      → Call
      → Realm
      → Result AuthError TokenPairResponse × Realm
  rotated (none, table) c s = (err refresh_token_invalid, s)
  rotated (some stored, table) c s =
      refreshed (active_only (get_by_subject_id stored.subject_id s.users)) c table s

  unfoldable pub refresh : String → Call → Realm → Result AuthError TokenPairResponse × Realm
  unfolding consume load_loginable_org get_by_subject_id issue_pair principal_for
  refresh raw c s = rotated (consume k.sha256_hex raw "user" c.now s.refresh_tokens) c s

  abbrev pub revoked_subject : Option Uuid → Time → InProcessTokenDenylist → InProcessTokenDenylist
  revoked_subject none now d = d
  revoked_subject (some subject_id) now d = revoke_subject subject_id now d

  unfoldable pub logout : String → Call → Realm → Realm
  unfolding revoke
  logout raw c s =
      let (subject_id, table) = revoke k.sha256_hex raw c.now s.refresh_tokens in
      record s {
        refresh_tokens = table;
        denylist = revoked_subject subject_id c.now s.denylist;
        trail = record_event (auth_event Audit.logout none none none) s.trail;
      }
