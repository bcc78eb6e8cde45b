-- ===== src/Identity/Realm.antt =====
-- What the identity services share: the tables organizations and platform_admins beside those of the
-- other modules, the process-wide throttle and denylist, and the audit log. From
-- backend/app/identity: models/organization.py, models/platform_admin.py,
-- repositories/organization_repository.py and repositories/platform_admin_repository.py.
use one_ai.Prelude.{
  ℕ, Uuid, String, Bool, true, false, Option, none, some, List, [], ◌∷◌, ◌++◌, map, ◌==◌, str_eq,
  find_where, count_where,
}
use one_ai.Audit.{AuditEvent}
use one_ai.Identity.Denylist.{InProcessTokenDenylist}
use one_ai.Identity.RateLimit.{RateLimiter}
use one_ai.Identity.Support.{SupportGrant}
use one_ai.Identity.Tokens.{RefreshToken}
use one_ai.Identity.Users.{User}

pub data OrganizationStatus : Type 0 where
  active suspended onboarding offboarded : OrganizationStatus

abbrev pub is_suspended : OrganizationStatus → Bool
is_suspended suspended = true
is_suspended _ = false

abbrev pub status_text : OrganizationStatus → String
status_text active = "active"
status_text suspended = "suspended"
status_text onboarding = "onboarding"
status_text offboarded = "offboarded"

pub record Organization : Type 0 where
  pub id : Uuid
  pub name : String
  pub slug : String
  pub status : OrganizationStatus
  pub legal_hold : Bool

pub record PlatformAdmin : Type 0 where
  pub id : Uuid
  pub email : String
  pub full_name : String
  pub password_hash : String
  pub is_active : Bool

pub record Realm : Type 0 where
  pub organizations : List Organization
  pub platform_admins : List PlatformAdmin
  pub users : List User
  pub refresh_tokens : List RefreshToken
  pub support_grants : List SupportGrant
  pub trail : List AuditEvent
  pub rate_limiter : RateLimiter
  pub denylist : InProcessTokenDenylist

-- organization_repository.py
unfoldable pub get_by_id : Uuid → List Organization → Option Organization
get_by_id org_id = find_where λ o. o.id == org_id

-- with the row lock
unfoldable pub get_for_update : Uuid → List Organization → Option Organization
get_for_update org_id = find_where λ o. o.id == org_id

unfoldable pub get_by_slug : String → List Organization → Option Organization
get_by_slug slug = find_where λ o. str_eq o.slug slug

unfoldable pub add : Organization → List Organization → List Organization
add organization table = table ++ organization ∷ []

-- the outer join on the users, grouped by organization
abbrev pub user_count : Uuid → List User → ℕ
user_count org_id users = count_where (λ u. u.org_id == org_id) users

abbrev counted : List User → Option Organization → Option (Organization × ℕ)
counted users none = none
counted users (some o) = some (o, user_count o.id users)

unfoldable pub get_with_user_count : Uuid → Realm → Option (Organization × ℕ)
unfolding get_by_id
get_with_user_count org_id s = counted s.users (get_by_id org_id s.organizations)

unfoldable pub list_all_with_user_counts : Realm → List (Organization × ℕ)
list_all_with_user_counts s =
    map (λ (o : Organization). (o, user_count o.id s.users)) s.organizations

-- platform_admin_repository.py
unfoldable pub get_admin_by_email : String → List PlatformAdmin → Option PlatformAdmin
get_admin_by_email email = find_where λ a. str_eq a.email email

unfoldable pub get_admin_by_id : Uuid → List PlatformAdmin → Option PlatformAdmin
get_admin_by_id admin_id = find_where λ a. a.id == admin_id
