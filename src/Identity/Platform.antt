-- ===== src/Identity/Platform.antt =====
-- backend/app/identity/services/platform_org_service.py, and the onboarding of an organization in
-- services/platform_auth_service.py. The ids of new rows are arguments, the password hash a
-- parameter.
use one_ai.Prelude.{
  ℕ, Uuid, Time, String, Bool, true, false, none, some, List, [], ◌∷◌, ◌==◌, is_some, update_where,
  if◌then◌else◌,
}
use one_ai.Result.{Result, ok, err}
use one_ai.Audit.{
  AuditAction, Detail, AuditEvent, Principal, record_event, org_suspend, org_reactivate,
  org_status_change, org_legal_hold_set, org_legal_hold_clear, org_onboard, platform_admin, text,
  flag,
}
use one_ai.Identity.Denylist.{revoke_org}
use one_ai.Identity.Realm.{
  OrganizationStatus, active, suspended, is_suspended, status_text, Organization, Realm,
  get_by_slug, add, get_with_user_count,
}
use one_ai.Identity.Users.{User, company_admin, email_exists}
use one_ai.Identity.Users

-- platform_schemas.py
pub record OrganizationDetailResponse : Type 0 where
  pub id : Uuid
  pub name : String
  pub slug : String
  pub status : OrganizationStatus
  pub user_count : ℕ
  pub legal_hold : Bool

pub data PlatformError : Type 0 where
  organization_not_found duplicate_organization duplicate_user : PlatformError

unfoldable pub to_detail : Organization → ℕ → OrganizationDetailResponse
to_detail o user_count = record {
  id = o.id;
  name = o.name;
  slug = o.slug;
  status = o.status;
  user_count = user_count;
  legal_hold = o.legal_hold;
}

unfoldable pub get_detail : Uuid → Realm → Result PlatformError OrganizationDetailResponse
unfolding get_with_user_count to_detail
get_detail org_id s = elim (get_with_user_count org_id s) [
  | none ↦ err organization_not_found
  | some (o, n) ↦ ok (to_detail o n)
]

-- `_STATUS_ACTION`
abbrev pub status_action : OrganizationStatus → AuditAction
status_action suspended = org_suspend
status_action active = org_reactivate
status_action _ = org_status_change

unfoldable pub org_event : AuditAction → Principal → Uuid → List (String × Detail) → AuditEvent
org_event action actor org_id details = record {
  action = action;
  actor_type = platform_admin;
  actor_id = some actor.subject_id;
  actor_email = none;
  org_id = some org_id;
  entity_type = some "organization";
  entity_id = some org_id;
  details = details;
}

abbrev pub save_status : Uuid → OrganizationStatus → List Organization → List Organization
save_status org_id status = update_where (λ o. o.id == org_id) (λ o. record o { status = status })

unfoldable pub set_status :
    Uuid
    → OrganizationStatus
    → Principal
    → Time
    → Realm
    → Result PlatformError OrganizationDetailResponse × Realm
unfolding get_with_user_count org_event to_detail
set_status org_id status actor now s = elim (get_with_user_count org_id s) [
  | none ↦ (err organization_not_found, s)
  | some (o, n) ↦ (
    ok (to_detail (record o { status = status }) n),
    record s {
      organizations = save_status org_id status s.organizations;
      denylist = if is_suspended status then revoke_org org_id now s.denylist else s.denylist;
      trail =
          record_event
            (org_event (status_action status) actor org_id (
              ("from_status", text (status_text o.status))
              ∷ ("to_status", text (status_text status))
              ∷ []))
            s.trail;
    },
  )
]

unfoldable pub set_legal_hold :
    Uuid → Bool → Principal → Realm → Result PlatformError OrganizationDetailResponse × Realm
unfolding get_with_user_count org_event to_detail
set_legal_hold org_id legal_hold actor s = elim (get_with_user_count org_id s) [
  | none ↦ (err organization_not_found, s)
  | some (o, n) ↦ (
    ok (to_detail (record o { legal_hold = legal_hold }) n),
    record s {
      organizations =
          update_where (λ r. r.id == org_id) (λ r. record r { legal_hold = legal_hold })
            s.organizations;
      trail =
          record_event
            (org_event (if legal_hold then org_legal_hold_set else org_legal_hold_clear) actor
              org_id (("legal_hold", flag legal_hold) ∷ []))
            s.trail;
    },
  )
]

-- platform_schemas.py
pub record OrganizationCreateRequest : Type 0 where
  pub org_name : String
  pub org_slug : String
  pub admin_email : String
  pub admin_full_name : String
  pub admin_password : String

module _ (hash_password : String → String) where
  -- a lost race on a unique column is the same error; the whole transaction rolls back
  unfoldable pub onboard_organization :
      Uuid
      → Uuid
      → OrganizationCreateRequest
      → Principal
      → Realm
      → Result PlatformError (Organization × User) × Realm
  unfolding get_by_slug email_exists add Users.add org_event
  onboard_organization org_id admin_id payload actor s =
      let organization : Organization = record {
        id = org_id;
        name = payload.org_name;
        slug = payload.org_slug;
        status = active;
        legal_hold = false;
      } in
      let admin : User = record {
        id = admin_id;
        org_id = org_id;
        email = payload.admin_email;
        full_name = payload.admin_full_name;
        password_hash = hash_password payload.admin_password;
        role = company_admin;
        is_active = true;
      } in
      if is_some (get_by_slug payload.org_slug s.organizations)
      then (err duplicate_organization, s)
      else if email_exists payload.admin_email s.users
      then (err duplicate_user, s)
      else (
        ok (organization, admin),
        record s {
          organizations = add organization s.organizations;
          users = Users.add admin s.users;
          trail =
              record_event
                (org_event org_onboard actor org_id
                  (("slug", text payload.org_slug) ∷ ("name", text payload.org_name) ∷ []))
                s.trail;
        },
      )
