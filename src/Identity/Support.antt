-- ===== src/Identity/Support.antt =====
-- backend/app/identity: support access to a tenant, which the platform requests and the company
-- approves (models/support_grant.py, repositories/support_grant_repository.py,
-- services/support_grant_view.py, platform_support_service.py, company_support_service.py).
pub mod Moves
pub mod Consent
use one_ai.Prelude.{
  ℕ, ◌+◌, ◌*◌, Uuid, Time, String, Bool, true, false, not, ◌&&◌, ◌||◌, Option, none, some, List, [],
  ◌∷◌, ◌++◌, map, ltb, ◌==◌, is_some, find_where, update_where, count_where, contains, keep_if,
  if◌then◌else◌,
}
use one_ai.Result.{Result, ok, err}
use one_ai.Audit.{
  AuditAction, ActorType, Detail, AuditEvent, Principal, record_event, support_requested,
  support_approved, support_denied, support_revoked, platform_admin, user, text, number,
}

pub data SupportGrantStatus : Type 0 where
  requested approved denied revoked : SupportGrantStatus

pub record SupportGrant : Type 0 where
  pub id : Uuid
  pub org_id : Uuid
  pub requested_by_admin_id : Uuid
  pub requested_by_email : Option String
  pub reason : String
  pub status : SupportGrantStatus
  pub decided_at : Option Time
  pub decided_by_user_id : Option Uuid
  pub decided_by_email : Option String
  pub expires_at : Option Time
  pub created_at : Time

-- support_grant_view.py
abbrev pub is_approved : SupportGrantStatus → Bool
is_approved approved = true
is_approved _ = false

abbrev within : Option Time → Time → Bool
within none moment = false
within (some expires_at) moment = ltb moment expires_at

unfoldable pub grant_is_active : SupportGrant → Time → Bool
grant_is_active grant moment = is_approved grant.status && within grant.expires_at moment

pub record SupportGrantResponse : Type 0 where
  pub id : Uuid
  pub org_id : Uuid
  pub requested_by_admin_id : Uuid
  pub requested_by_email : Option String
  pub reason : String
  pub status : SupportGrantStatus
  pub is_active : Bool
  pub decided_at : Option Time
  pub decided_by_email : Option String
  pub expires_at : Option Time
  pub created_at : Time

unfoldable pub to_support_response : SupportGrant → Time → SupportGrantResponse
to_support_response grant now = record {
  id = grant.id;
  org_id = grant.org_id;
  requested_by_admin_id = grant.requested_by_admin_id;
  requested_by_email = grant.requested_by_email;
  reason = grant.reason;
  status = grant.status;
  is_active = grant_is_active grant now;
  decided_at = grant.decided_at;
  decided_by_email = grant.decided_by_email;
  expires_at = grant.expires_at;
  created_at = grant.created_at;
}

-- support_grant_repository.py; a list of grants leaves the order to the caller
unfoldable pub insert : SupportGrant → List SupportGrant → List SupportGrant
insert grant table = table ++ grant ∷ []

unfoldable pub get_for_requester : Uuid → Uuid → List SupportGrant → Option SupportGrant
get_for_requester grant_id admin_id =
    find_where λ g. g.id == grant_id && g.requested_by_admin_id == admin_id

unfoldable pub get_in_org : Uuid → Uuid → List SupportGrant → Option SupportGrant
get_in_org grant_id org_id = find_where λ g. g.id == grant_id && g.org_id == org_id

unfoldable pub scrub_decider_emails : Uuid → List SupportGrant → ℕ × List SupportGrant
scrub_decider_emails org_id table = (
  count_where (λ g. g.org_id == org_id && is_some g.decided_by_email) table,
  update_where (λ g. g.org_id == org_id && is_some g.decided_by_email)
      (λ g. record g { decided_by_email = none }) table,
)

-- what the session writes of a grant that was loaded and changed, by its primary key
abbrev pub save : SupportGrant → List SupportGrant → List SupportGrant
save grant = update_where (λ g. g.id == grant.id) (λ _. grant)

pub data SupportError : Type 0 where
  organization_not_found support_grant_not_found invalid_grant_transition : SupportError

-- the rows that the services only read
pub record Directory : Type 0 where
  pub organizations : List Uuid
  pub platform_admins : Uuid → Option String
  pub users : Uuid → Option String

-- the rows that they write
pub record Desk : Type 0 where
  pub grants : List SupportGrant
  pub audit : List AuditEvent

abbrev support_event :
    AuditAction → ActorType → SupportGrant → Principal → List (String × Detail) → AuditEvent
support_event action actor_type grant actor details = record {
  action = action;
  actor_type = actor_type;
  actor_id = some actor.subject_id;
  actor_email = none;
  org_id = some grant.org_id;
  entity_type = some "support_grant";
  entity_id = some grant.id;
  details = details;
}

abbrev pub is_revocable : SupportGrantStatus → Bool
is_revocable requested = true
is_revocable approved = true
is_revocable _ = false

abbrev pub is_requested : SupportGrantStatus → Bool
is_requested requested = true
is_requested _ = false

-- platform_support_service.py: a request for an organization that is there, or not
abbrev pub request_for :
    Bool
    → SupportGrant
    → String
    → Principal
    → Time
    → Desk
    → Result SupportError SupportGrantResponse × Desk
request_for false grant reason actor now s = (err organization_not_found, s)
request_for true grant reason actor now s = (
  ok (to_support_response grant now),
  record {
    grants = insert grant s.grants;
    audit =
        record_event
          (support_event support_requested platform_admin grant actor
            (("reason", text reason) ∷ []))
          s.audit;
  },
)

-- the database chooses the new id, `now` is its clock
unfoldable pub request_access :
    Directory
    → Uuid
    → Uuid
    → String
    → Principal
    → Time
    → Desk
    → Result SupportError SupportGrantResponse × Desk
request_access dir grant_id org_id reason actor now s =
    let grant : SupportGrant = record {
      id = grant_id;
      org_id = org_id;
      requested_by_admin_id = actor.subject_id;
      requested_by_email = dir.platform_admins actor.subject_id;
      reason = reason;
      status = requested;
      decided_at = none;
      decided_by_user_id = none;
      decided_by_email = none;
      expires_at = none;
      created_at = now;
    } in
    request_for (contains org_id dir.organizations) grant reason actor now s

-- both services revoke what they loaded in the same way
abbrev pub revoke_loaded :
    ActorType
    → Option SupportGrant
    → Principal
    → Time
    → Desk
    → Result SupportError SupportGrantResponse × Desk
revoke_loaded actor_type none actor now s = (err support_grant_not_found, s)
revoke_loaded actor_type (some grant) actor now s =
    if not (is_revocable grant.status)
    then (err invalid_grant_transition, s)
    else (let grant' : SupportGrant = record grant { status = revoked } in
        (
          ok (to_support_response grant' now),
          record {
            grants = save grant' s.grants;
            audit = record_event (support_event support_revoked actor_type grant' actor []) s.audit;
          },
        ))

unfoldable pub platform_revoke :
    Uuid → Principal → Time → Desk → Result SupportError SupportGrantResponse × Desk
platform_revoke grant_id actor now s =
    revoke_loaded platform_admin (get_for_requester grant_id actor.subject_id s.grants) actor now s

-- company_support_service.py
abbrev pub support_access_window : ℕ
support_access_window = 4 * 3600

-- `_load_requested`
abbrev pub load_requested : Option SupportGrant → Result SupportError SupportGrant
load_requested none = err support_grant_not_found
load_requested (some grant) =
    if is_requested grant.status then ok grant else err invalid_grant_transition

-- `_stamp_decision`
abbrev pub stamp_decision : Directory → Principal → Time → SupportGrant → SupportGrant
stamp_decision dir actor decided_at grant = record grant {
  decided_at = some decided_at;
  decided_by_user_id = some actor.subject_id;
  decided_by_email = dir.users actor.subject_id;
}

-- the expiry in the event's details is a text of the same time
-- `approve`, from the grant that it loaded
abbrev pub approve_loaded :
    Directory
    → Principal
    → Time
    → Time
    → Desk
    → Result SupportError SupportGrant
    → Result SupportError SupportGrantResponse × Desk
approve_loaded dir actor now responded s (err e) = (err e, s)
approve_loaded dir actor now responded s (ok grant) =
    let grant' : SupportGrant = record (stamp_decision dir actor now grant) {
      status = approved;
      expires_at = some (now + support_access_window);
    } in
    (
      ok (to_support_response grant' responded),
      record {
        grants = save grant' s.grants;
        audit =
            record_event
              (support_event support_approved user grant' actor (
                ("expires_at", number (now + support_access_window))
                ∷ ("window_hours", number 4)
                ∷ []))
              s.audit;
      },
    )

unfoldable pub approve :
    Directory
    → Uuid
    → Uuid
    → Principal
    → Time
    → Time
    → Desk
    → Result SupportError SupportGrantResponse × Desk
approve dir grant_id org_id actor now responded s =
    approve_loaded dir actor now responded s (load_requested (get_in_org grant_id org_id s.grants))

-- `deny`, from the grant that it loaded
abbrev pub deny_loaded :
    Directory
    → Principal
    → Time
    → Time
    → Desk
    → Result SupportError SupportGrant
    → Result SupportError SupportGrantResponse × Desk
deny_loaded dir actor now responded s (err e) = (err e, s)
deny_loaded dir actor now responded s (ok grant) =
    let grant' : SupportGrant = record (stamp_decision dir actor now grant) { status = denied } in
    (
      ok (to_support_response grant' responded),
      record {
        grants = save grant' s.grants;
        audit = record_event (support_event support_denied user grant' actor []) s.audit;
      },
    )

unfoldable pub deny :
    Directory
    → Uuid
    → Uuid
    → Principal
    → Time
    → Time
    → Desk
    → Result SupportError SupportGrantResponse × Desk
deny dir grant_id org_id actor now responded s =
    deny_loaded dir actor now responded s (load_requested (get_in_org grant_id org_id s.grants))

unfoldable pub revoke :
    Uuid → Uuid → Principal → Time → Desk → Result SupportError SupportGrantResponse × Desk
revoke grant_id org_id actor now s =
    revoke_loaded user (get_in_org grant_id org_id s.grants) actor now s
