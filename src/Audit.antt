-- ===== src/Audit.antt =====
-- backend/app/identity/services/audit_service.py, the writing half: the events that every service
-- appends on its own session. The stamp of IP and request id is left out.
use one_ai.Prelude.{Uuid, String, Bool, ℕ, Option, List, [], ◌∷◌, ◌++◌}

pub data AuditAction : Type 0 where
  login_success login_failure login_blocked refresh logout : AuditAction
  org_onboard org_suspend org_reactivate org_status_change : AuditAction
  org_legal_hold_set org_legal_hold_clear : AuditAction
  user_create user_role_change user_deactivate user_reactivate : AuditAction
  support_requested support_approved support_denied support_revoked org_erased : AuditAction
  connector_created connector_disabled connector_enabled connector_deleted : AuditAction
  sync_started sync_finished entitlement_granted entitlement_revoked : AuditAction
  connector_policy_changed connector_consented connector_consent_withdrawn : AuditAction
  connector_connected connector_disconnected : AuditAction
  visibility_promoted access_retrieval_decision access_grant_revoked : AuditAction

pub data ActorType : Type 0 where
  platform_admin user system : ActorType

-- the values of an event's `details`
pub data Detail : Type 0 where
  text : String → Detail
  number : ℕ → Detail
  flag : Bool → Detail
  counts : List (String × ℕ) → Detail
  uuid : Uuid → Detail

pub record AuditEvent : Type 0 where
  pub action : AuditAction
  pub actor_type : ActorType
  pub actor_id : Option Uuid
  pub actor_email : Option String
  pub org_id : Option Uuid
  pub entity_type : Option String
  pub entity_id : Option Uuid
  pub details : List (String × Detail)

-- the verified caller of a request
pub record Principal : Type 0 where
  pub subject_id : Uuid
  pub org_id : Option Uuid
  pub role : Option String
  pub subject_type : ActorType

-- `AuditService.record`: append on the caller's session
abbrev pub record_event : AuditEvent → List AuditEvent → List AuditEvent
record_event event trail = trail ++ event ∷ []
