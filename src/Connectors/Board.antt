-- ===== src/Connectors/Board.antt =====
-- backend/app/connectors/services: connector_entitlement_service.py, connector_consent_service.py and
-- connector_governance_service.py on the tables that they share. A raised error leaves the tables.
use one_ai.Prelude.{
  Uuid, Time, String, Bool, true, false, not, ◌&&◌, Option, none, some, List, [], ◌∷◌, ltb, str_eq,
  keep_if, if◌then◌else◌,
}
use one_ai.Result.{Result, ok, err}
use one_ai.Audit.{
  AuditAction, ActorType, AuditEvent, Detail, Principal, record_event, platform_admin,
  entitlement_granted, entitlement_revoked, connector_consented, connector_consent_withdrawn,
  connector_policy_changed, text, flag, uuid,
}
use one_ai.Connectors.Connection.{Connection, list_for_org}
use one_ai.Connectors.Policy.{
  ConnectorType, type_value, OverrideType, grant, deny, ConnectorEntitlement, ConnectorPolicy,
  ConnectorPolicyOverride, ConnectorConsent, ConnectorAccessDecision, get_entitlement, is_entitled,
  upsert_entitlement, get_policy, is_org_wide_enabled, upsert_policy, get_override_type,
  list_for_type, upsert_override, delete_override, insert_consent, withdraw_active,
  resolve_connector_access,
}

pub record Board : Type 0 where
  pub entitlements : List ConnectorEntitlement
  pub policies : List ConnectorPolicy
  pub overrides : List ConnectorPolicyOverride
  pub consents : List ConnectorConsent
  pub connections : List Connection
  pub trail : List AuditEvent

pub data ConnectorError : Type 0 where
  connector_not_entitled connector_access_denied connector_consent_required : ConnectorError
  connection_not_found duplicate_connection connector_disabled value_error integrity_error
        stale_data_error :
      ConnectorError

abbrev pub board_event :
    AuditAction
    → ActorType
    → Principal
    → Uuid
    → String
    → Option Uuid
    → List (String × Detail)
    → AuditEvent
board_event action actor_type actor org_id entity_type entity_id details = record {
  action = action;
  actor_type = actor_type;
  actor_id = some actor.subject_id;
  actor_email = none;
  org_id = some org_id;
  entity_type = some entity_type;
  entity_id = entity_id;
  details = details;
}

-- the id of the row that an upsert writes
abbrev id_or : Uuid → Option ConnectorEntitlement → Uuid
id_or id none = id
id_or id (some row) = row.id

-- connector_entitlement_service.py
unfoldable pub set_entitlement :
    Uuid → Uuid → ConnectorType → Bool → Principal → Time → Board → Board
unfolding upsert_entitlement get_entitlement
set_entitlement id org_id connector_type enabled actor now s = record s {
  entitlements =
      upsert_entitlement id org_id (type_value connector_type) enabled (some actor.subject_id) now
        s.entitlements;
  trail =
      record_event
        (board_event (if enabled then entitlement_granted else entitlement_revoked) platform_admin
          actor org_id "connector_entitlement"
          (some (id_or id (get_entitlement org_id (type_value connector_type) s.entitlements)))
          (("connector_type", text (type_value connector_type)) ∷ ("enabled", flag enabled) ∷ []))
        s.trail;
}

-- connector_consent_service.py
unfoldable pub record_consent :
    Uuid → Uuid → String → String → String → String → Principal → Time → Board → Board
unfolding insert_consent
record_consent id org_id connector_type scope method consent_version actor now s = record s {
  consents =
      insert_consent
        (record {
          id = id;
          org_id = org_id;
          user_id = actor.subject_id;
          connector_type = connector_type;
          scope = scope;
          method = method;
          consent_version = consent_version;
          granted_at = now;
          withdrawn_at = none;
        })
        s.consents;
  trail =
      record_event
        (board_event connector_consented actor.subject_type actor org_id "connector_consent"
          (some id)
          (("connector_type", text connector_type)
            ∷ ("scope", text scope)
            ∷ ("method", text method)
            ∷ []))
        s.trail;
}

unfoldable pub withdraw_consent : Uuid → String → Principal → Time → Board → Board
unfolding withdraw_active
withdraw_consent org_id connector_type actor now s =
    let (withdrawn, consents) =
      withdraw_active org_id actor.subject_id connector_type now s.consents in
    record s {
      consents = consents;
      trail =
          if ltb 0 withdrawn
          then record_event
              (board_event connector_consent_withdrawn actor.subject_type actor org_id
                "connector_consent" none (("connector_type", text connector_type) ∷ []))
              s.trail
          else s.trail;
    }

-- what the governance of a type shows
pub record ConnectorGovernanceResponse : Type 0 where
  pub connector_type : String
  pub entitled : Bool
  pub policy : Option ConnectorPolicy
  pub overrides : List ConnectorPolicyOverride
  pub connections : List Connection

unfoldable pub get_governance : Uuid → ConnectorType → Board → ConnectorGovernanceResponse
unfolding is_entitled get_policy list_for_type list_for_org
get_governance org_id connector_type s = record {
  connector_type = type_value connector_type;
  entitled = is_entitled org_id (type_value connector_type) s.entitlements;
  policy = get_policy org_id (type_value connector_type) s.policies;
  overrides = list_for_type org_id (type_value connector_type) s.overrides;
  connections =
      keep_if (λ c. str_eq c.connector_type (type_value connector_type))
        (list_for_org org_id s.connections);
}

abbrev policy_change : Uuid → Principal → List (String × Detail) → List AuditEvent → List AuditEvent
policy_change org_id actor details = record_event (
    board_event connector_policy_changed actor.subject_type actor org_id "connector_policy" none
      details)

abbrev pub answered :
    Uuid → ConnectorType → Board → Result ConnectorError ConnectorGovernanceResponse × Board
answered org_id connector_type s = (ok (get_governance org_id connector_type s), s)

unfoldable pub set_org_wide :
    Uuid
    → Uuid
    → ConnectorType
    → Bool
    → Principal
    → Board
    → Result ConnectorError ConnectorGovernanceResponse × Board
unfolding is_entitled upsert_policy get_governance
set_org_wide id org_id connector_type org_wide_enabled actor s =
    if org_wide_enabled && not (is_entitled org_id (type_value connector_type) s.entitlements)
    then (err connector_not_entitled, s)
    else answered org_id connector_type (record s {
      policies =
          upsert_policy id org_id (type_value connector_type) org_wide_enabled
            (some actor.subject_id) s.policies;
      trail =
          policy_change org_id actor
            (("connector_type", text (type_value connector_type))
              ∷ ("org_wide_enabled", flag org_wide_enabled)
              ∷ [])
            s.trail;
    })

abbrev pub is_grant : OverrideType → Bool
is_grant grant = true
is_grant deny = false

abbrev override_text : OverrideType → String
override_text grant = "grant"
override_text deny = "deny"

unfoldable pub set_override :
    Uuid
    → Uuid
    → Uuid
    → ConnectorType
    → OverrideType
    → Principal
    → Board
    → Result ConnectorError ConnectorGovernanceResponse × Board
unfolding is_entitled upsert_override get_governance
set_override id org_id user_id connector_type override_type actor s =
    if is_grant override_type && not (is_entitled org_id (type_value connector_type) s.entitlements)
    then (err connector_not_entitled, s)
    else answered org_id connector_type (record s {
      overrides =
          upsert_override id org_id user_id (type_value connector_type) override_type
            (some actor.subject_id) s.overrides;
      trail =
          policy_change org_id actor
            (("connector_type", text (type_value connector_type))
              ∷ ("user_id", uuid user_id)
              ∷ ("override_type", text (override_text override_type))
              ∷ [])
            s.trail;
    })

unfoldable pub clear_override :
    Uuid
    → Uuid
    → ConnectorType
    → Principal
    → Board
    → Result ConnectorError ConnectorGovernanceResponse × Board
unfolding delete_override get_governance
clear_override org_id user_id connector_type actor s = answered org_id connector_type (record s {
  overrides = delete_override org_id user_id (type_value connector_type) s.overrides;
  trail =
      policy_change org_id actor
        (("connector_type", text (type_value connector_type))
          ∷ ("user_id", uuid user_id)
          ∷ ("override_type", text "cleared")
          ∷ [])
        s.trail;
})

-- `_resolve` of me_connector_service.py
unfoldable pub resolve : Uuid → Uuid → ConnectorType → Board → ConnectorAccessDecision
unfolding is_entitled get_override_type is_org_wide_enabled resolve_connector_access
resolve org_id user_id connector_type s =
    resolve_connector_access (is_entitled org_id (type_value connector_type) s.entitlements)
      (get_override_type org_id user_id (type_value connector_type) s.overrides)
      (is_org_wide_enabled org_id (type_value connector_type) s.policies)
