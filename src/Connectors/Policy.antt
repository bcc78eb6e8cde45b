-- ===== src/Connectors/Policy.antt =====
-- backend/app/connectors: models/connector_entitlement.py, connector_policy.py,
-- connector_policy_override.py and connector_consent.py with their repositories, enums.py, and
-- services/connector_authz.py. `now` is the database clock; the id of a new row is an argument.
use one_ai.Prelude.{
  ℕ, Uuid, Time, String, Bool, true, false, not, ◌&&◌, Option, none, some, List, [], ◌∷◌, ◌++◌,
  ◌==◌, str_eq, is_some, is_none, ltb, find_where, update_where, count_where, delete_where, keep_if,
  if◌then◌else◌,
}

-- enums.py
pub data ConnectorType : Type 0 where
  imap : ConnectorType

abbrev pub type_value : ConnectorType → String
type_value imap = "imap"

-- `ConnectorType(value)`; `none` is a ValueError
abbrev pub type_of : String → Option ConnectorType
type_of value = if str_eq value "imap" then some imap else none

pub data OverrideType : Type 0 where
  grant deny : OverrideType

pub record ConnectorEntitlement : Type 0 where
  pub id : Uuid
  pub org_id : Uuid
  pub connector_type : String
  pub enabled : Bool
  pub set_by_platform_admin_id : Option Uuid
  pub granted_at : Time
  pub revoked_at : Option Time

pub record ConnectorPolicy : Type 0 where
  pub id : Uuid
  pub org_id : Uuid
  pub connector_type : String
  pub org_wide_enabled : Bool
  pub set_by_user_id : Option Uuid

pub record ConnectorPolicyOverride : Type 0 where
  pub id : Uuid
  pub org_id : Uuid
  pub user_id : Uuid
  pub connector_type : String
  pub override_type : OverrideType
  pub set_by_user_id : Option Uuid

pub record ConnectorConsent : Type 0 where
  pub id : Uuid
  pub org_id : Uuid
  pub user_id : Uuid
  pub connector_type : String
  pub scope : String
  pub method : String
  pub consent_version : String
  pub granted_at : Time
  pub withdrawn_at : Option Time

-- connector_entitlement_repository.py
abbrev pub is_entitlement : Uuid → String → ConnectorEntitlement → Bool
is_entitlement org_id connector_type e =
    e.org_id == org_id && str_eq e.connector_type connector_type

unfoldable pub get_entitlement :
    Uuid → String → List ConnectorEntitlement → Option ConnectorEntitlement
get_entitlement org_id connector_type = find_where (is_entitlement org_id connector_type)

unfoldable pub list_entitlements : Uuid → List ConnectorEntitlement → List ConnectorEntitlement
list_entitlements org_id table = keep_if (λ e. e.org_id == org_id) table

abbrev pub is_enabled : Option ConnectorEntitlement → Bool
is_enabled none = false
is_enabled (some row) = row.enabled

unfoldable pub is_entitled : Uuid → String → List ConnectorEntitlement → Bool
unfolding get_entitlement
is_entitled org_id connector_type table = is_enabled (get_entitlement org_id connector_type table)

abbrev pub stamped : Bool → Option Uuid → Time → ConnectorEntitlement → ConnectorEntitlement
stamped enabled set_by now e = record e {
  enabled = enabled;
  set_by_platform_admin_id = set_by;
  granted_at = if enabled then now else e.granted_at;
  revoked_at = if enabled then none else some now;
}

unfoldable pub upsert_entitlement :
    Uuid
    → Uuid
    → String
    → Bool
    → Option Uuid
    → Time
    → List ConnectorEntitlement
    → List ConnectorEntitlement
unfolding get_entitlement
upsert_entitlement id org_id connector_type enabled set_by now table =
    if is_some (get_entitlement org_id connector_type table)
    then update_where (is_entitlement org_id connector_type) (stamped enabled set_by now) table
    else table
      ++ stamped enabled set_by now (record {
        id = id;
        org_id = org_id;
        connector_type = connector_type;
        enabled = enabled;
        set_by_platform_admin_id = set_by;
        granted_at = now;
        revoked_at = none;
      })
        ∷ []

-- connector_policy_repository.py
abbrev pub is_policy : Uuid → String → ConnectorPolicy → Bool
is_policy org_id connector_type r = r.org_id == org_id && str_eq r.connector_type connector_type

unfoldable pub get_policy : Uuid → String → List ConnectorPolicy → Option ConnectorPolicy
get_policy org_id connector_type = find_where (is_policy org_id connector_type)

abbrev pub is_wide : Option ConnectorPolicy → Bool
is_wide none = false
is_wide (some row) = row.org_wide_enabled

unfoldable pub is_org_wide_enabled : Uuid → String → List ConnectorPolicy → Bool
unfolding get_policy
is_org_wide_enabled org_id connector_type table = is_wide (get_policy org_id connector_type table)

unfoldable pub upsert_policy :
    Uuid → Uuid → String → Bool → Option Uuid → List ConnectorPolicy → List ConnectorPolicy
unfolding get_policy
upsert_policy id org_id connector_type org_wide_enabled set_by table =
    if is_some (get_policy org_id connector_type table)
    then update_where (is_policy org_id connector_type)
        (λ r. record r { org_wide_enabled = org_wide_enabled; set_by_user_id = set_by }) table
    else table
      ++ record {
        id = id;
        org_id = org_id;
        connector_type = connector_type;
        org_wide_enabled = org_wide_enabled;
        set_by_user_id = set_by;
      }
        ∷ []

-- connector_policy_override_repository.py
abbrev pub is_override : Uuid → Uuid → String → ConnectorPolicyOverride → Bool
is_override org_id user_id connector_type r =
    r.org_id == org_id && r.user_id == user_id && str_eq r.connector_type connector_type

unfoldable pub get_override :
    Uuid → Uuid → String → List ConnectorPolicyOverride → Option ConnectorPolicyOverride
get_override org_id user_id connector_type = find_where (is_override org_id user_id connector_type)

abbrev pub kind_of : Option ConnectorPolicyOverride → Option OverrideType
kind_of none = none
kind_of (some row) = some row.override_type

unfoldable pub get_override_type :
    Uuid → Uuid → String → List ConnectorPolicyOverride → Option OverrideType
unfolding get_override
get_override_type org_id user_id connector_type table =
    kind_of (get_override org_id user_id connector_type table)

unfoldable pub list_for_type :
    Uuid → String → List ConnectorPolicyOverride → List ConnectorPolicyOverride
list_for_type org_id connector_type table =
    keep_if (λ r. r.org_id == org_id && str_eq r.connector_type connector_type) table

unfoldable pub upsert_override :
    Uuid
    → Uuid
    → Uuid
    → String
    → OverrideType
    → Option Uuid
    → List ConnectorPolicyOverride
    → List ConnectorPolicyOverride
unfolding get_override
upsert_override id org_id user_id connector_type override_type set_by table =
    if is_some (get_override org_id user_id connector_type table)
    then update_where (is_override org_id user_id connector_type)
        (λ r. record r { override_type = override_type; set_by_user_id = set_by }) table
    else table
      ++ record {
        id = id;
        org_id = org_id;
        user_id = user_id;
        connector_type = connector_type;
        override_type = override_type;
        set_by_user_id = set_by;
      }
        ∷ []

unfoldable pub delete_override :
    Uuid → Uuid → String → List ConnectorPolicyOverride → List ConnectorPolicyOverride
delete_override org_id user_id connector_type table =
    delete_where (is_override org_id user_id connector_type) table

-- connector_consent_repository.py
unfoldable pub insert_consent : ConnectorConsent → List ConnectorConsent → List ConnectorConsent
insert_consent consent table = table ++ consent ∷ []

abbrev pub is_in_force : Uuid → Uuid → String → ConnectorConsent → Bool
is_in_force org_id user_id connector_type c =
    c.org_id == org_id
    && c.user_id == user_id
    && str_eq c.connector_type connector_type
    && is_none c.withdrawn_at

-- the latest of those in force
abbrev pub later_of : ConnectorConsent → Option ConnectorConsent → ConnectorConsent
later_of c none = c
later_of c (some d) = if ltb c.granted_at d.granted_at then d else c

abbrev pub latest : List ConnectorConsent → Option ConnectorConsent
latest [] = none
latest (c ∷ table) = some (later_of c (latest table))

unfoldable pub get_active : Uuid → Uuid → String → List ConnectorConsent → Option ConnectorConsent
get_active org_id user_id connector_type table =
    latest (keep_if (is_in_force org_id user_id connector_type) table)

unfoldable pub withdraw_active :
    Uuid → Uuid → String → Time → List ConnectorConsent → ℕ × List ConnectorConsent
withdraw_active org_id user_id connector_type now table = (
  count_where (is_in_force org_id user_id connector_type) table,
  update_where (is_in_force org_id user_id connector_type)
      (λ c. record c { withdrawn_at = some now }) table,
)

-- connector_authz.py
pub data ConnectorDenialReason : Type 0 where
  not_entitled admin_denied org_disabled : ConnectorDenialReason

pub record ConnectorAccessDecision : Type 0 where
  pub allowed : Bool
  pub denial_reason : Option ConnectorDenialReason

abbrev denied : ConnectorDenialReason → ConnectorAccessDecision
denied reason = record { allowed = false; denial_reason = some reason }

abbrev granted : ConnectorAccessDecision
granted = record { allowed = true; denial_reason = none }

abbrev pub resolve_below : Option OverrideType → Bool → ConnectorAccessDecision
resolve_below (some deny) org_wide_enabled = denied admin_denied
resolve_below (some grant) org_wide_enabled = granted
resolve_below none org_wide_enabled = if org_wide_enabled then granted else denied org_disabled

unfoldable pub resolve_connector_access :
    Bool → Option OverrideType → Bool → ConnectorAccessDecision
resolve_connector_access entitled override org_wide_enabled =
    if not entitled then denied not_entitled else resolve_below override org_wide_enabled
