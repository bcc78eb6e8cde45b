-- ===== src/Connectors/Service.antt =====
-- backend/app/connectors/services/connector_service.py. The cipher and the connectors that speak to a
-- mail server are given, and so is what the database answers to an INSERT. A raised error leaves the
-- tables.
use text.Mathlib.Text.{find?}
use one_ai.Prelude.{
  ℕ, Uuid, Time, String, Bool, false, not, ◌||◌, Option, none, some, List, [], ◌∷◌, str_eq, is_some,
  is_none, ◌==◌, count_where, update_where, if◌then◌else◌,
}
use one_ai.Result.{Result, ok, err}
use one_ai.Audit.{
  AuditAction, AuditEvent, Detail, Principal, record_event, connector_deleted, connector_disabled,
  connector_enabled,
}
use one_ai.Audit
use one_ai.Connectors.Board.{
  Board, ConnectorError, connector_not_entitled, connection_not_found, duplicate_connection,
  integrity_error, stale_data_error, board_event,
}
use one_ai.Connectors.Connection.{
  Connection, configured, connected, error, idle, is_in_org, insert, get_shared_in_org,
  list_shared_for_org, exists, get_for_owner, exists_for_owner, delete,
}
use one_ai.Connectors.Policy.{ConnectorType, type_value, type_of, is_entitled}
use one_ai.Sync.Ingest.{IntegrityError}

-- connector_schemas.py
pub record CreateConnectionRequest : Type 0 where
  pub connector_type : ConnectorType
  pub display_name : String
  pub host : String
  pub port : ℕ
  pub use_ssl : Bool
  pub username : String
  pub password : String

-- base/connector.py
pub record ConnectionCheck : Type 0 where
  pub ok : Bool
  pub message : String

-- `none` is a raised error
pub record Vault : Type 0 where
  pub encrypt : String → List ℕ
  pub decrypt : List ℕ → Option String
  pub key_version : ℕ
  pub verify_connection : ConnectorType → Connection → String → Option ConnectionCheck

abbrev pub is_identity_constraint : String → Bool
is_identity_constraint name =
    str_eq name "uq_connector_connection_shared_identity"
    || str_eq name "uq_connector_connection_owned_identity"

unfoldable pub violates_connection_identity : IntegrityError → Bool
violates_connection_identity e = elim e.constraint_name [
  | some name ↦ is_identity_constraint name
  | none ↦
      is_some (find? e.message "uq_connector_connection_shared_identity")
      || is_some (find? e.message "uq_connector_connection_owned_identity")
]

abbrev pub connection_event :
    AuditAction → Principal → Connection → List (String × Detail) → AuditEvent
connection_event action actor c details =
    board_event action actor.subject_type actor c.org_id "connector_connection" (some c.id) details

-- the pre-check, in the scope of the owner
abbrev pub is_duplicate : Uuid → Option Uuid → CreateConnectionRequest → List Connection → Bool
is_duplicate org_id none request table =
    exists org_id (type_value request.connector_type) request.username table
is_duplicate org_id (some owner) request table =
    exists_for_owner org_id owner (type_value request.connector_type) request.username table

-- the INSERT
abbrev pub stored :
    Option IntegrityError
    → Connection
    → AuditEvent
    → Board
    → Result ConnectorError Connection × Board
stored none created event s = (
  ok created,
  record s { connections = insert created s.connections; trail = record_event event s.trail },
)
stored (some e) created event s =
    if violates_connection_identity e
    then (err duplicate_connection, s)
    else (err integrity_error, s)

abbrev pub loaded : Uuid → Uuid → Option Uuid → List Connection → Option Connection
loaded org_id connection_id none table = get_shared_in_org connection_id org_id table
loaded org_id connection_id (some owner) table = get_for_owner connection_id org_id owner table

module _ (v : Vault) where
  unfoldable pub new_connection : Uuid → Uuid → CreateConnectionRequest → Option Uuid → Connection
  new_connection id org_id request owner_user_id = record {
    id = id;
    org_id = org_id;
    connector_type = type_value request.connector_type;
    owner_user_id = owner_user_id;
    display_name = request.display_name;
    username = request.username;
    host = request.host;
    port = request.port;
    use_ssl = request.use_ssl;
    secret_ciphertext = v.encrypt request.password;
    secret_key_version = v.key_version;
    status = configured;
    last_checked_at = none;
    last_error = none;
    disabled_at = none;
    sync_status = idle;
    sync_run_id = none;
    sync_started_at = none;
    sync_heartbeat_at = none;
    last_synced_at = none;
    synced_count = 0;
    total_count = none;
    last_sync_error = none;
  }

  unfoldable pub create_connection :
      Uuid
      → Uuid
      → CreateConnectionRequest
      → Principal
      → Option Uuid
      → AuditAction
      → Option IntegrityError
      → Board
      → Result ConnectorError Connection × Board
  unfolding new_connection is_entitled violates_connection_identity insert exists exists_for_owner
  create_connection id org_id request actor owner_user_id action verdict s =
      let created = new_connection id org_id request owner_user_id in
      let event = connection_event action actor created (
        ("connector_type", Audit.text (type_value request.connector_type))
        ∷ ("host", Audit.text request.host)
        ∷ []) in
      if not (is_entitled org_id (type_value request.connector_type) s.entitlements)
      then (err connector_not_entitled, s)
      else if is_duplicate org_id owner_user_id request s.connections
      then (err duplicate_connection, s)
      else stored verdict created event s

  abbrev pub unexpected : ConnectionCheck
  unexpected = record { ok = false; message = "The connection test failed unexpectedly." }

  abbrev pub checked_with : Option ConnectorType → Connection → Option String → ConnectionCheck
  checked_with (some connector_type) c (some secret) =
      elim (v.verify_connection connector_type c secret) [ none ↦ unexpected | some check ↦ check ]
  checked_with _ c _ = unexpected

  unfoldable pub verify : Connection → ConnectionCheck
  verify c = checked_with (type_of c.connector_type) c (v.decrypt c.secret_ciphertext)

  abbrev pub tested : ConnectionCheck → Time → Connection → Connection
  tested check now c = record c {
    status = if check.ok then connected else error;
    last_checked_at = some now;
    last_error = if check.ok then none else some check.message;
  }

  -- `meanwhile` is what other transactions do while the server is asked; only the three columns are
  -- written, and the write fails where the row is gone
  unfoldable pub test_connection :
      Uuid
      → Uuid
      → Option Uuid
      → Time
      → (Board → Board)
      → Board
      → Result ConnectorError Connection × Board
  unfolding get_shared_in_org get_for_owner is_entitled verify
  test_connection org_id connection_id owner_user_id now meanwhile s =
      elim (loaded org_id connection_id owner_user_id s.connections) [
        | none ↦ (err connection_not_found, s)
        | some c ↦
            let later = meanwhile s in
            if not (is_entitled org_id c.connector_type s.entitlements)
            then (err connector_not_entitled, s)
            else if count_where (is_in_org c.id c.org_id) later.connections == 0
            then (err stale_data_error, later)
            else (
              ok (tested (verify c) now c),
              record later {
                connections =
                    update_where (is_in_org c.id c.org_id) (tested (verify c) now)
                      later.connections;
              },
            )
      ]

unfoldable pub list_connections : Uuid → Board → List Connection
unfolding list_shared_for_org
list_connections org_id s = list_shared_for_org org_id s.connections

unfoldable pub get_connection : Uuid → Uuid → Board → Result ConnectorError Connection
unfolding get_shared_in_org
get_connection org_id connection_id s = elim (loaded org_id connection_id none s.connections) [
  | none ↦ err connection_not_found
  | some c ↦ ok c
]

unfoldable pub delete_connection :
    Uuid → Uuid → Principal → Board → Result ConnectorError Unit × Board
unfolding get_shared_in_org delete
delete_connection org_id connection_id actor s =
    elim (loaded org_id connection_id none s.connections) [
      | none ↦ (err connection_not_found, s)
      | some c ↦ (
        ok tt,
        record s {
          trail =
              record_event
                (connection_event connector_deleted actor c (
                  ("connector_type", Audit.text c.connector_type)
                  ∷ ("host", Audit.text c.host)
                  ∷ []))
                s.trail;
          connections = delete c s.connections;
        },
      )
    ]

abbrev set_disabled : Connection → Option Time → List Connection → List Connection
set_disabled c at = update_where (is_in_org c.id c.org_id) (λ r. record r { disabled_at = at })

unfoldable pub disable_connection :
    Uuid → Uuid → Principal → Time → Board → Result ConnectorError Connection × Board
unfolding get_shared_in_org
disable_connection org_id connection_id actor now s =
    elim (loaded org_id connection_id none s.connections) [
      | none ↦ (err connection_not_found, s)
      | some c ↦ if is_some c.disabled_at then (ok c, s) else (
        ok (record c { disabled_at = some now }),
        record s {
          connections = set_disabled c (some now) s.connections;
          trail = record_event (connection_event connector_disabled actor c []) s.trail;
        },
      )
    ]

unfoldable pub enable_connection :
    Uuid → Uuid → Principal → Board → Result ConnectorError Connection × Board
unfolding get_shared_in_org
enable_connection org_id connection_id actor s =
    elim (loaded org_id connection_id none s.connections) [
      | none ↦ (err connection_not_found, s)
      | some c ↦ if is_none c.disabled_at then (ok c, s) else (
        ok (record c { disabled_at = none }),
        record s {
          connections = set_disabled c none s.connections;
          trail = record_event (connection_event connector_enabled actor c []) s.trail;
        },
      )
    ]
