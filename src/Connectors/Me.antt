-- ===== src/Connectors/Me.antt =====
-- backend/app/connectors/services/me_connector_service.py: a user's own connections. A raised error
-- leaves the tables.
pub mod Ceiling
pub mod Lawful
pub mod History
use one_ai.Prelude.{
  ℕ, Uuid, Time, String, Bool, true, false, not, ◌&&◌, Option, none, some, List, [], ◌∷◌, ◌==◌,
  str_eq, is_empty, map, keep_if, if◌then◌else◌,
}
use one_ai.Result.{Result, ok, err}
use one_ai.Audit.{Principal, record_event, connector_connected, connector_disconnected, text}
use one_ai.Connectors.Board.{
  Board, ConnectorError, connector_not_entitled, connector_access_denied,
  connector_consent_required, connection_not_found, value_error, record_consent, withdraw_consent,
  resolve,
}
use one_ai.Connectors.Connection.{Connection, get_for_owner, list_for_owner, delete}
use one_ai.Connectors.Policy.{
  ConnectorType, imap, type_value, type_of, ConnectorDenialReason, not_entitled, admin_denied,
  org_disabled, ConnectorAccessDecision,
}
use one_ai.Connectors.Service.{
  CreateConnectionRequest, Vault, create_connection, test_connection, connection_event,
}
use one_ai.Sync.Ingest.{IntegrityError}
use one_ai.Sync.Service.{SyncError, start_sync, get_sync_status}
use one_ai.Sync.Store.{Db}

-- me_connector_schemas.py; the parameters of the mailbox stand as one request
pub record SelfConnectRequest : Type 0 where
  pub mailbox : CreateConnectionRequest
  pub accepted : Bool
  pub scope : String
  pub consent_version : String

pub record AllowedConnectorTypeResponse : Type 0 where
  pub connector_type : String
  pub allowed : Bool
  pub reason : Option String

abbrev pub denial_message : ConnectorDenialReason → String
denial_message not_entitled = "This connector is not included in your company's plan."
denial_message admin_denied = "Your administrator hasn't enabled this for you."
denial_message org_disabled = "Your administrator hasn't enabled this for you."

abbrev message_of : Option ConnectorDenialReason → Option String
message_of none = none
message_of (some reason) = some (denial_message reason)

abbrev pub reason_for : ConnectorAccessDecision → Option String
reason_for d = if d.allowed then none else message_of d.denial_reason

-- `_raise_denied`
abbrev pub denial_of : Option ConnectorDenialReason → ConnectorError
denial_of (some not_entitled) = connector_not_entitled
denial_of _ = connector_access_denied

unfoldable pub list_allowed_types : Uuid → Uuid → Board → List AllowedConnectorTypeResponse
unfolding resolve
list_allowed_types org_id user_id s =
    map
      (λ (t : ConnectorType).
        let d = resolve org_id user_id t s in
        record { connector_type = type_value t; allowed = d.allowed; reason = reason_for d })
      (imap ∷ [])

unfoldable pub list_my_connections : Uuid → Uuid → Board → List Connection
unfolding list_for_owner
list_my_connections org_id user_id s = list_for_owner org_id user_id s.connections

abbrev pub owned : Option Connection → Result ConnectorError Connection
owned none = err connection_not_found
owned (some c) = ok c

unfoldable pub get_my_connection : Uuid → Uuid → Uuid → Board → Result ConnectorError Connection
unfolding get_for_owner
get_my_connection org_id user_id connection_id s =
    owned (get_for_owner connection_id org_id user_id s.connections)

-- `_require_current_access`; `none` lets the call go on
abbrev pub access_to : Uuid → Uuid → Option ConnectorType → Board → Option ConnectorError
access_to org_id user_id none s = some value_error
access_to org_id user_id (some t) s =
    let d = resolve org_id user_id t s in
    if d.allowed then none else some (denial_of d.denial_reason)

unfoldable pub require_current_access : Uuid → Uuid → String → Board → Option ConnectorError
unfolding resolve
require_current_access org_id user_id connector_type s =
    access_to org_id user_id (type_of connector_type) s

module _ (v : Vault) where
  -- the consent is recorded beside the connection
  abbrev pub consented :
      Uuid
      → Uuid
      → SelfConnectRequest
      → Principal
      → Time
      → Result ConnectorError Connection × Board
      → Result ConnectorError Connection × Board
  consented id org_id request actor now (err e, s) = (err e, s)
  consented id org_id request actor now (ok c, s) = (
    ok c,
    record_consent id org_id (type_value request.mailbox.connector_type) request.scope
        "app_password" request.consent_version actor now s,
  )

  unfoldable pub self_connect :
      Uuid
      → Uuid
      → Uuid
      → SelfConnectRequest
      → Principal
      → Time
      → Option IntegrityError
      → Board
      → Result ConnectorError Connection × Board
  unfolding resolve create_connection record_consent
  self_connect id consent_id org_id request actor now verdict s =
      let d = resolve org_id actor.subject_id request.mailbox.connector_type s in
      if not d.allowed
      then (err (denial_of d.denial_reason), s)
      else if not request.accepted
      then (err connector_consent_required, s)
      else consented consent_id org_id request actor now (
          create_connection v id org_id request.mailbox actor (some actor.subject_id)
            connector_connected verdict s)

  abbrev pub test_allowed :
      Uuid
      → Uuid
      → Uuid
      → Result ConnectorError Connection
      → Time
      → (Board → Board)
      → Board
      → Result ConnectorError Connection × Board
  test_allowed org_id user_id connection_id (err e) now meanwhile s = (err e, s)
  test_allowed org_id user_id connection_id (ok c) now meanwhile s =
      elim (require_current_access org_id user_id c.connector_type s) [
        | some e ↦ (err e, s)
        | none ↦ test_connection v org_id connection_id (some user_id) now meanwhile s
      ]

  unfoldable pub test_my_connection :
      Uuid → Uuid → Uuid → Time → (Board → Board) → Board → Result ConnectorError Connection × Board
  unfolding get_my_connection require_current_access test_connection
  test_my_connection org_id user_id connection_id now meanwhile s =
      test_allowed org_id user_id connection_id (get_my_connection org_id user_id connection_id s)
        now meanwhile s

-- of the personal plane, or of the start of a sync
pub data MeError : Type 0 where
  refused : ConnectorError → MeError
  not_started : SyncError → MeError

module _ {Mail : Type 0} where
  abbrev started : Result SyncError Uuid × Db Mail → Result MeError Uuid × Db Mail
  started (ok run_id, db) = (ok run_id, db)
  started (err e, db) = (err (not_started e), db)

  abbrev pub sync_allowed :
      Uuid
      → Uuid
      → Uuid
      → Uuid
      → Result ConnectorError Connection
      → Principal
      → Time
      → ℕ
      → Board
      → Db Mail
      → Result MeError Uuid × Db Mail
  sync_allowed run_id org_id user_id connection_id (err e) actor now stale_seconds s db =
      (err (refused e), db)
  sync_allowed run_id org_id user_id connection_id (ok c) actor now stale_seconds s db =
      elim (require_current_access org_id user_id c.connector_type s) [
        | some e ↦ (err (refused e), db)
        | none ↦ started (
            start_sync org_id connection_id run_id (some actor) (some user_id) s.entitlements now
              stale_seconds db)
      ]

  -- the connections are those of `db`
  unfoldable pub sync_my_connection :
      Uuid
      → Uuid
      → Uuid
      → Uuid
      → Principal
      → Time
      → ℕ
      → Board
      → Db Mail
      → Result MeError Uuid × Db Mail
  unfolding get_my_connection require_current_access start_sync
  sync_my_connection run_id org_id user_id connection_id actor now stale_seconds s db =
      sync_allowed run_id org_id user_id connection_id
        (get_my_connection org_id user_id connection_id (record s { connections = db.connections }))
        actor now stale_seconds s db

  unfoldable pub get_my_sync_status : Uuid → Uuid → Uuid → Db Mail → Result SyncError Connection
  unfolding get_sync_status
  get_my_sync_status org_id user_id connection_id db =
      get_sync_status org_id connection_id (some user_id) db

-- the consent ends with the user's last connection of the type
abbrev pub others_of_type : Uuid → Uuid → Connection → Uuid → Board → List Connection
others_of_type org_id user_id c connection_id s =
    keep_if (λ o. str_eq o.connector_type c.connector_type && not (o.id == connection_id))
      (list_for_owner org_id user_id s.connections)

abbrev pub withdrawn_unless_others : Bool → Uuid → String → Principal → Time → Board → Board
withdrawn_unless_others is_last org_id connector_type actor now s =
    if is_last then withdraw_consent org_id connector_type actor now s else s

abbrev pub disconnected :
    Uuid
    → Uuid
    → Uuid
    → Result ConnectorError Connection
    → Principal
    → Time
    → Board
    → Result ConnectorError Unit × Board
disconnected org_id user_id connection_id (err e) actor now s = (err e, s)
disconnected org_id user_id connection_id (ok c) actor now s =
    let s' =
      withdrawn_unless_others (is_empty (others_of_type org_id user_id c connection_id s)) org_id
        c.connector_type actor now s in
    (
      ok tt,
      record s' {
        trail =
            record_event
              (record (connection_event connector_disconnected actor c
                (("connector_type", text c.connector_type) ∷ [])) { org_id = some org_id })
              s'.trail;
        connections = delete c s'.connections;
      },
    )

unfoldable pub disconnect_my_connection :
    Uuid → Uuid → Uuid → Principal → Time → Board → Result ConnectorError Unit × Board
unfolding get_my_connection list_for_owner withdraw_consent delete
disconnect_my_connection org_id user_id connection_id actor now s =
    disconnected org_id user_id connection_id (get_my_connection org_id user_id connection_id s)
      actor now s
