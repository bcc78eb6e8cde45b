-- ===== src/Sync/Service.antt =====
-- backend/app/connectors/sync/sync_service.py: the start of a sync. The new run's id and the clock are
-- arguments; the run that is spawned is the answer's connection and run id.
pub mod Ledger
use one_ai.Prelude.{
  ℕ, Uuid, Time, String, Bool, true, false, not, ◌&&◌, Option, none, some, List, [], ◌∷◌, ◌==◌,
  is_some, str_eq, find_where, if◌then◌else◌,
}
use one_ai.Result.{Result, ok, err}
use one_ai.Audit.{AuditEvent, ActorType, Principal, record_event, sync_started, system, uuid}
use one_ai.Connectors.Connection.{
  Connection, get_in_org, get_shared_in_org, get_for_owner, claim_for_sync,
}
use one_ai.Connectors.Policy.{ConnectorEntitlement, is_entitled}
use one_ai.Sync.Store.{Db, start_run, mark_stale_running_abandoned}

pub data SyncError : Type 0 where
  connection_not_found connector_not_entitled connector_disabled sync_already_running : SyncError

unfoldable pub load_scoped : Uuid → Uuid → Option Uuid → List Connection → Option Connection
load_scoped org_id connection_id none table = get_shared_in_org connection_id org_id table
load_scoped org_id connection_id (some owner) table = get_for_owner connection_id org_id owner table

abbrev actor_type_of : Option Principal → ActorType
actor_type_of none = system
actor_type_of (some actor) = actor.subject_type

abbrev started_event : Uuid → Uuid → Uuid → Option Principal → AuditEvent
started_event org_id connection_id run_id actor = record {
  action = sync_started;
  actor_type = actor_type_of actor;
  actor_id = elim actor [ none ↦ none | some a ↦ some a.subject_id ];
  actor_email = none;
  org_id = some org_id;
  entity_type = some "connector_connection";
  entity_id = some connection_id;
  details = ("run_id", uuid run_id) ∷ [];
}

module _ {Mail : Type 0} (org_id connection_id : Uuid) where
  -- the claim, the ledger and the audit event, in one transaction
  abbrev pub claimed_start :
      Uuid → Option Principal → Time → ℕ → Db Mail → Result SyncError Uuid × Db Mail
  claimed_start run_id actor now stale_seconds db =
      let (won, connections) =
        claim_for_sync org_id connection_id run_id now stale_seconds db.connections in
      if not won then (err sync_already_running, db) else (
        ok run_id,
        record db {
          connections = connections;
          runs =
              mark_stale_running_abandoned org_id connection_id run_id now
                (start_run org_id connection_id run_id now db.runs);
          audit = record_event (started_event org_id connection_id run_id actor) db.audit;
        },
      )

  -- `start_sync`; the answer is the id of the run that is spawned
  unfoldable pub start_sync :
      Uuid
      → Option Principal
      → Option Uuid
      → List ConnectorEntitlement
      → Time
      → ℕ
      → Db Mail
      → Result SyncError Uuid × Db Mail
  unfolding load_scoped is_entitled
  start_sync run_id actor owner_user_id plan now stale_seconds db =
      elim (load_scoped org_id connection_id owner_user_id db.connections) [
        | none ↦ (err connection_not_found, db)
        | some connection ↦
            if not (is_entitled org_id connection.connector_type plan)
            then (err connector_not_entitled, db)
            else if is_some connection.disabled_at
            then (err connector_disabled, db)
            else claimed_start run_id actor now stale_seconds db
      ]

  unfoldable pub get_sync_status : Option Uuid → Db Mail → Result SyncError Connection
  unfolding load_scoped
  get_sync_status owner_user_id db =
      elim (load_scoped org_id connection_id owner_user_id db.connections) [
        | none ↦ err connection_not_found
        | some connection ↦ ok connection
      ]
