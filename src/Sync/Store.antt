-- ===== src/Sync/Store.antt =====
-- The tables that a sync run reads and writes: repositories/connector_sync_cursor_repository.py and
-- repositories/connector_sync_run_repository.py, beside the connections and the audit trail.
pub mod Upsert
use one_ai.Prelude.{
  ℕ, Uuid, Time, String, Bool, not, ◌&&◌, Option, none, some, List, [], ◌∷◌, ◌++◌, ◌==◌, str_eq,
  find_where, update_where, count_where, keep_if, if◌then◌else◌,
}
use one_ai.Audit.{AuditEvent}
use one_ai.Connectors.Connection.{Connections}
use one_ai.Sync.Tracker.{FolderSyncState, Counts}

pub record CursorRow : Type 0 where
  pub org_id : Uuid
  pub connection_id : Uuid
  pub folder : String
  pub uidvalidity : Option ℕ
  pub last_seen_uid : ℕ
  pub failed_uids : List ℕ

-- `uq_sync_cursor_identity`
abbrev pub is_cursor : Uuid → Uuid → String → CursorRow → Bool
is_cursor org_id connection_id folder r =
    r.org_id == org_id && r.connection_id == connection_id && str_eq r.folder folder

abbrev pub loaded : CursorRow → FolderSyncState
loaded r = record {
  uidvalidity = r.uidvalidity;
  last_seen_uid = r.last_seen_uid;
  failed_uids = r.failed_uids;
}

abbrev pub load : Option CursorRow → Option FolderSyncState
load none = none
load (some r) = some (loaded r)

-- the dict of a connection's folders, as a function of the folder
unfoldable pub list_for_connection : Uuid → Uuid → List CursorRow → String → Option FolderSyncState
list_for_connection org_id connection_id table folder =
    load (find_where (is_cursor org_id connection_id folder) table)

-- INSERT … ON CONFLICT DO UPDATE
unfoldable pub upsert : CursorRow → List CursorRow → List CursorRow
upsert row table =
    let same = is_cursor row.org_id row.connection_id row.folder in
    if count_where same table == 0
    then table ++ row ∷ []
    else update_where same
        (λ r. record r {
          uidvalidity = row.uidvalidity;
          last_seen_uid = row.last_seen_uid;
          failed_uids = row.failed_uids;
        })
        table

pub data RunStatus : Type 0 where
  running succeeded failed abandoned : RunStatus

abbrev pub is_running : RunStatus → Bool
is_running running = Bool.true
is_running _ = Bool.false

pub record SyncRun : Type 0 where
  pub org_id : Uuid
  pub connection_id : Uuid
  pub run_id : Uuid
  pub status : RunStatus
  pub started_at : Time
  pub finished_at : Option Time
  pub messages_seen : ℕ
  pub messages_stored : ℕ
  pub messages_skipped : ℕ
  pub messages_failed : ℕ
  pub last_error : Option String

unfoldable pub start_run : Uuid → Uuid → Uuid → Time → List SyncRun → List SyncRun
start_run org_id connection_id run_id now runs =
    runs
    ++ record {
      org_id = org_id;
      connection_id = connection_id;
      run_id = run_id;
      status = running;
      started_at = now;
      finished_at = none;
      messages_seen = 0;
      messages_stored = 0;
      messages_skipped = 0;
      messages_failed = 0;
      last_error = none;
    }
      ∷ []

unfoldable pub mark_stale_running_abandoned :
    Uuid → Uuid → Uuid → Time → List SyncRun → List SyncRun
mark_stale_running_abandoned org_id connection_id keep_run_id now runs =
    update_where
      (λ r.
        r.org_id == org_id
        && r.connection_id == connection_id
        && is_running r.status
        && not (r.run_id == keep_run_id))
      (λ r. record r { status = abandoned; finished_at = some now }) runs

pub record Db (Mail : Type 0) : Type 0 where
  pub connections : Connections
  pub cursors : List CursorRow
  pub runs : List SyncRun
  pub audit : List AuditEvent
  pub mail : Mail

-- `finalize` of the run ledger
unfoldable pub close_run :
    Uuid → Uuid → RunStatus → Counts → Option String → Time → List SyncRun → List SyncRun
close_run org_id run_id status counts error now runs =
    update_where (λ r. r.org_id == org_id && r.run_id == run_id)
      (λ r. record r {
        status = status;
        finished_at = some now;
        messages_seen = counts.seen;
        messages_stored = counts.stored;
        messages_skipped = counts.skipped;
        messages_failed = counts.failed;
        last_error = error;
      })
      runs
