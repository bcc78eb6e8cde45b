-- ===== src/Examples/Starting.antt =====
-- A sync of the idle mailbox.
use one_ai.Prelude.{ℕ, refl, true, none, List, [], ◌∷◌, All}
use one_ai.Examples.{idle_mailbox}
use one_ai.Connectors.Connection.{get_shared_in_org, claim_for_sync}
use one_ai.Connectors.Policy.{ConnectorEntitlement, is_entitled, get_entitlement}
use one_ai.Sync.Store.{Db, SyncRun, running}
use one_ai.Sync.Service.{start_sync, load_scoped}
use one_ai.Sync.Service.Ledger.{IsOnlyRun, start_sync-IsOnlyRun}

abbrev crashed : SyncRun
crashed = record {
  org_id = 1;
  connection_id = 2;
  run_id = 29;
  status = running;
  started_at = 10;
  finished_at = none;
  messages_seen = 0;
  messages_stored = 0;
  messages_skipped = 0;
  messages_failed = 0;
  last_error = none;
}

abbrev pub tables : Db (List ℕ)
tables = record {
  connections = idle_mailbox ∷ [];
  cursors = [];
  runs = crashed ∷ [];
  audit = [];
  mail = [];
}

abbrev pub plan : List ConnectorEntitlement
plan =
    record {
      id = 1;
      org_id = 1;
      connector_type = "imap";
      enabled = true;
      set_by_platform_admin_id = none;
      granted_at = 1;
      revoked_at = none;
    }
    ∷ []

start_sync-IsOnlyRun_example :
    All (IsOnlyRun 1 2 30) (start_sync 1 2 30 none none plan 100 300 tables).1.runs
unfolding start_sync load_scoped is_entitled get_entitlement get_shared_in_org claim_for_sync
start_sync-IsOnlyRun_example = start_sync-IsOnlyRun 1 2 30 30 none none plan 100 300 tables refl
