-- ===== src/Sync/Service/Ledger.antt =====
-- A started sync is the only run of its connection that the ledger shows as running.
use one_ai.Prelude.{ℕ, Uuid, Time, ◌≡◌, subst, true, ◌&&◌, Option, List, [], ◌∷◌, arith, ◌==◌, All}
use one_ai.Result.{ok, err}
use one_ai.Audit.{Principal}
use one_ai.Sync.Store.{Db, SyncRun, is_running, start_run, mark_stale_running_abandoned}
use one_ai.Connectors.Policy.{ConnectorEntitlement}
use one_ai.Sync.Service.{SyncError, start_sync}

-- a running row of the connection is this run's
abbrev pub IsOnlyRun : Uuid → Uuid → Uuid → SyncRun → Type 0
IsOnlyRun org_id connection_id run_id r =
    (r.org_id == org_id && r.connection_id == connection_id && is_running r.status) ≡ true
    → (r.run_id == run_id) ≡ true

mark-IsOnlyRun :
    (org_id connection_id run_id : Uuid) (now : Time) (runs : List SyncRun)
    → All
        (IsOnlyRun org_id connection_id run_id)
        (mark_stale_running_abandoned org_id connection_id run_id now runs)
unfolding mark_stale_running_abandoned
mark-IsOnlyRun org_id connection_id run_id now [] = tt
mark-IsOnlyRun org_id connection_id run_id now (r ∷ runs) =
    (λ live. ground (arith, live), mark-IsOnlyRun org_id connection_id run_id now runs)

module _ {Mail : Type 0} (org_id connection_id : Uuid) where
  started_runs :
      (run_id started : Uuid) (actor : Option Principal) (owner : Option Uuid)
      (plan : List ConnectorEntitlement) (now : Time) (stale : ℕ) (db : Db Mail)
      → (start_sync org_id connection_id run_id actor owner plan now stale db).0 ≡ ok started
      → (mark_stale_running_abandoned org_id connection_id run_id now
            (start_run org_id connection_id run_id now db.runs)
          ≡ (start_sync org_id connection_id run_id actor owner plan now stale db).1.runs)
        × (run_id ≡ started)
  unfolding start_sync
  started_runs run_id started actor owner plan now stale db done = ground arith

  -- A start that succeeds leaves no other run of the connection running in the ledger, whatever
  -- was there before.
  pub start_sync-IsOnlyRun :
      (run_id started : Uuid) (actor : Option Principal) (owner : Option Uuid)
      (plan : List ConnectorEntitlement) (now : Time) (stale : ℕ) (db : Db Mail)
      → (start_sync org_id connection_id run_id actor owner plan now stale db).0 ≡ ok started
      → All
          (IsOnlyRun org_id connection_id started)
          (start_sync org_id connection_id run_id actor owner plan now stale db).1.runs
  start_sync-IsOnlyRun run_id started actor owner plan now stale db done =
      let (same, own) = started_runs run_id started actor owner plan now stale db done in
      let after = (start_sync org_id connection_id run_id actor owner plan now stale db).1.runs in
      subst (λ k. All (IsOnlyRun org_id connection_id k) after) own
        (subst (All (IsOnlyRun org_id connection_id run_id)) same (
          mark-IsOnlyRun org_id connection_id run_id now
            (start_run org_id connection_id run_id now db.runs)))

  -- A start that is refused, for whatever reason, leaves the tables as they are.
  start_sync_refused :
      (run_id : Uuid) (e : SyncError) (actor : Option Principal) (owner : Option Uuid)
      (plan : List ConnectorEntitlement) (now : Time) (stale : ℕ) (db : Db Mail)
      → (start_sync org_id connection_id run_id actor owner plan now stale db).0 ≡ err e
      → (start_sync org_id connection_id run_id actor owner plan now stale db).1 ≡ db
  unfolding start_sync
  start_sync_refused run_id e actor owner plan now stale db refused = ground arith
