-- ===== src/Sync/Runner.antt =====
-- `ConnectorSyncRunner` of backend/app/connectors/sync/connector_sync_runner.py. A transaction of
-- the run takes the committed tables to the committed tables; between two of them the rest of the
-- system acts. The heartbeat on its own session is part of what happens in between.
pub mod Messages
pub mod Cursor
pub mod Safety
use one_ai.Prelude.{
  ℕ, zero, suc, ◌+◌, ◌-◌, Uuid, Time, String, Bool, true, false, not, Option, none, some, List, [],
  ◌∷◌, ◌++◌, ltb, ◌==◌, str_eq, take, keep_if, if◌then◌else◌,
}
use one_ai.Audit.{AuditEvent, sync_finished, system, text, number, uuid, record_event}
use one_ai.Connectors.Connection.{
  Connection, idle, error, get_in_org, is_disabled, set_total, set_synced_count, finalize_sync,
}
use one_ai.Sync.Fetch.{FolderCursor, FetchedMessage, FetchBatch}
use one_ai.Sync.Ingest.{Ingest, IngestOutcome, stored, skipped, ingest_one}
use one_ai.Sync.Planner.{highest_contiguous_uid}
use one_ai.Sync.Store.{
  Db, CursorRow, RunStatus, succeeded, failed, list_for_connection, upsert, close_run,
}
use one_ai.Sync.Tracker.{
  Counts, no_counts, FolderTracker, FolderSyncState, from_state, fresh_tracker, note_requested,
  account, fail, sorted,
}

abbrev pub max_failed_uids : ℕ
max_failed_uids = 1000

abbrev pub Trackers : Type 0
Trackers = String → Option FolderTracker

abbrev pub set_tracker : String → FolderTracker → Trackers → Trackers
set_tracker folder t trackers f = if str_eq f folder then some t else trackers f

-- the tracker of a batch: the folder's, while the generation is the same, and a fresh one otherwise
abbrev pub of_generation : ℕ → Option FolderTracker → FolderTracker
of_generation uidvalidity none = fresh_tracker uidvalidity
of_generation uidvalidity (some t) =
    if t.uidvalidity == uidvalidity then t else fresh_tracker uidvalidity

abbrev pub tracker_for : Trackers → String → ℕ → FolderTracker
tracker_for trackers folder uidvalidity = of_generation uidvalidity (trackers folder)

-- the variables of the loop over a batch's messages
pub record Tally (Mail : Type 0) : Type 0 where
  pub mail : Mail
  pub tracker : FolderTracker
  pub counts : Counts

pub record Progress (Mail : Type 0) : Type 0 where
  pub db : Db Mail
  pub trackers : Trackers
  pub counts : Counts

pub data Step (Mail : Type 0) : Type 0 where
  kept : Progress Mail → Step Mail
  stolen : Step Mail

-- what the batch leaves behind once its messages are ingested
abbrev pub settled_tracker : FolderTracker → ℕ → FolderTracker
settled_tracker t advance = record t {
  floor = advance;
  candidates = keep_if (λ uid. ltb advance uid) t.candidates;
}

unfoldable pub advance_of : FolderTracker → ℕ
advance_of t = highest_contiguous_uid t.candidates t.accounted t.floor

abbrev pub resume_at : Option FolderSyncState → Option FolderCursor
resume_at none = none
resume_at (some st) =
    some (record { uidvalidity = st.uidvalidity; last_seen_uid = st.last_seen_uid })

abbrev pub resume_tracker : Option FolderSyncState → Option FolderTracker
resume_tracker none = none
resume_tracker (some st) = some (from_state st)

module _ (i : Ingest) (org_id connection_id run_id : Uuid) where
  abbrev pub count_outcome :
      ℕ → Counts → FolderTracker → Option IngestOutcome × i.Mail → Tally i.Mail
  count_outcome uid c t (some stored, mail) = record {
    mail = mail;
    tracker = account uid t;
    counts = record c { seen = c.seen + 1; stored = c.stored + 1 };
  }
  count_outcome uid c t (some skipped, mail) = record {
    mail = mail;
    tracker = account uid t;
    counts = record c { seen = c.seen + 1; skipped = c.skipped + 1 };
  }
  count_outcome uid c t (none, mail) = record {
    mail = mail;
    tracker = fail uid t;
    counts = record c { seen = c.seen + 1; failed = c.failed + 1 };
  }

  unfoldable pub ingest_messages : List FetchedMessage → Tally i.Mail → Tally i.Mail
  ingest_messages [] tally = tally
  ingest_messages (m ∷ ms) tally = ingest_messages ms (
      count_outcome m.uid tally.counts tally.tracker
        (ingest_one i org_id connection_id m tally.mail))

  abbrev pub cursor_row : FetchBatch → FolderTracker → CursorRow
  cursor_row batch t = record {
    org_id = org_id;
    connection_id = connection_id;
    folder = batch.folder;
    uidvalidity = some batch.uidvalidity;
    last_seen_uid = advance_of t;
    failed_uids = take max_failed_uids (sorted t.failed);
  }

  unfoldable pub ingest_batch : Time → FetchBatch → Progress i.Mail → Step i.Mail
  unfolding ingest_messages advance_of
  ingest_batch now batch p =
      let tracker = tracker_for p.trackers batch.folder batch.uidvalidity in
      let tally = ingest_messages batch.messages (record {
        mail = p.db.mail;
        tracker = note_requested batch.requested_uids tracker;
        counts = p.counts;
      }) in
      let cursors = upsert (cursor_row batch tally.tracker) p.db.cursors in
      let (alive, connections) =
        set_synced_count org_id connection_id run_id tally.counts.seen now p.db.connections in
      if not alive
      then stolen
      else kept (record {
        db = record (p.db) { connections = connections; cursors = cursors; mail = tally.mail };
        trackers =
            set_tracker batch.folder (settled_tracker tally.tracker (advance_of tally.tracker))
              p.trackers;
        counts = tally.counts;
      })

  -- One arrival of the stream: what the rest of the system does to the committed tables before it,
  -- the clock, and the batch.
  pub record Arrival : Type 0 where
    pub meanwhile : Db i.Mail → Db i.Mail
    pub now : Time
    pub batch : FetchBatch

  pub data LoopEnd : Type 0 where
    drained : Progress i.Mail → LoopEnd
    broken : Db i.Mail → LoopEnd
    displaced : Db i.Mail → LoopEnd

  -- `if not kept: rollback; return`
  abbrev pub continue_with : (Progress i.Mail → LoopEnd) → Db i.Mail → Step i.Mail → LoopEnd
  continue_with next before (kept q) = next q
  continue_with next before stolen = displaced before

  -- the `async for` of `_sync`; `healthy` says whether the stream ends or raises
  unfoldable pub consume : Bool → List Arrival → Progress i.Mail → LoopEnd
  unfolding ingest_batch
  consume healthy [] p = if healthy then drained p else broken p.db
  consume healthy (a ∷ rest) p =
      let p' : Progress i.Mail = record p { db = a.meanwhile p.db } in
      elim (is_disabled org_id connection_id p'.db.connections) [
        | true ↦ drained p'
        | false ↦ continue_with (consume healthy rest) p'.db (ingest_batch a.now a.batch p')
      ]

  abbrev pub finished_event : RunStatus → Counts → ℕ → AuditEvent
  finished_event status counts duration = record {
    action = sync_finished;
    actor_type = system;
    actor_id = none;
    actor_email = none;
    org_id = some org_id;
    entity_type = some "connector_connection";
    entity_id = some connection_id;
    details =
        ("run_id", uuid run_id)
        ∷ ("status", text (elim status [ succeeded ↦ "succeeded" | _ ↦ "failed" ]))
        ∷ ("messages_seen", number counts.seen)
        ∷ ("messages_stored", number counts.stored)
        ∷ ("messages_skipped", number counts.skipped)
        ∷ ("messages_failed", number counts.failed)
        ∷ ("duration_seconds", number duration)
        ∷ [];
  }

  -- `_finalize`: a lost fence rolls back and records nothing
  unfoldable pub finalize : Bool → Option String → Counts → Time → Time → Db i.Mail → Db i.Mail
  finalize success reason counts started now db =
      let status = if success then idle else error in
      let (won, connections) =
        finalize_sync org_id connection_id run_id status reason now db.connections in
      let run_status = if success then succeeded else failed in
      if not won then db else record db {
        connections = connections;
        runs = close_run org_id run_id run_status counts reason now db.runs;
        audit = record_event (finished_event run_status counts (now - started)) db.audit;
      }

  unfoldable pub finalize_failure : Time → Time → Db i.Mail → Db i.Mail
  unfolding finalize
  finalize_failure started now db =
      finalize false (some "Sync failed unexpectedly.") no_counts started now db

  abbrev pub FetchCursors : Type 0
  FetchCursors = String → Option FolderCursor

  -- `SupportsIncrementalFetch`: the count (which may raise), and the stream
  pub record Incremental : Type 0 where
    pub count_pending : FetchCursors → Option ℕ
    pub meanwhile : Db i.Mail → Db i.Mail
    pub arrivals : FetchCursors → List Arrival
    pub healthy : Bool

  -- what `_build_connector` gives: it may raise, and the connector may not support fetching
  pub data Built : Type 0 where
    unusable plain : Built
    incremental : Incremental → Built

  abbrev pub fetch_cursors : Db i.Mail → FetchCursors
  fetch_cursors db folder = resume_at (list_for_connection org_id connection_id db.cursors folder)

  abbrev pub seed_trackers : Db i.Mail → Trackers
  seed_trackers db folder =
      resume_tracker (list_for_connection org_id connection_id db.cursors folder)

  unfoldable pub conclude : Time → Time → LoopEnd → Db i.Mail
  unfolding finalize finalize_failure
  conclude started now (drained p) = finalize true none p.counts started now p.db
  conclude started now (broken db) = finalize_failure started now db
  conclude started now (displaced db) = db

  unfoldable pub sync_incremental : Incremental → Time → Time → Db i.Mail → Db i.Mail
  unfolding consume conclude
  sync_incremental k started now db = elim (k.count_pending (fetch_cursors db)) [
    | none ↦ finalize_failure started now (k.meanwhile db)
    | some total ↦
        let before = k.meanwhile db in
        let (alive, connections) = set_total org_id connection_id run_id total before.connections in
        if not alive
        then before
        else conclude started now (
            consume k.healthy (k.arrivals (fetch_cursors db)) (record {
              db = record before { connections = connections };
              trackers = seed_trackers db;
              counts = no_counts;
            }))
  ]

  -- `run` and `_sync`
  unfoldable pub run : (Connection → Built) → Time → Time → Db i.Mail → Db i.Mail
  unfolding sync_incremental finalize finalize_failure
  run build started now db = elim (get_in_org connection_id org_id db.connections) [
    | none ↦ db
    | some connection ↦ elim (build connection) [
      | unusable ↦ finalize_failure started now db
      | plain ↦
          finalize false (some "This connector does not support sync.") no_counts started now db
      | incremental k ↦ sync_incremental k started now db
    ]
  ]
