-- ===== src/Sync/Runner/Safety.antt =====
-- NEVER-LOSE-MAIL over a whole run, whatever happens between the batches and wherever it stops: no
-- stored cursor passes a message of the server that is not in the mail store.
pub mod Batch
pub mod Commit
pub mod Run
pub mod Start
pub mod Stream
pub mod Whole
use one_ai.Prelude.{
  ℕ, zero, suc, Uuid, Time, String, ◌≤◌, ◌<◌, ◌≡◌, ◌≢◌, refl, sym, subst, ◌∙◌, ap, ◌⊎◌, inl, inr,
  Bool, true, false, not, ◌&&◌, ◌||◌, Option, none, some, List, [], ◌∷◌, ◌++◌, arith, ltb, ◌==◌,
  ==_refl, str_eq, str_eq_iff, Bool-cases, Option-cases, contains, All, IsAscending, find_where,
  take, if◌then◌else◌, append_assoc,
}
use one_ai.Connectors.Connection.{set_synced_count, is_disabled}
use one_ai.Sync.Fetch.{FetchedMessage, FetchBatch}
use one_ai.Sync.Ingest.{Ingest}
use one_ai.Sync.Store.{Db, CursorRow, is_cursor, upsert}
use one_ai.Sync.Store.Upsert.{upsert_self, upsert_other}
use one_ai.Sync.Runner.{
  Progress, Step, kept, stolen, Tally, Trackers, set_tracker, tracker_for, settled_tracker,
  advance_of, cursor_row, ingest_messages, ingest_batch, Arrival, LoopEnd, drained, broken,
  displaced, consume,
}
use one_ai.Sync.Runner.Messages.{IsGenuine, IsSettled, Keeps, ingest_messages-IsSettled}
use one_ai.Sync.Runner.Cursor.{
  IsCovered, IsTracking, IsTracking-Keeps, IsTracking-note_requested, IsTracking-IsSettled,
  advance-IsCovered, settled_tracker-IsTracking,
}
use one_ai.Sync.Tracker.{FolderTracker, fresh_tracker, note_requested}

module _ (i : Ingest) (org_id connection_id run_id : Uuid)
    -- the server: the UIDs of a folder in a generation, the message that each of them names, and a
    -- bound below the UIDs
    (server : String → ℕ → List ℕ) (message : String → ℕ → ℕ → FetchedMessage) (lo : ℕ) where
  abbrev pub Covers : String → ℕ → i.Mail → ℕ → Type 0
  Covers f v = IsCovered i org_id connection_id run_id (message f v) (server f v) lo

  -- No cursor of the connection passes a message that is not there.
  pub record IsSafe (db : Db i.Mail) : Type 0 where
    pub at :
        (f : String) (r : CursorRow) (v : ℕ)
        → find_where (is_cursor org_id connection_id f) db.cursors ≡ some r
        → r.uidvalidity ≡ some v
        → Covers f v db.mail r.last_seen_uid

  abbrev pub KeepsMail : i.Mail → i.Mail → Type 0
  KeepsMail s s' =
      (m : FetchedMessage) → i.Holds org_id connection_id m s → i.Holds org_id connection_id m s'

  -- what the rest of the system may do: nothing that loses mail
  pub record IsHarmless (act : Db i.Mail → Db i.Mail) : Type 0 where
    pub keeps : (db : Db i.Mail) → KeepsMail db.mail (act db).mail
    pub safe : (db : Db i.Mail) → IsSafe db → IsSafe (act db)

module _ (i : Ingest) (org_id connection_id run_id : Uuid) (server : String → ℕ → List ℕ)
    (message : String → ℕ → ℕ → FetchedMessage) (lo : ℕ)
    -- the generation that each folder had when it was selected
    (generation : String → ℕ) where
  pub record IsHonest (a : Arrival i org_id connection_id run_id) : Type 0 where
    pub harmless : IsHarmless i org_id connection_id run_id server message lo a.meanwhile
    pub one_generation : a.batch.uidvalidity ≡ generation a.batch.folder
    pub genuine :
        All (λ m. m ≡ message a.batch.folder (generation a.batch.folder) m.uid) a.batch.messages

  -- the UIDs that the stream will request of a folder, and whether it will
  abbrev pub to_come : String → List (Arrival i org_id connection_id run_id) → List ℕ
  to_come f [] = []
  to_come f (a ∷ later) =
      if str_eq f a.batch.folder then a.batch.requested_uids ++ to_come f later else to_come f later

  abbrev pub comes : String → List (Arrival i org_id connection_id run_id) → Bool
  comes f [] = false
  comes f (a ∷ later) = str_eq f a.batch.folder || comes f later

  abbrev pub Tracks : String → i.Mail → FolderTracker → List ℕ → Type 0
  Tracks f =
      IsTracking i org_id connection_id run_id (message f (generation f)) (server f (generation f))
        lo

  pub record IsOnTrack (p : Progress i.Mail) (ahead : List (Arrival i org_id connection_id run_id))
      : Type 0 where
    pub safe : IsSafe i org_id connection_id run_id server message lo p.db
    pub tracks :
        (f : String)
        → comes f ahead ≡ true
        → Tracks f p.db.mail (tracker_for p.trackers f (generation f)) (to_come f ahead)

  pub meanwhile-IsOnTrack :
      (p : Progress i.Mail) (act : Db i.Mail → Db i.Mail)
      (ahead : List (Arrival i org_id connection_id run_id))
      → IsHarmless i org_id connection_id run_id server message lo act
      → IsOnTrack p ahead
      → IsOnTrack (record p { db = act p.db }) ahead
  meanwhile-IsOnTrack p act ahead harmless h = record {
    safe = harmless.safe p.db h.safe;
    tracks = λ f c.
        IsTracking-Keeps i org_id connection_id run_id (message f (generation f))
          (server f (generation f)) lo p.db.mail (act p.db).mail
          (tracker_for p.trackers f (generation f)) (to_come f ahead) (harmless.keeps p.db)
          (h.tracks f c);
  }
