-- ===== src/Sync/Runner/Safety/Commit.antt =====
-- One batch: writing its mail with its cursor keeps the run on track.
use one_ai.Prelude.{
  ℕ, Uuid, String, ◌≡◌, ◌≢◌, refl, sym, subst, ◌∙◌, inl, inr, Bool, true, some, List, ◌∷◌, ◌++◌,
  arith, str_eq, str_eq_iff, Bool-cases, All, find_where,
}
use one_ai.Connectors.Connection.{Connections, set_synced_count}
use one_ai.Sync.Fetch.{FetchedMessage, FetchBatch}
use one_ai.Sync.Ingest.{Ingest}
use one_ai.Sync.Store.{Db, CursorRow, is_cursor, upsert}
use one_ai.Sync.Store.Upsert.{upsert_self, upsert_other}
use one_ai.Sync.Runner.{
  Progress, Step, kept, stolen, Tally, set_tracker, tracker_for, settled_tracker, advance_of,
  cursor_row, ingest_batch, Arrival,
}
use one_ai.Sync.Runner.Cursor.{IsTracking, IsTracking-Keeps}
use one_ai.Sync.Runner.Safety.{
  IsSafe, IsHonest, IsOnTrack, KeepsMail, Covers, Tracks, to_come, comes,
}
use one_ai.Sync.Tracker.{FolderTracker}
use one_ai.Sync.Runner.Safety.Batch.{tally_of, tally_of-IsSettled, tally_of-covered, next-OnTrack}

module _ (i : Ingest) (org_id connection_id run_id : Uuid) (server : String → ℕ → List ℕ)
    (message : String → ℕ → ℕ → FetchedMessage) (lo : ℕ) where
  abbrev Safe : Db i.Mail → Type 0
  Safe = IsSafe i org_id connection_id run_id server message lo

  abbrev CoversTo : String → ℕ → i.Mail → ℕ → Type 0
  CoversTo = Covers i org_id connection_id run_id server message lo

  abbrev KeepsAll : i.Mail → i.Mail → Type 0
  KeepsAll = KeepsMail i org_id connection_id run_id server message lo

  -- Writing a cursor with the mail that it covers keeps every cursor safe.
  upsert-IsSafe :
      (db : Db i.Mail) (folder : String) (w n : ℕ) (failed : List ℕ) (connections : Connections)
      (mail : i.Mail)
      → KeepsAll db.mail mail
      → CoversTo folder w mail n
      → Safe db
      → Safe (record db {
        connections = connections;
        cursors =
            upsert
              (record {
                org_id = org_id;
                connection_id = connection_id;
                folder = folder;
                uidvalidity = some w;
                last_seen_uid = n;
                failed_uids = failed;
              })
              db.cursors;
        mail = mail;
      })
  upsert-IsSafe db folder w n failed connections mail keeps covered h = record { at = at }
    where
      row : CursorRow
      row = record {
        org_id = org_id;
        connection_id = connection_id;
        folder = folder;
        uidvalidity = some w;
        last_seen_uid = n;
        failed_uids = failed;
      }

      here :
          (r : CursorRow) (v : ℕ)
          → find_where (is_cursor org_id connection_id folder) (upsert row db.cursors) ≡ some r
          → r.uidvalidity ≡ some v
          → CoversTo folder v mail r.last_seen_uid
      here r v found gen =
          let point = upsert_self row db.cursors r found in
          let ew : w ≡ v = cc (point.0, gen) in
          subst (λ k. CoversTo folder v mail k) (sym point.1)
            (subst (λ k. CoversTo folder k mail n) ew covered)

      at :
          (f : String) (r : CursorRow) (v : ℕ)
          → find_where (is_cursor org_id connection_id f) (upsert row db.cursors) ≡ some r
          → r.uidvalidity ≡ some v
          → CoversTo f v mail r.last_seen_uid
      at f r v found gen = elim (Bool-cases (str_eq f folder)) [
        | inl same ↦
            let e : f ≡ folder = (str_eq_iff f folder).0 same in
            subst (λ g. CoversTo g v mail r.last_seen_uid) (sym e)
              (here r v
                (subst
                  (λ g.
                    find_where (is_cursor org_id connection_id g) (upsert row db.cursors) ≡ some r)
                  e found)
                gen)
        | inr apart ↦
            let ne : f ≢ folder = λ e. ground (arith, str_eq_iff f folder, apart, e) in
            λ u on_server le.
              keeps (message f v u)
                (h.at f r v (sym (upsert_other row db.cursors f ne) ∙ found) gen u on_server le)
      ]

  -- the folders' generations, as selected, for the rest of the section
  module _ (generation : String → ℕ) where
    abbrev RunOnTrack : Progress i.Mail → List (Arrival i org_id connection_id run_id) → Type 0
    RunOnTrack = IsOnTrack i org_id connection_id run_id server message lo generation

    abbrev Honest : Arrival i org_id connection_id run_id → Type 0
    Honest = IsHonest i org_id connection_id run_id server message lo generation

    abbrev coming : String → List (Arrival i org_id connection_id run_id) → List ℕ
    coming = to_come i org_id connection_id run_id server message lo generation

    -- a batch that keeps its claim leaves the run on track
    abbrev pub StepIsOnTrack : Step i.Mail → List (Arrival i org_id connection_id run_id) → Type 0
    StepIsOnTrack (kept q) ahead = RunOnTrack q ahead
    StepIsOnTrack stolen ahead = Unit

    abbrev tally_at : Progress i.Mail → FetchBatch → Tally i.Mail
    tally_at = tally_of i org_id connection_id run_id server message lo

    -- the state after a batch that was committed
    abbrev committed : Progress i.Mail → FetchBatch → Connections → Progress i.Mail
    committed p b connections = record {
      db = record (p.db) {
        connections = connections;
        cursors =
            upsert (cursor_row i org_id connection_id run_id b (tally_at p b).tracker) p.db.cursors;
        mail = (tally_at p b).mail;
      };
      trackers =
          set_tracker b.folder
            (settled_tracker (tally_at p b).tracker (advance_of (tally_at p b).tracker)) p.trackers;
      counts = (tally_at p b).counts;
    }

    module _ (p : Progress i.Mail) (a : Arrival i org_id connection_id run_id)
        (ahead : List (Arrival i org_id connection_id run_id)) (honest : Honest a)
        (h : RunOnTrack p (a ∷ ahead)) where
      abbrev TracksAt : ℕ → i.Mail → FolderTracker → List ℕ → Type 0
      TracksAt v =
          IsTracking i org_id connection_id run_id (message a.batch.folder v)
            (server a.batch.folder v) lo

      abbrev folder : String
      folder = a.batch.folder

      genuine_at : All (λ m. m ≡ message a.batch.folder a.batch.uidvalidity m.uid) a.batch.messages
      genuine_at =
          subst (λ v. All (λ m. m ≡ message a.batch.folder v m.uid) a.batch.messages)
            (sym honest.one_generation) honest.genuine

      tracked :
          TracksAt a.batch.uidvalidity p.db.mail
            (tracker_for p.trackers a.batch.folder a.batch.uidvalidity)
            (a.batch.requested_uids
              ++ to_come i org_id connection_id run_id server message lo generation a.batch.folder
                  ahead)
      tracked =
          subst
            (λ v.
              TracksAt v p.db.mail (tracker_for p.trackers folder v)
                (a.batch.requested_uids ++ coming folder ahead))
            (sym honest.one_generation)
            (subst
              (λ l.
                TracksAt (generation folder) p.db.mail
                  (tracker_for p.trackers folder (generation folder)) l)
              at_once (h.tracks folder (ground (arith, same))))
        where
          same : str_eq folder folder ≡ true
          same = (str_eq_iff folder folder).1 refl

          at_once : coming folder (a ∷ ahead) ≡ a.batch.requested_uids ++ coming folder ahead
          at_once = rw same

      keeps_mail : KeepsAll p.db.mail (tally_at p a.batch).mail
      keeps_mail =
          (tally_of-IsSettled i org_id connection_id run_id server message lo p a.batch _ genuine_at
            tracked).keeps

      abbrev TracksIn : String → i.Mail → FolderTracker → List ℕ → Type 0
      TracksIn = Tracks i org_id connection_id run_id server message lo generation

      tracks_after :
          (connections : Connections) (f : String)
          → comes i org_id connection_id run_id server message lo generation f ahead ≡ true
          → TracksIn f
              (tally_at p a.batch).mail
              (tracker_for (committed p a.batch connections).trackers f (generation f))
              (coming f ahead)
      tracks_after connections f c = elim (Bool-cases (str_eq f folder)) [
        | inl same ↦
            let e : folder ≡ f = sym ((str_eq_iff f folder).0 same) in
            subst
              (λ g.
                TracksIn g (tally_at p a.batch).mail
                  (tracker_for (committed p a.batch connections).trackers g (generation g))
                  (coming g ahead))
              e
              (subst
                (λ v.
                  TracksAt v (tally_at p a.batch).mail
                    (tracker_for (committed p a.batch connections).trackers folder v)
                    (coming folder ahead))
                honest.one_generation
                (next-OnTrack i org_id connection_id run_id server message lo p a.batch
                  (coming folder ahead) genuine_at tracked))
        | inr apart ↦
            let later : coming f (a ∷ ahead) ≡ coming f ahead = rw apart in
            let before : TracksIn f p.db.mail (tracker_for p.trackers f (generation f))
                (coming f ahead) =
              subst (λ l. TracksIn f p.db.mail (tracker_for p.trackers f (generation f)) l) later
                (h.tracks f (ground (arith, apart, c))) in
            rw apart (
              IsTracking-Keeps i org_id connection_id run_id (message f (generation f))
                (server f (generation f)) lo p.db.mail (tally_at p a.batch).mail
                (tracker_for p.trackers f (generation f)) (coming f ahead) keeps_mail before)
      ]

      committed-IsOnTrack :
          (connections : Connections) → RunOnTrack (committed p a.batch connections) ahead
      committed-IsOnTrack connections = record {
        safe =
            upsert-IsSafe p.db a.batch.folder a.batch.uidvalidity _ _ connections
              (tally_at p a.batch).mail keeps_mail
              (tally_of-covered i org_id connection_id run_id server message lo p a.batch _
                genuine_at tracked)
              h.safe;
        tracks = λ f c. tracks_after connections f c;
      }

    pub ingest_batch-IsOnTrack :
        (p : Progress i.Mail) (a : Arrival i org_id connection_id run_id)
        (ahead : List (Arrival i org_id connection_id run_id))
        → Honest a
        → RunOnTrack p (a ∷ ahead)
        → StepIsOnTrack (ingest_batch i org_id connection_id run_id a.now a.batch p) ahead
    unfolding ingest_batch
    ingest_batch-IsOnTrack p a ahead honest h = elim (Bool-cases written.0) [
      | inl holds ↦ rw holds (committed-IsOnTrack p a ahead honest h written.1)
      | inr lost ↦ rw lost tt
    ]
      where
        written : Bool × Connections
        written =
            set_synced_count org_id connection_id run_id (tally_at p a.batch).counts.seen a.now
              p.db.connections
