-- ===== src/Sync/Runner/Safety/Whole.antt =====
-- The whole run over the IMAP fetcher, from the stored cursors to the final status.
use one_ai.Prelude.{
  ℕ, ◌-◌, Uuid, Time, String, ◌≡◌, refl, sym, subst, ap, ◌∙◌, Bool, true, false, not, Option, none,
  some, List, [], ◌∷◌, ◌++◌, map, arith, All, find_where, if◌then◌else◌,
}
use one_ai.Connectors.Connection.{
  Connection, Connections, get_in_org, set_total, finalize_sync, idle, error,
}
use one_ai.Sync.Fetch.{FolderCursor, FetchedMessage, FetchBatch}
use one_ai.Sync.Fetcher.{ImapFetchSession, fetch_folders, fetch_incremental, min_uid}
use one_ai.Sync.Fetcher.Coverage.{requested_of, IsDistinct}
use one_ai.Sync.Ingest.{Ingest}
use one_ai.Sync.Store.{Db, is_cursor, list_for_connection, close_run, succeeded, failed}
use one_ai.Sync.Runner.{
  Progress, Arrival, LoopEnd, drained, broken, displaced, consume, conclude, finalize,
  finished_event, finalize_failure, Incremental, Built, unusable, plain, incremental, fetch_cursors,
  seed_trackers, tracker_for, sync_incremental, run,
}
use one_ai.Sync.Runner.Safety.{
  IsSafe, IsHarmless, IsHonest, IsOnTrack, to_come, comes, Tracks, meanwhile-IsOnTrack,
}
use one_ai.Sync.Runner.Safety.Run.{EndIsSafe, consume-IsSafe}
use one_ai.Sync.Runner.Safety.Start.{Tracking-start}
use one_ai.Sync.Runner.Safety.Stream.{
  IsFaithful, IsGenuineBatch, asks_of, fetch_folders-Genuine, requested_of-new,
}
use one_ai.Sync.Tracker.{Counts, no_counts}
use one_ai.Audit.{record_event}

All-left {ℓ κ} : {A : Type ℓ} (P : A → Type κ) (xs ys : List A) → All P (xs ++ ys) → All P xs
All-left P [] ys h = tt
All-left P (x ∷ xs) ys h = (h.0, All-left P xs ys h.1)

module _ (i : Ingest) (org_id connection_id run_id : Uuid) (server : String → ℕ → List ℕ)
    (message : String → ℕ → ℕ → FetchedMessage) (generation : String → ℕ) where
  abbrev Safe : Db i.Mail → Type 0
  Safe = IsSafe i org_id connection_id run_id server message 0

  abbrev Harmless : (Db i.Mail → Db i.Mail) → Type 0
  Harmless = IsHarmless i org_id connection_id run_id server message 0

  abbrev Stream : Type 0
  Stream = List (Arrival i org_id connection_id run_id)

  abbrev batches : Stream → List FetchBatch
  batches = map (λ a. Arrival.batch a)

  to_come-batches :
      (f : String) (as' : Stream)
      → to_come i org_id connection_id run_id server message 0 generation f as'
        ≡ requested_of f (batches as')
  to_come-batches f [] = refl
  to_come-batches f (a ∷ as') = ground (arith, to_come-batches f as')

  comes-batches :
      (f : String) (as' : Stream)
      → comes i org_id connection_id run_id server message 0 generation f as'
        ≡ asks_of f (batches as')
  comes-batches f [] = refl
  comes-batches f (a ∷ as') = ground (arith, comes-batches f as')

  IsHonest-stream :
      (as' : Stream)
      → All (λ a. Harmless (Arrival.meanwhile a)) as'
      → All (IsGenuineBatch message generation) (batches as')
      → All (IsHonest i org_id connection_id run_id server message 0 generation) as'
  IsHonest-stream [] harmless genuine = tt
  IsHonest-stream (a ∷ as') harmless genuine = (
    record { harmless = harmless.0; one_generation = genuine.0.0; genuine = genuine.0.1 },
    IsHonest-stream as' harmless.1 genuine.1,
  )

  -- batches that the stream did not come to deliver, as arrivals
  abbrev undelivered : List FetchBatch → Stream
  undelivered [] = []
  undelivered (b ∷ bs) = record { meanwhile = λ db. db; now = 0; batch = b } ∷ undelivered bs

  batches-undelivered :
      (as' : Stream) (lost : List FetchBatch)
      → batches (as' ++ undelivered lost) ≡ batches as' ++ lost
  batches-undelivered [] [] = refl
  batches-undelivered [] (b ∷ bs) = ap (λ l. b ∷ l) (batches-undelivered [] bs)
  batches-undelivered (a ∷ as') lost = ap (λ l. Arrival.batch a ∷ l) (batches-undelivered as' lost)

  module _ (session : ImapFetchSession) (limit : ℕ)
      (faithful : IsFaithful session server message generation)
      (distinct : IsDistinct session.list_folders) where
    seeded-IsOnTrack :
        (db : Db i.Mail) (as' : Stream)
        → Safe db
        → batches as'
          ≡ fetch_folders session
              (fetch_cursors i org_id connection_id run_id db)
              limit
              session.list_folders
        → IsOnTrack i org_id connection_id run_id server message 0 generation
            (record {
              db = db;
              trackers = seed_trackers i org_id connection_id run_id db;
              counts = no_counts;
            })
            as'
    unfolding list_for_connection min_uid
    seeded-IsOnTrack db as' safe whole = record {
      safe = safe;
      tracks = λ f c.
          let asked = sym (ap (asks_of f) whole) ∙ sym (comes-batches f as') ∙ c in
          let (positive, news) =
            requested_of-new session server message generation faithful
              (fetch_cursors i org_id connection_id run_id db) limit f session.list_folders distinct
              asked in
          subst
            (λ l.
              Tracks i org_id connection_id run_id server message 0 generation f db.mail
                (tracker_for (seed_trackers i org_id connection_id run_id db) f (generation f)) l)
            (sym (to_come-batches f as' ∙ ap (requested_of f) whole ∙ news))
            (Tracking-start i org_id connection_id run_id (message f (generation f))
              (server f (generation f)) (faithful.ascending f) db.mail (generation f)
              (find_where (is_cursor org_id connection_id f) db.cursors) positive
              (λ row found gen. safe.at f row (generation f) found gen));
    }

  finalize-IsSafe :
      (success : Bool) (reason : Option String) (counts : Counts) (started now : Time)
      (db : Db i.Mail)
      → Safe db
      → Safe (finalize i org_id connection_id run_id success reason counts started now db)
  unfolding finalize
  finalize-IsSafe success reason counts started now db safe =
      pick
        (finalize_sync org_id connection_id run_id (if success then idle else error) reason now
          db.connections).0
    where
      pick :
          (won : Bool)
          → Safe (
              if not won then db else record db {
                connections =
                    (finalize_sync org_id connection_id run_id
                      (if success then idle else error)
                      reason
                      now
                      db.connections).1;
                runs =
                    close_run org_id run_id
                      (if success then succeeded else failed)
                      counts
                      reason
                      now
                      db.runs;
                audit =
                    record_event
                      (finished_event i org_id connection_id run_id
                        (if success then succeeded else failed)
                        counts
                        (now - started))
                      db.audit;
              })
      pick true = record { at = safe.at }
      pick false = safe

  conclude-IsSafe :
      (started now : Time) (e : LoopEnd i org_id connection_id run_id)
      → EndIsSafe i org_id connection_id run_id server message 0 generation e
      → Safe (conclude i org_id connection_id run_id started now e)
  unfolding conclude finalize_failure
  conclude-IsSafe started now (drained p) safe =
      finalize-IsSafe true none p.counts started now p.db safe
  conclude-IsSafe started now (broken db) safe =
      finalize-IsSafe false (some "Sync failed unexpectedly.") no_counts started now db safe
  conclude-IsSafe started now (displaced db) safe = safe

  module _ (session : ImapFetchSession) (limit : ℕ)
      (faithful : IsFaithful session server message generation)
      (distinct : IsDistinct session.list_folders) where
    -- the connector is the IMAP fetcher on this session, its stream is cut short at any batch, and
    -- the rest of the system is harmless meanwhile
    pub record IsFetcher (k : Incremental i org_id connection_id run_id) (db : Db i.Mail)
        : Type 0 where
      pub harmless : Harmless k.meanwhile
      pub all_harmless :
          All
            (λ a. Harmless (Arrival.meanwhile a))
            (k.arrivals (fetch_cursors i org_id connection_id run_id db))
      pub lost : List FetchBatch
      pub whole :
          batches (k.arrivals (fetch_cursors i org_id connection_id run_id db)) ++ lost
          ≡ fetch_incremental session (fetch_cursors i org_id connection_id run_id db) limit

    pub sync_incremental-IsSafe :
        (k : Incremental i org_id connection_id run_id) (started now : Time) (db : Db i.Mail)
        → IsFetcher k db
        → Safe db
        → Safe (sync_incremental i org_id connection_id run_id k started now db)
    unfolding sync_incremental finalize_failure fetch_incremental
    sync_incremental-IsSafe k started now db fetcher safe = counted (k.count_pending cursors)
      where
        cursors : String → Option FolderCursor
        cursors = fetch_cursors i org_id connection_id run_id db

        stream : Stream
        stream = k.arrivals cursors

        before : Db i.Mail
        before = k.meanwhile db

        totalled : ℕ → Bool × Connections
        totalled total = set_total org_id connection_id run_id total before.connections

        loop_from : ℕ → Progress i.Mail
        loop_from total = record {
          db = record before { connections = (totalled total).1 };
          trackers = seed_trackers i org_id connection_id run_id db;
          counts = no_counts;
        }

        ahead : Stream
        ahead = stream ++ undelivered fetcher.lost

        ahead_whole : batches ahead ≡ fetch_folders session cursors limit session.list_folders
        ahead_whole = batches-undelivered stream fetcher.lost ∙ fetcher.whole

        act : ℕ → Db i.Mail → Db i.Mail
        act total d = record (k.meanwhile d) { connections = (totalled total).1 }

        act-Harmless : (total : ℕ) → Harmless (act total)
        act-Harmless total = record {
          keeps = λ d. fetcher.harmless.keeps d;
          safe = λ d s. record { at = (fetcher.harmless.safe d s).at };
        }

        loop_on_track :
            (total : ℕ)
            → IsOnTrack i org_id connection_id run_id server message 0 generation
                (loop_from total)
                ahead
        loop_on_track total =
            meanwhile-IsOnTrack i org_id connection_id run_id server message 0 generation
              (record {
                db = db;
                trackers = seed_trackers i org_id connection_id run_id db;
                counts = no_counts;
              })
              (act total) ahead (act-Harmless total)
              (seeded-IsOnTrack session limit faithful distinct db ahead safe ahead_whole)

        honest : All (IsHonest i org_id connection_id run_id server message 0 generation) stream
        honest = IsHonest-stream stream fetcher.all_harmless (
            All-left (IsGenuineBatch message generation) (batches stream) fetcher.lost (
              subst (All (IsGenuineBatch message generation)) (sym fetcher.whole) (
                fetch_folders-Genuine session server message generation faithful cursors limit
                  session.list_folders)))

        looped :
            (total : ℕ) (alive : Bool)
            → Safe (
                if not alive
                then before
                else conclude i org_id connection_id run_id started now
                    (consume i org_id connection_id run_id k.healthy stream (loop_from total)))
        looped total false = fetcher.harmless.safe db safe
        looped total true = conclude-IsSafe started now _ (
            consume-IsSafe i org_id connection_id run_id server message 0 generation k.healthy
              stream (undelivered fetcher.lost) (loop_from total) honest (loop_on_track total))

        counted :
            (o : Option ℕ)
            → Safe (elim o [
              | none ↦ finalize_failure i org_id connection_id run_id started now before
              | some total ↦
                  if not (totalled total).0
                  then before
                  else conclude i org_id connection_id run_id started now
                      (consume i org_id connection_id run_id k.healthy stream (loop_from total))
            ])
        counted none =
            finalize-IsSafe false (some "Sync failed unexpectedly.") no_counts started now before
              (fetcher.harmless.safe db safe)
        counted (some total) = looped total (totalled total).0

    -- A whole run over a faithful session of the IMAP fetcher with distinct folders, from its
    -- first load of the connection to its last write, ends in safe tables where it begins in safe
    -- ones and the rest of the system is harmless, so that no stored cursor passes a message of
    -- the server that is not in the mail store, however the run ends.
    pub run-IsSafe :
        (build : Connection → Built i org_id connection_id run_id) (started now : Time)
        (db : Db i.Mail)
        → ((c : Connection) (k : Incremental i org_id connection_id run_id)
            → build c ≡ incremental k
            → IsFetcher k db)
        → Safe db
        → Safe (run i org_id connection_id run_id build started now db)
    unfolding run finalize_failure
    run-IsSafe build started now db fetchers safe =
        loaded (get_in_org connection_id org_id db.connections)
      where
        built :
            (b : Built i org_id connection_id run_id)
            → ((k : Incremental i org_id connection_id run_id) → b ≡ incremental k → IsFetcher k db)
            → Safe (elim b [
              | unusable ↦ finalize_failure i org_id connection_id run_id started now db
              | plain ↦
                  finalize i org_id connection_id run_id false
                    (some "This connector does not support sync.")
                    no_counts
                    started
                    now
                    db
              | incremental k ↦ sync_incremental i org_id connection_id run_id k started now db
            ])
        built unusable fetches =
            finalize-IsSafe false (some "Sync failed unexpectedly.") no_counts started now db safe
        built plain fetches =
            finalize-IsSafe false (some "This connector does not support sync.") no_counts started
              now db safe
        built (incremental k) fetches =
            sync_incremental-IsSafe k started now db (fetches k refl) safe

        loaded :
            (c : Option Connection)
            → Safe (elim c [
              | none ↦ db
              | some connection ↦ elim (build connection) [
                | unusable ↦ finalize_failure i org_id connection_id run_id started now db
                | plain ↦
                    finalize i org_id connection_id run_id false
                      (some "This connector does not support sync.")
                      no_counts
                      started
                      now
                      db
                | incremental k ↦ sync_incremental i org_id connection_id run_id k started now db
              ]
            ])
        loaded none = safe
        loaded (some connection) = built (build connection) (λ k. fetchers connection k)
