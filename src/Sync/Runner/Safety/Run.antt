-- ===== src/Sync/Runner/Safety/Run.antt =====
-- The whole loop.
use one_ai.Prelude.{ℕ, Uuid, String, Bool, true, false, List, [], ◌∷◌, ◌++◌, All}
use one_ai.Connectors.Connection.{is_disabled}
use one_ai.Sync.Fetch.{FetchedMessage}
use one_ai.Sync.Ingest.{Ingest}
use one_ai.Sync.Store.{Db}
use one_ai.Sync.Runner.{
  Progress, Step, kept, stolen, ingest_batch, Arrival, LoopEnd, drained, broken, displaced, consume,
  continue_with,
}
use one_ai.Sync.Runner.Safety.{IsSafe, IsHonest, IsOnTrack, meanwhile-IsOnTrack}
use one_ai.Sync.Runner.Safety.Commit.{StepIsOnTrack, ingest_batch-IsOnTrack}

module _ (i : Ingest) (org_id connection_id run_id : Uuid) (server : String → ℕ → List ℕ)
    (message : String → ℕ → ℕ → FetchedMessage) (lo : ℕ) (generation : String → ℕ) where
  abbrev Safe : Db i.Mail → Type 0
  Safe = IsSafe i org_id connection_id run_id server message lo

  abbrev RunOnTrack : Progress i.Mail → List (Arrival i org_id connection_id run_id) → Type 0
  RunOnTrack = IsOnTrack i org_id connection_id run_id server message lo generation

  abbrev Honest : Arrival i org_id connection_id run_id → Type 0
  Honest = IsHonest i org_id connection_id run_id server message lo generation

  -- wherever the loop ends, the committed tables are safe
  abbrev pub EndIsSafe : LoopEnd i org_id connection_id run_id → Type 0
  EndIsSafe (drained p) = Safe p.db
  EndIsSafe (broken db) = Safe db
  EndIsSafe (displaced db) = Safe db

  continue_with-IsSafe :
      (next : Progress i.Mail → LoopEnd i org_id connection_id run_id) (before : Db i.Mail)
      (ahead : List (Arrival i org_id connection_id run_id))
      → ((q : Progress i.Mail) → RunOnTrack q ahead → EndIsSafe (next q))
      → Safe before
      → (st : Step i.Mail)
      → StepIsOnTrack i org_id connection_id run_id server message lo generation st ahead
      → EndIsSafe (continue_with i org_id connection_id run_id next before st)
  continue_with-IsSafe next before ahead go safe (kept q) h = go q h
  continue_with-IsSafe next before ahead go safe stolen h = safe

  -- Whatever harmless writes come between two transactions, from tables that are safe and trackers
  -- that are on track the loop over any part of an honest stream ends in safe committed tables, so
  -- that no stored cursor passes a message of the server that is not in the mail store: drained,
  -- stopped by a disabled connection, broken by the connector, or displaced by another run.
  pub consume-IsSafe :
      (healthy : Bool) (arrivals lost : List (Arrival i org_id connection_id run_id))
      (p : Progress i.Mail)
      → All Honest arrivals
      → RunOnTrack p (arrivals ++ lost)
      → EndIsSafe (consume i org_id connection_id run_id healthy arrivals p)
  unfolding consume
  consume-IsSafe true [] lost p honest h = h.safe
  consume-IsSafe false [] lost p honest h = h.safe
  consume-IsSafe healthy (a ∷ arrivals) lost p honest h =
      decide (λ q t. consume-IsSafe healthy arrivals lost q honest.1 t)
        (is_disabled org_id connection_id p'.db.connections)
    where
      p' : Progress i.Mail
      p' = record p { db = a.meanwhile p.db }

      h' : RunOnTrack p' (a ∷ arrivals ++ lost)
      h' =
          meanwhile-IsOnTrack i org_id connection_id run_id server message lo generation p
            a.meanwhile (a ∷ arrivals ++ lost) honest.0.harmless h

      decide :
          ((q : Progress i.Mail)
            → RunOnTrack q (arrivals ++ lost)
            → EndIsSafe (consume i org_id connection_id run_id healthy arrivals q))
          → (stop : Bool)
          → EndIsSafe (elim stop [
            | true ↦ drained p'
            | false ↦
                continue_with i org_id connection_id run_id
                  (consume i org_id connection_id run_id healthy arrivals)
                  p'.db
                  (ingest_batch i org_id connection_id run_id a.now a.batch p')
          ])
      decide ih true = h'.safe
      decide ih false =
          continue_with-IsSafe (consume i org_id connection_id run_id healthy arrivals) p'.db
            (arrivals ++ lost) ih h'.safe
            (ingest_batch i org_id connection_id run_id a.now a.batch p')
            (ingest_batch-IsOnTrack i org_id connection_id run_id server message lo generation p' a
              (arrivals ++ lost) honest.0 h')
