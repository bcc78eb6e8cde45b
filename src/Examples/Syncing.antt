-- ===== src/Examples/Syncing.antt =====
-- One folder of two messages, synced by one run.
use one_ai.Prelude.{
  subst, ==_refl, Bool-cases, inl, inr, ℕ, ◌≡◌, refl, String, true, none, some, List, [], ◌∷◌,
  arith, contains, is_empty, is_some, if◌then◌else◌,
}
use one_ai.Examples.{busy_mailbox}
use one_ai.Sync.Fetch.{FetchedMessage}
use one_ai.Sync.Ingest.{
  Ingest, Ingested, returned, violated, raised, stored, IngestOutcome, IntegrityError, ingest_one,
  ingest_one_holds,
}
use one_ai.Sync.Tracker.{no_counts}
use one_ai.Sync.Runner.{Progress, Arrival, consume}
use one_ai.Sync.Runner.Safety.{IsHonest, IsOnTrack}
use one_ai.Sync.Runner.Safety.Run.{EndIsSafe, consume-IsSafe}

-- a store of UIDs, which refuses an empty message and a second copy
abbrev pub store_uid : FetchedMessage → List ℕ → Ingested (List ℕ)
store_uid m s =
    if contains m.uid s
    then violated (record { constraint_name = some "uq_email_message_dedup"; message = "" })
    else if is_empty m.raw_bytes
    then raised
    else returned stored (m.uid ∷ s)

pub returned_lem :
    (m other : FetchedMessage) (s s' : List ℕ) (o : IngestOutcome)
    → store_uid m s ≡ returned o s'
    → (contains m.uid s' ≡ true) × (contains other.uid s ≡ true → contains other.uid s' ≡ true)
returned_lem m other s s' o e = elim (Bool-cases (contains m.uid s)) [
  | inl there ↦ absurd (ground (arith, there, e))
  | inr new ↦ elim (Bool-cases (is_empty m.raw_bytes)) [
    | inl blank ↦ absurd (ground (arith, new, blank, e))
    | inr full ↦
        (let same : m.uid ∷ s ≡ s' = ground (arith, new, full, e) in
          (
            subst (λ k. contains m.uid k ≡ true) same (ground (arith, ==_refl m.uid)),
            λ h. subst (λ k. contains other.uid k ≡ true) same (ground (arith, h)),
          ))
  ]
]

pub collision_lem :
    (m : FetchedMessage) (s : List ℕ) (v : IntegrityError)
    → store_uid m s ≡ violated v
    → contains m.uid s ≡ true
collision_lem m s v e = elim (Bool-cases (contains m.uid s)) [
  | inl there ↦ there
  | inr new ↦ elim (Bool-cases (is_empty m.raw_bytes)) [
    | inl blank ↦ absurd (ground (arith, new, blank, e))
    | inr full ↦ absurd (ground (arith, new, full, e))
  ]
]

abbrev pub uid_store : Ingest
uid_store = record {
  Mail = List ℕ;
  ingest_email = λ org connection m s. store_uid m s;
  Holds = λ org connection m s. contains m.uid s ≡ true;
  returned_holds = λ org connection m s s' o e. (returned_lem m m s s' o e).0;
  collision_holds = λ org connection m s v e c. collision_lem m s v e;
  ingest_keeps = λ org connection m other s s' o e h. (returned_lem m other s s' o e).1 h;
}

abbrev pub server : String → ℕ → List ℕ
server folder uidvalidity = 1 ∷ 2 ∷ []

abbrev pub message : String → ℕ → ℕ → FetchedMessage
message folder uidvalidity uid = record { uid = uid; raw_bytes = 1 ∷ []; internal_date = none }

abbrev pub generation : String → ℕ
generation folder = 7

abbrev pub arrival : Arrival uid_store 1 2 30
arrival = record {
  meanwhile = λ db. db;
  now = 110;
  batch = record {
    folder = "INBOX";
    uidvalidity = 7;
    messages = message "INBOX" 7 1 ∷ message "INBOX" 7 2 ∷ [];
    requested_uids = 1 ∷ 2 ∷ [];
  };
}

abbrev pub start : Progress (List ℕ)
start = record {
  db = record { connections = busy_mailbox ∷ []; cursors = []; runs = []; audit = []; mail = [] };
  trackers = λ folder. none;
  counts = no_counts;
}

arrival-IsHonest : IsHonest uid_store 1 2 30 server message 0 generation arrival
arrival-IsHonest = record {
  harmless = record { keeps = λ db m h. h; safe = λ db h. h };
  one_generation = refl;
  genuine = (refl, (refl, tt));
}

start-IsOnTrack : IsOnTrack uid_store 1 2 30 server message 0 generation start (arrival ∷ [])
start-IsOnTrack = record {
  safe = record { at = λ f r v found same. absurd (ground (arith, found)) };
  tracks = λ f c. record {
    accounted_there = λ u m. absurd (ground (arith, m));
    covered = λ u m le. absurd (ground (arith, m, le));
    pending = λ u m above. ground (arith, c, m);
    ordered = ground (arith, c);
  };
}

ingest_one_holds_example :
    (is_some (ingest_one uid_store 1 2 (message "INBOX" 7 1) []).0 ≡ true
      → contains 1 (ingest_one uid_store 1 2 (message "INBOX" 7 1) []).1 ≡ true)
    × ((other : FetchedMessage)
        → contains other.uid [] ≡ true
        → contains other.uid (ingest_one uid_store 1 2 (message "INBOX" 7 1) []).1 ≡ true)
ingest_one_holds_example = ingest_one_holds uid_store 1 2 (message "INBOX" 7 1) []

consume-IsSafe_example :
    EndIsSafe uid_store 1 2 30 server message 0 generation
      (consume uid_store 1 2 30 true (arrival ∷ []) start)
consume-IsSafe_example =
    consume-IsSafe uid_store 1 2 30 server message 0 generation true (arrival ∷ []) [] start
      (arrival-IsHonest, tt) start-IsOnTrack
