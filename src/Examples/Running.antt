-- ===== src/Examples/Running.antt =====
-- The run of `Syncing` from its start, over a session of the IMAP fetcher.
use one_ai.Prelude.{
  ℕ, String, ◌≡◌, refl, ap, subst, true, some, List, [], ◌∷◌, map, append-nil, ◌∙◌, leb, keep_if,
  All, arith,
}
use one_ai.Examples.Syncing.{uid_store, server, message, generation, start}
use one_ai.Sync.Fetch.{FetchBatch, FetchedMessage}
use one_ai.Sync.Fetcher.{ImapFetchSession, FetchCursors, fetch_incremental}
use one_ai.Sync.Fetcher.Coverage.{new_in, requested_of, requested_of-fetch_incremental}
use one_ai.Sync.Store.{Db}
use one_ai.Sync.Runner.{Arrival, Incremental, Built, incremental, run}
use one_ai.Sync.Runner.Safety.{IsSafe, IsHarmless}
use one_ai.Sync.Runner.Safety.Stream.{IsFaithful}
use one_ai.Sync.Runner.Safety.Whole.{IsFetcher, run-IsSafe}

abbrev mailbox : ImapFetchSession
mailbox = record {
  list_folders = "INBOX" ∷ "Sent" ∷ [];
  select_folder = λ f. some 7;
  search_uids = λ f n. keep_if (leb n) (server f 7);
  fetch_sizes = λ f uids uid. some 60;
  fetch_messages = λ f uids. map (message f 7) uids;
}

messages_genuine :
    (f : String) (uids : List ℕ)
    → All (λ m. m ≡ message f 7 (FetchedMessage.uid m)) (map (message f 7) uids)
messages_genuine f [] = tt
messages_genuine f (u ∷ us) = (refl, messages_genuine f us)

mailbox-IsFaithful : IsFaithful mailbox server message generation
mailbox-IsFaithful = record {
  selected = λ f v e. (ground (arith, e), ground (arith, e));
  searched = λ f n. refl;
  ascending = λ f. omega arith;
  fetched = messages_genuine;
}

abbrev arrive : FetchBatch → Arrival uid_store 1 2 30
arrive b = record { meanwhile = λ db. db; now = 110; batch = b }

abbrev connector : Incremental uid_store 1 2 30
connector = record {
  count_pending = λ cursors. some 2;
  meanwhile = λ db. db;
  arrivals = λ cursors. map arrive (fetch_incremental mailbox cursors 100);
  healthy = true;
}

arrive-IsHarmless :
    (bs : List FetchBatch)
    → All (λ a. IsHarmless uid_store 1 2 30 server message 0 (Arrival.meanwhile a)) (map arrive bs)
arrive-IsHarmless [] = tt
arrive-IsHarmless (b ∷ bs) =
    (record { keeps = λ db m h. h; safe = λ db h. h }, arrive-IsHarmless bs)

arrive_batches :
    (bs : List FetchBatch)
    → map
        (λ a. Arrival.batch {i = uid_store} {org_id = 1} {connection_id = 2} {run_id = 30} a)
        (map arrive bs)
      ≡ bs
arrive_batches [] = refl
arrive_batches (b ∷ bs) = ap (λ l. b ∷ l) (arrive_batches bs)

connector-IsFetcher :
    (db : Db (List ℕ))
    → IsFetcher uid_store 1 2 30 server message generation mailbox 100 mailbox-IsFaithful
        (refl, (refl, tt))
        connector
        db
connector-IsFetcher db = record {
  harmless = record { keeps = λ d m h. h; safe = λ d h. h };
  all_harmless = arrive-IsHarmless _;
  lost = [];
  whole = append-nil _ ∙ arrive_batches _;
}

abbrev IsFetchedBy : Built uid_store 1 2 30 → Type 0
IsFetchedBy (incremental k) =
    IsFetcher uid_store 1 2 30 server message generation mailbox 100 mailbox-IsFaithful
      (refl, (refl, tt)) k start.db
IsFetchedBy _ = Unit

run-IsSafe_example :
    IsSafe uid_store 1 2 30 server message 0
      (run uid_store 1 2 30 (λ c. incremental connector) 100 200 start.db)
run-IsSafe_example =
    run-IsSafe uid_store 1 2 30 server message generation mailbox 100 mailbox-IsFaithful
      (refl, (refl, tt)) (λ c. incremental connector) 100 200 start.db
      (λ c k same. subst IsFetchedBy same (connector-IsFetcher start.db))
      (record { at = λ f r v found same. absurd (ground (arith, found)) })

-- "Sent" is read up to 1 in the generation that it has
abbrev read_cursors : FetchCursors
read_cursors f = some (record { uidvalidity = some 7; last_seen_uid = 1 })

requested_of-fetch_incremental_example :
    requested_of "Sent" (fetch_incremental mailbox read_cursors 100)
    ≡ new_in (read_cursors "Sent") (server "Sent" 7) (some 7)
requested_of-fetch_incremental_example =
    requested_of-fetch_incremental mailbox read_cursors (λ f. server f 7) (λ f n. refl) 100 "Sent"
      (refl, (refl, tt))
