-- ===== src/Sync/Fetcher.antt =====
-- backend/app/connectors/imap/sync/imap_fetcher.py: the stream of new messages, folder by folder. The
-- session is what its verbs answer for a folder while that folder is selected; a session that raises
-- cuts the stream short.
pub mod Coverage
use one_ai.Prelude.{
  ℕ, ◌+◌, ◌*◌, String, Bool, true, false, Option, none, some, List, [], ◌∷◌, ◌++◌, map, length,
  is_empty, ◌==◌, if◌then◌else◌,
}
use one_ai.Sync.Fetch.{FolderCursor, FetchedMessage, FetchBatch}
use one_ai.Sync.Planner.{batch_by_bytes}

-- `ImapFetchSession` of backend/app/connectors/imap/fetch_session.py
pub record ImapFetchSession : Type 0 where
  pub list_folders : List String
  pub select_folder : String → Option ℕ
  pub search_uids : String → ℕ → List ℕ
  pub fetch_sizes : String → List ℕ → ℕ → Option ℕ
  pub fetch_messages : String → List ℕ → List FetchedMessage

abbrev pub FetchCursors : Type 0
FetchCursors = String → Option FolderCursor

abbrev pub default_batch_bytes : ℕ
default_batch_bytes = 10 * 1024 * 1024

abbrev same_generation : Option ℕ → ℕ → Bool
same_generation none v = false
same_generation (some u) v = u == v

-- `_min_uid`
abbrev pub min_uid_of : Option FolderCursor → ℕ → ℕ
min_uid_of none uidvalidity = 1
min_uid_of (some cursor) uidvalidity =
    if same_generation cursor.uidvalidity uidvalidity then cursor.last_seen_uid + 1 else 1

unfoldable pub min_uid : FetchCursors → String → ℕ → ℕ
min_uid cursors folder uidvalidity = min_uid_of (cursors folder) uidvalidity

module _ (session : ImapFetchSession) (cursors : FetchCursors) where
  abbrev pending_of : String → Option ℕ → List ℕ
  pending_of folder none = []
  pending_of folder (some uidvalidity) =
      session.search_uids folder (min_uid cursors folder uidvalidity)

  unfoldable pub count_pending : List String → ℕ
  unfolding min_uid
  count_pending [] = 0
  count_pending (folder ∷ folders) =
      length (pending_of folder (session.select_folder folder)) + count_pending folders

  abbrev pub batch_of : String → ℕ → List ℕ → FetchBatch
  batch_of folder uidvalidity batch_uids = record {
    folder = folder;
    uidvalidity = uidvalidity;
    messages = session.fetch_messages folder batch_uids;
    requested_uids = batch_uids;
  }

  -- the body of the loop over the folders
  abbrev pub fetch_selected : ℕ → String → Option ℕ → List FetchBatch
  fetch_selected batch_bytes folder none = []
  fetch_selected batch_bytes folder (some uidvalidity) =
      let uids = session.search_uids folder (min_uid cursors folder uidvalidity) in
      if is_empty uids
      then []
      else map (batch_of folder uidvalidity)
          (batch_by_bytes uids (session.fetch_sizes folder uids) batch_bytes)

  unfoldable pub fetch_folders : ℕ → List String → List FetchBatch
  unfolding min_uid
  fetch_folders batch_bytes [] = []
  fetch_folders batch_bytes (folder ∷ folders) =
      fetch_selected batch_bytes folder (session.select_folder folder)
      ++ fetch_folders batch_bytes folders

  unfoldable pub fetch_incremental : ℕ → List FetchBatch
  unfolding fetch_folders
  fetch_incremental batch_bytes = fetch_folders batch_bytes session.list_folders
