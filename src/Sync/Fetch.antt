-- ===== src/Sync/Fetch.antt =====
-- backend/app/connectors/base/incremental_fetch.py: what a connector hands to the runner.
use one_ai.Prelude.{ℕ, Time, String, Option, List}

pub record FolderCursor : Type 0 where
  pub uidvalidity : Option ℕ
  pub last_seen_uid : ℕ

pub record FetchedMessage : Type 0 where
  pub uid : ℕ
  pub raw_bytes : List ℕ
  pub internal_date : Option Time

pub record FetchBatch : Type 0 where
  pub folder : String
  pub uidvalidity : ℕ
  pub messages : List FetchedMessage
  pub requested_uids : List ℕ
