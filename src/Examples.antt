-- ===== src/Examples.antt =====
-- Small concrete runs of the theorems. The rows that they share stand here.
pub mod Planning
pub mod Claiming
pub mod Syncing
pub mod Running
pub mod Requesting
pub mod Granting
pub mod Ingesting
pub mod Promoting
pub mod Resolving
pub mod Throttling
pub mod Signing
pub mod Supporting
pub mod Staffing
pub mod Starting
pub mod Entering
pub mod Erasing
pub mod Connecting
use one_ai.Prelude.{ℕ, false, true, none, some, [], ◌∷◌}
use one_ai.Connectors.Connection.{Connection, idle, running, connected}

abbrev pub idle_mailbox : Connection
idle_mailbox = record {
  id = 2;
  org_id = 1;
  connector_type = "imap";
  owner_user_id = none;
  display_name = "Mail";
  username = "info";
  host = "mail.example";
  port = 993;
  use_ssl = true;
  secret_ciphertext = 7 ∷ [];
  secret_key_version = 1;
  status = connected;
  last_checked_at = none;
  last_error = none;
  disabled_at = none;
  sync_status = idle;
  sync_run_id = none;
  sync_started_at = none;
  sync_heartbeat_at = none;
  last_synced_at = none;
  synced_count = 0;
  total_count = none;
  last_sync_error = none;
}

-- run 30 holds it and has beaten at 100
abbrev pub busy_mailbox : Connection
busy_mailbox = record idle_mailbox {
  sync_status = running;
  sync_run_id = some 30;
  sync_started_at = some 90;
  sync_heartbeat_at = some 100;
}
