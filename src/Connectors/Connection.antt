-- ===== src/Connectors/Connection.antt =====
-- backend/app/connectors/models/connector_connection.py and
-- repositories/connector_connection_repository.py: the connection rows, their scoped reads, and the
-- claim and the fenced writes of a sync run. `now` is the database clock of the statement.
pub mod Fence
pub mod Trace
pub mod Life
use one_ai.Prelude.{
  ℕ, ◌+◌, Uuid, Time, String, Bool, false, not, ◌&&◌, ◌||◌, Option, none, some, List, ◌∷◌, ◌++◌, [],
  ltb, ◌==◌, opt_eq, is_some, is_none, str_eq, find_where, update_where, count_where, delete_where,
  keep_if, if◌then◌else◌,
}

pub data SyncStatus : Type 0 where
  idle running error : SyncStatus

abbrev pub is_running : SyncStatus → Bool
is_running running = Bool.true
is_running _ = false

abbrev is_idle : SyncStatus → Bool
is_idle idle = Bool.true
is_idle _ = false

pub data ConnectionStatus : Type 0 where
  configured connected error : ConnectionStatus

pub record Connection : Type 0 where
  pub id : Uuid
  pub org_id : Uuid
  pub connector_type : String
  pub owner_user_id : Option Uuid
  pub display_name : String
  pub username : String
  pub host : String
  pub port : ℕ
  pub use_ssl : Bool
  pub secret_ciphertext : List ℕ
  pub secret_key_version : ℕ
  pub status : ConnectionStatus
  pub last_checked_at : Option Time
  pub last_error : Option String
  pub disabled_at : Option Time
  pub sync_status : SyncStatus
  pub sync_run_id : Option Uuid
  pub sync_started_at : Option Time
  pub sync_heartbeat_at : Option Time
  pub last_synced_at : Option Time
  pub synced_count : ℕ
  pub total_count : Option ℕ
  pub last_sync_error : Option String

abbrev pub Connections : Type 0
Connections = List Connection

abbrev pub is_in_org : Uuid → Uuid → Connection → Bool
is_in_org connection_id org_id c = c.id == connection_id && c.org_id == org_id

unfoldable pub insert : Connection → Connections → Connections
insert connection table = table ++ connection ∷ []

unfoldable pub get_in_org : Uuid → Uuid → Connections → Option Connection
get_in_org connection_id org_id table = find_where (is_in_org connection_id org_id) table

unfoldable pub is_disabled : Uuid → Uuid → Connections → Bool
is_disabled org_id connection_id table = elim (find_where (is_in_org connection_id org_id) table) [
  | none ↦ false
  | some c ↦ is_some c.disabled_at
]

unfoldable pub list_for_org : Uuid → Connections → Connections
list_for_org org_id table = keep_if (λ c. c.org_id == org_id) table

unfoldable pub get_shared_in_org : Uuid → Uuid → Connections → Option Connection
get_shared_in_org connection_id org_id table =
    find_where (λ c. is_in_org connection_id org_id c && is_none c.owner_user_id) table

unfoldable pub list_shared_for_org : Uuid → Connections → Connections
list_shared_for_org org_id table =
    keep_if (λ c. c.org_id == org_id && is_none c.owner_user_id) table

unfoldable pub exists : Uuid → String → String → Connections → Bool
exists org_id connector_type username table = is_some (
    find_where
      (λ c.
        c.org_id == org_id
        && is_none c.owner_user_id
        && str_eq c.connector_type connector_type
        && str_eq c.username username)
      table)

unfoldable pub get_for_owner : Uuid → Uuid → Uuid → Connections → Option Connection
get_for_owner connection_id org_id owner_user_id table =
    find_where (λ c. is_in_org connection_id org_id c && opt_eq c.owner_user_id owner_user_id) table

unfoldable pub list_for_owner : Uuid → Uuid → Connections → Connections
list_for_owner org_id owner_user_id table =
    keep_if (λ c. c.org_id == org_id && opt_eq c.owner_user_id owner_user_id) table

unfoldable pub exists_for_owner : Uuid → Uuid → String → String → Connections → Bool
exists_for_owner org_id owner_user_id connector_type username table = is_some (
    find_where
      (λ c.
        c.org_id == org_id
        && opt_eq c.owner_user_id owner_user_id
        && str_eq c.connector_type connector_type
        && str_eq c.username username)
      table)

unfoldable pub delete : Connection → Connections → Connections
delete connection table = delete_where (is_in_org connection.id connection.org_id) table

-- `sync_heartbeat_at < now() - stale_seconds`; a NULL heartbeat is not less
abbrev pub is_stale : Time → ℕ → Option Time → Bool
is_stale now stale_seconds none = false
is_stale now stale_seconds (some beat) = ltb (beat + stale_seconds) now

abbrev pub is_claimable : Uuid → Uuid → Time → ℕ → Connection → Bool
is_claimable org_id connection_id now stale_seconds c =
    is_in_org connection_id org_id c
    && is_none c.disabled_at
    && (not (is_running c.sync_status) || is_stale now stale_seconds c.sync_heartbeat_at)

abbrev pub claimed : Uuid → Time → Connection → Connection
claimed run_id now c = record c {
  sync_status = running;
  sync_run_id = some run_id;
  sync_started_at = some now;
  sync_heartbeat_at = some now;
  synced_count = 0;
  total_count = none;
  last_sync_error = none;
}

unfoldable pub claim_for_sync : Uuid → Uuid → Uuid → Time → ℕ → Connections → Bool × Connections
claim_for_sync org_id connection_id run_id now stale_seconds table =
    let selects = is_claimable org_id connection_id now stale_seconds in
    (count_where selects table == 1, update_where selects (claimed run_id now) table)

abbrev pub holds_claim : Uuid → Uuid → Uuid → Connection → Bool
holds_claim org_id connection_id run_id c =
    is_in_org connection_id org_id c && opt_eq c.sync_run_id run_id

unfoldable pub fenced_update :
    Uuid → Uuid → Uuid → (Connection → Connection) → Connections → Bool × Connections
fenced_update org_id connection_id run_id values table =
    let selects = holds_claim org_id connection_id run_id in
    (ltb 0 (count_where selects table), update_where selects values table)

unfoldable pub heartbeat : Uuid → Uuid → Uuid → Time → Connections → Bool × Connections
unfolding fenced_update
heartbeat org_id connection_id run_id now table =
    fenced_update org_id connection_id run_id (λ c. record c { sync_heartbeat_at = some now }) table

unfoldable pub set_total : Uuid → Uuid → Uuid → ℕ → Connections → Bool × Connections
unfolding fenced_update
set_total org_id connection_id run_id total table =
    fenced_update org_id connection_id run_id (λ c. record c { total_count = some total }) table

unfoldable pub set_synced_count : Uuid → Uuid → Uuid → ℕ → Time → Connections → Bool × Connections
unfolding fenced_update
set_synced_count org_id connection_id run_id count now table =
    fenced_update org_id connection_id run_id
      (λ c. record c { synced_count = count; sync_heartbeat_at = some now }) table

unfoldable pub finalize_sync :
    Uuid → Uuid → Uuid → SyncStatus → Option String → Time → Connections → Bool × Connections
unfolding fenced_update
finalize_sync org_id connection_id run_id status error_text now table =
    fenced_update org_id connection_id run_id
      (λ c. record c {
        sync_status = status;
        last_sync_error = error_text;
        sync_heartbeat_at = some now;
        last_synced_at = if is_idle status then some now else c.last_synced_at;
      })
      table
