-- ===== src/Connectors/Connection/Fence.antt =====
-- The claim is a fence: a live run is never displaced, and a run that was displaced never writes
-- to the connection again.
use mathlib.Core.Option
use one_ai.Prelude.{
  ℕ, ◌+◌, ◌≤◌, Uuid, Time, ◌≡◌, ◌≢◌, refl, ◌∙◌, Bool, true, false, not, ◌&&◌, ◌||◌, ltb, is_none,
  find_where_sound, Option-cases, inl, inr, Option, none, some, [], ◌∷◌, arith, All, update_where,
  count_where, update_where_none, find_where-update_where, count_where_keyed, count_where-All,
  if◌then◌else◌,
}
use one_ai.Connectors.Connection.{
  Connection, Connections, SyncStatus, idle, running, SyncStatus.error, is_running, is_stale,
  is_in_org, get_in_org, is_claimable, claimed, claim_for_sync, holds_claim, fenced_update,
}

-- May a run begin? Not on a disabled connection, and on one that runs only after a silence.
abbrev pub is_free : Time → ℕ → Option Time → SyncStatus → Option Time → Bool
is_free now stale (some disabled) status beat = false
is_free now stale none idle beat = true
is_free now stale none error beat = true
is_free now stale none running none = false
is_free now stale none running (some beat) = ltb (beat + stale) now

-- the row of a run that has just begun
abbrev pub begun : Uuid → Time → Connection → Connection
begun run_id now c = record {
  id = c.id;
  org_id = c.org_id;
  connector_type = c.connector_type;
  owner_user_id = c.owner_user_id;
  display_name = c.display_name;
  username = c.username;
  host = c.host;
  port = c.port;
  use_ssl = c.use_ssl;
  secret_ciphertext = c.secret_ciphertext;
  secret_key_version = c.secret_key_version;
  status = c.status;
  last_checked_at = c.last_checked_at;
  last_error = c.last_error;
  disabled_at = c.disabled_at;
  sync_status = running;
  sync_run_id = some run_id;
  sync_started_at = some now;
  sync_heartbeat_at = some now;
  last_synced_at = c.last_synced_at;
  synced_count = 0;
  total_count = none;
  last_sync_error = none;
}

module _ (org_id connection_id : Uuid) where
  -- the primary key: at most one row has the connection's id
  abbrev pub IsKeyed : Connections → Type 0
  IsKeyed table = count_where (is_in_org connection_id org_id) table ≤ 1

  claimable_in_org :
      (now : Time) (stale : ℕ) (c : Connection)
      → is_claimable org_id connection_id now stale c ≡ true
      → is_in_org connection_id org_id c ≡ true
  claimable_in_org now stale c h = ground arith

  is_free_lem :
      (now : Time) (stale : ℕ) (c : Connection)
      → is_in_org connection_id org_id c ≡ true
      → is_claimable org_id connection_id now stale c
        ≡ is_free now stale c.disabled_at c.sync_status c.sync_heartbeat_at
  is_free_lem now stale c here =
      rw here (by_columns c.disabled_at c.sync_status c.sync_heartbeat_at)
    where
      by_columns :
          (d : Option Time) (status : SyncStatus) (b : Option Time)
          → (is_none d && (not (is_running status) || is_stale now stale b))
            ≡ is_free now stale d status b
      by_columns (some d) status b = refl
      by_columns none idle b = refl
      by_columns none error b = refl
      by_columns none running none = refl
      by_columns none running (some b) = refl

  claim_for_sync-keyed :
      (run_id : Uuid) (now : Time) (stale : ℕ) (table : Connections)
      → IsKeyed table
      → let (won, after) = claim_for_sync org_id connection_id run_id now stale table in
        (won ≡ elim (get_in_org connection_id org_id table) [
          | none ↦ false
          | some c ↦ is_claimable org_id connection_id now stale c
        ])
        × (get_in_org connection_id org_id after
            ≡ Option.map
                (λ c.
                  if is_claimable org_id connection_id now stale c then claimed run_id now c else c)
                (get_in_org connection_id org_id table))
  unfolding claim_for_sync get_in_org
  claim_for_sync-keyed run_id now stale table keyed = (
    ground (
      arith,
      count_where_keyed (is_in_org connection_id org_id)
          (is_claimable org_id connection_id now stale) table (claimable_in_org now stale) keyed,
    ),
    find_where-update_where (is_in_org connection_id org_id)
        (is_claimable org_id connection_id now stale) (claimed run_id now) table (λ c. refl),
  )

  -- On a connection with at most one row a claim is won exactly if the row exists, is not
  -- disabled, and is idle, failed, or running with a heartbeat that is older than the staleness
  -- bound; then the row is running under the new run, started and beaten at that moment, with its
  -- count at zero and neither a total nor an error, and all its other columns as they were, and
  -- otherwise it is unchanged.
  pub claim_for_sync_exact :
      (run_id : Uuid) (now : Time) (stale : ℕ) (table : Connections)
      → IsKeyed table
      → let (won, after) = claim_for_sync org_id connection_id run_id now stale table in
        (won ≡ elim (get_in_org connection_id org_id table) [
          | none ↦ false
          | some c ↦ is_free now stale c.disabled_at c.sync_status c.sync_heartbeat_at
        ])
        × (get_in_org connection_id org_id after
            ≡ Option.map
                (λ c.
                  if is_free now stale c.disabled_at c.sync_status c.sync_heartbeat_at
                  then begun run_id now c
                  else c)
                (get_in_org connection_id org_id table))
  unfolding get_in_org
  claim_for_sync_exact run_id now stale table keyed =
      let (won, after) = claim_for_sync-keyed run_id now stale table keyed in
      elim (Option-cases (get_in_org connection_id org_id table)) [
        | inl absent ↦ (won ∙ rw absent refl, after ∙ rw absent refl)
        | inr (c, found) ↦
            (let free = is_free_lem now stale c (find_where_sound _ table found) in
              (won ∙ rw found free, after ∙ rw found (rw free refl)))
      ]

  -- While the run that holds the connection has beaten within the staleness window, every other
  -- claim fails and changes nothing.
  pub claim_fails_while_fresh :
      (run_id : Uuid) (now beat : Time) (stale : ℕ) (table : Connections) {c : Connection}
      → IsKeyed table
      → get_in_org connection_id org_id table ≡ some c
      → c.sync_status ≡ running
      → c.sync_heartbeat_at ≡ some beat
      → now ≤ beat + stale
      → claim_for_sync org_id connection_id run_id now stale table ≡ (false, table)
  unfolding claim_for_sync get_in_org
  claim_fails_while_fresh run_id now beat stale table {c} keyed found busy beating fresh =
      ground (arith, none_selected, update_where_none selects (claimed run_id now) table)
    where
      selects : Connection → Bool
      selects = is_claimable org_id connection_id now stale

      refused : selects c ≡ false
      refused = ground (arith, busy, beating)

      none_selected : count_where selects table ≡ 0
      none_selected = ground (
        arith,
        found,
        refused,
        count_where_keyed (is_in_org connection_id org_id) selects table
            (claimable_in_org now stale) keyed,
      )

  -- no row of the connection carries the run's token
  abbrev pub IsDisplaced : Uuid → Connections → Type 0
  IsDisplaced run_id table = All (λ c. holds_claim org_id connection_id run_id c ≡ false) table

  count_where-displaced :
      (run_id : Uuid) (table : Connections)
      → IsDisplaced run_id table
      → count_where (holds_claim org_id connection_id run_id) table ≡ 0
  count_where-displaced run_id [] h = refl
  count_where-displaced run_id (c ∷ table) h =
      ground (arith, h.0, count_where-displaced run_id table h.1)

  pub fenced_update-displaced :
      (run_id : Uuid) (values : Connection → Connection) (table : Connections)
      → IsDisplaced run_id table
      → fenced_update org_id connection_id run_id values table ≡ (false, table)
  unfolding fenced_update
  fenced_update-displaced run_id values table h = ground (
    arith,
    count_where-displaced run_id table h,
    update_where_none (holds_claim org_id connection_id run_id) values table,
  )

  -- A claim that was won displaces every other run.
  pub claim-IsDisplaced :
      (run_id other : Uuid) (now : Time) (stale : ℕ) (table : Connections)
      → other ≢ run_id
      → IsKeyed table
      → (claim_for_sync org_id connection_id run_id now stale table).0 ≡ true
      → IsDisplaced other (claim_for_sync org_id connection_id run_id now stale table).1
  unfolding claim_for_sync
  claim-IsDisplaced run_id other now stale table apart keyed won = go table (
      count_where-All (is_in_org connection_id org_id) selects table (claimable_in_org now stale)
        keyed (ground arith))
    where
      selects : Connection → Bool
      selects = is_claimable org_id connection_id now stale

      go :
          (rows : Connections)
          → All (λ c. is_in_org connection_id org_id c ≡ true → selects c ≡ true) rows
          → IsDisplaced other (update_where selects (claimed run_id now) rows)
      go [] h = tt
      go (c ∷ rows) h = (ground (arith, h.0), go rows h.1)
