-- ===== src/Connectors/Connection/Life.antt =====
-- The life of a run on its connection, from the claim to the end.
use one_ai.Prelude.{
  ℕ, ◌≤◌, Uuid, Time, ◌≡◌, refl, sym, ap, subst, ◌∙◌, inl, inr, Bool, true, ==_refl, none, some, [],
  ◌∷◌, arith, ltb, find_where, find_where_sound, find_where-update_where, update_where, count_where,
  Bool-cases,
}
use one_ai.Connectors.Connection.{
  Connection, Connections, idle, is_in_org, get_in_org, claim_for_sync, holds_claim, fenced_update,
  set_total, set_synced_count, finalize_sync,
}
use one_ai.Connectors.Connection.Fence.{IsKeyed, is_free, begun, claim_for_sync_exact}

module _ (org_id connection_id : Uuid) where
  -- the one row of the connection
  abbrev pub IsRow : Connections → Connection → Type 0
  IsRow table c =
      IsKeyed org_id connection_id table × (get_in_org connection_id org_id table ≡ some c)

  keyed_update :
      (p : Connection → Bool) (f : Connection → Connection) (table : Connections)
      → ((c : Connection) → is_in_org connection_id org_id (f c) ≡ is_in_org connection_id org_id c)
      → count_where (is_in_org connection_id org_id) (update_where p f table)
        ≡ count_where (is_in_org connection_id org_id) table
  keyed_update p f [] same = refl
  keyed_update p f (c ∷ table) same = ground (arith, same c, keyed_update p f table same)

  holds_own :
      (run_id : Uuid) (c : Connection)
      → is_in_org connection_id org_id c ≡ true
      → c.sync_run_id ≡ some run_id
      → holds_claim org_id connection_id run_id c ≡ true
  holds_own run_id c here own = rw (here, own, ==_refl run_id) refl

  held_count :
      (run_id : Uuid) (table : Connections) (c : Connection)
      → find_where (is_in_org connection_id org_id) table ≡ some c
      → c.sync_run_id ≡ some run_id
      → ltb 0 (count_where (holds_claim org_id connection_id run_id) table) ≡ true
  held_count run_id [] c found own = absurd (ground (arith, found))
  held_count run_id (r ∷ table) c found own = elim (Bool-cases (is_in_org connection_id org_id r)) [
    | inl here ↦
        (let same : r ≡ c = ground (arith, here, found) in
          let holds : holds_claim org_id connection_id run_id r ≡ true =
            ap (holds_claim org_id connection_id run_id) same
            ∙ holds_own run_id c
                (find_where_sound (is_in_org connection_id org_id) (r ∷ table) found) own in
          rw holds (ground arith))
    | inr other ↦ ground (arith, other, held_count run_id table c (rw other at found) own)
  ]

  fenced :
      (run_id : Uuid) (values : Connection → Connection) (table : Connections) (c : Connection)
      → ((r : Connection)
          → is_in_org connection_id org_id (values r) ≡ is_in_org connection_id org_id r)
      → c.sync_run_id ≡ some run_id
      → IsRow table c
      → ((fenced_update org_id connection_id run_id values table).0 ≡ true)
        × IsRow (fenced_update org_id connection_id run_id values table).1 (values c)
  unfolding fenced_update get_in_org
  fenced run_id values table c same own (keyed, found) = (
    held_count run_id table c found own,
    (
      subst (λ n. n ≤ 1) (sym (keyed_update _ values table same)) keyed,
      find_where-update_where (is_in_org connection_id org_id)
            (holds_claim org_id connection_id run_id) values table same
          ∙ rw found (
              rw
                (holds_own run_id c (find_where_sound (is_in_org connection_id org_id) table found)
                  own)
                refl),
    ),
  )

  claim-IsKeyed :
      (run_id : Uuid) (now : Time) (stale : ℕ) (table : Connections)
      → IsKeyed org_id connection_id table
      → IsKeyed org_id connection_id (claim_for_sync org_id connection_id run_id now stale table).1
  unfolding claim_for_sync
  claim-IsKeyed run_id now stale table keyed =
      subst (λ n. n ≤ 1) (sym (keyed_update _ _ table (λ c. refl))) keyed

  -- On the one row of a connection that is free, the claim of a run, its total, its count and its
  -- successful end all find the claim held, and leave the row idle under that run, started at the
  -- claim, with the total, the count and the time of the end as its last heartbeat and last sync,
  -- without an error, and with all other columns as they were.
  pub run_life :
      (run_id : Uuid) (now : Time) (stale n m : ℕ) (at end_at : Time) (table : Connections)
      (c : Connection)
      → IsRow table c
      → is_free now stale c.disabled_at c.sync_status c.sync_heartbeat_at ≡ true
      → let (won, t) = claim_for_sync org_id connection_id run_id now stale table in
        let (counted, t') = set_total org_id connection_id run_id n t in
        let (synced, t'') = set_synced_count org_id connection_id run_id m at t' in
        let (ended, after) = finalize_sync org_id connection_id run_id idle none end_at t'' in
        (won ≡ true)
        × (counted ≡ true)
        × (synced ≡ true)
        × (ended ≡ true)
        × (get_in_org connection_id org_id after
            ≡ some (record (begun run_id now c) {
              sync_status = idle;
              sync_heartbeat_at = some end_at;
              total_count = some n;
              synced_count = m;
              last_synced_at = some end_at;
            }))
  unfolding set_total set_synced_count finalize_sync
  run_life run_id now stale n m at end_at table c (keyed, found) free =
      let (won, taken) = claim_for_sync_exact org_id connection_id run_id now stale table keyed in
      let row : IsRow (claim_for_sync org_id connection_id run_id now stale table).1
          (begun run_id now c) =
        (claim-IsKeyed run_id now stale table keyed, taken ∙ rw found (rw free refl)) in
      let (counted, row') =
        fenced run_id (λ r. record r { total_count = some n }) _ _ (λ r. refl) refl row in
      let (synced, row'') =
        fenced run_id (λ r. record r { synced_count = m; sync_heartbeat_at = some at }) _ _
          (λ r. refl) refl row' in
      let (ended, last) =
        fenced run_id
          (λ r. record r {
            sync_status = idle;
            last_sync_error = none;
            sync_heartbeat_at = some end_at;
            last_synced_at = some end_at;
          })
          _ _ (λ r. refl) refl row'' in
      (won ∙ rw found free, counted, synced, ended, last.1)
