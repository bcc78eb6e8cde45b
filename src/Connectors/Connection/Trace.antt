-- ===== src/Connectors/Connection/Trace.antt =====
-- Any interleaving of claims, fenced writes and admin switches on one connection.
use one_ai.Prelude.{
  ℕ, Uuid, Time, String, ◌≡◌, ◌≢◌, refl, Bool, true, false, Option, List, [], ◌∷◌, arith, ◌==◌, All,
  update_where, All-update_where, sym, ==_iff, subst,
}
use one_ai.Connectors.Connection.{
  Connection, Connections, SyncStatus, is_in_org, is_claimable, claimed, claim_for_sync,
  holds_claim, heartbeat, set_total, set_synced_count, finalize_sync, fenced_update,
}
use one_ai.Connectors.Connection.Fence.{
  IsKeyed, IsDisplaced, fenced_update-displaced, claim-IsDisplaced,
}

-- A statement on the connection: the claim and the fenced writes name their run; `switch` is an
-- admin's disable or enable.
pub data Write : Type 0 where
  claim : Uuid → Time → ℕ → Write
  beat : Uuid → Time → Write
  total : Uuid → ℕ → Write
  synced : Uuid → ℕ → Time → Write
  finish : Uuid → SyncStatus → Option String → Time → Write
  switch : Option Time → Write

abbrev pub claims : Uuid → Write → Bool
claims run_id (claim r _ _) = r == run_id
claims run_id _ = false

abbrev pub fenced_by : Uuid → Write → Bool
fenced_by run_id (beat r _) = r == run_id
fenced_by run_id (total r _) = r == run_id
fenced_by run_id (synced r _ _) = r == run_id
fenced_by run_id (finish r _ _ _) = r == run_id
fenced_by run_id _ = false

module _ (org_id connection_id : Uuid) where
  pub perform : Write → Connections → Bool × Connections
  perform (claim r now stale) t = claim_for_sync org_id connection_id r now stale t
  perform (beat r now) t = heartbeat org_id connection_id r now t
  perform (total r n) t = set_total org_id connection_id r n t
  perform (synced r n now) t = set_synced_count org_id connection_id r n now t
  perform (finish r status e now) t = finalize_sync org_id connection_id r status e now t
  perform (switch at) t =
      (true, update_where (is_in_org connection_id org_id) (λ c. record c { disabled_at = at }) t)

  pub perform_all : List Write → Connections → Connections
  perform_all [] t = t
  perform_all (w ∷ ws) t = perform_all ws (perform w t).1

  fenced_update_keeps :
      (run_id r : Uuid) (values : Connection → Connection) (t : Connections)
      → ((c : Connection)
          → holds_claim org_id connection_id run_id (values c)
            ≡ holds_claim org_id connection_id run_id c)
      → IsDisplaced org_id connection_id run_id t
      → IsDisplaced org_id connection_id run_id (fenced_update org_id connection_id r values t).1
  unfolding fenced_update
  fenced_update_keeps run_id r values t same h =
      All-update_where (λ c. holds_claim org_id connection_id run_id c ≡ false)
        (holds_claim org_id connection_id r) values t (λ c _ out. rw (same c) out) h

  perform-IsDisplaced :
      (run_id : Uuid) (w : Write) (t : Connections)
      → claims run_id w ≡ false
      → IsDisplaced org_id connection_id run_id t
      → IsDisplaced org_id connection_id run_id (perform w t).1
  unfolding perform claim_for_sync heartbeat set_total set_synced_count finalize_sync
  perform-IsDisplaced run_id (claim r now stale) t other h =
      All-update_where (λ c. holds_claim org_id connection_id run_id c ≡ false)
        (is_claimable org_id connection_id now stale) (claimed r now) t
        (λ c _ out. ground (arith, other)) h
  perform-IsDisplaced run_id (beat r now) t other h = fenced_update_keeps run_id r _ t (λ c. refl) h
  perform-IsDisplaced run_id (total r n) t other h = fenced_update_keeps run_id r _ t (λ c. refl) h
  perform-IsDisplaced run_id (synced r n now) t other h =
      fenced_update_keeps run_id r _ t (λ c. refl) h
  perform-IsDisplaced run_id (finish r status e now) t other h =
      fenced_update_keeps run_id r _ t (λ c. refl) h
  perform-IsDisplaced run_id (switch at) t other h =
      All-update_where (λ c. holds_claim org_id connection_id run_id c ≡ false) _ _ t
        (λ c _ out. out) h

  perform_all-IsDisplaced :
      (run_id : Uuid) (ws : List Write) (t : Connections)
      → All (λ w. claims run_id w ≡ false) ws
      → IsDisplaced org_id connection_id run_id t
      → IsDisplaced org_id connection_id run_id (perform_all ws t)
  unfolding perform_all
  perform_all-IsDisplaced run_id [] t none_by h = h
  perform_all-IsDisplaced run_id (w ∷ ws) t none_by h =
      perform_all-IsDisplaced run_id ws (perform w t).1 none_by.1
        (perform-IsDisplaced run_id w t none_by.0 h)

  fenced_by_displaced :
      (run_id r : Uuid) (values : Connection → Connection) (t : Connections)
      → (r == run_id) ≡ true
      → IsDisplaced org_id connection_id run_id t
      → fenced_update org_id connection_id r values t ≡ (false, t)
  fenced_by_displaced run_id r values t same h =
      let e : run_id ≡ r = sym ((==_iff r run_id).0 same) in
      fenced_update-displaced org_id connection_id r values t
        (subst (λ k. IsDisplaced org_id connection_id k t) e h)

  perform-displaced :
      (run_id : Uuid) (w : Write) (t : Connections)
      → fenced_by run_id w ≡ true
      → IsDisplaced org_id connection_id run_id t
      → perform w t ≡ (false, t)
  unfolding perform heartbeat set_total set_synced_count finalize_sync
  perform-displaced run_id (claim r now stale) t by h = cc
  perform-displaced run_id (beat r now) t by h = fenced_by_displaced run_id r _ t by h
  perform-displaced run_id (total r n) t by h = fenced_by_displaced run_id r _ t by h
  perform-displaced run_id (synced r n now) t by h = fenced_by_displaced run_id r _ t by h
  perform-displaced run_id (finish r s e now) t by h = fenced_by_displaced run_id r _ t by h
  perform-displaced run_id (switch at) t by h = cc

  -- Once another run has won the claim on a connection with at most one row, whatever claims of
  -- other runs, fenced writes and switches by an admin follow on the connection, each heartbeat,
  -- progress write or finalize of the displaced run reports that the claim is lost and leaves the
  -- table as it is.
  pub displaced_run_never_writes :
      (run_id other : Uuid) (now : Time) (stale : ℕ) (t : Connections) (ws : List Write) (w : Write)
      → other ≢ run_id
      → IsKeyed org_id connection_id t
      → (claim_for_sync org_id connection_id run_id now stale t).0 ≡ true
      → All (λ v. claims other v ≡ false) ws
      → fenced_by other w ≡ true
      → let after = perform_all ws (claim_for_sync org_id connection_id run_id now stale t).1 in
        perform w after ≡ (false, after)
  displaced_run_never_writes run_id other now stale t ws w apart keyed won none_by by =
      perform-displaced other w _ by (
        perform_all-IsDisplaced other ws _ none_by
          (claim-IsDisplaced org_id connection_id run_id other now stale t apart keyed won))
