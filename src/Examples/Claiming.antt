-- ===== src/Examples/Claiming.antt =====
-- Two runs and one connection.
use one_ai.Prelude.{◌≡◌, refl, false, true, none, some, List, [], ◌∷◌, arith}
use one_ai.Examples.{idle_mailbox, busy_mailbox}
use one_ai.Connectors.Connection.{
  idle, claim_for_sync, get_in_org, set_total, set_synced_count, finalize_sync,
}
use one_ai.Connectors.Connection.Fence.{begun, claim_for_sync_exact, claim_fails_while_fresh}
use one_ai.Connectors.Connection.Life.{run_life}
use one_ai.Connectors.Connection.Trace.{
  Write, beat, total, switch, perform, perform_all, displaced_run_never_writes,
}

claim_for_sync_exact_example :
    let (won, after) = claim_for_sync 1 2 30 100 600 (idle_mailbox ∷ []) in
    (won ≡ true) × (get_in_org 2 1 after ≡ some (begun 30 100 idle_mailbox))
unfolding get_in_org
claim_for_sync_exact_example = claim_for_sync_exact 1 2 30 100 600 (idle_mailbox ∷ []) (omega arith)

claim_fails_while_fresh_example :
    claim_for_sync 1 2 31 200 600 (busy_mailbox ∷ []) ≡ (false, busy_mailbox ∷ [])
unfolding get_in_org
claim_fails_while_fresh_example =
    claim_fails_while_fresh 1 2 31 200 100 600 (busy_mailbox ∷ []) {c = busy_mailbox} (omega arith)
      refl refl refl (omega arith)

-- run 31 claims the stale connection, beats, and the old run 30 comes back to finish
abbrev later_writes : List Write
later_writes = beat 31 1010 ∷ total 31 5 ∷ switch (some 1015) ∷ []

displaced_run_never_writes_example :
    let after =
      perform_all 1 2 later_writes (claim_for_sync 1 2 31 1000 600 (busy_mailbox ∷ [])).1 in
    perform 1 2 (total 30 9) after ≡ (false, after)
unfolding claim_for_sync
displaced_run_never_writes_example =
    displaced_run_never_writes 1 2 31 30 1000 600 (busy_mailbox ∷ []) later_writes (total 30 9)
      (λ e. absurd (omega arith)) (omega arith) refl (refl, (refl, (refl, tt))) refl

-- run 30 finds 5 messages, stores 3 and ends
run_life_example :
    let (won, t) = claim_for_sync 1 2 30 100 600 (idle_mailbox ∷ []) in
    let (counted, t') = set_total 1 2 30 5 t in
    let (synced, t'') = set_synced_count 1 2 30 3 110 t' in
    let (ended, after) = finalize_sync 1 2 30 idle none 120 t'' in
    (won ≡ true)
    × (counted ≡ true)
    × (synced ≡ true)
    × (ended ≡ true)
    × (get_in_org 2 1 after
        ≡ some (record (begun 30 100 idle_mailbox) {
          sync_status = idle;
          sync_heartbeat_at = some 120;
          total_count = some 5;
          synced_count = 3;
          last_synced_at = some 120;
        }))
unfolding get_in_org
run_life_example =
    run_life 1 2 30 100 600 5 3 110 120 (idle_mailbox ∷ []) idle_mailbox (omega arith, refl) refl
