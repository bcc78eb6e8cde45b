-- ===== src/Examples/Planning.antt =====
-- Batches of a folder, and the advance over a gap.
use one_ai.Prelude.{ℕ, ◌≤◌, ◌<◌, ◌≡◌, true, Option, some, [], ◌∷◌, arith, contains, All}
use one_ai.Sync.Planner.{highest_contiguous_uid, batch_by_bytes}
use one_ai.Sync.Planner.Advance.{highest_contiguous_uid_exact}
use one_ai.Sync.Planner.Batches.{batch_by_bytes_exact, IsBounded, joined}

abbrev sizes_of : ℕ → Option ℕ
sizes_of uid = some 40

batch_by_bytes_exact_example :
    (joined (batch_by_bytes (1 ∷ 2 ∷ 3 ∷ []) sizes_of 100) ≡ 1 ∷ 2 ∷ 3 ∷ [])
    × All (IsBounded sizes_of 100) (batch_by_bytes (1 ∷ 2 ∷ 3 ∷ []) sizes_of 100)
batch_by_bytes_exact_example = batch_by_bytes_exact sizes_of 100 (1 ∷ 2 ∷ 3 ∷ [])

-- 3 is not accounted for, so the advance stops at 2
highest_contiguous_uid_exact_example :
    let reached = highest_contiguous_uid (1 ∷ 2 ∷ 3 ∷ 4 ∷ []) (4 ∷ 2 ∷ 1 ∷ []) 0 in
    (0 ≤ reached)
    × ((u : ℕ)
        → contains u (1 ∷ 2 ∷ 3 ∷ 4 ∷ []) ≡ true
        → 0 < u
        → u ≤ reached
        → contains u (4 ∷ 2 ∷ 1 ∷ []) ≡ true)
    × ((t : ℕ)
        → contains t (1 ∷ 2 ∷ 3 ∷ 4 ∷ []) ≡ true
        → 0 < t
        → ((u : ℕ)
            → contains u (1 ∷ 2 ∷ 3 ∷ 4 ∷ []) ≡ true
            → 0 < u
            → u ≤ t
            → contains u (4 ∷ 2 ∷ 1 ∷ []) ≡ true)
        → t ≤ reached)
highest_contiguous_uid_exact_example =
    highest_contiguous_uid_exact (1 ∷ 2 ∷ 3 ∷ 4 ∷ []) (4 ∷ 2 ∷ 1 ∷ []) 0 0 (omega arith)
