-- ===== src/Sync/Planner.antt =====
-- backend/app/connectors/imap/sync/fetch_planner.py: batching of UIDs by size, and the advance of a
-- folder's cursor.
pub mod Batches
pub mod Advance
use one_ai.Prelude.{
  ℕ, ◌+◌, not, ◌&&◌, Option, List, [], ◌∷◌, ◌++◌, ltb, leb, value_or, is_empty, contains,
  if◌then◌else◌,
}

-- the variables of the loop of `batch_by_bytes`
pub record Packing : Type 0 where
  pub batches : List (List ℕ)
  pub current : List ℕ
  pub running : ℕ

-- `sizes.get(uid, batch_bytes)`
unfoldable pub size_of : (ℕ → Option ℕ) → ℕ → ℕ → ℕ
size_of sizes batch_bytes uid = value_or batch_bytes (sizes uid)

unfoldable pub pack_one : (ℕ → Option ℕ) → ℕ → Packing → ℕ → Packing
unfolding size_of
pack_one sizes batch_bytes s uid =
    let size = size_of sizes batch_bytes uid in
    if not (is_empty s.current) && ltb batch_bytes (s.running + size)
    then record { batches = s.batches ++ s.current ∷ []; current = uid ∷ []; running = size }
    else record { batches = s.batches; current = s.current ++ uid ∷ []; running = s.running + size }

unfoldable pub pack_all : (ℕ → Option ℕ) → ℕ → List ℕ → Packing → Packing
pack_all sizes batch_bytes [] s = s
pack_all sizes batch_bytes (uid ∷ uids) s =
    pack_all sizes batch_bytes uids (pack_one sizes batch_bytes s uid)

unfoldable pub close_packing : Packing → List (List ℕ)
close_packing s = if is_empty s.current then s.batches else s.batches ++ s.current ∷ []

unfoldable pub batch_by_bytes : List ℕ → (ℕ → Option ℕ) → ℕ → List (List ℕ)
unfolding pack_all pack_one close_packing
batch_by_bytes uids sizes batch_bytes =
    close_packing
      (pack_all sizes batch_bytes uids (record { batches = []; current = []; running = 0 }))

-- the loop of `highest_contiguous_uid`
unfoldable pub advance_over : List ℕ → List ℕ → ℕ → ℕ → ℕ
advance_over [] seen floor advanced = advanced
advance_over (uid ∷ uids) seen floor advanced =
    let skipped = advance_over uids seen floor advanced in
    let taken = advance_over uids seen floor uid in
    if leb uid floor then skipped else if not (contains uid seen) then advanced else taken

unfoldable pub highest_contiguous_uid : List ℕ → List ℕ → ℕ → ℕ
unfolding advance_over
highest_contiguous_uid candidates accounted floor = advance_over candidates accounted floor floor
