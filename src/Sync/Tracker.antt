-- ===== src/Sync/Tracker.antt =====
-- `_Counts` and `_FolderTracker` of backend/app/connectors/sync/connector_sync_runner.py.
use one_ai.Prelude.{
  ℕ, Option, List, [], ◌∷◌, ◌++◌, leb, contains, keep_if, not, ◌==◌, value_or, if◌then◌else◌,
}

pub record Counts : Type 0 where
  pub seen : ℕ
  pub stored : ℕ
  pub skipped : ℕ
  pub failed : ℕ

abbrev pub no_counts : Counts
no_counts = record { seen = 0; stored = 0; skipped = 0; failed = 0 }

-- sets of UIDs as lists
unfoldable pub add : ℕ → List ℕ → List ℕ
add u s = if contains u s then s else u ∷ s

unfoldable pub discard : ℕ → List ℕ → List ℕ
discard u s = keep_if (λ x. not (x == u)) s

unfoldable pub insert_sorted : ℕ → List ℕ → List ℕ
insert_sorted u [] = u ∷ []
insert_sorted u (x ∷ xs) = if leb u x then u ∷ x ∷ xs else x ∷ insert_sorted u xs

unfoldable pub sorted : List ℕ → List ℕ
unfolding insert_sorted
sorted [] = []
sorted (x ∷ xs) = insert_sorted x (sorted xs)

pub record FolderTracker : Type 0 where
  pub uidvalidity : ℕ
  pub floor : ℕ
  pub candidates : List ℕ
  pub accounted : List ℕ
  pub failed : List ℕ

-- the loaded state of a folder's cursor
pub record FolderSyncState : Type 0 where
  pub uidvalidity : Option ℕ
  pub last_seen_uid : ℕ
  pub failed_uids : List ℕ

unfoldable pub from_state : FolderSyncState → FolderTracker
from_state state = record {
  uidvalidity = value_or 0 state.uidvalidity;
  floor = state.last_seen_uid;
  candidates = [];
  accounted = [];
  failed = state.failed_uids;
}

abbrev pub fresh_tracker : ℕ → FolderTracker
fresh_tracker uidvalidity = record {
  uidvalidity = uidvalidity;
  floor = 0;
  candidates = [];
  accounted = [];
  failed = [];
}

unfoldable pub note_requested : List ℕ → FolderTracker → FolderTracker
note_requested uids t = record t { candidates = t.candidates ++ uids }

unfoldable pub account : ℕ → FolderTracker → FolderTracker
unfolding add discard
account uid t = record t { accounted = add uid t.accounted; failed = discard uid t.failed }

unfoldable pub fail : ℕ → FolderTracker → FolderTracker
unfolding add
fail uid t = record t { failed = add uid t.failed }
