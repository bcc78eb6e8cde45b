-- ===== src/Sync/Runner/Safety/Start.antt =====
-- The start of a run: trackers seeded from the stored cursors are on track for the stream that the
-- IMAP fetcher opens at these cursors.
use one_ai.Prelude.{
  ℕ, ◌+◌, ◌<◌, Uuid, ◌≡◌, refl, ap, Bool, inl, inr, Option, none, some, List, [], ◌∷◌, arith, leb,
  ◌==◌, ==_iff, keep_if, contains-keep_if, IsAscending, IsAscending-lt, IsAscending-weaken,
  Bool-cases,
}
use one_ai.Sync.Fetch.{FetchedMessage}
use one_ai.Sync.Fetcher.{min_uid_of}
use one_ai.Sync.Ingest.{Ingest}
use one_ai.Sync.Store.{CursorRow, load}
use one_ai.Sync.Tracker.{FolderTracker, from_state}
use one_ai.Sync.Runner.{of_generation, resume_at, resume_tracker}
use one_ai.Sync.Runner.Cursor.{IsTracking, IsCovered}

IsAscending-keep_if :
    (lo : ℕ) (p : ℕ → Bool) (xs : List ℕ) → IsAscending lo xs → IsAscending lo (keep_if p xs)
IsAscending-keep_if lo p [] h = tt
IsAscending-keep_if lo p (x ∷ xs) h = elim (Bool-cases (p x)) [
  | inl kept ↦ rw kept (h.0, IsAscending-keep_if x p xs h.1)
  | inr dropped ↦
      rw dropped (
        IsAscending-weaken lo x (keep_if p xs) (omega (arith, h.0))
          (IsAscending-keep_if x p xs h.1))
]

module _ (i : Ingest) (org_id connection_id run_id : Uuid) (message : ℕ → FetchedMessage)
    (server : List ℕ) (ascending : IsAscending 0 server) (mail : i.Mail) where
  abbrev Tracking : FolderTracker → List ℕ → Type 0
  Tracking = IsTracking i org_id connection_id run_id message server 0 mail

  abbrev CoversTo : ℕ → Type 0
  CoversTo = IsCovered i org_id connection_id run_id message server 0 mail

  abbrev empty_tracker : ℕ → ℕ → List ℕ → FolderTracker
  empty_tracker uidvalidity floor failed = record {
    uidvalidity = uidvalidity;
    floor = floor;
    candidates = [];
    accounted = [];
    failed = failed;
  }

  Tracking-from :
      (uidvalidity floor : ℕ) (failed : List ℕ)
      → CoversTo floor
      → Tracking (empty_tracker uidvalidity floor failed) (keep_if (leb (floor + 1)) server)
  Tracking-from uidvalidity floor failed covered = record {
    accounted_there = λ u m. absurd (ground (arith, m));
    covered = covered;
    pending = λ u m above. ground (arith, contains-keep_if u (leb (floor + 1)) server, m, above);
    ordered = IsAscending-keep_if 0 (leb (floor + 1)) server ascending;
  }

  covers_zero : CoversTo 0
  covers_zero u m le = absurd (omega (arith, IsAscending-lt 0 u server ascending m))

  -- the tracker and the first UID that a stored state of the folder gives
  Tracking-state :
      (v : ℕ) (u : Option ℕ) (last : ℕ) (failed : List ℕ)
      → 0 < v
      → (u ≡ some v → CoversTo last)
      → Tracking
          (of_generation v (
            some (
              from_state (record { uidvalidity = u; last_seen_uid = last; failed_uids = failed }))))
          (keep_if
            (leb (min_uid_of (some (record { uidvalidity = u; last_seen_uid = last })) v))
            server)
  unfolding from_state
  Tracking-state v none last failed pos covers = elim (Bool-cases (0 == v)) [
    | inl zero_is ↦ absurd (ground (arith, zero_is))
    | inr apart ↦ rw apart (Tracking-from v 0 [] covers_zero)
  ]
  Tracking-state v (some w) last failed pos covers = elim (Bool-cases (w == v)) [
    | inl same ↦
        rw same (Tracking-from w last failed (covers (ap (λ k. some k) ((==_iff w v).0 same))))
    | inr apart ↦ rw apart (Tracking-from v 0 [] covers_zero)
  ]

  pub Tracking-start :
      (v : ℕ) (r : Option CursorRow)
      → 0 < v
      → ((row : CursorRow) → r ≡ some row → row.uidvalidity ≡ some v → CoversTo row.last_seen_uid)
      → Tracking
          (of_generation v (resume_tracker (load r)))
          (keep_if (leb (min_uid_of (resume_at (load r)) v)) server)
  Tracking-start v none pos covers = Tracking-from v 0 [] covers_zero
  Tracking-start v (some row) pos covers =
      Tracking-state v row.uidvalidity row.last_seen_uid row.failed_uids pos (covers row refl)
