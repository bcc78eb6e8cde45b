-- ===== src/Sync/Runner/Cursor.antt =====
-- One folder: the tracker, its cursor, and the UIDs that are still to be requested.
use one_ai.Prelude.{
  ℕ, Uuid, ◌≤◌, ◌<◌, ◌≡◌, sym, subst, inl, inr, true, List, ◌++◌, arith, ltb, Bool-cases, contains,
  contains-append, contains-keep_if, keep_if, append_assoc, IsAscending, IsAscending-append_lt,
  IsAscending-append_left, IsAscending-drop_le,
}
use one_ai.Sync.Fetch.{FetchedMessage}
use one_ai.Sync.Ingest.{Ingest}
use one_ai.Sync.Planner.{highest_contiguous_uid}
use one_ai.Sync.Planner.Advance.{highest_contiguous_uid_exact, highest_contiguous_uid-mem}
use one_ai.Sync.Runner.{Tally, settled_tracker, advance_of}
use one_ai.Sync.Runner.Messages.{IsThere, AllThere, Keeps, IsSettled}
use one_ai.Sync.Tracker.{FolderTracker, note_requested}

advance_of-ge : (lo : ℕ) (t : FolderTracker) → IsAscending lo t.candidates → t.floor ≤ advance_of t
unfolding advance_of
advance_of-ge lo t h = (highest_contiguous_uid_exact t.candidates t.accounted t.floor lo h).0

module _ (i : Ingest) (org_id connection_id run_id : Uuid) (message : ℕ → FetchedMessage)
    (server : List ℕ) (lo : ℕ) where
  -- all mail of the folder up to the cursor is there
  abbrev pub IsCovered : i.Mail → ℕ → Type 0
  IsCovered s cursor =
      (u : ℕ)
      → contains u server ≡ true
      → u ≤ cursor
      → IsThere i org_id connection_id run_id message s u

  -- `rest` is what the stream will still request of the folder
  pub record IsTracking (s : i.Mail) (t : FolderTracker) (rest : List ℕ) : Type 0 where
    pub accounted_there : AllThere i org_id connection_id run_id message s t.accounted
    pub covered : IsCovered s t.floor
    pub pending :
        (u : ℕ) → contains u server ≡ true → t.floor < u → contains u (t.candidates ++ rest) ≡ true
    pub ordered : IsAscending lo (t.candidates ++ rest)

  pub IsTracking-Keeps :
      (s s' : i.Mail) (t : FolderTracker) (rest : List ℕ)
      → Keeps i org_id connection_id run_id message s s'
      → IsTracking s t rest
      → IsTracking s' t rest
  IsTracking-Keeps s s' t rest keeps h = record {
    accounted_there = λ u m. keeps (message u) (h.accounted_there u m);
    covered = λ u m le. keeps (message u) (h.covered u m le);
    pending = h.pending;
    ordered = h.ordered;
  }

  pub IsTracking-note_requested :
      (s : i.Mail) (t : FolderTracker) (requested rest : List ℕ)
      → IsTracking s t (requested ++ rest)
      → IsTracking s (note_requested requested t) rest
  unfolding note_requested
  IsTracking-note_requested s t requested rest h = record {
    accounted_there = h.accounted_there;
    covered = h.covered;
    pending = λ u m above. rw append_assoc (h.pending u m above);
    ordered = rw append_assoc h.ordered;
  }

  pub IsTracking-IsSettled :
      (before after : Tally i.Mail) (rest : List ℕ)
      → IsSettled i org_id connection_id run_id message before after
      → IsTracking before.mail before.tracker rest
      → IsTracking after.mail after.tracker rest
  IsTracking-IsSettled before after rest f h = record {
    accounted_there = f.accounted_there;
    covered = λ u m le. f.keeps (message u) (h.covered u m (subst (λ k. u ≤ k) f.same_floor le));
    pending = λ u m above.
        subst (λ c. contains u (c ++ rest) ≡ true) (sym f.same_candidates)
          (h.pending u m (subst (λ k. k < u) f.same_floor above));
    ordered = subst (λ c. IsAscending lo (c ++ rest)) (sym f.same_candidates) h.ordered;
  }

  -- The advance covers all mail up to the new cursor.
  pub advance-IsCovered :
      (s : i.Mail) (t : FolderTracker) (rest : List ℕ)
      → IsTracking s t rest
      → IsCovered s (advance_of t)
  unfolding advance_of
  advance-IsCovered s t rest h u on_server le = elim (Bool-cases (ltb t.floor u)) [
    | inl above ↦ elim (Bool-cases (contains u t.candidates)) [
      | inl candidate ↦ h.accounted_there u (
          (highest_contiguous_uid_exact t.candidates t.accounted t.floor lo
              (IsAscending-append_left lo t.candidates rest h.ordered)).1
            u candidate (ground (arith, above)) le)
      | inr later ↦ absurd (
          ground (
            arith,
            later,
            contains-append u t.candidates rest,
            h.pending u on_server (ground (arith, above)),
            highest_contiguous_uid-mem t.candidates t.accounted t.floor,
            IsAscending-append_lt lo (highest_contiguous_uid t.candidates t.accounted t.floor) u
                t.candidates rest h.ordered,
          ))
    ]
    | inr below ↦ h.covered u on_server (ground (arith, below))
  ]

  -- Pruning the candidates to those above the advance keeps the folder on track.
  pub settled_tracker-IsTracking :
      (s : i.Mail) (t : FolderTracker) (rest : List ℕ)
      → IsTracking s t rest
      → IsTracking s (settled_tracker t (advance_of t)) rest
  settled_tracker-IsTracking s t rest h = record {
    accounted_there = h.accounted_there;
    covered = advance-IsCovered s t rest h;
    pending = λ u on_server above. still_pending u on_server above;
    ordered = IsAscending-drop_le lo (advance_of t) t.candidates rest h.ordered;
  }
    where
      floor_le : t.floor ≤ advance_of t
      floor_le = advance_of-ge lo t (IsAscending-append_left lo t.candidates rest h.ordered)

      still_pending :
          (u : ℕ)
          → contains u server ≡ true
          → advance_of t < u
          → contains u (keep_if (λ uid. ltb (advance_of t) uid) t.candidates ++ rest) ≡ true
      still_pending u on_server above = ground (
        arith,
        contains-append u t.candidates rest,
        contains-append u (keep_if (λ uid. ltb (advance_of t) uid) t.candidates) rest,
        contains-keep_if u (λ uid. ltb (advance_of t) uid) t.candidates,
        h.pending u on_server (omega (arith, floor_le)),
      )
