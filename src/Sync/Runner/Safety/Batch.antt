-- ===== src/Sync/Runner/Safety/Batch.antt =====
-- One batch: the folder's cursor moves with the mail that it covers, in one commit.
use one_ai.Prelude.{ℕ, Uuid, String, ◌≡◌, sym, subst, ◌∙◌, List, ◌++◌, arith, str_eq_iff, All}
use one_ai.Sync.Fetch.{FetchedMessage, FetchBatch}
use one_ai.Sync.Ingest.{Ingest}
use one_ai.Sync.Runner.{
  Progress, Tally, Trackers, set_tracker, tracker_for, settled_tracker, advance_of, ingest_messages,
}
use one_ai.Sync.Runner.Messages.{IsSettled, ingest_messages-IsSettled}
use one_ai.Sync.Runner.Cursor.{
  IsTracking, IsTracking-note_requested, IsTracking-IsSettled, advance-IsCovered,
  settled_tracker-IsTracking,
}
use one_ai.Sync.Runner.Safety.{Covers}
use one_ai.Sync.Tracker.{FolderTracker, note_requested}

generation-tracker_for :
    (trackers : Trackers) (f : String) (v : ℕ) → (tracker_for trackers f v).uidvalidity ≡ v
generation-tracker_for trackers f v = ground arith

module _ (i : Ingest) (org_id connection_id run_id : Uuid) (server : String → ℕ → List ℕ)
    (message : String → ℕ → ℕ → FetchedMessage) (lo : ℕ) (p : Progress i.Mail)
    (b : FetchBatch) where
  -- the variables of the loop before and after the batch's messages
  abbrev noted : Tally i.Mail
  noted = record {
    mail = p.db.mail;
    tracker = note_requested b.requested_uids (tracker_for p.trackers b.folder b.uidvalidity);
    counts = p.counts;
  }

  abbrev pub tally_of : Tally i.Mail
  tally_of = ingest_messages i org_id connection_id run_id b.messages noted

  -- the folder of the batch
  abbrev pub OnTrack : i.Mail → FolderTracker → List ℕ → Type 0
  OnTrack =
      IsTracking i org_id connection_id run_id (message b.folder b.uidvalidity)
        (server b.folder b.uidvalidity) lo

  module _ (rest : List ℕ)
      (genuine : All (λ m. m ≡ message b.folder b.uidvalidity m.uid) b.messages)
      (tracking : OnTrack p.db.mail
        (tracker_for p.trackers b.folder b.uidvalidity)
        (b.requested_uids ++ rest)) where
    noted-OnTrack : OnTrack noted.mail noted.tracker rest
    noted-OnTrack =
        IsTracking-note_requested i org_id connection_id run_id (message b.folder b.uidvalidity)
          (server b.folder b.uidvalidity) lo p.db.mail
          (tracker_for p.trackers b.folder b.uidvalidity) b.requested_uids rest tracking

    pub tally_of-IsSettled :
        IsSettled i org_id connection_id run_id (message b.folder b.uidvalidity) noted tally_of
    tally_of-IsSettled =
        ingest_messages-IsSettled i org_id connection_id run_id (message b.folder b.uidvalidity)
          b.messages noted genuine noted-OnTrack.accounted_there

    tally_of-OnTrack : OnTrack tally_of.mail tally_of.tracker rest
    tally_of-OnTrack =
        IsTracking-IsSettled i org_id connection_id run_id (message b.folder b.uidvalidity)
          (server b.folder b.uidvalidity) lo noted tally_of rest tally_of-IsSettled noted-OnTrack

    pub tally_of-covered :
        Covers i org_id connection_id run_id server message lo b.folder b.uidvalidity tally_of.mail
          (advance_of tally_of.tracker)
    tally_of-covered =
        advance-IsCovered i org_id connection_id run_id (message b.folder b.uidvalidity)
          (server b.folder b.uidvalidity) lo tally_of.mail tally_of.tracker rest tally_of-OnTrack

    same_generation : tally_of.tracker.uidvalidity ≡ b.uidvalidity
    unfolding note_requested
    same_generation =
        tally_of-IsSettled.same_generation
        ∙ generation-tracker_for p.trackers b.folder b.uidvalidity

    -- the tracker that the next batch of the folder finds
    pub next-OnTrack :
        OnTrack tally_of.mail
          (tracker_for
            (set_tracker b.folder
              (settled_tracker tally_of.tracker (advance_of tally_of.tracker))
              p.trackers)
            b.folder
            b.uidvalidity)
          rest
    next-OnTrack =
        subst (λ t. OnTrack tally_of.mail t rest) (sym found)
          (settled_tracker-IsTracking i org_id connection_id run_id (message b.folder b.uidvalidity)
            (server b.folder b.uidvalidity) lo tally_of.mail tally_of.tracker rest tally_of-OnTrack)
      where
        found :
            tracker_for
              (set_tracker b.folder
                (settled_tracker tally_of.tracker (advance_of tally_of.tracker))
                p.trackers)
              b.folder
              b.uidvalidity
            ≡ settled_tracker tally_of.tracker (advance_of tally_of.tracker)
        found = ground (arith, str_eq_iff b.folder b.folder, same_generation)
