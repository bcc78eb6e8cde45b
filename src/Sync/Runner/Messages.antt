-- ===== src/Sync/Runner/Messages.antt =====
-- The loop over the messages of one batch: what is accounted for is in the mail store.
use one_ai.Prelude.{
  ℕ, Uuid, ◌≡◌, refl, sym, subst, ◌∙◌, ◌⊎◌, inl, inr, true, Option, none, some, List, [], ◌∷◌,
  arith, contains, All, is_some,
}
use one_ai.Sync.Fetch.{FetchedMessage}
use one_ai.Sync.Ingest.{Ingest, IngestOutcome, stored, skipped, ingest_one, ingest_one_holds}
use one_ai.Sync.Runner.{Tally, count_outcome, ingest_messages}
use one_ai.Sync.Tracker.{FolderTracker, account, fail}

contains-account :
    (u v : ℕ) (t : FolderTracker)
    → contains v (account u t).accounted ≡ true
    → (v ≡ u) ⊎ (contains v t.accounted ≡ true)
unfolding account
contains-account u v t h = ground arith

module _ (i : Ingest) (org_id connection_id run_id : Uuid) (message : ℕ → FetchedMessage) where
  -- the message with this UID is durably there
  abbrev pub IsThere : i.Mail → ℕ → Type 0
  IsThere s u = i.Holds org_id connection_id (message u) s

  abbrev pub AllThere : i.Mail → List ℕ → Type 0
  AllThere s us = (u : ℕ) → contains u us ≡ true → IsThere s u

  abbrev pub Keeps : i.Mail → i.Mail → Type 0
  Keeps s s' =
      (m : FetchedMessage) → i.Holds org_id connection_id m s → i.Holds org_id connection_id m s'

  pub record IsSettled (before after : Tally i.Mail) : Type 0 where
    pub same_generation : after.tracker.uidvalidity ≡ before.tracker.uidvalidity
    pub same_floor : after.tracker.floor ≡ before.tracker.floor
    pub same_candidates : after.tracker.candidates ≡ before.tracker.candidates
    pub accounted_there : AllThere after.mail after.tracker.accounted
    pub keeps : Keeps before.mail after.mail

  accounted_after :
      (before : Tally i.Mail) (m : FetchedMessage) (s : i.Mail)
      → AllThere before.mail before.tracker.accounted
      → IsThere s m.uid
      → Keeps before.mail s
      → AllThere s (account m.uid before.tracker).accounted
  accounted_after before m s there now_there keeps u h =
      pick (contains-account m.uid u before.tracker h)
    where
      pick : (u ≡ m.uid) ⊎ (contains u before.tracker.accounted ≡ true) → IsThere s u
      pick (inl same) = subst (IsThere s) (sym same) now_there
      pick (inr earlier) = keeps (message u) (there u earlier)

  count_outcome-IsSettled :
      (before : Tally i.Mail) (m : FetchedMessage) (o : Option IngestOutcome) (s : i.Mail)
      → AllThere before.mail before.tracker.accounted
      → (is_some o ≡ true → IsThere s m.uid)
      → Keeps before.mail s
      → IsSettled before
          (count_outcome i org_id connection_id run_id m.uid before.counts before.tracker (o, s))
  unfolding account fail
  count_outcome-IsSettled before m (some stored) s there now_there keeps = record {
    same_generation = refl;
    same_floor = refl;
    same_candidates = refl;
    accounted_there = accounted_after before m s there (now_there refl) keeps;
    keeps = keeps;
  }
  count_outcome-IsSettled before m (some skipped) s there now_there keeps = record {
    same_generation = refl;
    same_floor = refl;
    same_candidates = refl;
    accounted_there = accounted_after before m s there (now_there refl) keeps;
    keeps = keeps;
  }
  count_outcome-IsSettled before m none s there now_there keeps = record {
    same_generation = refl;
    same_floor = refl;
    same_candidates = refl;
    accounted_there = λ u h. keeps (message u) (there u h);
    keeps = keeps;
  }

  IsSettled-trans : (a b c : Tally i.Mail) → IsSettled a b → IsSettled b c → IsSettled a c
  IsSettled-trans a b c f g = record {
    same_generation = g.same_generation ∙ f.same_generation;
    same_floor = g.same_floor ∙ f.same_floor;
    same_candidates = g.same_candidates ∙ f.same_candidates;
    accounted_there = g.accounted_there;
    keeps = λ m h. g.keeps m (f.keeps m h);
  }

  -- the messages are those of the folder, as the server has them
  abbrev pub IsGenuine : FetchedMessage → Type 0
  IsGenuine m = m ≡ message m.uid

  pub ingest_messages-IsSettled :
      (ms : List FetchedMessage) (before : Tally i.Mail)
      → All IsGenuine ms
      → AllThere before.mail before.tracker.accounted
      → IsSettled before (ingest_messages i org_id connection_id run_id ms before)
  unfolding ingest_messages
  ingest_messages-IsSettled [] before genuine there = record {
    same_generation = refl;
    same_floor = refl;
    same_candidates = refl;
    accounted_there = there;
    keeps = λ m h. h;
  }
  ingest_messages-IsSettled (m ∷ ms) before genuine there =
      IsSettled-trans before next _ first
        (ingest_messages-IsSettled ms next genuine.1 first.accounted_there)
    where
      result : Option IngestOutcome × i.Mail
      result = ingest_one i org_id connection_id m before.mail

      next : Tally i.Mail
      next = count_outcome i org_id connection_id run_id m.uid before.counts before.tracker result

      first : IsSettled before next
      first =
          count_outcome-IsSettled before m result.0 result.1 there
            (λ done.
              subst (λ k. i.Holds org_id connection_id k result.1) genuine.0
                ((ingest_one_holds i org_id connection_id m before.mail).0 done))
            (ingest_one_holds i org_id connection_id m before.mail).1
