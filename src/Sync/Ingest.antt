-- ===== src/Sync/Ingest.antt =====
-- The contract between the runner and the ingest of one message (`EmailIngestService` of
-- backend/app/connectors/imap/services/email_ingest_service.py), and the runner's savepoint around
-- it.
use text.Mathlib.Text.{find?}
use one_ai.Prelude.{
  Uuid, String, ◌≡◌, Bool, true, false, Option, none, some, str_eq, is_some, refl, inl, inr, arith,
  Bool-cases,
}
use one_ai.Sync.Fetch.{FetchedMessage}

pub data IngestOutcome : Type 0 where
  stored skipped : IngestOutcome

-- a violated constraint: the driver's structured name, if it has one, and the error's text
pub record IntegrityError : Type 0 where
  pub constraint_name : Option String
  pub message : String

pub data Ingested (S : Type 0) : Type 0 where
  returned : IngestOutcome → S → Ingested S
  violated : IntegrityError → Ingested S
  raised : Ingested S

abbrev pub dedup_constraint : String
dedup_constraint = "uq_email_message_dedup"

-- `_is_dedup_collision`
unfoldable pub is_dedup_collision : IntegrityError → Bool
is_dedup_collision e = elim e.constraint_name [
  | some name ↦ str_eq name dedup_constraint
  | none ↦ is_some (find? e.message dedup_constraint)
]

-- What the runner relies on: a message that was stored or skipped is there afterwards, a collision
-- on the dedup key means that it was there already, and no ingest removes another message.
pub record Ingest : Type 1 where
  pub Mail : Type 0
  pub ingest_email : Uuid → Uuid → FetchedMessage → Mail → Ingested Mail
  pub Holds : Uuid → Uuid → FetchedMessage → Mail → Type 0
  pub returned_holds :
      (org connection : Uuid) (m : FetchedMessage) (s s' : Mail) (o : IngestOutcome)
      → ingest_email org connection m s ≡ returned o s'
      → Holds org connection m s'
  pub collision_holds :
      (org connection : Uuid) (m : FetchedMessage) (s : Mail) (e : IntegrityError)
      → ingest_email org connection m s ≡ violated e
      → is_dedup_collision e ≡ true
      → Holds org connection m s
  pub ingest_keeps :
      (org connection : Uuid) (m other : FetchedMessage) (s s' : Mail) (o : IngestOutcome)
      → ingest_email org connection m s ≡ returned o s'
      → Holds org connection other s
      → Holds org connection other s'

module _ (i : Ingest) where
  -- what the savepoint leaves after the ingest: a failure rolls back to `before`
  abbrev pub after_savepoint : i.Mail → Ingested i.Mail → Option IngestOutcome × i.Mail
  after_savepoint before (returned o s) = (some o, s)
  after_savepoint before (violated e) =
      (elim (is_dedup_collision e) [ true ↦ some skipped | false ↦ none ], before)
  after_savepoint before raised = (none, before)

  -- `_ingest_one`; `none` is 'failed'
  unfoldable pub ingest_one : Uuid → Uuid → FetchedMessage → i.Mail → Option IngestOutcome × i.Mail
  ingest_one org connection m s = after_savepoint s (i.ingest_email org connection m s)

  settle :
      (org connection : Uuid) (m : FetchedMessage) (s : i.Mail) (r : Ingested i.Mail)
      → i.ingest_email org connection m s ≡ r
      → (is_some (after_savepoint s r).0 ≡ true → i.Holds org connection m (after_savepoint s r).1)
        × ((other : FetchedMessage)
            → i.Holds org connection other s
            → i.Holds org connection other (after_savepoint s r).1)
  settle org connection m s (returned o s') e = (
    λ _. i.returned_holds org connection m s s' o e,
    λ other h. i.ingest_keeps org connection m other s s' o e h,
  )
  settle org connection m s (violated v) e = elim (Bool-cases (is_dedup_collision v)) [
    | inl collides ↦ (λ _. i.collision_holds org connection m s v e collides, λ other h. h)
    | inr other_error ↦ (λ bad. absurd (ground (arith, other_error, bad)), λ other h. h)
  ]
  settle org connection m s raised e = (λ bad. cc, λ other h. h)

  -- A message that is not counted as failed is there after its savepoint, and every other message
  -- is still there, whatever the ingest did.
  pub ingest_one_holds :
      (org connection : Uuid) (m : FetchedMessage) (s : i.Mail)
      → (is_some (ingest_one org connection m s).0 ≡ true
          → i.Holds org connection m (ingest_one org connection m s).1)
        × ((other : FetchedMessage)
            → i.Holds org connection other s
            → i.Holds org connection other (ingest_one org connection m s).1)
  unfolding ingest_one
  ingest_one_holds org connection m s =
      settle org connection m s (i.ingest_email org connection m s) refl
