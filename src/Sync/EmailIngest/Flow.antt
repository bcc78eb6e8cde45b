-- ===== src/Sync/EmailIngest/Flow.antt =====
-- `ingest_email` of backend/app/connectors/imap/services/email_ingest_service.py.
use one_ai.Prelude.{
  ℕ, Uuid, String, not, Option, none, some, List, [], ◌∷◌, ◌++◌, map, length, str_eq, if◌then◌else◌,
}
use one_ai.Access.Grants.{write_email_grants, reconcile_email_message_grants}
use one_ai.Access.Email.{EmailMessage}
use one_ai.Sync.Fetch.{FetchedMessage}
use one_ai.Sync.Ingest.{stored, skipped, IntegrityError, Ingested, returned, violated, raised}
use one_ai.Sync.EmailIngest.{
  ParsedRecipient, ParsedAttachment, ParsedEmail, MailStore, Surroundings, get_message_id_by_dedup,
  mentions_dedup, is_routing, build_message, reuse_or_extract, recipient_row, attachment_row,
}

module _ {People : Type 0} (e : Surroundings People) where
  unfoldable pub store_recipients :
      Uuid
      → Uuid
      → Uuid
      → ParsedEmail
      → List ParsedRecipient
      → MailStore People
      → Option (MailStore People)
  store_recipients org_id connection_id email_id parsed [] s = some s
  store_recipients org_id connection_id email_id parsed (r ∷ rs) s =
      elim (e.resolve_participant org_id r.address r.name parsed.received_at
        (not (is_routing r.kind)) s.people) [
          | none ↦ none
          | some (person_id, people) ↦
              store_recipients org_id connection_id email_id parsed rs (record s {
                recipients =
                    s.recipients ++ recipient_row e org_id connection_id email_id r person_id ∷ [];
                people = people;
              })
        ]

  unfoldable pub store_attachments :
      Uuid → Uuid → Uuid → List ParsedAttachment → MailStore People → MailStore People
  unfolding reuse_or_extract
  store_attachments org_id connection_id email_id [] s = s
  store_attachments org_id connection_id email_id (a ∷ rest) s =
      store_attachments org_id connection_id email_id rest (record s {
        attachments =
            s.attachments
            ++ attachment_row e org_id connection_id email_id a (reuse_or_extract e org_id a s)
              ∷ [];
      })

  abbrev addresses : ParsedEmail → List String
  addresses parsed = map (λ (r : ParsedRecipient). r.address) parsed.recipients

  unfoldable pub reconciled : Uuid → Uuid → Uuid → ParsedEmail → MailStore People → MailStore People
  reconciled org_id connection_id email_id parsed s = record s {
    grants =
        (reconcile_email_message_grants e.texts e.uuid_text org_id email_id connection_id
          e.owner_user_id parsed.from_address (addresses parsed) s.identities e.now s.grants).1;
  }

  unfoldable pub granted : Uuid → Uuid → Uuid → ParsedEmail → MailStore People → MailStore People
  granted org_id connection_id email_id parsed s = record s {
    grants =
        (write_email_grants e.texts e.uuid_text org_id email_id connection_id e.owner_user_id
          parsed.from_address (addresses parsed) s.identities e.now s.grants).1;
  }

  -- the sender, who is a person unless the mail is of automated origin
  unfoldable pub resolve_sender :
      Uuid → ParsedEmail → MailStore People → Option (Option Uuid × MailStore People)
  resolve_sender org_id parsed s = elim parsed.from_address [
    | none ↦ some (none, s)
    | some address ↦
        if str_eq address ""
        then some (none, s)
        else elim (e.resolve_participant org_id address parsed.from_name parsed.received_at
            (not parsed.is_automated_origin) s.people) [
              | none ↦ none
              | some (person_id, people) ↦ some (person_id, record s { people = people })
            ]
  ]

  -- a message that a concurrent sync has stored first
  abbrev pub skip :
      Uuid → Uuid → ParsedEmail → Option Uuid → MailStore People → Ingested (MailStore People)
  skip org_id connection_id parsed none s = returned skipped s
  skip org_id connection_id parsed (some id) s =
      returned skipped (reconciled org_id connection_id id parsed s)

  abbrev pub finish :
      Uuid → Uuid → Uuid → ParsedEmail → Option (MailStore People) → Ingested (MailStore People)
  finish org_id connection_id email_id parsed none = raised
  finish org_id connection_id email_id parsed (some s) = returned stored (
      granted org_id connection_id email_id parsed
        (store_attachments org_id connection_id email_id parsed.attachments s))

  -- the outcome of the INSERT in its savepoint
  unfoldable pub inserted :
      Uuid
      → Uuid
      → ParsedEmail
      → EmailMessage
      → Option IntegrityError
      → MailStore People
      → Ingested (MailStore People)
  unfolding store_recipients
  inserted org_id connection_id parsed row none s = finish org_id connection_id row.id parsed (
      store_recipients org_id connection_id row.id parsed parsed.recipients
        (record s { messages = s.messages ++ row ∷ [] }))
  inserted org_id connection_id parsed row (some error) s =
      if not (mentions_dedup error)
      then violated error
      else skip org_id connection_id parsed
          (get_message_id_by_dedup e.sees_again org_id connection_id parsed.dedup_key s.messages) s

  abbrev pub insert_from :
      Uuid
      → Uuid
      → ParsedEmail
      → ℕ
      → Option (Option Uuid × MailStore People)
      → Ingested (MailStore People)
  insert_from org_id connection_id parsed size_bytes none = raised
  insert_from org_id connection_id parsed size_bytes (some (from_person_id, s)) =
      let row =
        build_message e (e.new_id s) org_id connection_id parsed from_person_id size_bytes in
      inserted org_id connection_id parsed row (e.refuses row s) s

  abbrev pub known_or_new :
      Uuid → Uuid → ParsedEmail → ℕ → Option Uuid → MailStore People → Ingested (MailStore People)
  known_or_new org_id connection_id parsed size_bytes (some id) s =
      returned skipped (reconciled org_id connection_id id parsed s)
  known_or_new org_id connection_id parsed size_bytes none s =
      insert_from org_id connection_id parsed size_bytes (resolve_sender org_id parsed s)

  abbrev pub ingest_parsed :
      Uuid → Uuid → ℕ → Option ParsedEmail → MailStore People → Ingested (MailStore People)
  ingest_parsed org_id connection_id size_bytes none s = raised
  ingest_parsed org_id connection_id size_bytes (some parsed) s =
      known_or_new org_id connection_id parsed size_bytes
        (get_message_id_by_dedup e.sees_first org_id connection_id parsed.dedup_key s.messages) s

  unfoldable pub ingest_email :
      Uuid → Uuid → FetchedMessage → MailStore People → Ingested (MailStore People)
  ingest_email org_id connection_id m s =
      ingest_parsed org_id connection_id (length m.raw_bytes)
        (e.parse_email m.raw_bytes m.internal_date) s
