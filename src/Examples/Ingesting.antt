-- ===== src/Examples/Ingesting.antt =====
-- One message, stored and seen again.
use one_ai.Prelude.{
  Uuid, none, some, false, true, Option, List, [], ◌∷◌, map, not, is_none, ◌≡◌, refl, inl, inr,
  arith, Bool-cases, if◌then◌else◌,
}
use one_ai.Access.Email.{EmailMessage}
use one_ai.Access.Grants.{held_by, derive_email_principal_roles}
use one_ai.Access.Grants.Live.{has_live}
use one_ai.Examples.Granting.{text_methods, identities}
use one_ai.Sync.Fetch.{FetchedMessage}
use one_ai.Sync.Ingest.{stored, skipped, IntegrityError, Ingested, returned}
use one_ai.Sync.EmailIngest.{
  ParsedEmail, ParsedRecipient, MailStore, Surroundings, get_message_id_by_dedup, build_message,
}
use one_ai.Sync.EmailIngest.Flow.{ingest_email, inserted, store_recipients, resolve_sender}
use one_ai.Sync.EmailIngest.Holding.{is_stored, IsConstrained, IsEffect, ingest_email-IsEffect}
use one_ai.Sync.EmailIngest.Again.{ingest_email_again}

abbrev parsed : ParsedEmail
parsed = record {
  dedup_key = "m70";
  message_id = none;
  in_reply_to = none;
  references = [];
  from_name = none;
  from_address = some "ann@example";
  subject = none;
  sent_at = none;
  received_at = none;
  body_text = "See you";
  recipients = record { kind = "to"; address = "bob@example"; name = none } ∷ [];
  attachments = [];
  direction = none;
  is_automated = false;
  is_automated_origin = false;
  is_reply = false;
  has_attachments = false;
  word_count = 2;
  language = none;
  headers = [];
  parse_status = "parsed";
}

abbrev store : List EmailMessage → MailStore Unit
store messages = record {
  messages = messages;
  recipients = [];
  attachments = [];
  grants = [];
  identities = identities;
  people = tt;
}

abbrev duplicate : IntegrityError
duplicate = record { constraint_name = none; message = "uq_email_message_dedup" }

abbrev refuses : EmailMessage → MailStore Unit → Option IntegrityError
refuses row s =
    if is_stored row.org_id row.connection_id row.dedup_key s.messages then some duplicate else none

abbrev surroundings : Surroundings Unit
surroundings = record {
  owner_user_id = some 6;
  now = 100;
  parse_email = λ raw date. some parsed;
  resolve_participant = λ org address name seen allow people. some (none, people);
  extract_text = λ a. record {
    text = none;
    status = "skipped";
    detail = none;
    extractor_name = none;
    extractor_version = none;
    structured = none;
  };
  texts = text_methods;
  uuid_text = λ u. "u6";
  sees_first = λ row. true;
  sees_again = λ row. true;
  new_id = λ s. 70;
  refuses = refuses;
}

refused_stored :
    (row : EmailMessage) (s : MailStore Unit) (error : IntegrityError)
    → refuses row s ≡ some error
    → is_stored row.org_id row.connection_id row.dedup_key s.messages ≡ true
refused_stored row s error h =
    elim (Bool-cases (is_stored row.org_id row.connection_id row.dedup_key s.messages)) [
      | inl there ↦ there
      | inr absent ↦ absurd (ground (arith, absent, h))
    ]

surroundings-IsConstrained : IsConstrained surroundings
surroundings-IsConstrained = record {
  named = λ row s error h _. refused_stored row s error h;
  structured = λ row s error h _. refused_stored row s error h;
}

abbrev message : FetchedMessage
message = record { uid = 5; raw_bytes = 65 ∷ []; internal_date = none }

abbrev row_70 : EmailMessage
row_70 = build_message surroundings 70 1 2 parsed none 1

ingest_email_again_example :
    (id : Uuid) × (s' : MailStore Unit) × (get_message_id_by_dedup
        (λ row. true)
        1
        2
        "m70"
        (row_70 ∷ [])
      ≡ some id)
    × (ingest_email surroundings 1 2 message (store (row_70 ∷ [])) ≡ returned skipped s')
    × (s' ≡ record (store (row_70 ∷ [])) { grants = s'.grants })
    × (has_live 1 id 4 s'.grants
        ≡ not (
            is_none (
              held_by 4 (
                derive_email_principal_roles text_methods
                  (λ u. "u6")
                  1
                  (some 6)
                  (some "ann@example")
                  (map (λ (r : ParsedRecipient). r.address) parsed.recipients)
                  identities))))
unfolding build_message
ingest_email_again_example =
    ingest_email_again surroundings 1 2 message parsed (store (row_70 ∷ [])) 4 refl refl
      (λ row. refl)

abbrev kept : Ingested (MailStore Unit) → MailStore Unit
kept (returned o s) = s
kept _ = store []

ingest_email-IsEffect_example :
    IsEffect 1 2 "m70" []
      (MailStore.messages (kept (ingest_email surroundings 1 2 message (store []))))
unfolding ingest_email inserted store_recipients resolve_sender get_message_id_by_dedup
ingest_email-IsEffect_example =
    ingest_email-IsEffect surroundings surroundings-IsConstrained 1 2 message parsed (store [])
      (kept (ingest_email surroundings 1 2 message (store []))) stored refl refl
