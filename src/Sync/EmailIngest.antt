-- ===== src/Sync/EmailIngest.antt =====
-- backend/app/connectors/imap/services/email_ingest_service.py over repositories/email_repository.py,
-- with the records of parsing/models.py. Parsing, extraction and the resolution of people are given.
pub mod Holding
pub mod Contract
pub mod Again
pub mod Flow
use text.Mathlib.Text.{find?}
use one_ai.Prelude.{
  ℕ, Uuid, Time, String, Bool, false, not, ◌&&◌, ◌||◌, Option, none, some, List, [], ◌∷◌, ◌++◌, map,
  length, ◌==◌, str_eq, is_some, is_empty, find_where, if◌then◌else◌,
}
use one_ai.Access.Normalize.{TextMethods}
use one_ai.Access.Grants.{
  AclGrant, PrincipalSourceIdentity, write_email_grants, reconcile_email_message_grants,
}
use one_ai.Access.Email.{restricted, HeaderValue, EmailMessage, EmailRecipient, EmailAttachment}
use one_ai.Sync.Fetch.{FetchedMessage}
use one_ai.Sync.Ingest.{stored, skipped, IntegrityError, Ingested, returned, violated, raised}

-- parsing/models.py
pub record ParsedRecipient : Type 0 where
  pub kind : String
  pub address : String
  pub name : Option String

pub record ParsedAttachment : Type 0 where
  pub filename : Option String
  pub content_type : String
  pub size_bytes : ℕ
  pub content_hash : String
  pub is_inline : Bool
  pub content_id : Option String
  pub payload : List ℕ

pub record ParsedEmail : Type 0 where
  pub dedup_key : String
  pub message_id : Option String
  pub in_reply_to : Option String
  pub references : List String
  pub from_name : Option String
  pub from_address : Option String
  pub subject : Option String
  pub sent_at : Option Time
  pub received_at : Option Time
  pub body_text : String
  pub recipients : List ParsedRecipient
  pub attachments : List ParsedAttachment
  pub direction : Option String
  pub is_automated : Bool
  pub is_automated_origin : Bool
  pub is_reply : Bool
  pub has_attachments : Bool
  pub word_count : ℕ
  pub language : Option String
  pub headers : List (String × HeaderValue)
  pub parse_status : String

-- extraction_result.py
pub record ExtractionResult : Type 0 where
  pub text : Option String
  pub status : String
  pub detail : Option String
  pub extractor_name : Option String
  pub extractor_version : Option String
  pub structured : Option String

-- the tables of the session; the graph of people and companies is the resolver's
pub record MailStore (People : Type 0) : Type 0 where
  pub messages : List EmailMessage
  pub recipients : List EmailRecipient
  pub attachments : List EmailAttachment
  pub grants : List AclGrant
  pub identities : List PrincipalSourceIdentity
  pub people : People

-- What the service calls, for the connection that it is bound to. `none` is a raised error. A SELECT
-- may miss a row that a concurrent sync inserts, an INSERT does not.
pub record Surroundings (People : Type 0) : Type 0 where
  pub owner_user_id : Option Uuid
  pub now : Time
  pub parse_email : List ℕ → Option Time → Option ParsedEmail
  pub resolve_participant :
      Uuid → String → Option String → Option Time → Bool → People → Option (Option Uuid × People)
  pub extract_text : ParsedAttachment → ExtractionResult
  pub texts : TextMethods
  pub uuid_text : Uuid → String
  pub sees_first : EmailMessage → Bool
  pub sees_again : EmailMessage → Bool
  pub new_id : MailStore People → Uuid
  pub refuses : EmailMessage → MailStore People → Option IntegrityError

-- email_repository.py
abbrev pub has_key : Uuid → Uuid → String → EmailMessage → Bool
has_key org_id connection_id dedup_key m =
    m.org_id == org_id && m.connection_id == connection_id && str_eq m.dedup_key dedup_key

abbrev id_of : Option EmailMessage → Option Uuid
id_of none = none
id_of (some m) = some m.id

unfoldable pub get_message_id_by_dedup :
    (EmailMessage → Bool) → Uuid → Uuid → String → List EmailMessage → Option Uuid
get_message_id_by_dedup sees org_id connection_id dedup_key table =
    id_of (find_where (λ m. has_key org_id connection_id dedup_key m && sees m) table)

abbrev is_text : Option String → String → Bool
is_text none t = false
is_text (some s) t = str_eq s t

-- the newest row is the last one
abbrev pub last_where {ℓ} : {A : Type ℓ} → (A → Bool) → List A → Option A
last_where p [] = none
last_where p (x ∷ xs) = elim (last_where p xs) [
  | none ↦ if p x then some x else none
  | some y ↦ some y
]

unfoldable pub get_prior_extraction :
    Uuid → String → String → List EmailAttachment → Option EmailAttachment
get_prior_extraction org_id content_hash content_type table =
    last_where
      (λ a.
        a.org_id == org_id
        && is_text a.content_hash content_hash
        && is_text a.content_type content_type
        && not (str_eq a.extraction_status "pending"))
      table

-- email_ingest_service.py
abbrev reused : Option EmailAttachment → ExtractionResult → ExtractionResult
reused none fresh = fresh
reused (some prior) fresh = record {
  text = prior.extracted_text;
  status = prior.extraction_status;
  detail = prior.extraction_detail;
  extractor_name = prior.extractor_name;
  extractor_version = prior.extractor_version;
  structured = prior.extracted_data;
}

-- `"uq_email_message_dedup" in str(error.orig)`
abbrev pub mentions_dedup : IntegrityError → Bool
mentions_dedup e = is_some (find? e.message "uq_email_message_dedup")

abbrev pub is_routing : String → Bool
is_routing kind = str_eq kind "reply_to" || str_eq kind "sender"

module _ {People : Type 0} (e : Surroundings People) where
  unfoldable pub build_message : Uuid → Uuid → Uuid → ParsedEmail → Option Uuid → ℕ → EmailMessage
  build_message id org_id connection_id parsed from_person_id size_bytes = record {
    id = id;
    org_id = org_id;
    visibility_scope = restricted;
    origin_scope = restricted;
    container_id = some connection_id;
    connection_id = connection_id;
    dedup_key = parsed.dedup_key;
    message_id = parsed.message_id;
    in_reply_to = parsed.in_reply_to;
    references = if is_empty parsed.references then none else some parsed.references;
    from_name = parsed.from_name;
    from_address = parsed.from_address;
    from_person_id = from_person_id;
    subject = parsed.subject;
    sent_at = parsed.sent_at;
    received_at = parsed.received_at;
    body_text = some parsed.body_text;
    direction = parsed.direction;
    is_automated = parsed.is_automated;
    is_reply = parsed.is_reply;
    has_attachments = parsed.has_attachments;
    word_count = some parsed.word_count;
    language = parsed.language;
    headers = parsed.headers;
    size_bytes = some size_bytes;
    parse_status = parsed.parse_status;
  }

  unfoldable pub reuse_or_extract : Uuid → ParsedAttachment → MailStore People → ExtractionResult
  unfolding get_prior_extraction
  reuse_or_extract org_id a s =
      reused (get_prior_extraction org_id a.content_hash a.content_type s.attachments)
        (e.extract_text a)

  abbrev pub recipient_row : Uuid → Uuid → Uuid → ParsedRecipient → Option Uuid → EmailRecipient
  recipient_row org_id connection_id email_id r person_id = record {
    org_id = org_id;
    visibility_scope = restricted;
    origin_scope = restricted;
    container_id = some connection_id;
    email_id = email_id;
    kind = r.kind;
    name = r.name;
    address = r.address;
    person_id = person_id;
  }

  abbrev pub attachment_row :
      Uuid → Uuid → Uuid → ParsedAttachment → ExtractionResult → EmailAttachment
  attachment_row org_id connection_id email_id a extraction = record {
    org_id = org_id;
    visibility_scope = restricted;
    origin_scope = restricted;
    container_id = some connection_id;
    email_id = email_id;
    filename = a.filename;
    content_type = some a.content_type;
    size_bytes = some a.size_bytes;
    content_hash = some a.content_hash;
    is_inline = a.is_inline;
    content_id = a.content_id;
    extracted_text = extraction.text;
    extraction_status = extraction.status;
    extraction_detail = extraction.detail;
    extractor_name = extraction.extractor_name;
    extractor_version = extraction.extractor_version;
    extracted_data = extraction.structured;
  }
