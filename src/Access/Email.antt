-- ===== src/Access/Email.antt =====
-- backend/app/connectors/imap/models/email.py: the rows of a stored message. The time stamps of the
-- rows are left out; extracted data is a JSON text.
use one_ai.Prelude.{ℕ, Uuid, Time, String, Bool, false, true, Option, List}

-- `visibility_scope IN ('org', 'restricted')`
pub data Scope : Type 0 where
  org restricted : Scope

abbrev pub is_org : Scope → Bool
is_org org = true
is_org restricted = false

-- `str | list[str]`
pub data HeaderValue : Type 0 where
  one : String → HeaderValue
  many : List String → HeaderValue

pub record EmailMessage : Type 0 where
  pub id : Uuid
  pub org_id : Uuid
  pub visibility_scope : Scope
  pub origin_scope : Scope
  pub container_id : Option Uuid
  pub connection_id : Uuid
  pub dedup_key : String
  pub message_id : Option String
  pub in_reply_to : Option String
  pub references : Option (List String)
  pub from_name : Option String
  pub from_address : Option String
  pub from_person_id : Option Uuid
  pub subject : Option String
  pub sent_at : Option Time
  pub received_at : Option Time
  pub body_text : Option String
  pub direction : Option String
  pub is_automated : Bool
  pub is_reply : Bool
  pub has_attachments : Bool
  pub word_count : Option ℕ
  pub language : Option String
  pub headers : List (String × HeaderValue)
  pub size_bytes : Option ℕ
  pub parse_status : String

pub record EmailRecipient : Type 0 where
  pub org_id : Uuid
  pub visibility_scope : Scope
  pub origin_scope : Scope
  pub container_id : Option Uuid
  pub email_id : Uuid
  pub kind : String
  pub name : Option String
  pub address : String
  pub person_id : Option Uuid

pub record EmailAttachment : Type 0 where
  pub org_id : Uuid
  pub visibility_scope : Scope
  pub origin_scope : Scope
  pub container_id : Option Uuid
  pub email_id : Uuid
  pub filename : Option String
  pub content_type : Option String
  pub size_bytes : Option ℕ
  pub content_hash : Option String
  pub is_inline : Bool
  pub content_id : Option String
  pub extracted_text : Option String
  pub extraction_status : String
  pub extraction_detail : Option String
  pub extractor_name : Option String
  pub extractor_version : Option String
  pub extracted_data : Option String
