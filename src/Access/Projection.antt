-- ===== src/Access/Projection.antt =====
-- backend/app/access/services/email_projection.py: what another than the owner may be served of a
-- stored message. The dict of the result is a record of its keys.
pub mod Secrecy
use one_ai.Prelude.{
  Time, String, Bool, false, true, not, ◌||◌, Option, List, [], ◌∷◌, map, keep_if, str_eq,
}
use one_ai.Access.Email.{HeaderValue, EmailMessage, EmailRecipient}

abbrev pub recipient_visible_headers : List String
recipient_visible_headers =
    "Message-ID" ∷ "In-Reply-To" ∷ "References" ∷ "Date" ∷ "Subject" ∷ "From" ∷ "To" ∷ "Cc"
    ∷ "Reply-To" ∷ "Sender" ∷ []

abbrev pub is_one_of : String → List String → Bool
is_one_of name [] = false
is_one_of name (x ∷ xs) = str_eq name x || is_one_of name xs

pub record VisibleRecipient : Type 0 where
  pub kind : String
  pub name : Option String
  pub address : String

pub record Projection : Type 0 where
  pub message_id : Option String
  pub from_name : Option String
  pub from_address : Option String
  pub subject : Option String
  pub sent_at : Option Time
  pub body_text : Option String
  pub recipients : List VisibleRecipient
  pub headers : List (String × HeaderValue)

abbrev pub visible_recipient : EmailRecipient → VisibleRecipient
visible_recipient r = record { kind = r.kind; name = r.name; address = r.address }

unfoldable pub project_email_for_non_owner : EmailMessage → List EmailRecipient → Projection
project_email_for_non_owner message recipients = record {
  message_id = message.message_id;
  from_name = message.from_name;
  from_address = message.from_address;
  subject = message.subject;
  sent_at = message.sent_at;
  body_text = message.body_text;
  recipients = map visible_recipient (keep_if (λ r. not (str_eq r.kind "bcc")) recipients);
  headers = keep_if (λ h. is_one_of h.0 recipient_visible_headers) message.headers;
}
