-- ===== src/Access/Promotion.antt =====
-- backend/app/access/services/promotion_service.py over repositories/content_visibility_repository.py
-- and models/visibility_promotion.py. The ids that the database gives to new rows are arguments.
pub mod Lineage
pub mod Children
use one_ai.Prelude.{
  ℕ, Uuid, String, Bool, not, ◌&&◌, Option, none, some, List, [], ◌∷◌, ◌++◌, ◌==◌, opt_eq,
  find_where, update_where, count_where, delete_where, if◌then◌else◌,
}
use one_ai.Result.{Result, ok, err}
use one_ai.Audit.{AuditEvent, record_event, visibility_promoted, user, text}
use one_ai.Connectors.Connection.{Connection}
use one_ai.Access.Email.{
  Scope, org, restricted, is_org, EmailMessage, EmailRecipient, EmailAttachment,
}

pub record VisibilityPromotion : Type 0 where
  pub id : Uuid
  pub org_id : Uuid
  pub object_type : String
  pub object_id : Uuid
  pub from_scope : Scope
  pub to_scope : Scope
  pub approved_by_user_id : Uuid
  pub audit_log_id : Uuid

-- the tables of the session
pub record Content : Type 0 where
  pub messages : List EmailMessage
  pub recipients : List EmailRecipient
  pub attachments : List EmailAttachment
  pub connections : List Connection
  pub promotions : List VisibilityPromotion
  pub trail : List AuditEvent

-- exceptions.py
pub data PromotionError : Type 0 where
  not_found not_allowed : PromotionError

-- content_visibility_repository.py
abbrev pub is_message : Uuid → Uuid → EmailMessage → Bool
is_message org_id message_id m = m.org_id == org_id && m.id == message_id

abbrev scope_of : Option EmailMessage → Option (Uuid × Scope)
scope_of none = none
scope_of (some m) = some (m.connection_id, m.visibility_scope)

unfoldable pub get_email_message_for_promotion : Uuid → Uuid → Content → Option (Uuid × Scope)
get_email_message_for_promotion org_id message_id s =
    scope_of (find_where (is_message org_id message_id) s.messages)

abbrev owner_of : Option Connection → Option Uuid
owner_of none = none
owner_of (some c) = c.owner_user_id

unfoldable pub get_connection_owner : Uuid → Uuid → Content → Option Uuid
get_connection_owner org_id connection_id s =
    owner_of (find_where (λ c. c.org_id == org_id && c.id == connection_id) s.connections)

abbrev pub is_recipient_of : Uuid → Uuid → EmailRecipient → Bool
is_recipient_of org_id message_id r = r.org_id == org_id && r.email_id == message_id

abbrev pub is_attachment_of : Uuid → Uuid → EmailAttachment → Bool
is_attachment_of org_id message_id a = a.org_id == org_id && a.email_id == message_id

unfoldable pub promote_email_message_to_org : Uuid → Uuid → Content → ℕ × Content
promote_email_message_to_org org_id message_id s =
    let selects =
      λ (m : EmailMessage). is_message org_id message_id m && not (is_org m.visibility_scope) in
    let flipped_messages = count_where selects s.messages in
    let messages = update_where selects (λ m. record m { visibility_scope = org }) s.messages in
    if flipped_messages == 0 then (0, record s { messages = messages }) else (
      flipped_messages,
      record s {
        messages = messages;
        recipients =
            update_where (is_recipient_of org_id message_id)
              (λ r. record r { visibility_scope = org }) s.recipients;
        attachments =
            update_where (is_attachment_of org_id message_id)
              (λ a. record a { visibility_scope = org }) s.attachments;
      },
    )

-- promotion_service.py
unfoldable pub promotion_event : Uuid → Uuid → Option String → Uuid → AuditEvent
promotion_event org_id approver_user_id approver_email message_id = record {
  action = visibility_promoted;
  actor_type = user;
  actor_id = some approver_user_id;
  actor_email = approver_email;
  org_id = some org_id;
  entity_type = some "email_message";
  entity_id = some message_id;
  details = ("from_scope", text "restricted") ∷ ("to_scope", text "org") ∷ [];
}

unfoldable pub promotion_row : Uuid → Uuid → Uuid → Uuid → Uuid → VisibilityPromotion
promotion_row promotion_id audit_log_id org_id approver_user_id message_id = record {
  id = promotion_id;
  org_id = org_id;
  object_type = "email_message";
  object_id = message_id;
  from_scope = restricted;
  to_scope = org;
  approved_by_user_id = approver_user_id;
  audit_log_id = audit_log_id;
}

-- the writes, once the approver is known to be the owner
unfoldable pub widen :
    Uuid
    → Uuid
    → Uuid
    → Uuid
    → Option String
    → Uuid
    → Content
    → Result PromotionError (Uuid × Content)
unfolding promotion_event promotion_row promote_email_message_to_org
widen promotion_id audit_log_id org_id approver_user_id approver_email message_id s =
    let (flipped, s') = promote_email_message_to_org org_id message_id (record s {
      trail =
          record_event (promotion_event org_id approver_user_id approver_email message_id) s.trail;
      promotions =
          s.promotions
          ++ promotion_row promotion_id audit_log_id org_id approver_user_id message_id ∷ [];
    }) in
    if flipped == 0 then err not_allowed else ok (promotion_id, s')

unfoldable pub promote_located :
    Uuid
    → Uuid
    → Uuid
    → Uuid
    → Option String
    → Uuid
    → Content
    → Option (Uuid × Scope)
    → Result PromotionError (Uuid × Content)
unfolding widen get_connection_owner
promote_located promotion_id audit_log_id org_id approver_user_id approver_email message_id s none =
    err not_found
promote_located promotion_id audit_log_id org_id approver_user_id approver_email message_id s
      (some (connection_id, visibility_scope)) =
    if is_org visibility_scope
    then err not_allowed
    else if not (opt_eq (get_connection_owner org_id connection_id s) approver_user_id)
    then err not_allowed
    else widen promotion_id audit_log_id org_id approver_user_id approver_email message_id s

-- an error rolls the transaction back
unfoldable pub promote_email_message :
    Uuid
    → Uuid
    → Uuid
    → Uuid
    → Option String
    → Uuid
    → Content
    → Result PromotionError (Uuid × Content)
unfolding promote_located get_email_message_for_promotion
promote_email_message promotion_id audit_log_id org_id approver_user_id approver_email message_id
      s =
    promote_located promotion_id audit_log_id org_id approver_user_id approver_email message_id s
      (get_email_message_for_promotion org_id message_id s)
