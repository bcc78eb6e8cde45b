-- ===== src/Examples/Promoting.antt =====
-- User 6 opens message 70 of the own mailbox, which has a recipient; another message is open
-- already.
use one_ai.Prelude.{String, none, some, false, [], ◌∷◌, ◌≡◌, refl, sym, arith}
use one_ai.Result.{err}
use one_ai.Examples.{idle_mailbox}
use one_ai.Access.Email.{org, restricted, EmailMessage, EmailRecipient, one}
use one_ai.Access.Projection.{project_email_for_non_owner}
use one_ai.Access.Projection.Secrecy.{project_email_for_non_owner_hides}
use one_ai.Access.Promotion.{Content, not_allowed, promote_email_message}
use one_ai.Access.Promotion.Lineage.{
  MayPromote, widened, promote_if_owner, promote_only_owner, IsLineaged, promote-IsLineaged,
  promote_again,
}
use one_ai.Access.Promotion.Children.{IsInherited, promote-IsInherited}

abbrev private_message : EmailMessage
private_message = record {
  id = 70;
  org_id = 1;
  visibility_scope = restricted;
  origin_scope = restricted;
  container_id = some 2;
  connection_id = 2;
  dedup_key = "m70";
  message_id = some "<70@example>";
  in_reply_to = none;
  references = none;
  from_name = none;
  from_address = some "ann@example";
  from_person_id = none;
  subject = some "Offer";
  sent_at = some 10;
  received_at = some 11;
  body_text = some "See you";
  direction = none;
  is_automated = false;
  is_reply = false;
  has_attachments = false;
  word_count = none;
  language = none;
  headers = ("Subject", one "Offer") ∷ [];
  size_bytes = none;
  parse_status = "parsed";
}

abbrev recipient_row : String → EmailRecipient
recipient_row kind = record {
  org_id = 1;
  visibility_scope = restricted;
  origin_scope = restricted;
  container_id = some 2;
  email_id = 70;
  kind = kind;
  name = none;
  address = "bob@example";
  person_id = none;
}

abbrev content : Content
content = record {
  messages =
      record private_message { id = 71; visibility_scope = org; origin_scope = org }
      ∷ private_message
      ∷ [];
  recipients = recipient_row "to" ∷ [];
  attachments = [];
  connections = record idle_mailbox { owner_user_id = some 6 } ∷ [];
  promotions = [];
  trail = [];
}

abbrev opened : Content
opened = widened 90 91 1 6 none 70 content

by_owner : MayPromote 90 91 1 6 none 70 content private_message
by_owner = record {
  found = refl;
  closed = refl;
  mailbox = record idle_mailbox { owner_user_id = some 6 };
  connected = refl;
  owned = refl;
}

promote_only_owner_example :
    ((m : EmailMessage) × MayPromote 90 91 1 6 none 70 content m)
    × (opened ≡ widened 90 91 1 6 none 70 content)
promote_only_owner_example =
    promote_only_owner 90 91 1 6 none 70 content opened 90
      (promote_if_owner 90 91 1 6 none 70 content private_message by_owner)

promote-IsLineaged_example : IsLineaged opened
promote-IsLineaged_example =
    promote-IsLineaged 90 91 1 6 none 70 content opened 90
      (promote_if_owner 90 91 1 6 none 70 content private_message by_owner)
      (λ is_open born. sym born, (λ is_open born. is_open, tt))

promote_again_example : promote_email_message 92 93 1 6 none 70 opened ≡ err not_allowed
promote_again_example =
    promote_again 90 91 1 6 none 70 content opened 90 92 93 6 none
      (promote_if_owner 90 91 1 6 none 70 content private_message by_owner)

promote-IsInherited_example : IsInherited opened
promote-IsInherited_example =
    promote-IsInherited 90 91 1 6 none 70 content opened 90
      (promote_if_owner 90 91 1 6 none 70 content private_message by_owner)
      (((λ own. absurd (ground (arith, own)), tt), ((λ own. refl, tt), tt)), (tt, (tt, tt)))

project_email_for_non_owner_hides_example :
    project_email_for_non_owner
      (record private_message {
        headers = ("Subject", one "Offer") ∷ ("Return-Path", one "ann@example") ∷ [];
      })
      (recipient_row "to" ∷ recipient_row "bcc" ∷ [])
    ≡ project_email_for_non_owner private_message (recipient_row "to" ∷ [])
project_email_for_non_owner_hides_example =
    project_email_for_non_owner_hides private_message (recipient_row "to" ∷ []) []
      (recipient_row "bcc") (("Subject", one "Offer") ∷ []) [] "Return-Path" (one "ann@example") 2
      70 (some 2) none none refl refl
