-- ===== src/Access/Promotion/Children.antt =====
-- The recipients and the attachments of a message keep its scope.
use one_ai.Prelude.{
  ◌≡◌, refl, sym, subst, ◌∙◌, inl, inr, Uuid, String, Bool, true, false, ◌&&◌, Option, List, [],
  ◌∷◌, ◌==◌, ==_iff, update_where, arith, All, Bool-cases, if◌then◌else◌,
}
use one_ai.Result.{ok}
use one_ai.Access.Email.{Scope, org, restricted, EmailMessage, EmailRecipient, EmailAttachment}
use one_ai.Access.Promotion.{
  Content, is_message, is_recipient_of, is_attachment_of, promote_email_message,
}
use one_ai.Access.Promotion.Lineage.{is_selected, to_org, promote_only_owner}

module _ {ℓ} {A : Type ℓ} (org_of email_of : A → Uuid) (scope : A → Scope) (opened : A → A)
    (org_same : (a : A) → org_of (opened a) ≡ org_of a)
    (email_same : (a : A) → email_of (opened a) ≡ email_of a)
    (is_opened : (a : A) → scope (opened a) ≡ org) where
  abbrev child_of : Uuid → Uuid → A → Bool
  child_of o k a = org_of a == o && email_of a == k

  abbrev Follow : List A → EmailMessage → Type 0
  Follow xs m = All (λ a. child_of m.org_id m.id a ≡ true → scope a ≡ m.visibility_scope) xs

  -- an opened message is open already or was selected
  now_open :
      (o k : Uuid) (m : EmailMessage)
      → is_message o k m ≡ true
      → EmailMessage.visibility_scope (if is_selected o k m then to_org m else m) ≡ org
  now_open o k m hit = by_scope m.visibility_scope refl
    where
      by_scope :
          (v : Scope)
          → m.visibility_scope ≡ v
          → EmailMessage.visibility_scope (if is_selected o k m then to_org m else m) ≡ org
      by_scope org e = rw (hit, e) refl
      by_scope restricted e = rw (hit, e) refl

  Follow-opened :
      (o k : Uuid) (m : EmailMessage) (xs : List A)
      → is_message o k m ≡ true
      → Follow (update_where (child_of o k) opened xs) (record m { visibility_scope = org })
  Follow-opened o k m [] hit = tt
  Follow-opened o k m (x ∷ xs) hit = (
    elim (Bool-cases (child_of o k x)) [
      | inl e ↦ rw e (λ _. is_opened x)
      | inr e ↦ rw e (λ own. absurd (ground (arith, apart own e)))
    ],
    Follow-opened o k m xs hit,
  )
    where
      apart : child_of m.org_id m.id x ≡ true → child_of o k x ≡ false → true ≡ false
      apart own e =
          let same_org : m.org_id ≡ o = (==_iff m.org_id o).0 (ground (arith, hit)) in
          let same_id : m.id ≡ k = (==_iff m.id k).0 (ground (arith, hit)) in
          let moved : child_of o k x ≡ true = rw (sym same_org, sym same_id) own in sym moved ∙ e

  Follow-left :
      (o k : Uuid) (m : EmailMessage) (xs : List A)
      → is_message o k m ≡ false
      → Follow xs m
      → Follow (update_where (child_of o k) opened xs) m
  Follow-left o k m [] miss h = tt
  Follow-left o k m (x ∷ xs) miss h = (
    elim (Bool-cases (child_of o k x)) [
      | inl e ↦
          rw e (λ own.
            absurd (ground (arith, apart (rw (sym (org_same x), sym (email_same x)) own) e)))
      | inr e ↦ rw e h.0
    ],
    Follow-left o k m xs miss h.1,
  )
    where
      apart : child_of m.org_id m.id x ≡ true → child_of o k x ≡ true → true ≡ false
      apart own e =
          let own_org : org_of x ≡ m.org_id =
            (==_iff (org_of x) m.org_id).0 (ground (arith, own)) in
          let own_id : email_of x ≡ m.id = (==_iff (email_of x) m.id).0 (ground (arith, own)) in
          let moved : is_message o k m ≡ true = rw (sym own_org, sym own_id) e in sym moved ∙ miss

  Follow-widened :
      (o k : Uuid) (xs : List A) (ms : List EmailMessage)
      → All (Follow xs) ms
      → All
          (Follow (update_where (child_of o k) opened xs))
          (update_where (is_selected o k) to_org ms)
  Follow-widened o k xs [] h = tt
  Follow-widened o k xs (m ∷ ms) h = (
    elim (Bool-cases (is_message o k m)) [
      | inl hit ↦ either_open (is_selected o k m) hit (now_open o k m hit)
      | inr miss ↦ rw miss (Follow-left o k m xs miss h.0)
    ],
    Follow-widened o k xs ms h.1,
  )
    where
      either_open :
          (b : Bool)
          → is_message o k m ≡ true
          → EmailMessage.visibility_scope (if b then to_org m else m) ≡ org
          → Follow (update_where (child_of o k) opened xs) (if b then to_org m else m)
      either_open true hit e = Follow-opened o k m xs hit
      either_open false hit e =
          subst
            (λ v.
              Follow (update_where (child_of o k) opened xs) (record m { visibility_scope = v }))
            (sym e) (Follow-opened o k m xs hit)

-- every recipient row and every attachment of a message has the message's scope
abbrev pub IsInherited : Content → Type 0
IsInherited s =
    All
      (λ m.
        All (λ r. is_recipient_of m.org_id m.id r ≡ true → r.visibility_scope ≡ m.visibility_scope)
          s.recipients)
      s.messages
    × All
        (λ m.
          All
            (λ a. is_attachment_of m.org_id m.id a ≡ true → a.visibility_scope ≡ m.visibility_scope)
            s.attachments)
        s.messages

-- Where the recipients and the attachments of every message have its scope, a promotion that
-- succeeds keeps it so.
pub promote-IsInherited :
    (promotion_id audit_log_id org_id approver_user_id : Uuid) (approver_email : Option String)
    (message_id : Uuid) (s s' : Content) (id : Uuid)
    → promote_email_message promotion_id audit_log_id org_id approver_user_id approver_email
        message_id s
      ≡ ok (id, s')
    → IsInherited s
    → IsInherited s'
promote-IsInherited i a o u e k s s' id done h =
    let (_, same) = promote_only_owner i a o u e k s s' id done in
    subst IsInherited (sym same) (
      Follow-widened EmailRecipient.org_id EmailRecipient.email_id EmailRecipient.visibility_scope
          (λ r. record r { visibility_scope = org }) (λ r. refl) (λ r. refl) (λ r. refl) o k
          s.recipients s.messages h.0,
      Follow-widened EmailAttachment.org_id EmailAttachment.email_id
          EmailAttachment.visibility_scope (λ r. record r { visibility_scope = org }) (λ r. refl)
          (λ r. refl) (λ r. refl) o k s.attachments s.messages h.1,
    )
