-- ===== src/Access/Promotion/Lineage.antt =====
-- Only the owner of its mailbox widens a message, and leaves a record of it.
use one_ai.Prelude.{
  ◌≡◌, refl, sym, ap, subst, ◌∙◌, inl, inr, Uuid, String, Bool, true, false, not, ◌&&◌, ◌||◌,
  Option, none, some, List, [], ◌∷◌, ◌++◌, ◌==◌, ==_refl, ==_iff, str_eq, opt_eq, find_where,
  update_where, arith, count_where, any, All, Bool-cases, Option-cases, find_where-update_where,
  find_where_sound, if◌then◌else◌,
}
use mathlib.Core.Option
use one_ai.Result.{Result, ok, err}
use one_ai.Audit.{AuditEvent, visibility_promoted, user, text}
use one_ai.Access.Email.{Scope, org, restricted, is_org, EmailMessage}
use one_ai.Connectors.Connection.{Connection}
use one_ai.Access.Promotion.{
  VisibilityPromotion, Content, PromotionError, not_allowed, is_message, get_connection_owner,
  promote_email_message_to_org, promotion_event, promotion_row, widen, promote_located,
  get_email_message_for_promotion, promote_email_message,
}

abbrev pub is_selected : Uuid → Uuid → EmailMessage → Bool
is_selected org_id message_id m =
    (m.org_id == org_id && m.id == message_id) && not (is_org m.visibility_scope)

abbrev pub to_org : EmailMessage → EmailMessage
to_org m = record m { visibility_scope = org }

-- a message that the SELECT finds and that is not yet open is counted
count_where-found :
    (p : EmailMessage → Bool) (q : EmailMessage → Bool) (ms : List EmailMessage) (m : EmailMessage)
    → find_where p ms ≡ some m
    → q m ≡ true
    → (count_where (λ x. p x && q x) ms == 0) ≡ false
count_where-found p q [] m found open_to = absurd (ground (arith, found))
count_where-found p q (x ∷ ms) m found open_to = elim (Bool-cases (p x)) [
  | inl here ↦
      (let same : x ≡ m = ground (arith, here, found) in
        let q_x : q x ≡ true = ap q same ∙ open_to in ground (arith, here, q_x))
  | inr later ↦
      ground (arith, later, count_where-found p q ms m (ground (arith, later, found)) open_to)
]

-- the record of a promotion, and its event
abbrev pub recorded : Uuid → Uuid → Uuid → Uuid → Uuid → VisibilityPromotion
recorded id event_id organization approver message = record {
  id = id;
  org_id = organization;
  object_type = "email_message";
  object_id = message;
  from_scope = restricted;
  to_scope = org;
  approved_by_user_id = approver;
  audit_log_id = event_id;
}

abbrev pub announced : Uuid → Uuid → Option String → Uuid → AuditEvent
announced organization approver address message = record {
  action = visibility_promoted;
  actor_type = user;
  actor_id = some approver;
  actor_email = address;
  org_id = some organization;
  entity_type = some "email_message";
  entity_id = some message;
  details = ("from_scope", text "restricted") ∷ ("to_scope", text "org") ∷ [];
}

module _ (promotion_id audit_log_id org_id approver_user_id : Uuid) (approver_email : Option String)
    (message_id : Uuid) where
  -- the content with the message and its children open to the organization
  abbrev pub widened : Content → Content
  widened s = record s {
    messages = update_where (is_selected org_id message_id) to_org s.messages;
    recipients =
        update_where (λ r. r.org_id == org_id && r.email_id == message_id)
          (λ r. record r { visibility_scope = org }) s.recipients;
    attachments =
        update_where (λ a. a.org_id == org_id && a.email_id == message_id)
          (λ a. record a { visibility_scope = org }) s.attachments;
    promotions =
        s.promotions ++ recorded promotion_id audit_log_id org_id approver_user_id message_id ∷ [];
    trail = s.trail ++ announced org_id approver_user_id approver_email message_id ∷ [];
  }

  abbrev promote : Content → Result PromotionError (Uuid × Content)
  promote s =
      promote_email_message promotion_id audit_log_id org_id approver_user_id approver_email
        message_id s

  -- The message is stored in the organization and restricted, and its mailbox is the approver's.
  pub record MayPromote (s : Content) (m : EmailMessage) : Type 0 where
    pub found : find_where (λ x. x.org_id == org_id && x.id == message_id) s.messages ≡ some m
    pub closed : m.visibility_scope ≡ restricted
    pub mailbox : Connection
    pub connected :
        find_where (λ c. c.org_id == org_id && c.id == m.connection_id) s.connections ≡ some mailbox
    pub owned : mailbox.owner_user_id ≡ some approver_user_id

  widen_may :
      (s : Content) (m : EmailMessage)
      → MayPromote s m
      → widen promotion_id audit_log_id org_id approver_user_id approver_email message_id s
        ≡ ok (promotion_id, widened s)
  unfolding widen promote_email_message_to_org promotion_row promotion_event
  widen_may s m may =
      let flips =
        count_where-found (is_message org_id message_id) (λ x. not (is_org x.visibility_scope))
          s.messages m may.found (ground (arith, may.closed)) in
      rw flips (rw flips refl)

  owner_known :
      (s : Content) (m : EmailMessage)
      → MayPromote s m
      → get_connection_owner org_id m.connection_id s ≡ some approver_user_id
  unfolding get_connection_owner
  owner_known s m may = rw may.connected may.owned

  -- the owner can
  pub promote_if_owner :
      (s : Content) (m : EmailMessage) → MayPromote s m → promote s ≡ ok (promotion_id, widened s)
  unfolding promote_email_message promote_located get_email_message_for_promotion
  promote_if_owner s m may =
      rw (may.found, may.closed, owner_known s m may, ==_refl approver_user_id) (widen_may s m may)

  -- the mailbox behind an owner
  mailbox_of :
      (s : Content) (m : EmailMessage)
      → opt_eq (get_connection_owner org_id m.connection_id s) approver_user_id ≡ true
      → (c : Connection) × ((find_where
              (λ c. c.org_id == org_id && c.id == m.connection_id)
              s.connections
            ≡ some c)
          × (c.owner_user_id ≡ some approver_user_id))
  unfolding get_connection_owner
  mailbox_of s m h =
      elim (Option-cases
        (find_where (λ c. c.org_id == org_id && c.id == m.connection_id) s.connections)) [
          | inl absent ↦ absurd (ground (arith, absent, h))
          | inr (c, connected) ↦ (c, (connected, owner_is c.owner_user_id (rw connected at h)))
        ]
    where
      owner_is : (o : Option Uuid) → opt_eq o approver_user_id ≡ true → o ≡ some approver_user_id
      owner_is none k = absurd (ground (arith, k))
      owner_is (some a) k = ap some ((==_iff a approver_user_id).0 k)

  may_promote :
      (s : Content) (r : Uuid × Content) → promote s ≡ ok r → (m : EmailMessage) × MayPromote s m
  unfolding promote_email_message promote_located get_email_message_for_promotion
  may_promote s r done =
      elim (Option-cases (find_where (is_message org_id message_id) s.messages)) [
        | inl absent ↦ absurd (ground (arith, absent, done))
        | inr (m, found) ↦
            (let (mailbox, (connected, owned)) = mailbox_of s m (ground (arith, found, done)) in
              (
                m,
                record {
                  found = found;
                  closed = closed_is m.visibility_scope (ground (arith, found, done));
                  mailbox = mailbox;
                  connected = connected;
                  owned = owned;
                },
              ))
      ]
    where
      closed_is : (v : Scope) → is_org v ≡ false → v ≡ restricted
      closed_is org h = absurd (ground (arith, h))
      closed_is restricted h = refl

  -- A promotion that succeeds is of a restricted message of the organization whose connection, of
  -- that organization too, the approver owns; then the message and its children are open, the
  -- promotion and its audit event are appended, and nothing else is different.
  pub promote_only_owner :
      (s s' : Content) (id : Uuid)
      → promote s ≡ ok (id, s')
      → ((m : EmailMessage) × MayPromote s m) × (s' ≡ widened s)
  promote_only_owner s s' id done =
      let (m, may) = may_promote s (id, s') done in
      let here : promote s ≡ ok (promotion_id, widened s) = promote_if_owner s m may in
      ((m, may), ground (arith, here, done))

-- the row that the lineage guard looks for
abbrev pub has_lineage : EmailMessage → List VisibilityPromotion → Bool
has_lineage m ps =
    any (λ p. p.org_id == m.org_id && str_eq p.object_type "email_message" && p.object_id == m.id)
      ps

-- whatever was born restricted and is open now was promoted
abbrev pub IsLineaged : Content → Type 0
IsLineaged s =
    All
      (λ m.
        is_org m.visibility_scope ≡ true
        → is_org m.origin_scope ≡ false
        → has_lineage m s.promotions ≡ true)
      s.messages

any-snoc {ℓ} :
    {A : Type ℓ} (p : A → Bool) (xs : List A) (y : A) → any p (xs ++ y ∷ []) ≡ (any p xs || p y)
any-snoc p [] y = ground arith
any-snoc p (x ∷ xs) y = ground (arith, any-snoc p xs y)

with_row :
    (i a o u k : Uuid) (ps : List VisibilityPromotion) (m : EmailMessage)
    → has_lineage m (ps ++ recorded i a o u k ∷ [])
      ≡ (has_lineage m ps || (o == m.org_id && k == m.id))
with_row i a o u k ps m =
    any-snoc
      (λ p. p.org_id == m.org_id && str_eq p.object_type "email_message" && p.object_id == m.id) ps
      (recorded i a o u k)
    ∙ ground arith

lineage_of_row :
    (i a o u k : Uuid) (ps : List VisibilityPromotion) (m : EmailMessage)
    → is_selected o k m ≡ true
    → has_lineage m (ps ++ recorded i a o u k ∷ []) ≡ true
lineage_of_row i a o u k ps m taken =
    let same_org : m.org_id ≡ o = (==_iff m.org_id o).0 (ground (arith, taken)) in
    let same_id : m.id ≡ k = (==_iff m.id k).0 (ground (arith, taken)) in
    with_row i a o u k ps m ∙ rw (same_org, same_id, ==_refl o, ==_refl k) (ground arith)

widened-IsLineaged :
    (promotion_id audit_log_id org_id approver_user_id message_id : Uuid)
    (ps : List VisibilityPromotion) (ms : List EmailMessage)
    → All
        (λ m.
          is_org m.visibility_scope ≡ true
          → is_org m.origin_scope ≡ false
          → has_lineage m ps ≡ true)
        ms
    → All
        (λ m.
          is_org m.visibility_scope ≡ true
          → is_org m.origin_scope ≡ false
          → has_lineage m
              (ps ++ recorded promotion_id audit_log_id org_id approver_user_id message_id ∷ [])
            ≡ true)
        (update_where (is_selected org_id message_id) to_org ms)
widened-IsLineaged i a o u k ps [] h = tt
widened-IsLineaged i a o u k ps (m ∷ ms) h = (
  elim (Bool-cases (is_selected o k m)) [
    | inl taken ↦ rw taken (λ _ _. lineage_of_row i a o u k ps m taken)
    | inr left ↦ rw left (λ is_open born. ground (arith, with_row i a o u k ps m, h.0 is_open born))
  ],
  widened-IsLineaged i a o u k ps ms h.1,
)

-- Where every open message that was born restricted has a row of its promotion, a promotion that
-- succeeds keeps it so.
pub promote-IsLineaged :
    (promotion_id audit_log_id org_id approver_user_id : Uuid) (approver_email : Option String)
    (message_id : Uuid) (s s' : Content) (id : Uuid)
    → promote_email_message promotion_id audit_log_id org_id approver_user_id approver_email
        message_id s
      ≡ ok (id, s')
    → IsLineaged s
    → IsLineaged s'
promote-IsLineaged i a o u e k s s' id done h =
    let (_, same) = promote_only_owner i a o u e k s s' id done in
    subst IsLineaged (sym same) (widened-IsLineaged i a o u k s.promotions s.messages h)

-- After a promotion that succeeds, a further promotion of the same message is refused, whoever
-- asks for it.
pub promote_again :
    (promotion_id audit_log_id org_id approver_user_id : Uuid) (approver_email : Option String)
    (message_id : Uuid) (s s' : Content) (id : Uuid)
    (promotion_id' audit_log_id' approver_user_id' : Uuid) (approver_email' : Option String)
    → promote_email_message promotion_id audit_log_id org_id approver_user_id approver_email
        message_id s
      ≡ ok (id, s')
    → promote_email_message promotion_id' audit_log_id' org_id approver_user_id' approver_email'
        message_id s'
      ≡ err not_allowed
unfolding promote_email_message promote_located get_email_message_for_promotion
promote_again i a o u e k s s' id i' a' u' e' done =
    let ((m, may), same) = promote_only_owner i a o u e k s s' id done in
    let now_found : find_where (is_message o k) (Content.messages s') ≡ some (to_org m) =
      ap (λ t. find_where (is_message o k) (Content.messages t)) same
      ∙ find_where-update_where (is_message o k) (is_selected o k) to_org s.messages (λ x. refl)
      ∙ found_open may.found (ap is_org may.closed)
          (find_where_sound (is_message o k) s.messages may.found) in
    rw now_found refl
  where
    found_open :
        {m : EmailMessage}
        → find_where (is_message o k) s.messages ≡ some m
        → is_org m.visibility_scope ≡ false
        → is_message o k m ≡ true
        → Option.map
            (λ x. if is_selected o k x then to_org x else x)
            (find_where (is_message o k) s.messages)
          ≡ some (to_org m)
    found_open found closed hit = rw (found, hit, closed) refl
