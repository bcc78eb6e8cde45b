-- ===== src/Sync/EmailIngest/Holding.antt =====
-- What an ingest does to the stored messages, and that it keeps the contract of the runner.
use one_ai.Prelude.{
  ℕ, Uuid, String, ◌≡◌, refl, sym, ap, subst, ◌∙◌, ◌⊎◌, inl, inr, Bool, true, not, ◌||◌, Option,
  none, some, List, [], ◌∷◌, ◌++◌, arith, ==_refl, str_eq_iff, any, length, Bool-cases,
  Option-cases,
}
use one_ai.Access.Email.{restricted, EmailMessage}
use one_ai.Sync.Fetch.{FetchedMessage}
use one_ai.Sync.Ingest.{IngestOutcome, IntegrityError, is_dedup_collision, returned}
use one_ai.Sync.EmailIngest.{
  ParsedRecipient, ParsedAttachment, ParsedEmail, MailStore, Surroundings, get_message_id_by_dedup,
  has_key, mentions_dedup, is_routing, build_message, recipient_row,
}
use one_ai.Sync.EmailIngest.Flow.{
  store_recipients, store_attachments, resolve_sender, skip, inserted, insert_from, known_or_new,
  ingest_email, reconciled, granted,
}

-- is a message of that key stored?
abbrev pub is_stored : Uuid → Uuid → String → List EmailMessage → Bool
is_stored org_id connection_id dedup_key ms = any (has_key org_id connection_id dedup_key) ms

pub any-append {ℓ} :
    {A : Type ℓ} (p : A → Bool) (xs ys : List A) → any p (xs ++ ys) ≡ (any p xs || any p ys)
any-append p [] ys = refl
any-append p (x ∷ xs) ys = ground (arith, any-append p xs ys)

is_stored-found :
    (sees : EmailMessage → Bool) (org_id connection_id : Uuid) (key : String)
    (ms : List EmailMessage) (id : Uuid)
    → get_message_id_by_dedup sees org_id connection_id key ms ≡ some id
    → is_stored org_id connection_id key ms ≡ true
unfolding get_message_id_by_dedup
is_stored-found sees o c k [] id h = absurd (ground (arith, h))
is_stored-found sees o c k (m ∷ ms) id h = elim (Bool-cases (has_key o c k m)) [
  | inl here ↦ ground (arith, here)
  | inr later ↦ ground (arith, later, is_stored-found sees o c k ms id (ground (arith, later, h)))
]

-- the constraint of the table: what the database answers to an INSERT names a stored message
pub record IsConstrained {People : Type 0} (e : Surroundings People) : Type 0 where
  pub named :
      (row : EmailMessage) (s : MailStore People) (error : IntegrityError)
      → e.refuses row s ≡ some error
      → mentions_dedup error ≡ true
      → is_stored row.org_id row.connection_id row.dedup_key s.messages ≡ true
  pub structured :
      (row : EmailMessage) (s : MailStore People) (error : IntegrityError)
      → e.refuses row s ≡ some error
      → is_dedup_collision error ≡ true
      → is_stored row.org_id row.connection_id row.dedup_key s.messages ≡ true

-- Either the message was there and no message is new, or one is new, born restricted in its mailbox.
abbrev pub IsEffect : Uuid → Uuid → String → List EmailMessage → List EmailMessage → Type 0
IsEffect org_id connection_id key before after =
    ((after ≡ before) × (is_stored org_id connection_id key before ≡ true))
    ⊎ ((row : EmailMessage) × (after ≡ before ++ row ∷ [])
        × (has_key org_id connection_id key row ≡ true)
        × (row.visibility_scope ≡ restricted)
        × (row.origin_scope ≡ restricted)
        × (row.container_id ≡ some connection_id))

module _ {People : Type 0} (e : Surroundings People) (lawful : IsConstrained e)
    (org_id connection_id : Uuid) where
  messages-store_recipients :
      (id : Uuid) (parsed : ParsedEmail) (rs : List ParsedRecipient) (s s' : MailStore People)
      → store_recipients e org_id connection_id id parsed rs s ≡ some s'
      → s'.messages ≡ s.messages
  unfolding store_recipients
  messages-store_recipients id parsed [] s s' h = ground (arith, h)
  messages-store_recipients id parsed (r ∷ rs) s s' h =
      elim (Option-cases (
        e.resolve_participant org_id r.address r.name parsed.received_at (not (is_routing r.kind))
          s.people)) [
            | inl none_known ↦ absurd (ground (arith, none_known, h))
            | inr (answer, known) ↦
                (let next : MailStore People = record s {
                  recipients =
                      s.recipients ++ recipient_row e org_id connection_id id r answer.0 ∷ [];
                  people = answer.1;
                } in
                  messages-store_recipients id parsed rs next s' (ground (arith, known, h)))
          ]

  messages-store_attachments :
      (id : Uuid) (rest : List ParsedAttachment) (s : MailStore People)
      → MailStore.messages (store_attachments e org_id connection_id id rest s) ≡ s.messages
  unfolding store_attachments
  messages-store_attachments id [] s = refl
  messages-store_attachments id (a ∷ rest) s = messages-store_attachments id rest _

  pub messages-resolve_sender :
      (parsed : ParsedEmail) (s s' : MailStore People) (p : Option Uuid)
      → resolve_sender e org_id parsed s ≡ some (p, s')
      → s'.messages ≡ s.messages
  unfolding resolve_sender
  messages-resolve_sender parsed s s' p h = elim (Option-cases parsed.from_address) [
    | inl no_sender ↦ ground (arith, no_sender, h)
    | inr (address, is_sender) ↦
        elim (Option-cases (
          e.resolve_participant org_id address parsed.from_name parsed.received_at
            (not parsed.is_automated_origin) s.people)) [
              | inl unknown ↦ ground (arith, is_sender, unknown, h)
              | inr (answer, known) ↦ ground (arith, is_sender, known, h)
            ]
  ]

  IsEffect-finish :
      (parsed : ParsedEmail) (row : EmailMessage) (s s' : MailStore People) (o : IngestOutcome)
      → inserted e org_id connection_id parsed row none s ≡ returned o s'
      → s'.messages ≡ s.messages ++ row ∷ []
  unfolding inserted granted
  IsEffect-finish parsed row s s' o h =
      elim (Option-cases (
        store_recipients e org_id connection_id row.id parsed parsed.recipients
          (record s { messages = s.messages ++ row ∷ [] }))) [
            | inl failed ↦ absurd (ground (arith, failed, h))
            | inr (t, kept) ↦
                (let grown : t.messages ≡ s.messages ++ row ∷ [] =
                    messages-store_recipients row.id parsed parsed.recipients
                      (record s { messages = s.messages ++ row ∷ [] }) t kept in
                  let done : granted e org_id connection_id row.id parsed
                        (store_attachments e org_id connection_id row.id parsed.attachments t)
                      ≡ s' =
                    ground (arith, kept, h) in
                  ap MailStore.messages (sym done)
                  ∙ messages-store_attachments row.id parsed.attachments t
                  ∙ grown)
          ]

  messages-skip :
      (parsed : ParsedEmail) (o : Option Uuid) (s s' : MailStore People) (out : IngestOutcome)
      → skip e org_id connection_id parsed o s ≡ returned out s'
      → s'.messages ≡ s.messages
  unfolding reconciled
  messages-skip parsed none s s' out h = ground (arith, h)
  messages-skip parsed (some id) s s' out h = ground (arith, h)

  IsEffect-inserted :
      (parsed : ParsedEmail) (p : Option Uuid) (size : ℕ) (s s' : MailStore People)
      (o : IngestOutcome) (answer : Option IntegrityError)
      → e.refuses (build_message e (e.new_id s) org_id connection_id parsed p size) s ≡ answer
      → inserted e org_id connection_id parsed
          (build_message e (e.new_id s) org_id connection_id parsed p size)
          answer
          s
        ≡ returned o s'
      → IsEffect org_id connection_id parsed.dedup_key s.messages s'.messages
  unfolding inserted build_message
  IsEffect-inserted parsed p size s s' o none answers h = inr (
    build_message e (e.new_id s) org_id connection_id parsed p size,
    IsEffect-finish parsed _ s s' o h,
    ground (
      arith,
      ==_refl org_id,
      ==_refl connection_id,
      str_eq_iff parsed.dedup_key parsed.dedup_key,
    ),
    refl,
    refl,
    refl,
  )
  IsEffect-inserted parsed p size s s' o (some error) answers h =
      elim (Bool-cases (mentions_dedup error)) [
        | inl named ↦ inl (
          messages-skip parsed
              (get_message_id_by_dedup e.sees_again org_id connection_id parsed.dedup_key
                s.messages)
              s s' o (rw named at h),
          lawful.named _ s error answers named,
        )
        | inr other ↦ absurd (ground (arith, other, h))
      ]

  IsEffect-insert_from :
      (parsed : ParsedEmail) (size : ℕ) (s s' : MailStore People) (o : IngestOutcome)
      → insert_from e org_id connection_id parsed size (resolve_sender e org_id parsed s)
        ≡ returned o s'
      → IsEffect org_id connection_id parsed.dedup_key s.messages s'.messages
  IsEffect-insert_from parsed size s s' o h =
      elim (Option-cases (resolve_sender e org_id parsed s)) [
        | inl failed ↦ absurd (ground (arith, failed, h))
        | inr (answer, resolved) ↦
            (let same : MailStore.messages answer.1 ≡ s.messages =
                messages-resolve_sender parsed s answer.1 answer.0 resolved in
              subst (λ ms. IsEffect org_id connection_id parsed.dedup_key ms s'.messages) same
                (IsEffect-inserted parsed answer.0 size answer.1 s' o _ refl (rw resolved at h)))
      ]

  IsEffect-known_or_new :
      (parsed : ParsedEmail) (size : ℕ) (s s' : MailStore People) (o : IngestOutcome)
      (found : Option Uuid)
      → get_message_id_by_dedup e.sees_first org_id connection_id parsed.dedup_key s.messages
        ≡ found
      → known_or_new e org_id connection_id parsed size found s ≡ returned o s'
      → IsEffect org_id connection_id parsed.dedup_key s.messages s'.messages
  IsEffect-known_or_new parsed size s s' o (some id) found h = inl (
    messages-skip parsed (some id) s s' o h,
    is_stored-found e.sees_first org_id connection_id parsed.dedup_key s.messages id found,
  )
  IsEffect-known_or_new parsed size s s' o none found h = IsEffect-insert_from parsed size s s' o h

  -- An ingest that returns either finds a message of the same key of deduplication in the mailbox
  -- and adds none, or adds exactly one message, of that key and born restricted in its mailbox,
  -- and takes no message away; the database is taken to refuse an insert with the name of the key
  -- only where such a message is stored.
  pub ingest_email-IsEffect :
      (m : FetchedMessage) (parsed : ParsedEmail) (s s' : MailStore People) (o : IngestOutcome)
      → e.parse_email m.raw_bytes m.internal_date ≡ some parsed
      → ingest_email e org_id connection_id m s ≡ returned o s'
      → IsEffect org_id connection_id parsed.dedup_key s.messages s'.messages
  unfolding ingest_email
  ingest_email-IsEffect m parsed s s' o parses h =
      IsEffect-known_or_new parsed (length m.raw_bytes) s s' o _ refl (rw parses at h)
