-- ===== src/Sync/EmailIngest/Again.antt =====
-- A message that is stored already.
use one_ai.Prelude.{
  Uuid, String, ◌≡◌, refl, inl, inr, Bool, true, not, some, List, [], ◌∷◌, map, arith, is_none,
  Bool-cases,
}
use one_ai.Access.Email.{EmailMessage}
use one_ai.Access.Grants.{held_by, derive_email_principal_roles}
use one_ai.Access.Grants.Live.{has_live, reconcile_exact}
use one_ai.Sync.Fetch.{FetchedMessage}
use one_ai.Sync.Ingest.{skipped, returned}
use one_ai.Sync.EmailIngest.{
  ParsedEmail, ParsedRecipient, MailStore, Surroundings, get_message_id_by_dedup, has_key,
}
use one_ai.Sync.EmailIngest.Flow.{ingest_email, reconciled}
use one_ai.Sync.EmailIngest.Holding.{is_stored}

found-is_stored :
    (sees : EmailMessage → Bool) (org_id connection_id : Uuid) (key : String)
    (ms : List EmailMessage)
    → ((row : EmailMessage) → sees row ≡ true)
    → is_stored org_id connection_id key ms ≡ true
    → (id : Uuid) × (get_message_id_by_dedup sees org_id connection_id key ms ≡ some id)
unfolding get_message_id_by_dedup
found-is_stored sees o c k [] all h = absurd (ground (arith, h))
found-is_stored sees o c k (m ∷ ms) all h = elim (Bool-cases (has_key o c k m)) [
  | inl here ↦ (m.id, ground (arith, here, all m))
  | inr later ↦
      (let (id, found) = found-is_stored sees o c k ms all (ground (arith, later, h)) in
        (id, ground (arith, later, found)))
]

module _ {People : Type 0} (e : Surroundings People) where
  -- A message whose key is stored in the mailbox, where the first SELECT misses no row, is
  -- skipped: the ingest returns, changes nothing but grants, and leaves a person a live grant on
  -- the stored message exactly where the addresses of the parsed message and the identities make
  -- the person a principal.
  pub ingest_email_again :
      (org_id connection_id : Uuid) (m : FetchedMessage) (parsed : ParsedEmail)
      (s : MailStore People) (p : Uuid)
      → e.parse_email m.raw_bytes m.internal_date ≡ some parsed
      → is_stored org_id connection_id parsed.dedup_key s.messages ≡ true
      → ((row : EmailMessage) → e.sees_first row ≡ true)
      → (id : Uuid) × (s' : MailStore People) × (get_message_id_by_dedup e.sees_first org_id
            connection_id parsed.dedup_key s.messages
          ≡ some id)
        × (ingest_email e org_id connection_id m s ≡ returned skipped s')
        × (s' ≡ record s { grants = s'.grants })
        × (has_live org_id id p s'.grants
            ≡ not (
                is_none (
                  held_by p (
                    derive_email_principal_roles e.texts e.uuid_text org_id e.owner_user_id
                      parsed.from_address
                      (map (λ (r : ParsedRecipient). r.address) parsed.recipients)
                      s.identities))))
  unfolding ingest_email reconciled
  ingest_email_again org_id connection_id m parsed s p parses stored_before all =
      let (id, found) =
        found-is_stored e.sees_first org_id connection_id parsed.dedup_key s.messages all
          stored_before in
      (
        id,
        reconciled e org_id connection_id id parsed s,
        found,
        rw (parses, found) refl,
        refl,
        (reconcile_exact e.texts e.uuid_text org_id id connection_id e.owner_user_id
            parsed.from_address (map (λ (r : ParsedRecipient). r.address) parsed.recipients)
            s.identities e.now e.now s.grants p).0,
      )
