-- ===== src/Sync/EmailIngest/Contract.antt =====
-- The ingest of the mail is what the runner takes it to be.
use one_ai.Prelude.{
  ℕ, Uuid, String, ◌≡◌, refl, sym, subst, ◌∙◌, inl, inr, true, Option, none, some, List, [], ◌∷◌,
  arith, length, Bool-cases, Option-cases,
}
use one_ai.Access.Email.{EmailMessage}
use one_ai.Sync.Fetch.{FetchedMessage}
use one_ai.Sync.Ingest.{
  IngestOutcome, IntegrityError, is_dedup_collision, returned, violated, Ingest,
}
use one_ai.Sync.EmailIngest.{
  ParsedEmail, MailStore, Surroundings, get_message_id_by_dedup, has_key, mentions_dedup,
  build_message,
}
use one_ai.Sync.EmailIngest.Flow.{
  resolve_sender, skip, finish, inserted, insert_from, known_or_new, ingest_parsed, ingest_email,
}
use one_ai.Sync.EmailIngest.Holding.{
  is_stored, any-append, IsConstrained, IsEffect, messages-resolve_sender, ingest_email-IsEffect,
}

-- A message is held once a row of its key is there.
abbrev pub IsHeldAs : Uuid → Uuid → Option ParsedEmail → List EmailMessage → Type 0
IsHeldAs org_id connection_id none ms = ⊥
IsHeldAs org_id connection_id (some parsed) ms =
    is_stored org_id connection_id parsed.dedup_key ms ≡ true

is_stored-grown :
    (o c o' c' : Uuid) (k k' : String) (before after : List EmailMessage)
    → IsEffect o c k before after
    → is_stored o' c' k' before ≡ true
    → is_stored o' c' k' after ≡ true
is_stored-grown o c o' c' k k' before after (inl (same, there)) h =
    subst (λ ms. is_stored o' c' k' ms ≡ true) (sym same) h
is_stored-grown o c o' c' k k' before after (inr (row, grown, _, _, _, _)) h =
    subst (λ ms. is_stored o' c' k' ms ≡ true) (sym grown)
      (any-append (has_key o' c' k') before (row ∷ []) ∙ ground (arith, h))

is_stored-after :
    (o c : Uuid) (k : String) (before after : List EmailMessage)
    → IsEffect o c k before after
    → is_stored o c k after ≡ true
is_stored-after o c k before after (inl (same, there)) =
    subst (λ ms. is_stored o c k ms ≡ true) (sym same) there
is_stored-after o c k before after (inr (row, grown, keyed, _, _, _)) =
    subst (λ ms. is_stored o c k ms ≡ true) (sym grown)
      (any-append (has_key o c k) before (row ∷ []) ∙ ground (arith, keyed))

module _ {People : Type 0} (e : Surroundings People) (lawful : IsConstrained e) where
  abbrev pub Held : Uuid → Uuid → FetchedMessage → MailStore People → Type 0
  Held org_id connection_id m s =
      IsHeldAs org_id connection_id (e.parse_email m.raw_bytes m.internal_date) s.messages

  parsed-IsEffect :
      (org_id connection_id : Uuid) (m : FetchedMessage) (s s' : MailStore People)
      (o : IngestOutcome)
      → ingest_email e org_id connection_id m s ≡ returned o s'
      → (parsed : ParsedEmail) × (e.parse_email m.raw_bytes m.internal_date ≡ some parsed)
        × IsEffect org_id connection_id parsed.dedup_key s.messages s'.messages
  unfolding ingest_email
  parsed-IsEffect org_id connection_id m s s' o h =
      elim (Option-cases (e.parse_email m.raw_bytes m.internal_date)) [
        | inl unread ↦ absurd (no_answer unread h)
        | inr (parsed, read) ↦ (
          parsed,
          read,
          ingest_email-IsEffect e lawful org_id connection_id m parsed s s' o read h,
        )
      ]
    where
      no_answer :
          e.parse_email m.raw_bytes m.internal_date ≡ none
          → ingest_email e org_id connection_id m s ≡ returned o s'
          → ⊥
      no_answer unread h = ground (arith, unread, h)

  pub returned-Held :
      (org_id connection_id : Uuid) (m : FetchedMessage) (s s' : MailStore People)
      (o : IngestOutcome)
      → ingest_email e org_id connection_id m s ≡ returned o s'
      → Held org_id connection_id m s'
  returned-Held org_id connection_id m s s' o h =
      let (parsed, read, effect) = parsed-IsEffect org_id connection_id m s s' o h in
      subst (λ r. IsHeldAs org_id connection_id r s'.messages) (sym read)
        (is_stored-after org_id connection_id parsed.dedup_key s.messages s'.messages effect)

  pub ingest_email-Held :
      (org_id connection_id : Uuid) (m other : FetchedMessage) (s s' : MailStore People)
      (o : IngestOutcome)
      → ingest_email e org_id connection_id m s ≡ returned o s'
      → Held org_id connection_id other s
      → Held org_id connection_id other s'
  ingest_email-Held org_id connection_id m other s s' o h held =
      let (parsed, read, effect) = parsed-IsEffect org_id connection_id m s s' o h in
      still parsed.dedup_key (e.parse_email other.raw_bytes other.internal_date) effect held
    where
      still :
          (key : String) (r : Option ParsedEmail)
          → IsEffect org_id connection_id key s.messages s'.messages
          → IsHeldAs org_id connection_id r s.messages
          → IsHeldAs org_id connection_id r s'.messages
      still key none effect held = held
      still key (some p) effect held =
          is_stored-grown org_id connection_id org_id connection_id key p.dedup_key s.messages
            s'.messages effect held

  refused :
      (org_id connection_id : Uuid) (parsed : ParsedEmail) (p : Option Uuid) (size : ℕ)
      (t : MailStore People) (error : IntegrityError) (answer : Option IntegrityError)
      → inserted e org_id connection_id parsed
          (build_message e (e.new_id t) org_id connection_id parsed p size)
          answer
          t
        ≡ violated error
      → answer ≡ some error
  unfolding inserted
  refused org_id connection_id parsed p size t error none h = absurd (stored_or_raised _ h)
    where
      stored_or_raised :
          (r : Option (MailStore People))
          → finish e org_id connection_id
              (EmailMessage.id (build_message e (e.new_id t) org_id connection_id parsed p size))
              parsed
              r
            ≡ violated error
          → ⊥
      stored_or_raised none h = ground (arith, h)
      stored_or_raised (some _) h = ground (arith, h)
  refused org_id connection_id parsed p size t error (some other) h =
      elim (Bool-cases (mentions_dedup other)) [
        | inl named ↦ absurd (skipped_it _ (rw named at h))
        | inr foreign ↦ ground (arith, foreign, h)
      ]
    where
      skipped_it : (r : Option Uuid) → skip e org_id connection_id parsed r t ≡ violated error → ⊥
      skipped_it none h = ground (arith, h)
      skipped_it (some _) h = ground (arith, h)

  pub collision-Held :
      (org_id connection_id : Uuid) (m : FetchedMessage) (s : MailStore People)
      (error : IntegrityError)
      → ingest_email e org_id connection_id m s ≡ violated error
      → is_dedup_collision error ≡ true
      → Held org_id connection_id m s
  unfolding ingest_email build_message
  collision-Held org_id connection_id m s error h collides =
      unread (e.parse_email m.raw_bytes m.internal_date) h
    where
      inserting :
          (parsed : ParsedEmail) (size : ℕ) (r : Option (Option Uuid × MailStore People))
          → resolve_sender e org_id parsed s ≡ r
          → insert_from e org_id connection_id parsed size r ≡ violated error
          → is_stored org_id connection_id parsed.dedup_key s.messages ≡ true
      inserting parsed size none resolved h = absurd (ground (arith, h))
      inserting parsed size (some (p, t)) resolved h =
          subst (λ ms. is_stored org_id connection_id parsed.dedup_key ms ≡ true)
            (messages-resolve_sender e lawful org_id connection_id parsed s t p resolved)
            (lawful.structured _ t error (refused org_id connection_id parsed p size t error _ h)
              collides)

      new :
          (parsed : ParsedEmail) (size : ℕ) (found : Option Uuid)
          → known_or_new e org_id connection_id parsed size found s ≡ violated error
          → is_stored org_id connection_id parsed.dedup_key s.messages ≡ true
      new parsed size (some id) h = absurd (ground (arith, h))
      new parsed size none h = inserting parsed size (resolve_sender e org_id parsed s) refl h

      unread :
          (r : Option ParsedEmail)
          → ingest_parsed e org_id connection_id (length m.raw_bytes) r s ≡ violated error
          → IsHeldAs org_id connection_id r s.messages
      unread none h = absurd (ground (arith, h))
      unread (some parsed) h =
          new parsed (length m.raw_bytes)
            (get_message_id_by_dedup e.sees_first org_id connection_id parsed.dedup_key s.messages)
            h

  -- the interface of the runner, filled
  abbrev pub email_ingest : Ingest
  email_ingest = record {
    Mail = MailStore People;
    ingest_email = ingest_email e;
    Holds = Held;
    returned_holds = returned-Held;
    collision_holds = collision-Held;
    ingest_keeps = ingest_email-Held;
  }
