-- ===== src/Connectors/Me/Lawful.antt =====
-- Every connection of a user keeps a consent in force.
use one_ai.Prelude.{
  Uuid, Time, String, ◌≡◌, refl, inl, inr, Bool, true, false, not, ◌&&◌, ◌||◌, Option, none, some,
  List, [], ◌∷◌, ◌++◌, arith, ◌==◌, ==_refl, str_eq, str_eq_iff, opt_eq, is_empty, any, All,
  All-append, keep_if, find_where_sound, delete_where, Bool-cases, if◌then◌else◌,
}
use one_ai.Result.{Result, err}
use one_ai.Audit.{Principal, AuditEvent, connector_connected, text}
use one_ai.Connectors.Board.{
  Board, ConnectorError, connector_not_entitled, duplicate_connection, record_consent,
  withdraw_consent,
}
use one_ai.Connectors.Connection.{
  Connection, is_in_org, get_for_owner, list_for_owner, delete, insert,
}
use one_ai.Connectors.Me.{
  SelfConnectRequest, self_connect, consented, owned, others_of_type, disconnected,
  disconnect_my_connection,
}
use one_ai.Connectors.Policy.{
  is_entitled, ConnectorConsent, is_in_force, type_value, insert_consent, withdraw_active,
}
use one_ai.Connectors.Service.{
  Vault, create_connection, new_connection, violates_connection_identity, stored, is_duplicate,
  connection_event,
}
use one_ai.Sync.Ingest.{IntegrityError}

-- a shared connection, or one whose owner consents to the type
abbrev pub lawful_for : Option Uuid → Uuid → String → List ConnectorConsent → Bool
lawful_for none org_id connector_type consents = true
lawful_for (some user_id) org_id connector_type consents =
    any (is_in_force org_id user_id connector_type) consents

abbrev pub is_lawful : List ConnectorConsent → Connection → Bool
is_lawful consents c = lawful_for c.owner_user_id c.org_id c.connector_type consents

abbrev pub IsLawful : Board → Type 0
IsLawful s = All (λ c. is_lawful s.consents c ≡ true) s.connections

module _ {ℓ} {A : Type ℓ} where
  any-append_left : (p : A → Bool) (xs ys : List A) → any p xs ≡ true → any p (xs ++ ys) ≡ true
  any-append_left p [] ys h = absurd (ground (arith, h))
  any-append_left p (x ∷ xs) ys h = ground (arith, h, any-append_left p xs ys)

  any-snoc : (p : A → Bool) (xs : List A) (y : A) → p y ≡ true → any p (xs ++ y ∷ []) ≡ true
  any-snoc p [] y h = ground (arith, h)
  any-snoc p (x ∷ xs) y h = ground (arith, any-snoc p xs y h)

  All-weaken {κ μ} :
      (P : A → Type κ) (Q : A → Type μ) (xs : List A) → ((a : A) → P a → Q a) → All P xs → All Q xs
  All-weaken P Q [] imply h = tt
  All-weaken P Q (x ∷ xs) imply h = (imply x h.0, All-weaken P Q xs imply h.1)

  -- what a DELETE leaves
  pub All-delete_where {κ} :
      (P Q : A → Type κ) (d : A → Bool) (xs : List A)
      → ((a : A) → d a ≡ false → P a → Q a)
      → All P xs
      → All Q (delete_where d xs)
  All-delete_where P Q d [] imply h = tt
  All-delete_where P Q d (x ∷ xs) imply h = elim (Bool-cases (d x)) [
    | inl gone ↦ rw gone (All-delete_where P Q d xs imply h.1)
    | inr kept ↦ rw kept (imply x kept h.0, All-delete_where P Q d xs imply h.1)
  ]

  -- a SELECT, filtered, finds nothing
  All-empty {κ} :
      (P : A → Type κ) (p q : A → Bool) (xs : List A)
      → is_empty (keep_if q (keep_if p xs)) ≡ true
      → All P xs
      → All (λ a. P a × (p a ≡ true → q a ≡ false)) xs
  All-empty P p q [] nothing h = tt
  All-empty P p q (x ∷ xs) nothing h = elim (Bool-cases (p x)) [
    | inr out ↦ (
      (h.0, λ is_in. absurd (ground (arith, out, is_in))),
      All-empty P p q xs (rw out at nothing) h.1,
    )
    | inl is_in ↦ elim (Bool-cases (q x)) [
      | inl hit ↦ absurd (ground (arith, rw (is_in, hit) at nothing))
      | inr miss ↦ ((h.0, λ _. miss), All-empty P p q xs (rw (is_in, miss) at nothing) h.1)
    ]
  ]

matching :
    (o o' u u' : Uuid) (t t' : String) (k : ConnectorConsent)
    → is_in_force o u t k ≡ true
    → is_in_force o' u' t' k ≡ true
    → (o == o' && u == u' && str_eq t t') ≡ true
matching o o' u u' t t' k h h' =
    ground
      (arith, h, h', str_eq_iff t t', str_eq_iff k.connector_type t, str_eq_iff k.connector_type t')

withdrawn_others :
    (o o' u u' : Uuid) (t t' : String) (now : Time) (table : List ConnectorConsent)
    → (o == o' && u == u' && str_eq t t') ≡ false
    → any (is_in_force o u t) table ≡ true
    → any (is_in_force o u t) (withdraw_active o' u' t' now table).1 ≡ true
unfolding withdraw_active
withdrawn_others o o' u u' t t' now [] apart h = h
withdrawn_others o o' u u' t t' now (k ∷ table) apart h =
    elim (Bool-cases (is_in_force o' u' t' k)) [
      | inl hit ↦ or_right _ (
          withdrawn_others o o' u u' t t' now table apart (elim (Bool-cases (is_in_force o u t k)) [
            | inl same ↦ absurd (ground (arith, apart, matching o o' u u' t t' k same hit))
            | inr other ↦ rw other at h
          ]))
      | inr miss ↦ rw miss (elim (Bool-cases (is_in_force o u t k)) [
        | inl same ↦ rw same refl
        | inr other ↦ rw other (withdrawn_others o o' u u' t t' now table apart (rw other at h))
      ])
    ]
  where
    or_right : {b : Bool} (a : Bool) → b ≡ true → (a || b) ≡ true
    or_right true h = refl
    or_right false h = h

lawful_others :
    (owner : Option Uuid) (org_id org' user' : Uuid) (t t' : String) (now : Time)
    (table : List ConnectorConsent)
    → (org_id == org' && opt_eq owner user' && str_eq t t') ≡ false
    → lawful_for owner org_id t table ≡ true
    → lawful_for owner org_id t (withdraw_active org' user' t' now table).1 ≡ true
lawful_others none org_id org' user' t t' now table apart h = refl
lawful_others (some u) org_id org' user' t t' now table apart h =
    withdrawn_others org_id org' u user' t t' now table apart h

lawful_append :
    (owner : Option Uuid) (org_id : Uuid) (t : String) (table more : List ConnectorConsent)
    → lawful_for owner org_id t table ≡ true
    → lawful_for owner org_id t (table ++ more) ≡ true
lawful_append none org_id t table more h = refl
lawful_append (some u) org_id t table more h = any-append_left (is_in_force org_id u t) table more h

-- the row that is deleted is the only one of its owner and type
module _ (org_id user_id connection_id : Uuid) (c : Connection) (now : Time) (s : Board) where
  remaining :
      (is_in_org connection_id org_id c && opt_eq c.owner_user_id user_id) ≡ true
      → is_empty (others_of_type org_id user_id c connection_id s) ≡ true
      → IsLawful s
      → All
          (λ r.
            is_lawful (withdraw_active org_id user_id c.connector_type now s.consents).1 r ≡ true)
          (delete c s.connections)
  unfolding delete list_for_owner
  remaining found last h =
      All-delete_where _ _ _ s.connections
        (λ r kept facts.
          lawful_others r.owner_user_id r.org_id org_id user_id r.connector_type c.connector_type
            now s.consents (apart r kept facts.1) facts.0)
        (All-empty _ _ _ s.connections last h)
    where
      apart :
          (r : Connection)
          → is_in_org c.id c.org_id r ≡ false
          → ((r.org_id == org_id && opt_eq r.owner_user_id user_id) ≡ true
              → (str_eq r.connector_type c.connector_type && not (r.id == connection_id)) ≡ false)
          → (r.org_id == org_id
              && opt_eq r.owner_user_id user_id
              && str_eq r.connector_type c.connector_type)
            ≡ false
      apart r kept only = elim (Bool-cases (r.org_id == org_id && opt_eq r.owner_user_id user_id)) [
        | inr other ↦ ground (arith, other)
        | inl same ↦ ground (arith, same, only same, kept, found)
      ]

module _ (actor : Principal) where
  disconnected-IsLawful :
      (org_id connection_id : Uuid) (found : Option Connection) (now : Time) (s : Board)
      → get_for_owner connection_id org_id actor.subject_id s.connections ≡ found
      → IsLawful s
      → IsLawful (disconnected org_id actor.subject_id connection_id (owned found) actor now s).1
  unfolding get_for_owner withdraw_consent delete
  disconnected-IsLawful org_id connection_id none now s e h = h
  disconnected-IsLawful org_id connection_id (some c) now s e h =
      elim (Bool-cases (is_empty (others_of_type org_id actor.subject_id c connection_id s))) [
        | inl last ↦ rw last (
            remaining org_id actor.subject_id connection_id c now s
              (find_where_sound _ s.connections e) last h)
        | inr shared ↦ rw shared (All-delete_where _ _ _ s.connections (λ r _ lawful. lawful) h)
      ]

  pub disconnect_my_connection-IsLawful :
      (org_id connection_id : Uuid) (now : Time) (s : Board)
      → IsLawful s
      → IsLawful (disconnect_my_connection org_id actor.subject_id connection_id actor now s).1
  unfolding disconnect_my_connection
  disconnect_my_connection-IsLawful org_id connection_id now s h =
      disconnected-IsLawful org_id connection_id
        (get_for_owner connection_id org_id actor.subject_id s.connections) now s refl h

  module _ (v : Vault) (id consent_id org_id : Uuid) (request : SelfConnectRequest) (now : Time)
      (s : Board) (h : IsLawful s) where
    abbrev Connecting : Type 0
    Connecting = Result ConnectorError Connection × Board

    abbrev with_consent : Connecting → Connecting
    with_consent r = consented v consent_id org_id request actor now r

    abbrev created : Connection
    created = new_connection v id org_id request.mailbox (some actor.subject_id)

    past_guards :
        (allowed accepted : Bool) (e e' : ConnectorError) (r : Connecting)
        → IsLawful (with_consent r).1
        → IsLawful
            (if not allowed
              then (err e, s)
              else if not accepted
              then (err e', s)
              else with_consent r).1
    past_guards false accepted e e' r k = h
    past_guards true false e e' r k = h
    past_guards true true e e' r k = k

    past_checks :
        (entitled duplicate : Bool) (e e' : ConnectorError) (r : Connecting)
        → IsLawful (with_consent r).1
        → IsLawful
            (with_consent
              (if not entitled then (err e, s) else if duplicate then (err e', s) else r)).1
    past_checks false duplicate e e' r k = h
    past_checks true true e e' r k = h
    past_checks true false e e' r k = k

    past_insert :
        (verdict : Option IntegrityError) (event : AuditEvent)
        → IsLawful (with_consent (stored verdict created event s)).1
    unfolding new_connection record_consent insert_consent insert
    past_insert none event =
        All-append _ s.connections _
          (All-weaken _ _ s.connections
            (λ c lawful.
              lawful_append c.owner_user_id c.org_id c.connector_type s.consents _ lawful)
            h)
          (
            any-snoc _ s.consents _ (
                ground (
                  arith,
                  ==_refl org_id,
                  ==_refl actor.subject_id,
                  str_eq_iff (type_value request.mailbox.connector_type)
                      (type_value request.mailbox.connector_type),
                )),
            tt,
          )
    past_insert (some e) event = elim (Bool-cases (violates_connection_identity e)) [
      | inl same ↦ rw same h
      | inr other ↦ rw other h
    ]

    pub self_connect-IsLawful :
        (verdict : Option IntegrityError)
        → IsLawful (self_connect v id consent_id org_id request actor now verdict s).1
    unfolding self_connect create_connection
    self_connect-IsLawful verdict =
        let event = connection_event connector_connected actor created (
          ("connector_type", text (type_value request.mailbox.connector_type))
          ∷ ("host", text request.mailbox.host)
          ∷ []) in
        past_guards _ request.accepted _ _ _ (
          past_checks
            (is_entitled org_id (type_value request.mailbox.connector_type) s.entitlements)
            (is_duplicate org_id (some actor.subject_id) request.mailbox s.connections)
            connector_not_entitled duplicate_connection (stored verdict created event s)
            (past_insert verdict event))
