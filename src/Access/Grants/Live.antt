-- ===== src/Access/Grants/Live.antt =====
-- Reconciliation makes the live grants of a message exactly the principals that are derived.
use one_ai.Prelude.{
  ℕ, Uuid, Time, String, ◌≡◌, refl, ap, ◌∙◌, Bool, true, false, not, ◌&&◌, ◌||◌, inl, inr, Option,
  none, some, List, [], ◌∷◌, ◌++◌, arith, ◌==◌, ==_refl, ==_iff, str_eq_iff, is_none, any,
  Bool-cases,
}
use one_ai.Access.Normalize.{TextMethods}
use one_ai.Access.Grants.{
  AclGrant, Provenance, PrincipalSourceIdentity, holds_live, held_by, insert_live_grant,
  list_live_person_ids_for_object, tombstone_grants, insert_all, write_email_grants,
  reconcile_email_message_grants, derive_email_principal_roles,
}

-- does the person hold a live grant on the message?
abbrev pub has_live : Uuid → Uuid → Uuid → List AclGrant → Bool
has_live org_id message_id p table = any (holds_live org_id "email_message" message_id p) table

any-append {ℓ} :
    {A : Type ℓ} (p : A → Bool) (xs ys : List A) → any p (xs ++ ys) ≡ (any p xs || any p ys)
any-append p [] ys = refl
any-append p (x ∷ xs) ys = ground (arith, any-append p xs ys)

module _ (org_id message_id connection_id : Uuid) (now : Time) where
  abbrev fresh_grant : Uuid → Provenance → AclGrant
  fresh_grant person_id provenance = record {
    org_id = org_id;
    person_id = person_id;
    object_type = "email_message";
    object_id = message_id;
    connection_id = some connection_id;
    provenance = provenance;
    granted_at = now;
    revoked_at = none;
  }

  has_live-insert_live_grant :
      (p q : Uuid) (r : Provenance) (table : List AclGrant)
      → has_live org_id message_id p (insert_live_grant (fresh_grant q r) table)
        ≡ (has_live org_id message_id p table || p == q)
  unfolding insert_live_grant
  has_live-insert_live_grant p q r table = elim (Bool-cases (p == q)) [
    | inl same ↦
        (let e : p ≡ q = (==_iff p q).0 same in
          let at_p : has_live org_id message_id p table ≡ has_live org_id message_id q table =
            ap (λ k. has_live org_id message_id k table) e in
          ground (
            arith,
            same,
            at_p,
            any-append (holds_live org_id "email_message" message_id p) table
                (fresh_grant q r ∷ []),
            ==_refl org_id,
            ==_refl message_id,
            str_eq_iff "email_message" "email_message",
          ))
    | inr apart ↦ ground (
      arith,
      apart,
      any-append (holds_live org_id "email_message" message_id p) table (fresh_grant q r ∷ []),
    )
  ]

  has_live-insert_all :
      (p : Uuid) (ps : List (Uuid × Provenance)) (table : List AclGrant)
      → has_live org_id message_id p (insert_all org_id message_id connection_id now ps table)
        ≡ (has_live org_id message_id p table || not (is_none (held_by p ps)))
  unfolding insert_all
  has_live-insert_all p [] table = ground arith
  has_live-insert_all p ((q, r) ∷ ps) table =
      has_live-insert_all p ps (insert_live_grant (fresh_grant q r) table)
      ∙ ground (arith, has_live-insert_live_grant p q r table)

  has_live-tombstone_grants :
      (p : Uuid) (dropped : Uuid → Bool) (table : List AclGrant)
      → has_live org_id message_id p
          (tombstone_grants org_id "email_message" message_id dropped now table).1
        ≡ (has_live org_id message_id p table && not (dropped p))
  unfolding tombstone_grants
  has_live-tombstone_grants p dropped [] = refl
  has_live-tombstone_grants p dropped (g ∷ table) = elim (Bool-cases (g.person_id == p)) [
    | inl own ↦
        (let at_p : dropped g.person_id ≡ dropped p = ap dropped ((==_iff g.person_id p).0 own) in
          ground (arith, own, at_p, has_live-tombstone_grants p dropped table))
    | inr another ↦ ground (arith, another, has_live-tombstone_grants p dropped table)
  ]

  -- Nobody who is dropped holds a live grant: nothing is revoked.
  count_where-none_dropped :
      (dropped : Uuid → Bool) (table : List AclGrant)
      → ((p : Uuid) → has_live org_id message_id p table ≡ true → dropped p ≡ false)
      → (tombstone_grants org_id "email_message" message_id dropped now table).0 ≡ 0
  unfolding tombstone_grants
  count_where-none_dropped dropped [] none_dropped = refl
  count_where-none_dropped dropped (g ∷ table) none_dropped = ground (
    arith,
    none_dropped g.person_id,
    ==_refl g.person_id,
    count_where-none_dropped dropped table (λ p live. none_dropped p (ground (arith, live))),
  )

module _ (t : TextMethods) (uuid_text : Uuid → String) (org_id message_id connection_id : Uuid)
    (owner_user_id : Option Uuid) (sender_address : Option String)
    (recipient_addresses : List String) (identities : List PrincipalSourceIdentity) where
  -- is the person among the principals that are derived now?
  abbrev pub derivable : Uuid → Bool
  derivable p = not (
      is_none (
        held_by p (
          derive_email_principal_roles t uuid_text org_id owner_user_id sender_address
            recipient_addresses identities)))

  abbrev reconcile : Time → List AclGrant → ℕ × List AclGrant
  reconcile now table =
      reconcile_email_message_grants t uuid_text org_id message_id connection_id owner_user_id
        sender_address recipient_addresses identities now table

  live_exact :
      (now : Time) (table : List AclGrant) (p : Uuid)
      → has_live org_id message_id p (reconcile now table).1 ≡ derivable p
  unfolding reconcile_email_message_grants write_email_grants list_live_person_ids_for_object
  live_exact now table p =
      has_live-tombstone_grants org_id message_id connection_id now p _ _
      ∙ ground (
        arith,
        has_live-insert_all org_id message_id connection_id now p
            (derive_email_principal_roles t uuid_text org_id owner_user_id sender_address
              recipient_addresses identities)
            table,
      )

  again_none :
      (now : Time) (table : List AclGrant)
      → ((p : Uuid) → has_live org_id message_id p table ≡ derivable p)
      → (reconcile now table).0 ≡ 0
  unfolding reconcile_email_message_grants write_email_grants list_live_person_ids_for_object
  again_none now table settled =
      count_where-none_dropped org_id message_id connection_id now _ _ λ p live. ground (
        arith,
        live,
        settled p,
        has_live-insert_all org_id message_id connection_id now p
            (derive_email_principal_roles t uuid_text org_id owner_user_id sender_address
              recipient_addresses identities)
            table,
      )

  -- After a reconciliation of a message exactly the derivable principals hold a live grant on it,
  -- whatever the table held before, and a second reconciliation from the same addresses and
  -- identities revokes nothing.
  pub reconcile_exact :
      (now later : Time) (table : List AclGrant) (p : Uuid)
      → (has_live org_id message_id p
            (reconcile_email_message_grants t uuid_text org_id message_id connection_id
              owner_user_id sender_address recipient_addresses identities now table).1
          ≡ derivable p)
        × ((reconcile_email_message_grants t uuid_text org_id message_id connection_id owner_user_id
              sender_address recipient_addresses identities later
              (reconcile_email_message_grants t uuid_text org_id message_id connection_id
                owner_user_id sender_address recipient_addresses identities now table).1).0
            ≡ 0)
  reconcile_exact now later table p =
      (live_exact now table p, again_none later (reconcile now table).1 (live_exact now table))
