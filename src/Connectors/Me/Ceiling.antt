-- ===== src/Connectors/Me/Ceiling.antt =====
-- What the company's plan does not include, nobody of the company connects, tests, syncs or grants.
use one_ai.Prelude.{
  ℕ, Uuid, Time, String, ◌≡◌, refl, ap, ◌∙◌, inl, inr, Bool, true, false, Option, none, some, List,
  [], ◌∷◌, ◌++◌, arith, is_some, find_where, update_where, Bool-cases, Option-cases,
}
use one_ai.Result.{Result, ok, err, is_ok}
use one_ai.Audit.{Principal}
use one_ai.Connectors.Board.{
  Board, ConnectorError, connector_not_entitled, set_entitlement, set_org_wide, set_override,
  resolve,
}
use one_ai.Connectors.Connection.{Connection}
use one_ai.Connectors.Me.{
  SelfConnectRequest, self_connect, test_my_connection, sync_my_connection, test_allowed,
  sync_allowed, require_current_access, MeError, refused, access_to, get_my_connection,
}
use one_ai.Connectors.Policy.{
  ConnectorType, imap, type_of, grant, ConnectorEntitlement, is_entitlement, get_entitlement,
  is_enabled, is_entitled, stamped, upsert_entitlement, resolve_connector_access,
}
use one_ai.Connectors.Service.{Vault}
use one_ai.Sync.Ingest.{IntegrityError}
use one_ai.Sync.Store.{Db}

stamped_off :
    (org_id : Uuid) (connector_type : String) (by : Option Uuid) (now : Time)
    (table : List ConnectorEntitlement)
    → is_enabled (
        find_where
          (is_entitlement org_id connector_type)
          (update_where (is_entitlement org_id connector_type) (stamped false by now) table))
      ≡ false
stamped_off org_id connector_type by now [] = refl
stamped_off org_id connector_type by now (e ∷ table) =
    elim (Bool-cases (is_entitlement org_id connector_type e)) [
      | inl hit ↦ rw (hit, hit) refl
      | inr miss ↦ rw (miss, miss) (stamped_off org_id connector_type by now table)
    ]

snoc_off :
    (q : ConnectorEntitlement → Bool) (table : List ConnectorEntitlement) (e : ConnectorEntitlement)
    → is_enabled (find_where q table) ≡ false
    → e.enabled ≡ false
    → is_enabled (find_where q (table ++ e ∷ [])) ≡ false
snoc_off q [] e h off = elim (Bool-cases (q e)) [ inl hit ↦ rw hit off | inr miss ↦ rw miss refl ]
snoc_off q (x ∷ table) e h off = elim (Bool-cases (q x)) [
  | inl hit ↦ rw hit (rw hit at h)
  | inr miss ↦ rw miss (snoc_off q table e (rw miss at h) off)
]

revoked :
    (id org_id : Uuid) (connector_type : String) (by : Option Uuid) (now : Time)
    (table : List ConnectorEntitlement)
    → is_entitled org_id connector_type
        (upsert_entitlement id org_id connector_type false by now table)
      ≡ false
unfolding is_entitled get_entitlement upsert_entitlement
revoked id org_id connector_type by now table =
    elim (Option-cases (find_where (is_entitlement org_id connector_type) table)) [
      | inr (e, found) ↦ rw found (stamped_off org_id connector_type by now table)
      | inl absent ↦
          rw absent
            (snoc_off (is_entitlement org_id connector_type) table _ (ap is_enabled absent) refl)
    ]

unless_access :
    (o : Option ConnectorError) (s : Board) (y : Result ConnectorError Connection × Board)
    → is_some o ≡ true
    → is_ok
        (elim o as (λ _. Result ConnectorError Connection × Board) [
          | some e ↦ (err e, s)
          | none ↦ y
        ]).0
      ≡ false
unless_access none s y h = absurd (ground (arith, h))
unless_access (some e) s y h = refl

unless_sync :
    {Mail : Type 0} (o : Option ConnectorError) (db : Db Mail) (y : Result MeError Uuid × Db Mail)
    → is_some o ≡ true
    → is_ok
        (elim o as (λ _. Result MeError Uuid × Db Mail) [
          | some e ↦ (err (refused e), db)
          | none ↦ y
        ]).0
      ≡ false
unless_sync none db y h = absurd (ground (arith, h))
unless_sync (some e) db y h = refl

module _ (org_id : Uuid) (s : Board) (off : is_entitled org_id "imap" s.entitlements ≡ false) where
  out_of_plan :
      (user_id : Uuid) (t : ConnectorType)
      → (resolve org_id user_id t s) ≡ resolve_connector_access false none false
  unfolding resolve resolve_connector_access
  out_of_plan user_id imap = rw off refl

  no_access :
      (user_id : Uuid) (t : Option ConnectorType) → is_some (access_to org_id user_id t s) ≡ true
  unfolding resolve_connector_access
  no_access user_id none = refl
  no_access user_id (some t) = rw (out_of_plan user_id t) refl

  refused_test :
      (v : Vault) (user_id connection_id : Uuid) (r : Result ConnectorError Connection) (now : Time)
      (meanwhile : Board → Board)
      → is_ok (test_allowed v org_id user_id connection_id r now meanwhile s).0 ≡ false
  unfolding require_current_access
  refused_test v user_id connection_id (err e) now meanwhile = refl
  refused_test v user_id connection_id (ok c) now meanwhile =
      unless_access (access_to org_id user_id (type_of c.connector_type) s) s _
        (no_access user_id (type_of c.connector_type))

  refused_sync :
      {Mail : Type 0} (run_id user_id connection_id : Uuid) (r : Result ConnectorError Connection)
      (caller : Principal) (now : Time) (stale_seconds : ℕ) (db : Db Mail)
      → is_ok (sync_allowed run_id org_id user_id connection_id r caller now stale_seconds s db).0
        ≡ false
  unfolding require_current_access
  refused_sync run_id user_id connection_id (err e) caller now stale_seconds db = refl
  refused_sync run_id user_id connection_id (ok c) caller now stale_seconds db =
      unless_sync (access_to org_id user_id (type_of c.connector_type) s) db _
        (no_access user_id (type_of c.connector_type))

-- After the entitlement of a company to the mailbox connector is revoked, as long as the
-- entitlements stay as that left them, a self-connect, the enabling for the whole organization and
-- a grant to a user are refused as not in the plan and change nothing, and no test and no start of
-- a sync of a user of the company succeeds, whatever policies and overrides are stored.
pub revoked_plan_stops :
    {Mail : Type 0} (v : Vault) (id org_id : Uuid) (actor : Principal) (now : Time)
    (s later : Board) (user_id connection_id new_id consent_id run_id : Uuid)
    (request : SelfConnectRequest) (caller : Principal) (now' : Time)
    (verdict : Option IntegrityError) (meanwhile : Board → Board) (stale_seconds : ℕ) (db : Db Mail)
    → later.entitlements ≡ (set_entitlement id org_id imap false actor now s).entitlements
    → (self_connect v new_id consent_id org_id request caller now' verdict later
        ≡ (err connector_not_entitled, later))
      × (is_ok (test_my_connection v org_id user_id connection_id now' meanwhile later).0 ≡ false)
      × (is_ok
            (sync_my_connection run_id org_id user_id connection_id caller now' stale_seconds later
              db).0
          ≡ false)
      × (set_org_wide new_id org_id imap true caller later ≡ (err connector_not_entitled, later))
      × (set_override new_id org_id user_id imap grant caller later
          ≡ (err connector_not_entitled, later))
unfolding set_entitlement self_connect test_my_connection sync_my_connection set_org_wide
    set_override resolve_connector_access
revoked_plan_stops v id org_id actor now s later user_id connection_id new_id consent_id run_id
      request caller now' verdict meanwhile stale_seconds db same =
    let off : is_entitled org_id "imap" later.entitlements ≡ false =
      ap (is_entitled org_id "imap") same
      ∙ revoked id org_id "imap" (some actor.subject_id) now s.entitlements in
    (
      rw (out_of_plan org_id later off caller.subject_id request.mailbox.connector_type) refl,
      refused_test org_id later off v user_id connection_id
          (get_my_connection org_id user_id connection_id later) now' meanwhile,
      refused_sync org_id later off run_id user_id connection_id
          (get_my_connection org_id user_id connection_id
            (record later { connections = db.connections }))
          caller now' stale_seconds db,
      rw off refl,
      rw off refl,
    )
