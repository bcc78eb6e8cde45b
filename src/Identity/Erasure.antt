-- ===== src/Identity/Erasure.antt =====
-- backend/app/identity/services/erasure_service.py with schemas/erasure_schemas.py: the erasure of an
-- organization. A raised error rolls the transaction back. What the database cascades is left out.
pub mod Complete
pub mod Hold
use one_ai.Prelude.{
  ℕ, Uuid, Time, String, Bool, true, false, not, ◌||◌, Option, none, some, List, [], ◌∷◌, map, ◌==◌,
  str_eq, is_empty, keep_if, if◌then◌else◌,
}
use one_ai.Result.{Result, ok, err}
use one_ai.Audit.{Principal, record_event, org_erased, text, number, flag, counts}
use one_ai.Identity.Hooks.{Tables, ErasureHook, dict_update, has_key, required_erasure_hooks}
use one_ai.Identity.Platform.{org_event, save_status}
use one_ai.Identity.Realm.{
  OrganizationStatus, offboarded, Organization, PlatformAdmin, Realm, get_for_update,
  get_admin_by_id,
}
use one_ai.Identity.Support.{scrub_decider_emails}
use one_ai.Identity.Tokens.{delete_for_org_users}
use one_ai.Identity.Users.{User, delete_all_in_org}

-- erasure_schemas.py
pub record ErasureRequest : Type 0 where
  pub reason : String
  pub confirm_slug : String
  pub password : String

pub record ErasureCertificateResponse : Type 0 where
  pub org_id : Uuid
  pub org_slug : String
  pub org_name : String
  pub status : OrganizationStatus
  pub erased_at : Time
  pub erased_by_admin_id : Uuid
  pub users_erased : ℕ
  pub tokens_deleted : ℕ
  pub support_decider_emails_scrubbed : ℕ
  pub erased_rows_by_table : List (String × ℕ)
  pub audit_log_retained : Bool

pub data ErasureError : Type 0 where
  erasure_not_configured organization_not_found erasure_confirmation : ErasureError
  password_confirmation legal_hold : ErasureError

-- the identity tables, and those that belong to the other modules
pub record Estate : Type 0 where
  pub realm : Realm
  pub tables : Tables

abbrev pub admin_eligible : Option PlatformAdmin → Bool
admin_eligible none = false
admin_eligible (some admin) = admin.is_active

abbrev pub hash_of : String → Option PlatformAdmin → String
hash_of dummy none = dummy
hash_of dummy (some admin) = if admin.is_active then admin.password_hash else dummy

-- the loop over the hooks, and its report
abbrev pub run_hooks :
    List (String × ErasureHook) → Uuid → Tables → List (String × ℕ) → List (String × ℕ) × Tables
run_hooks [] org_id tables erased = (erased, tables)
run_hooks ((name, hook) ∷ hooks) org_id tables erased =
    let (rows, tables') = hook org_id tables in
    run_hooks hooks org_id tables' (dict_update erased rows)

unfoldable pub missing_hooks : List (String × ErasureHook) → List String
missing_hooks hooks = keep_if (λ name. not (has_key name hooks)) required_erasure_hooks

abbrev pub ids_in_org : Uuid → List User → List Uuid
ids_in_org org_id users = map (λ (u : User). u.id) (keep_if (λ u. u.org_id == org_id) users)

module _ (verify_password : String → String → Bool) (dummy_password_hash : String)
    (hooks : List (String × ErasureHook)) where
  -- the guards are passed
  unfoldable pub erased :
      Organization
      → Uuid
      → ErasureRequest
      → Principal
      → Time
      → Estate
      → ErasureCertificateResponse × Estate
  unfolding delete_for_org_users scrub_decider_emails delete_all_in_org org_event
  erased o org_id payload actor now s =
      let r = s.realm in
      let (tokens_deleted, refresh_tokens) =
        delete_for_org_users (ids_in_org org_id r.users) r.refresh_tokens in
      let (emails_scrubbed, support_grants) = scrub_decider_emails org_id r.support_grants in
      let (erased_rows_by_table, tables) = run_hooks hooks org_id s.tables [] in
      let (users_erased, users) = delete_all_in_org org_id r.users in
      (
        record {
          org_id = org_id;
          org_slug = o.slug;
          org_name = o.name;
          status = offboarded;
          erased_at = now;
          erased_by_admin_id = actor.subject_id;
          users_erased = users_erased;
          tokens_deleted = tokens_deleted;
          support_decider_emails_scrubbed = emails_scrubbed;
          erased_rows_by_table = erased_rows_by_table;
          audit_log_retained = true;
        },
        record {
          realm = record r {
            organizations = save_status org_id offboarded r.organizations;
            users = users;
            refresh_tokens = refresh_tokens;
            support_grants = support_grants;
            trail =
                record_event
                  (org_event org_erased actor org_id (
                    ("users_erased", number users_erased)
                    ∷ ("tokens_deleted", number tokens_deleted)
                    ∷ ("support_decider_emails_scrubbed", number emails_scrubbed)
                    ∷ ("erased_rows_by_table", counts erased_rows_by_table)
                    ∷ ("audit_log_retained", flag true)
                    ∷ ("reason", text payload.reason)
                    ∷ []))
                  r.trail;
          };
          tables = tables;
        },
      )

  abbrev pub guarded :
      Organization
      → Option PlatformAdmin
      → Uuid
      → ErasureRequest
      → Principal
      → Time
      → Estate
      → Result ErasureError ErasureCertificateResponse × Estate
  guarded o admin org_id payload actor now s =
      let (certificate, s') = erased o org_id payload actor now s in
      if not (str_eq payload.confirm_slug o.slug)
      then (err erasure_confirmation, s)
      else if not (admin_eligible admin)
          || not (verify_password payload.password (hash_of dummy_password_hash admin))
      then (err password_confirmation, s)
      else if o.legal_hold
      then (err legal_hold, s)
      else (ok certificate, s')

  abbrev pub erase_found :
      Option Organization
      → Uuid
      → ErasureRequest
      → Principal
      → Time
      → Estate
      → Result ErasureError ErasureCertificateResponse × Estate
  erase_found none org_id payload actor now s = (err organization_not_found, s)
  erase_found (some o) org_id payload actor now s =
      guarded o (get_admin_by_id actor.subject_id s.realm.platform_admins) org_id payload actor now
        s

  unfoldable pub erase_organization :
      Uuid
      → ErasureRequest
      → Principal
      → Time
      → Estate
      → Result ErasureError ErasureCertificateResponse × Estate
  unfolding get_for_update get_admin_by_id erased missing_hooks
  erase_organization org_id payload actor now s =
      if not (is_empty (missing_hooks hooks))
      then (err erasure_not_configured, s)
      else erase_found (get_for_update org_id s.realm.organizations) org_id payload actor now s
