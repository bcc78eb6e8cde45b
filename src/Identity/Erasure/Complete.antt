-- ===== src/Identity/Erasure/Complete.antt =====
-- An erasure leaves nothing of the organization, and touches nothing else.
use one_ai.Prelude.{
  ℕ, Uuid, Time, String, ◌≡◌, refl, sym, ap, ◌∙◌, inl, inr, Bool, true, false, not, ◌||◌, ◌&&◌,
  Option, none, some, List, [], ◌∷◌, ◌++◌, map, arith, ◌==◌, str_eq, any, contains, is_some,
  keep_if, count_where, delete_where, Bool-cases, if◌then◌else◌,
}
use one_ai.Result.{Result, ok, err}
use one_ai.Audit.{Principal}
use one_ai.Identity.Erasure.{
  ErasureRequest, ErasureCertificateResponse, ErasureError, erasure_confirmation,
  password_confirmation, legal_hold, Estate, run_hooks, missing_hooks, ids_in_org, erased,
  erase_found, erase_organization,
}
use one_ai.Identity.Hooks.{
  TenantRow, Tables, of_org, access_tables, connect_tables_children_first,
  entity_tables_children_first, erase_tables, erase_access_data_for_org,
  erase_connector_data_for_org, erase_entity_graph_for_org, register_erasure_hook, create_app,
}
use one_ai.Identity.Realm.{Organization, get_for_update}
use one_ai.Identity.Support.{SupportGrant, scrub_decider_emails}
use one_ai.Identity.Tokens.{RefreshToken, delete_for_org_users}
use one_ai.Identity.Users.{delete_all_in_org}

-- the tables of the modules that hold rows of a tenant
abbrev pub tenant_tables : List String
tenant_tables =
    "acl_grant" ∷ "fact_provenance" ∷ "visibility_promotion" ∷ "principal_source_identity"
    ∷ "email_recipient" ∷ "email_attachment" ∷ "email_message" ∷ "connector_sync_cursor"
    ∷ "connector_sync_run" ∷ "connector_connection" ∷ "connector_consent"
    ∷ "connector_policy_override" ∷ "connector_policy" ∷ "connector_entitlement" ∷ "person_company"
    ∷ "company_domain" ∷ "person_alias" ∷ "person_email" ∷ "company" ∷ "person" ∷ []

delete_where-keep_if {ℓ} :
    {A : Type ℓ} (p : A → Bool) (xs : List A) → delete_where p xs ≡ keep_if (λ x. not (p x)) xs
delete_where-keep_if p [] = refl
delete_where-keep_if p (x ∷ xs) = ground (arith, delete_where-keep_if p xs)

abbrev pub others : Uuid → List TenantRow → List TenantRow
others org_id = keep_if λ row. not (of_org org_id row)

abbrev cleared : Bool → Uuid → List TenantRow → List TenantRow
cleared b org_id rows = if b then others org_id rows else rows

others_twice :
    (org_id : Uuid) (rows : List TenantRow)
    → others org_id (others org_id rows) ≡ others org_id rows
others_twice org_id [] = refl
others_twice org_id (r ∷ rows) = elim (Bool-cases (of_org org_id r)) [
  | inl gone ↦ rw gone (others_twice org_id rows)
  | inr kept ↦ rw (kept, kept) (ap (λ t. r ∷ t) (others_twice org_id rows))
]

cleared_twice :
    (a b : Bool) (org_id : Uuid) (rows : List TenantRow)
    → cleared a org_id (cleared b org_id rows) ≡ cleared (b || a) org_id rows
cleared_twice false false org_id rows = refl
cleared_twice false true org_id rows = refl
cleared_twice true false org_id rows = refl
cleared_twice true true org_id rows = others_twice org_id rows

erase_tables_lem :
    (names : List String) (org_id : Uuid) (tables : Tables) (rows : List (String × ℕ))
    (name : String)
    → (erase_tables names org_id tables rows).1 name
      ≡ cleared (any (str_eq name) names) org_id (tables name)
erase_tables_lem [] org_id tables rows name = refl
erase_tables_lem (n ∷ names) org_id tables rows name =
    erase_tables_lem names org_id _ _ name
    ∙ ap (cleared (any (str_eq name) names) org_id) (delete_rows-cleared (str_eq name n))
    ∙ cleared_twice (any (str_eq name) names) (str_eq name n) org_id (tables name)
  where
    delete_rows-cleared :
        (b : Bool)
        → (if b then delete_where (of_org org_id) (tables name) else tables name)
          ≡ cleared b org_id (tables name)
    delete_rows-cleared false = refl
    delete_rows-cleared true = delete_where-keep_if (of_org org_id) (tables name)

any-++ : (p : String → Bool) (xs ys : List String) → any p (xs ++ ys) ≡ (any p xs || any p ys)
any-++ p [] ys = refl
any-++ p (x ∷ xs) ys = ground (arith, any-++ p xs ys)

any_of_three :
    (p : String → Bool) (xs ys zs : List String)
    → any p (xs ++ ys ++ zs) ≡ ((any p xs || any p ys) || any p zs)
any_of_three p [] ys zs = any-++ p ys zs
any_of_three p (x ∷ xs) ys zs = ground (arith, any_of_three p xs ys zs)

-- the three hooks, one after the other
all_tables :
    (org_id : Uuid) (tables : Tables) (name : String)
    → (erase_entity_graph_for_org org_id
          (erase_connector_data_for_org org_id (erase_access_data_for_org org_id tables).1).1).1
        name
      ≡ (if any (str_eq name) tenant_tables then others org_id (tables name) else tables name)
unfolding erase_entity_graph_for_org erase_connector_data_for_org erase_access_data_for_org
all_tables org_id tables name =
    let a = any (str_eq name) access_tables in
    let c = any (str_eq name) connect_tables_children_first in
    let e = any (str_eq name) entity_tables_children_first in
    let after_access = erase_tables_lem access_tables org_id tables [] name in
    let after_connect =
      erase_tables_lem connect_tables_children_first org_id
        (erase_access_data_for_org org_id tables).1 [] name in
    let after_entities =
      erase_tables_lem entity_tables_children_first org_id
        (erase_connector_data_for_org org_id (erase_access_data_for_org org_id tables).1).1 []
        name in
    after_entities
    ∙ ap (cleared e org_id) (
        after_connect ∙ ap (cleared c org_id) after_access ∙ cleared_twice c a org_id (tables name))
    ∙ cleared_twice e (a || c) org_id (tables name)
    ∙ ap (λ b. cleared b org_id (tables name))
        (sym (
          any_of_three (str_eq name) access_tables connect_tables_children_first
            entity_tables_children_first))

counted_tables :
    (org_id : Uuid) (tables : Tables)
    → (run_hooks (create_app []) org_id tables []).0
      ≡ map (λ name. (name, count_where (of_org org_id) (tables name))) tenant_tables
unfolding create_app register_erasure_hook erase_entity_graph_for_org erase_connector_data_for_org
    erase_access_data_for_org
counted_tables org_id tables = refl

scrubbed :
    (org_id : Uuid) (table : List SupportGrant)
    → any
        (λ g. g.org_id == org_id && is_some g.decided_by_email)
        (scrub_decider_emails org_id table).1
      ≡ false
unfolding scrub_decider_emails
scrubbed org_id [] = refl
scrubbed org_id (g ∷ table) = elim (Bool-cases (g.org_id == org_id && is_some g.decided_by_email)) [
  | inl hit ↦ rw hit (and_false (g.org_id == org_id) (scrubbed org_id table))
  | inr miss ↦ rw (miss, miss) (scrubbed org_id table)
]
  where
    and_false : {r : Bool} (b : Bool) → r ≡ false → ((b && false) || r) ≡ false
    and_false true h = h
    and_false false h = h

abbrev Outcome : Type 0
Outcome = Result ErasureError ErasureCertificateResponse × Estate

-- all guards let the erasure pass
unguarded :
    (slug password held : Bool) (s s' t : Estate)
    (certificate certificate' : ErasureCertificateResponse)
    → ◌≡◌ {A = Outcome}
        (if slug
          then (err erasure_confirmation, s)
          else if password
          then (err password_confirmation, s)
          else if held
          then (err legal_hold, s)
          else (ok certificate', t))
        (ok certificate, s')
    → (certificate' ≡ certificate) × (t ≡ s')
unguarded true password held s s' t certificate certificate' h = absurd (ground (arith, h))
unguarded false true held s s' t certificate certificate' h = absurd (ground (arith, h))
unguarded false false true s s' t certificate certificate' h = absurd (ground (arith, h))
unguarded false false false s s' t certificate certificate' h = (cc, cc)

-- a token that no user of the organization holds
abbrev pub spared : Uuid → RefreshToken → Estate → Bool
spared org_id t s =
    not (str_eq t.subject_type "user" && contains t.subject_id (ids_in_org org_id s.realm.users))

module _ (verify_password : String → String → Bool) (dummy_password_hash : String) (org_id : Uuid)
    (payload : ErasureRequest) (actor : Principal) (now : Time) where
  granted :
      (found : Option Organization) (s s' : Estate) (certificate : ErasureCertificateResponse)
      → erase_found verify_password dummy_password_hash
          (create_app [])
          found
          org_id
          payload
          actor
          now
          s
        ≡ (ok certificate, s')
      → (o : Organization) × (((erased verify_password dummy_password_hash
              (create_app [])
              o
              org_id
              payload
              actor
              now
              s).0
            ≡ certificate)
          × ((erased verify_password dummy_password_hash
                (create_app [])
                o
                org_id
                payload
                actor
                now
                s).1
              ≡ s'))
  granted none s s' certificate done = absurd (ground (arith, done))
  granted (some o) s s' certificate done = (o, unguarded _ _ o.legal_hold s s' _ certificate _ done)

  -- An erasure that succeeds with the hooks that the application registers leaves in each of the
  -- twenty tables of its modules exactly the rows of the other organizations, and every other
  -- table of the modules as it is; its certificate counts for each of the twenty the rows that
  -- were there; the users of the organization and the refresh tokens of those users are gone and
  -- all others are left; and no support grant of the organization names who decided it.
  pub erase_organization_complete :
      (s s' : Estate) (certificate : ErasureCertificateResponse)
      → erase_organization verify_password dummy_password_hash
          (create_app [])
          org_id
          payload
          actor
          now
          s
        ≡ (ok certificate, s')
      → ((name : String)
          → s'.tables name ≡ (
              if any (str_eq name) tenant_tables
              then others org_id (s.tables name)
              else s.tables name))
        × (certificate.erased_rows_by_table
            ≡ map (λ name. (name, count_where (of_org org_id) (s.tables name))) tenant_tables)
        × (s'.realm.users ≡ keep_if (λ u. not (u.org_id == org_id)) s.realm.users)
        × (s'.realm.refresh_tokens ≡ keep_if (λ t. spared org_id t s) s.realm.refresh_tokens)
        × (any (λ g. g.org_id == org_id && is_some g.decided_by_email) s'.realm.support_grants
            ≡ false)
  unfolding erase_organization missing_hooks erased delete_for_org_users delete_all_in_org
      create_app register_erasure_hook
  erase_organization_complete s s' certificate done =
      let (o, (same, same_after)) =
        granted (get_for_update org_id s.realm.organizations) s s' certificate done in
      (
        λ name.
            ap (λ (e : Estate). e.tables name) (sym same_after) ∙ all_tables org_id s.tables name,
        ap (λ (c : ErasureCertificateResponse). c.erased_rows_by_table) (sym same)
            ∙ counted_tables org_id s.tables,
        ap (λ (e : Estate). e.realm.users) (sym same_after) ∙ delete_where-keep_if _ s.realm.users,
        ap (λ (e : Estate). e.realm.refresh_tokens) (sym same_after)
            ∙ delete_where-keep_if _ s.realm.refresh_tokens,
        ap
              (λ (e : Estate).
                any (λ g. g.org_id == org_id && is_some g.decided_by_email) e.realm.support_grants)
              (sym same_after)
            ∙ scrubbed org_id s.realm.support_grants,
      )
