-- ===== src/Access/Grants.antt =====
-- backend/app/access/services/grant_writer.py over repositories/acl_grant_repository.py and
-- repositories/source_identity_repository.py.
pub mod Derived
pub mod Live
use one_ai.Prelude.{
  ℕ, ◌+◌, Uuid, Time, String, Bool, true, false, not, ◌&&◌, ◌||◌, Option, none, some, List, [], ◌∷◌,
  ◌++◌, ◌==◌, str_eq, ltb, is_empty, is_none, any, contains, find_where, update_where, count_where,
  keep_if, if◌then◌else◌,
}
use one_ai.Access.Normalize.{TextMethods, normalize_email}

-- models/acl_grant.py
pub data Provenance : Type 0 where
  recipient sender owner : Provenance

pub record AclGrant : Type 0 where
  pub org_id : Uuid
  pub person_id : Uuid
  pub object_type : String
  pub object_id : Uuid
  pub connection_id : Option Uuid
  pub provenance : Provenance
  pub granted_at : Time
  pub revoked_at : Option Time

-- models/principal_source_identity.py
pub record PrincipalSourceIdentity : Type 0 where
  pub org_id : Uuid
  pub source_type : String
  pub external_id : String
  pub person_id : Uuid
  pub verified : Bool

-- source_identity_repository.py
unfoldable pub add :
    PrincipalSourceIdentity → List PrincipalSourceIdentity → List PrincipalSourceIdentity
add identity table = table ++ identity ∷ []

abbrev pub is_verified : Uuid → String → PrincipalSourceIdentity → Bool
is_verified org_id source_type r =
    r.org_id == org_id && str_eq r.source_type source_type && r.verified

abbrev pub person_of : Option PrincipalSourceIdentity → Option Uuid
person_of none = none
person_of (some r) = some r.person_id

unfoldable pub get_verified_person_id :
    Uuid → String → String → List PrincipalSourceIdentity → Option Uuid
get_verified_person_id org_id source_type external_id table =
    person_of
      (find_where (λ r. is_verified org_id source_type r && str_eq r.external_id external_id) table)

-- the dict's items, in the order of the rows
unfoldable pub get_verified_person_ids :
    Uuid → String → (String → Bool) → List PrincipalSourceIdentity → List PrincipalSourceIdentity
get_verified_person_ids org_id source_type is_asked table =
    keep_if (λ r. is_verified org_id source_type r && is_asked r.external_id) table

-- acl_grant_repository.py
abbrev pub is_live_on : Uuid → String → Uuid → AclGrant → Bool
is_live_on org_id object_type object_id g =
    g.org_id == org_id
    && str_eq g.object_type object_type
    && g.object_id == object_id
    && is_none g.revoked_at

abbrev pub holds_live : Uuid → String → Uuid → Uuid → AclGrant → Bool
holds_live org_id object_type object_id person_id g =
    is_live_on org_id object_type object_id g && g.person_id == person_id

-- ON CONFLICT DO NOTHING on the unique live grant
unfoldable pub insert_live_grant : AclGrant → List AclGrant → List AclGrant
insert_live_grant g table =
    if any (holds_live g.org_id g.object_type g.object_id g.person_id) table
    then table
    else table ++ g ∷ []

-- the set of the principals, as its test
unfoldable pub list_live_person_ids_for_object : Uuid → String → Uuid → List AclGrant → Uuid → Bool
list_live_person_ids_for_object org_id object_type object_id table person_id =
    any (holds_live org_id object_type object_id person_id) table

unfoldable pub tombstone_grants :
    Uuid → String → Uuid → (Uuid → Bool) → Time → List AclGrant → ℕ × List AclGrant
tombstone_grants org_id object_type object_id person_ids now table =
    let selects =
      λ (g : AclGrant). is_live_on org_id object_type object_id g && person_ids g.person_id in
    (
      count_where selects table,
      update_where selects (λ g. record g { revoked_at = some now }) table,
    )

unfoldable pub tombstone_grants_for_person : Uuid → Uuid → Time → List AclGrant → ℕ × List AclGrant
tombstone_grants_for_person org_id person_id now table =
    let selects =
      λ (g : AclGrant). g.org_id == org_id && g.person_id == person_id && is_none g.revoked_at in
    (
      count_where selects table,
      update_where selects (λ g. record g { revoked_at = some now }) table,
    )

-- grant_writer.py
abbrev pub provenance_rank : Provenance → ℕ
provenance_rank recipient = 0
provenance_rank sender = 1
provenance_rank owner = 2

-- dicts as association lists
abbrev pub role_at : String → List (String × Provenance) → Option Provenance
role_at k [] = none
role_at k ((x, r) ∷ d) = let later = role_at k d in if str_eq k x then some r else later

-- `setdefault(key, "recipient")`
abbrev pub set_default : String → List (String × Provenance) → List (String × Provenance)
set_default k d = if is_none (role_at k d) then (k, recipient) ∷ d else d

abbrev pub is_falsy : String → Bool
is_falsy s = str_eq s ""

module _ (t : TextMethods) where
  unfoldable pub recipient_roles :
      List String → List (String × Provenance) → List (String × Provenance)
  recipient_roles [] d = d
  recipient_roles (address ∷ rest) d = recipient_roles rest (
      if is_falsy (normalize_email t address) then d else set_default (normalize_email t address) d)

  abbrev pub sender_role : Option String → List (String × Provenance) → List (String × Provenance)
  sender_role none d = d
  sender_role (some address) d =
      if is_falsy address || is_falsy (normalize_email t address)
      then d
      else (normalize_email t address, sender) ∷ d

  unfoldable pub address_roles : Option String → List String → List (String × Provenance)
  unfolding recipient_roles
  address_roles sender_address recipient_addresses =
      sender_role sender_address (recipient_roles recipient_addresses [])

abbrev pub held_by : Uuid → List (Uuid × Provenance) → Option Provenance
held_by p [] = none
held_by p ((x, r) ∷ d) = let later = held_by p d in if p == x then some r else later

-- `held is None or rank[role] > rank[held]`
abbrev pub outranks : Provenance → Option Provenance → Bool
outranks role none = true
outranks role (some held) = ltb (provenance_rank held) (provenance_rank role)

-- a person who has the address in that role
abbrev pub hold : Uuid → Option Provenance → List (Uuid × Provenance) → List (Uuid × Provenance)
hold p none d = d
hold p (some role) d = if outranks role (held_by p d) then (p, role) ∷ d else d

unfoldable pub hold_all :
    List (String × Provenance)
    → List PrincipalSourceIdentity
    → List (Uuid × Provenance)
    → List (Uuid × Provenance)
hold_all roles [] d = d
hold_all roles (r ∷ rs) d = hold_all roles rs (hold r.person_id (role_at r.external_id roles) d)

abbrev pub hold_owner : Option Uuid → List (Uuid × Provenance) → List (Uuid × Provenance)
hold_owner none d = d
hold_owner (some p) d = (p, owner) ∷ d

module _ (t : TextMethods) (uuid_text : Uuid → String) where
  abbrev pub owner_person : Uuid → Option Uuid → List PrincipalSourceIdentity → Option Uuid
  owner_person org_id none identities = none
  owner_person org_id (some owner_user_id) identities =
      get_verified_person_id org_id "auth" (uuid_text owner_user_id) identities

  -- `_derive_email_principal_roles`
  unfoldable pub derive_email_principal_roles :
      Uuid
      → Option Uuid
      → Option String
      → List String
      → List PrincipalSourceIdentity
      → List (Uuid × Provenance)
  unfolding address_roles hold_all get_verified_person_ids get_verified_person_id
  derive_email_principal_roles org_id owner_user_id sender_address recipient_addresses identities =
      let roles = address_roles t sender_address recipient_addresses in
      hold_owner (owner_person org_id owner_user_id identities) (
        hold_all roles
          (get_verified_person_ids org_id "email" (λ a. not (is_none (role_at a roles))) identities)
          [])

-- one live grant for each principal
unfoldable pub insert_all :
    Uuid → Uuid → Uuid → Time → List (Uuid × Provenance) → List AclGrant → List AclGrant
unfolding insert_live_grant
insert_all org_id message_id connection_id now [] table = table
insert_all org_id message_id connection_id now ((person_id, provenance) ∷ ps) table =
    insert_all org_id message_id connection_id now ps (
      insert_live_grant
        (record {
          org_id = org_id;
          person_id = person_id;
          object_type = "email_message";
          object_id = message_id;
          connection_id = some connection_id;
          provenance = provenance;
          granted_at = now;
          revoked_at = none;
        })
        table)

module _ (t : TextMethods) (uuid_text : Uuid → String) where
  -- the granted principals, as a test, and the table
  unfoldable pub write_email_grants :
      Uuid
      → Uuid
      → Uuid
      → Option Uuid
      → Option String
      → List String
      → List PrincipalSourceIdentity
      → Time
      → List AclGrant
      → (Uuid → Bool) × List AclGrant
  unfolding insert_all
  write_email_grants org_id message_id connection_id owner_user_id sender_address
        recipient_addresses identities now table =
      let principals =
        derive_email_principal_roles t uuid_text org_id owner_user_id sender_address
          recipient_addresses identities in
      (
        λ p. not (is_none (held_by p principals)),
        insert_all org_id message_id connection_id now principals table,
      )

  unfoldable pub reconcile_email_message_grants :
      Uuid
      → Uuid
      → Uuid
      → Option Uuid
      → Option String
      → List String
      → List PrincipalSourceIdentity
      → Time
      → List AclGrant
      → ℕ × List AclGrant
  unfolding write_email_grants list_live_person_ids_for_object tombstone_grants
  reconcile_email_message_grants org_id message_id connection_id owner_user_id sender_address
        recipient_addresses identities now table =
      let (derivable, table') =
        write_email_grants org_id message_id connection_id owner_user_id sender_address
          recipient_addresses identities now table in
      let live = list_live_person_ids_for_object org_id "email_message" message_id table' in
      tombstone_grants org_id "email_message" message_id (λ p. live p && not (derivable p)) now
        table'
