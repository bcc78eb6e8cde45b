-- ===== src/Identity/Users.antt =====
-- backend/app/identity/services/user_service.py and repositories/user_repository.py: the users of an
-- organization, and the guard of its last administrator. The password hash is a parameter; a created
-- user's id and the clock are arguments. A method answers with the row that its response shows.
pub mod LastAdmin
pub mod Sessions
use one_ai.Prelude.{
  ℕ, Uuid, Time, String, Bool, true, false, not, ◌&&◌, ◌||◌, Option, none, some, List, [], ◌∷◌,
  ◌++◌, map, any, ◌==◌, is_some, value_or, str_eq, find_where, update_where, count_where,
  delete_where, keep_if, if◌then◌else◌,
}
use one_ai.Result.{Result, ok, err}
use one_ai.Audit.{
  AuditAction, Detail, AuditEvent, Principal, record_event, user_create, user_role_change,
  user_deactivate, user_reactivate, user, text,
}
use one_ai.Identity.Denylist.{InProcessTokenDenylist, revoke_subject}

pub data UserRole : Type 0 where
  company_admin member : UserRole

abbrev pub is_company_admin : UserRole → Bool
is_company_admin company_admin = true
is_company_admin member = false

abbrev same_role : UserRole → UserRole → Bool
same_role a b = if is_company_admin a then is_company_admin b else not (is_company_admin b)

abbrev pub role_text : UserRole → String
role_text company_admin = "company_admin"
role_text member = "member"

pub record User : Type 0 where
  pub id : Uuid
  pub org_id : Uuid
  pub email : String
  pub full_name : String
  pub password_hash : String
  pub role : UserRole
  pub is_active : Bool

pub record UserCreateRequest : Type 0 where
  pub email : String
  pub full_name : String
  pub role : UserRole
  pub password : String

pub record UserUpdateRequest : Type 0 where
  pub full_name : Option String
  pub role : Option UserRole
  pub is_active : Option Bool

-- user_repository.py
unfoldable pub get_by_email : String → List User → Option User
get_by_email email = find_where λ u. str_eq u.email email

unfoldable pub get_by_subject_id : Uuid → List User → Option User
get_by_subject_id user_id = find_where λ u. u.id == user_id

unfoldable pub get_in_org : Uuid → Uuid → List User → Option User
get_in_org user_id org_id = find_where λ u. u.id == user_id && u.org_id == org_id

unfoldable pub email_exists : String → List User → Bool
unfolding get_by_email
email_exists email table = is_some (get_by_email email table)

abbrev pub is_active_admin_of : Uuid → User → Bool
is_active_admin_of org_id u = u.org_id == org_id && is_company_admin u.role && u.is_active

-- the ids of the locked rows; their order matters to the locks only
unfoldable pub lock_active_admin_ids : Uuid → List User → List Uuid
lock_active_admin_ids org_id table =
    map (λ u. User.id u) (keep_if (is_active_admin_of org_id) table)

unfoldable pub add : User → List User → List User
add u table = table ++ u ∷ []

unfoldable pub delete_all_in_org : Uuid → List User → ℕ × List User
delete_all_in_org org_id table =
    (count_where (λ u. u.org_id == org_id) table, delete_where (λ u. u.org_id == org_id) table)

pub data UserError : Type 0 where
  duplicate_user user_not_found last_admin : UserError

pub record Office : Type 0 where
  pub users : List User
  pub audit : List AuditEvent
  pub denylist : InProcessTokenDenylist

abbrev pub user_event : AuditAction → Principal → User → List (String × Detail) → AuditEvent
user_event action actor target details = record {
  action = action;
  actor_type = user;
  actor_id = some actor.subject_id;
  actor_email = none;
  org_id = some target.org_id;
  entity_type = some "user";
  entity_id = some target.id;
  details = details;
}

-- the UPDATE of the columns that a method changes, by the primary key
abbrev pub save : Uuid → (User → User) → List User → List User
save user_id change = update_where (λ u. u.id == user_id) change

-- `_guard_last_admin`: may the change go ahead?
unfoldable pub guard_last_admin : Uuid → User → Option UserRole → Option Bool → List User → Bool
unfolding lock_active_admin_ids
guard_last_admin org_id u new_role new_is_active table =
    let was = is_company_admin u.role && u.is_active in
    let stays = is_company_admin (value_or u.role new_role) && value_or u.is_active new_is_active in
    let another = any (λ admin_id. not (admin_id == u.id)) (lock_active_admin_ids org_id table) in
    if not was then true else if stays then true else another

-- the fields that a partial update sets
abbrev pub applied : UserUpdateRequest → User → User
applied payload u = record u {
  full_name = value_or u.full_name payload.full_name;
  role = value_or u.role payload.role;
  is_active = value_or u.is_active payload.is_active;
}

abbrev events_of : Principal → User → User → List AuditEvent → List AuditEvent
events_of actor before after trail =
    let changed =
      if same_role after.role before.role
      then trail
      else record_event
          (user_event user_role_change actor after (
            ("from_role", text (role_text before.role))
            ∷ ("to_role", text (role_text after.role))
            ∷ []))
          trail in
    let left =
      if before.is_active && not after.is_active
      then record_event (user_event user_deactivate actor after []) changed
      else changed in
    if not before.is_active && after.is_active
    then record_event (user_event user_reactivate actor after []) left
    else left

-- the denylist revokes the tokens of a user who changed role or was deactivated
abbrev pub updated : UserUpdateRequest → Principal → Time → User → Office → Office
updated payload actor now u s =
    let u' = applied payload u in
    let revokes = not (same_role (User.role u') u.role) || u.is_active && not (User.is_active u') in
    record {
      users = save u.id (applied payload) s.users;
      audit = events_of actor u u' s.audit;
      denylist = if revokes then revoke_subject u.id now s.denylist else s.denylist;
    }

unfoldable pub update_user :
    Uuid → Uuid → UserUpdateRequest → Principal → Time → Office → Result UserError User × Office
unfolding get_in_org guard_last_admin
update_user org_id user_id payload actor now s = elim (get_in_org user_id org_id s.users) [
  | none ↦ (err user_not_found, s)
  | some u ↦
      if not (guard_last_admin org_id u payload.role payload.is_active s.users)
      then (err last_admin, s)
      else (ok (applied payload u), updated payload actor now u s)
]

abbrev pub deactivated : Principal → Time → Uuid → User → Office → Office
deactivated actor now user_id u s = record {
  users = save u.id (λ r. record r { is_active = false }) s.users;
  audit =
      if u.is_active
      then record_event (user_event user_deactivate actor (record u { is_active = false }) [])
          s.audit
      else s.audit;
  denylist = revoke_subject user_id now s.denylist;
}

unfoldable pub deactivate_user :
    Uuid → Uuid → Principal → Time → Office → Result UserError (Unit {0}) × Office
unfolding get_in_org guard_last_admin
deactivate_user org_id user_id actor now s = elim (get_in_org user_id org_id s.users) [
  | none ↦ (err user_not_found, s)
  | some u ↦
      if not (guard_last_admin org_id u none (some false) s.users)
      then (err last_admin, s)
      else (ok tt, deactivated actor now user_id u s)
]

module _ (hash_password : String → String) where
  -- the lost race on the unique email is the same answer, on the same session
  unfoldable pub create_user :
      Uuid → Uuid → UserCreateRequest → Principal → Office → Result UserError User × Office
  unfolding email_exists add
  create_user org_id user_id payload actor s =
      let created : User = record {
        id = user_id;
        org_id = org_id;
        email = payload.email;
        full_name = payload.full_name;
        password_hash = hash_password payload.password;
        role = payload.role;
        is_active = true;
      } in
      if email_exists payload.email s.users then (err duplicate_user, s) else (
        ok created,
        record s {
          users = add created s.users;
          audit =
              record_event
                (user_event user_create actor created
                  (("role", text (role_text payload.role)) ∷ []))
                s.audit;
        },
      )
