-- ===== src/Examples/Staffing.antt =====
-- An organization of two administrators and a member.
use one_ai.Prelude.{ℕ, ◌≡◌, refl, true, none, some, [], ◌∷◌, arith}
use one_ai.Audit.{Principal, user}
use one_ai.Identity.Denylist.{is_revoked}
use one_ai.Identity.Denylist.Eviction.{empty_denylist}
use one_ai.Identity.Users.{
  User, UserRole, company_admin, member, Office, update_user, deactivate_user, get_in_org,
  guard_last_admin, lock_active_admin_ids,
}
use one_ai.Identity.Users.LastAdmin.{has_admin, has_admin-update_user, has_admin-deactivate_user}
use one_ai.Identity.Users.Sessions.{is_revoked-deactivate_user}

abbrev pub user_of : ℕ → UserRole → User
user_of id role = record {
  id = id;
  org_id = 1;
  email = "a@example";
  full_name = "A";
  password_hash = "";
  role = role;
  is_active = true;
}

abbrev pub admin_caller : Principal
admin_caller = record {
  subject_id = 4;
  org_id = some 1;
  role = some "company_admin";
  subject_type = user;
}

abbrev office : Office
office = record {
  users = user_of 4 company_admin ∷ user_of 5 company_admin ∷ user_of 6 member ∷ [];
  audit = [];
  denylist = empty_denylist 900;
}

has_admin-update_user_example :
    has_admin 1
      (update_user 1 5
        (record { full_name = none; role = some member; is_active = none })
        admin_caller
        100
        office).1.users
    ≡ true
has_admin-update_user_example =
    has_admin-update_user 1 1 5 (record { full_name = none; role = some member; is_active = none })
      admin_caller 100 office (omega arith) refl

has_admin-deactivate_user_example :
    has_admin 1 (deactivate_user 1 4 admin_caller 100 office).1.users ≡ true
has_admin-deactivate_user_example =
    has_admin-deactivate_user 1 1 4 admin_caller 100 office (omega arith) refl

is_revoked-deactivate_user_example :
    is_revoked (deactivate_user 1 5 admin_caller 100 office).1.denylist 5 (some 1) (some 90) ≡ true
unfolding deactivate_user get_in_org guard_last_admin lock_active_admin_ids
is_revoked-deactivate_user_example =
    is_revoked-deactivate_user 1 5 admin_caller 100 90 (some 1) office refl (omega arith)
