-- ===== src/Examples/Supporting.antt =====
-- A request for support that the company approves, and one that it denies.
use one_ai.Prelude.{Time, ◌<◌, ◌≡◌, refl, true, none, some, List, [], ◌∷◌, All}
use one_ai.Audit.{Principal, platform_admin, user}
use one_ai.Identity.Support.{
  Directory, Desk, SupportGrant, approved, denied, grant_is_active, request_access, approve,
  get_in_org, insert,
}
use one_ai.Identity.Support.Moves.{Call, request_call, approve_call}
use one_ai.Identity.Support.Consent.{
  serve_on, any_consents, IsSettled, active_only_by_consent, terminal_stays,
}

abbrev directory : Directory
directory = record { organizations = 1 ∷ []; platform_admins = λ id. none; users = λ id. none }

abbrev staff : Principal
staff = record { subject_id = 8; org_id = none; role = none; subject_type = platform_admin }

abbrev customer : Principal
customer = record { subject_id = 9; org_id = some 1; role = none; subject_type = user }

abbrev calls : List Call
calls = approve_call 40 1 customer 200 200 ∷ request_call 40 1 "help" staff 100 ∷ []

abbrev granted : SupportGrant
granted = record {
  id = 40;
  org_id = 1;
  requested_by_admin_id = 8;
  requested_by_email = none;
  reason = "help";
  status = approved;
  decided_at = some 200;
  decided_by_user_id = some 9;
  decided_by_email = none;
  expires_at = some 14600;
  created_at = 100;
}

active_only_by_consent_example :
    (expiry : Time) × (any_consents 40 1 expiry calls ≡ true) × (300 < expiry)
unfolding request_access approve get_in_org insert grant_is_active
active_only_by_consent_example = active_only_by_consent directory calls 40 300 granted refl refl

abbrev refused : Desk
refused = record { grants = record granted { status = denied; expires_at = none } ∷ []; audit = [] }

terminal_stays_example :
    All
      (IsSettled 40 denied)
      (serve_on directory
        (approve_call 40 1 customer 200 200 ∷ request_call 41 1 "again" staff 300 ∷ [])
        refused).grants
terminal_stays_example =
    terminal_stays directory
      (approve_call 40 1 customer 200 200 ∷ request_call 41 1 "again" staff 300 ∷ []) refused 40
      denied refl (tt, (refl, tt)) ((λ _. refl), tt)
