-- ===== src/Identity/Users/Sessions.antt =====
-- A deactivated user's access tokens end at once.
use one_ai.Prelude.{
  ◌≤◌, Uuid, Time, ◌≡◌, true, false, Option, none, some, arith, ==_refl, Bool-cases, Option-cases,
  inl, inr,
}
use one_ai.Result.{ok}
use one_ai.Audit.{Principal}
use one_ai.Identity.Denylist.{is_revoked, revoke_subject, InProcessTokenDenylist}
use one_ai.Identity.Users.{Office, deactivate_user, get_in_org, guard_last_admin}

pub revoke_subject_lem :
    (user_id : Uuid) (token_org : Option Uuid) (iat now : Time) (d : InProcessTokenDenylist)
    → iat ≤ now
    → is_revoked (revoke_subject user_id now d) user_id token_org (some iat) ≡ true
unfolding is_revoked revoke_subject
revoke_subject_lem user_id token_org iat now d le = ground (arith, ==_refl user_id)

-- When a deactivation succeeds, every access token of the user that was issued by then is revoked,
-- whatever organization it names.
pub is_revoked-deactivate_user :
    (org_id user_id : Uuid) (actor : Principal) (now iat : Time) (token_org : Option Uuid)
    (s : Office)
    → (deactivate_user org_id user_id actor now s).0 ≡ ok tt
    → iat ≤ now
    → is_revoked
        (deactivate_user org_id user_id actor now s).1.denylist
        user_id
        token_org
        (some iat)
      ≡ true
unfolding deactivate_user
is_revoked-deactivate_user org_id user_id actor now iat token_org s done le =
    let revoked = revoke_subject_lem user_id token_org iat now s.denylist le in
    elim (Option-cases (get_in_org user_id org_id s.users)) [
      | inl absent ↦ absurd (ground (arith, absent, done))
      | inr (u, found) ↦ elim (Bool-cases (guard_last_admin org_id u none (some false) s.users)) [
        | inl may ↦ ground (arith, found, may, revoked)
        | inr may_not ↦ absurd (ground (arith, found, may_not, done))
      ]
    ]
