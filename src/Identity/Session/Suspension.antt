-- ===== src/Identity/Session/Suspension.antt =====
-- A suspended organization is out: no login, no rotation, and no access token that was issued by then.
use one_ai.Prelude.{
  ℕ, ◌≤◌, Uuid, Time, String, ◌≡◌, refl, sym, ap, ◌∙◌, inl, inr, Bool, true, false, not, Option,
  none, some, List, [], ◌∷◌, arith, ◌==◌, ==_refl, ==_iff, Bool-cases, Option-cases, if◌then◌else◌,
}
use one_ai.Result.{Result, ok, err, is_ok}
use one_ai.Audit.{Principal}
use one_ai.Identity.Denylist.{InProcessTokenDenylist, is_revoked, revoke_org}
use one_ai.Identity.Login.{
  Crypto, Call, AuthError, organization_suspended, TokenPairResponse, throttled, load_loginable_org,
  rejected, admitted, authenticated, login_unless, login,
}
use one_ai.Identity.Platform.{OrganizationDetailResponse, set_status, save_status}
use one_ai.Identity.Realm.{suspended, Organization, Realm, get_with_user_count}
use one_ai.Identity.Session.{active_only, renewed, refreshed, rotated, refresh}
use one_ai.Identity.Tokens.{RefreshToken, get_by_hash, consume}
use one_ai.Identity.Users.{User, get_by_email, get_by_subject_id}

-- is the row a user of the organization?
abbrev pub belongs : Uuid → Option User → Bool
belongs org_id none = false
belongs org_id (some u) = u.org_id == org_id

-- whose refresh token is it?
abbrev pub holder_of : Option RefreshToken → List User → Option User
holder_of none users = none
holder_of (some t) users = get_by_subject_id t.subject_id users

closed :
    (org_id : Uuid) (table : List Organization)
    → is_ok (load_loginable_org org_id (save_status org_id suspended table)) ≡ false
unfolding load_loginable_org
closed org_id [] = refl
closed org_id (o ∷ table) = elim (Bool-cases (o.id == org_id)) [
  | inl here ↦ rw (here, here) refl
  | inr later ↦ rw (later, later) (closed org_id table)
]

revoked_org :
    (d : InProcessTokenDenylist) (org_id sub : Uuid) (iat now : Time)
    → iat ≤ now
    → is_revoked (revoke_org org_id now d) sub (some org_id) (some iat) ≡ true
unfolding is_revoked revoke_org
revoked_org d org_id sub iat now le = ground (arith, ==_refl org_id)

suspension :
    (org_id : Uuid) (actor : Principal) (now : Time) (s s' : Realm)
    (detail : OrganizationDetailResponse)
    → set_status org_id suspended actor now s ≡ (ok detail, s')
    → (s'.organizations ≡ save_status org_id suspended s.organizations)
      × (s'.denylist ≡ revoke_org org_id now s.denylist)
unfolding set_status
suspension org_id actor now s s' detail done = elim (Option-cases (get_with_user_count org_id s)) [
  | inl absent ↦ absurd (ground (arith, absent, done))
  | inr (r, found) ↦ (ground (arith, found, done), ground (arith, found, done))
]

consumed_row :
    (k : Crypto) (raw : String) (now : Time) (table : List RefreshToken) (t : RefreshToken)
    → (consume k.sha256_hex raw "user" now table).0 ≡ some t
    → get_by_hash (k.sha256_hex raw) table ≡ some t
unfolding consume
consumed_row k raw now table t h = elim (Option-cases (get_by_hash (k.sha256_hex raw) table)) [
  | inl absent ↦ absurd (ground (arith, absent, h))
  | inr (r, found) ↦ ground (arith, found, h)
]

module _ (k : Crypto) where
  is_ok-admitted :
      (u : User) (c : Call) (r : Result AuthError Organization) (s : Realm)
      → is_ok (admitted k u c r s).0 ≡ is_ok r
  is_ok-admitted u c (ok o) s = refl
  is_ok-admitted u c (err organization_suspended) s = refl
  is_ok-admitted u c (err _) s = refl

  is_ok-renewed :
      (u : User) (c : Call) (table : List RefreshToken) (r : Result AuthError Organization)
      (s : Realm)
      → is_ok (renewed k u c table r s).0 ≡ is_ok r
  is_ok-renewed u c table (ok o) s = refl
  is_ok-renewed u c table (err e) s = refl

  -- a login that fails at the password or at the organization
  unless_right :
      (has_account is_right : Bool) (email : String) (c : Call) (s : Realm)
      (admission : Result AuthError TokenPairResponse × Realm)
      → is_ok admission.0 ≡ false
      → is_ok
          (if not has_account
            then rejected k email c s
            else if not is_right
            then rejected k email c s
            else admission).0
        ≡ false
  unless_right false is_right email c s admission h = refl
  unless_right true false email c s admission h = refl
  unless_right true true email c s admission h = h

  module _ (org_id : Uuid) (s : Realm)
      (shut : is_ok (load_loginable_org org_id s.organizations) ≡ false) where
    org_shut :
        (u : User)
        → (u.org_id == org_id) ≡ true
        → is_ok (load_loginable_org u.org_id s.organizations) ≡ false
    org_shut u h =
        ap (λ o. is_ok (load_loginable_org o s.organizations)) ((==_iff u.org_id org_id).0 h) ∙ shut

    authenticated_shut :
        (email password : String) (c : Call) (o : Option User)
        → belongs org_id o ≡ true
        → is_ok (authenticated k email password c o s).0 ≡ false
    authenticated_shut email password c none h = refl
    authenticated_shut email password c (some u) h =
        unless_right u.is_active (k.verify_password password u.password_hash) email c s _
          (is_ok-admitted u c (load_loginable_org u.org_id s.organizations) s ∙ org_shut u h)

    login_shut :
        (email password : String) (c : Call) (w : Option ℕ)
        → belongs org_id (get_by_email email s.users) ≡ true
        → is_ok (login_unless k w email password c s).0 ≡ false
    login_shut email password c (some w) h = refl
    login_shut email password c none h =
        authenticated_shut email password c (get_by_email email s.users) h

    refreshed_shut :
        (c : Call) (table : List RefreshToken) (o : Option User)
        → belongs org_id o ≡ true
        → is_ok (refreshed k (active_only o) c table s).0 ≡ false
    refreshed_shut c table none h = refl
    refreshed_shut c table (some u) h = by_activity u.is_active
      where
        by_activity :
            (b : Bool) → is_ok (refreshed k (if b then some u else none) c table s).0 ≡ false
        by_activity false = refl
        by_activity true =
            is_ok-renewed u c table (load_loginable_org u.org_id s.organizations) s ∙ org_shut u h

    rotated_shut :
        (c : Call) (r : Option RefreshToken × List RefreshToken)
        → ((t : RefreshToken)
            → r.0 ≡ some t
            → belongs org_id (get_by_subject_id t.subject_id s.users) ≡ true)
        → is_ok (rotated k r c s).0 ≡ false
    rotated_shut c (none, table) h = refl
    rotated_shut c (some t, table) h =
        refreshed_shut c table (get_by_subject_id t.subject_id s.users) (h t refl)

    refresh_shut :
        (raw : String) (c : Call)
        → belongs org_id (holder_of (get_by_hash (k.sha256_hex raw) s.refresh_tokens) s.users)
          ≡ true
        → is_ok (refresh k raw c s).0 ≡ false
    unfolding refresh
    refresh_shut raw c h =
        rotated_shut c (consume k.sha256_hex raw "user" c.now s.refresh_tokens) λ t e.
          ap (λ o. belongs org_id (holder_of o s.users))
            (sym (consumed_row k raw c.now s.refresh_tokens t e))
          ∙ h

  -- After a suspension that succeeds, as long as the rows of the organizations and the denylist
  -- stay as it left them, a login to an account of the organization and a rotation of a refresh
  -- token that one of its users holds do not succeed, and every access token of the organization
  -- that was issued by then counts as revoked.
  pub suspended_org_is_out :
      (org_id : Uuid) (actor : Principal) (now iat : Time) (sub : Uuid) (s s' later : Realm)
      (detail : OrganizationDetailResponse) (email password raw : String) (c c' : Call)
      → set_status org_id suspended actor now s ≡ (ok detail, s')
      → later.organizations ≡ s'.organizations
      → later.denylist ≡ s'.denylist
      → iat ≤ now
      → belongs org_id (get_by_email email later.users) ≡ true
      → belongs org_id (holder_of (get_by_hash (k.sha256_hex raw) later.refresh_tokens) later.users)
        ≡ true
      → (is_ok (login k email password c later).0 ≡ false)
        × (is_ok (refresh k raw c' later).0 ≡ false)
        × (is_revoked later.denylist sub (some org_id) (some iat) ≡ true)
  unfolding login
  suspended_org_is_out org_id actor now iat sub s s' later detail email password raw c c' done
        same_orgs same_list le at_login at_refresh =
      let (saved, revoked) = suspension org_id actor now s s' detail done in
      let shut : is_ok (load_loginable_org org_id later.organizations) ≡ false =
        ap (λ t. is_ok (load_loginable_org org_id t)) (same_orgs ∙ saved)
        ∙ closed org_id s.organizations in
      (
        login_shut org_id later shut email password c (throttled later.rate_limiter email c)
            at_login,
        refresh_shut org_id later shut raw c' at_refresh,
        ap (λ d. is_revoked d sub (some org_id) (some iat)) (same_list ∙ revoked)
            ∙ revoked_org s.denylist org_id sub iat now le,
      )
