-- ===== src/Identity/Support/Moves.antt =====
-- The calls of the two services as a step relation on one grant: which call may write what.
use one_ai.Prelude.{
  ◌+◌, Uuid, Time, String, ◌≡◌, refl, Bool, true, false, ◌&&◌, inl, inr, Option, none, some, List,
  [], ◌∷◌, ◌==◌, contains, is_some, find_where, All, All-append, All-update_where, All-find_where,
  find_where_sound, Bool-cases, if◌then◌else◌,
}
use one_ai.Audit.{Principal, ActorType, platform_admin, user}
use one_ai.Identity.Support.{
  SupportGrant, Desk, Directory, requested, approved, denied, revoked, is_requested, is_revocable,
  stamp_decision, request_for, revoke_loaded, approve_loaded, deny_loaded, load_requested, save,
  insert, get_for_requester, get_in_org, scrub_decider_emails, request_access, platform_revoke,
  approve, deny, revoke, support_access_window,
}

-- One call of either service, or the erasure of an organization's addresses.
pub data Call : Type 0 where
  request_call : Uuid → Uuid → String → Principal → Time → Call
  platform_revoke_call : Uuid → Principal → Time → Call
  approve_call deny_call : Uuid → Uuid → Principal → Time → Time → Call
  revoke_call : Uuid → Uuid → Principal → Time → Call
  scrub_call : Uuid → Call

abbrev pub serve : Directory → Call → Desk → Desk
serve dir (request_call g o why actor now) s = (request_access dir g o why actor now s).1
serve dir (platform_revoke_call g actor now) s = (platform_revoke g actor now s).1
serve dir (approve_call g o actor now responded) s = (approve dir g o actor now responded s).1
serve dir (deny_call g o actor now responded) s = (deny dir g o actor now responded s).1
serve dir (revoke_call g o actor now) s = (revoke g o actor now s).1
serve dir (scrub_call o) s = record s { grants = (scrub_decider_emails o s.grants).1 }

abbrev pub new_grant : Directory → Uuid → Uuid → String → Principal → Time → SupportGrant
new_grant dir g o why actor now = record {
  id = g;
  org_id = o;
  requested_by_admin_id = actor.subject_id;
  requested_by_email = dir.platform_admins actor.subject_id;
  reason = why;
  status = requested;
  decided_at = none;
  decided_by_user_id = none;
  decided_by_email = none;
  expires_at = none;
  created_at = now;
}

pub data Moves (dir : Directory) : Call → SupportGrant → SupportGrant → Type 0 where
  approves :
      {g o : Uuid} {actor : Principal} {now responded : Time} (grant : SupportGrant)
      → (grant.id == g && grant.org_id == o) ≡ true
      → is_requested grant.status ≡ true
      → Moves dir
          (approve_call g o actor now responded)
          grant
          (record (stamp_decision dir actor now grant) {
            status = approved;
            expires_at = some (now + support_access_window);
          })
  denies :
      {g o : Uuid} {actor : Principal} {now responded : Time} (grant : SupportGrant)
      → (grant.id == g && grant.org_id == o) ≡ true
      → is_requested grant.status ≡ true
      → Moves dir
          (deny_call g o actor now responded)
          grant
          (record (stamp_decision dir actor now grant) { status = denied })
  company_revokes :
      {g o : Uuid} {actor : Principal} {now : Time} (grant : SupportGrant)
      → (grant.id == g && grant.org_id == o) ≡ true
      → is_revocable grant.status ≡ true
      → Moves dir (revoke_call g o actor now) grant (record grant { status = revoked })
  platform_revokes :
      {g : Uuid} {actor : Principal} {now : Time} (grant : SupportGrant)
      → (grant.id == g && grant.requested_by_admin_id == actor.subject_id) ≡ true
      → is_revocable grant.status ≡ true
      → Moves dir (platform_revoke_call g actor now) grant (record grant { status = revoked })
  scrubs :
      {o : Uuid} (grant : SupportGrant)
      → Moves dir (scrub_call o) grant (record grant { decided_by_email = none })

-- A property of all grants survives a call, if it survives every move of the call and holds of the
-- grant that a request opens. A written grant replaces the rows of its id.
module _ (P Q : SupportGrant → Type 0) (dir : Directory) (c : Call)
    (stays : (grant : SupportGrant) → P grant → Q grant)
    (moves : (grant grant' : SupportGrant) → Moves dir c grant grant' → P grant → Q grant') where
  All-stays : (table : List SupportGrant) → All P table → All Q table
  All-stays [] h = tt
  All-stays (grant ∷ table) h = (stays grant h.0, All-stays table h.1)

  All-save :
      (table : List SupportGrant) (grant : SupportGrant)
      → Q grant
      → All P table
      → All Q (save grant table)
  All-save table grant q h =
      All-update_where Q (λ g. g.id == grant.id) (λ _. grant) table (λ _ _ _. q) (All-stays table h)

  All-found :
      (p : SupportGrant → Bool) (table : List SupportGrant) {grant : SupportGrant}
      → All P table
      → find_where p table ≡ some grant
      → P grant
  All-found p table h = All-find_where P p table h

  revoke_loaded-All :
      (t : ActorType) (actor : Principal) (now : Time) (s : Desk) (p : SupportGrant → Bool)
      → ((grant : SupportGrant)
          → p grant ≡ true
          → is_revocable grant.status ≡ true
          → Moves dir c grant (record grant { status = revoked }))
      → All P s.grants
      → (o : Option SupportGrant) → find_where p s.grants ≡ o
      → All Q (revoke_loaded t o actor now s).1.grants
  revoke_loaded-All t actor now s p move h none e = All-stays s.grants h
  revoke_loaded-All t actor now s p move h (some grant) e =
      elim (Bool-cases (is_revocable grant.status)) [
        | inl may ↦ rw may (
            All-save s.grants (record grant { status = revoked })
              (moves grant _ (move grant (find_where_sound p s.grants e) may)
                (All-found p s.grants h e))
              h)
        | inr not_may ↦ rw not_may (All-stays s.grants h)
      ]

  approve_loaded-All :
      (actor : Principal) (now responded : Time) (s : Desk) (p : SupportGrant → Bool)
      → ((grant : SupportGrant)
          → p grant ≡ true
          → is_requested grant.status ≡ true
          → Moves dir c grant (record (stamp_decision dir actor now grant) {
            status = approved;
            expires_at = some (now + support_access_window);
          }))
      → All P s.grants
      → (o : Option SupportGrant) → find_where p s.grants ≡ o
      → All Q (approve_loaded dir actor now responded s (load_requested o)).1.grants
  approve_loaded-All actor now responded s p move h none e = All-stays s.grants h
  approve_loaded-All actor now responded s p move h (some grant) e =
      elim (Bool-cases (is_requested grant.status)) [
        | inl may ↦ rw may (
            All-save s.grants _
              (moves grant _ (move grant (find_where_sound p s.grants e) may)
                (All-found p s.grants h e))
              h)
        | inr not_may ↦ rw not_may (All-stays s.grants h)
      ]

  deny_loaded-All :
      (actor : Principal) (now responded : Time) (s : Desk) (p : SupportGrant → Bool)
      → ((grant : SupportGrant)
          → p grant ≡ true
          → is_requested grant.status ≡ true
          → Moves dir c grant (record (stamp_decision dir actor now grant) { status = denied }))
      → All P s.grants
      → (o : Option SupportGrant) → find_where p s.grants ≡ o
      → All Q (deny_loaded dir actor now responded s (load_requested o)).1.grants
  deny_loaded-All actor now responded s p move h none e = All-stays s.grants h
  deny_loaded-All actor now responded s p move h (some grant) e =
      elim (Bool-cases (is_requested grant.status)) [
        | inl may ↦ rw may (
            All-save s.grants _
              (moves grant _ (move grant (find_where_sound p s.grants e) may)
                (All-found p s.grants h e))
              h)
        | inr not_may ↦ rw not_may (All-stays s.grants h)
      ]

-- the grant that a request opens
abbrev pub Opens : Directory → Call → (SupportGrant → Type 0) → Type 0
Opens dir (request_call g o why actor now) Q = Q (new_grant dir g o why actor now)
Opens dir _ Q = Unit

-- A property of all grants survives a call that keeps it in every move.
pub serve-All :
    (P Q : SupportGrant → Type 0) (dir : Directory) (c : Call) (s : Desk)
    → ((grant : SupportGrant) → P grant → Q grant)
    → ((grant grant' : SupportGrant) → Moves dir c grant grant' → P grant → Q grant')
    → Opens dir c Q
    → All P s.grants
    → All Q (serve dir c s).grants
unfolding request_access platform_revoke approve deny revoke scrub_decider_emails insert
    get_for_requester get_in_org
serve-All P Q dir (request_call g o why actor now) s stays moves opens h =
    request_for-All (contains o dir.organizations)
  where
    request_for-All :
        (b : Bool)
        → All Q (request_for b (new_grant dir g o why actor now) why actor now s).1.grants
    request_for-All true =
        All-append Q s.grants _
          (All-stays P Q dir (request_call g o why actor now) stays moves s.grants h) (opens, tt)
    request_for-All false =
        All-stays P Q dir (request_call g o why actor now) stays moves s.grants h
serve-All P Q dir (platform_revoke_call g actor now) s stays moves opens h =
    revoke_loaded-All P Q dir (platform_revoke_call g actor now) stays moves platform_admin actor
      now s (λ r. r.id == g && r.requested_by_admin_id == actor.subject_id)
      (λ grant. platform_revokes grant) h _ refl
serve-All P Q dir (approve_call g o actor now responded) s stays moves opens h =
    approve_loaded-All P Q dir (approve_call g o actor now responded) stays moves actor now
      responded s (λ r. r.id == g && r.org_id == o) (λ grant. approves grant) h _ refl
serve-All P Q dir (deny_call g o actor now responded) s stays moves opens h =
    deny_loaded-All P Q dir (deny_call g o actor now responded) stays moves actor now responded s
      (λ r. r.id == g && r.org_id == o) (λ grant. denies grant) h _ refl
serve-All P Q dir (revoke_call g o actor now) s stays moves opens h =
    revoke_loaded-All P Q dir (revoke_call g o actor now) stays moves user actor now s
      (λ r. r.id == g && r.org_id == o) (λ grant. company_revokes grant) h _ refl
serve-All P Q dir (scrub_call o) s stays moves opens h = scrub-All s.grants h
  where
    scrub-All : (table : List SupportGrant) → All P table → All Q (scrub_decider_emails o table).1
    scrub-All [] none_left = tt
    scrub-All (grant ∷ table) all =
        (pick (grant.org_id == o && is_some grant.decided_by_email), scrub-All table all.1)
      where
        pick : (b : Bool) → Q (if b then record grant { decided_by_email = none } else grant)
        pick true = moves grant _ (scrubs grant) all.0
        pick false = stays grant all.0
