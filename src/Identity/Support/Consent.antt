-- ===== src/Identity/Support/Consent.antt =====
-- Support access is active only by the company's consent, and what is denied or revoked stays so.
use one_ai.Prelude.{
  ◌+◌, ◌<◌, Uuid, Time, ◌≡◌, refl, Bool, true, false, ◌&&◌, ◌||◌, some, List, [], ◌∷◌, arith, ◌==◌,
  find_where, All, All-find_where,
}
use one_ai.Identity.Support.Moves.{
  Call, request_call, platform_revoke_call, approve_call, deny_call, revoke_call, scrub_call, serve,
  Moves, approves, denies, company_revokes, platform_revokes, scrubs, Opens, serve-All,
}
use one_ai.Identity.Support.{
  SupportGrant, SupportGrantStatus, Desk, Directory, denied, revoked, is_approved, grant_is_active,
  support_access_window,
}

-- calls in the order of service, the newest first
abbrev pub serve_all : Directory → List Call → Desk
serve_all dir [] = record { grants = []; audit = [] }
serve_all dir (c ∷ earlier) = serve dir c (serve_all dir earlier)

-- Does the call approve this grant, for this organization, at a time that gives this expiry?
abbrev pub consents : Uuid → Uuid → Time → Call → Bool
consents g o expiry (approve_call g' o' actor now responded) =
    g == g' && o == o' && expiry == now + support_access_window
consents g o expiry _ = false

abbrev pub any_consents : Uuid → Uuid → Time → List Call → Bool
any_consents g o expiry [] = false
any_consents g o expiry (c ∷ cs) = consents g o expiry c || any_consents g o expiry cs

-- an approved grant has an expiry, and its approval is among the calls
abbrev IsConsented : List Call → SupportGrant → Type 0
IsConsented cs grant =
    is_approved grant.status ≡ true
    → (expiry : Time) × (grant.expires_at ≡ some expiry)
      × (any_consents grant.id grant.org_id expiry cs ≡ true)

IsConsented-weaken :
    (c : Call) (cs : List Call) (grant : SupportGrant)
    → IsConsented cs grant
    → IsConsented (c ∷ cs) grant
IsConsented-weaken c cs grant h is = let (expiry, at, by) = h is in (expiry, at, ground (arith, by))

Moves-IsConsented :
    (dir : Directory) (c : Call) (cs : List Call) (grant grant' : SupportGrant)
    → Moves dir c grant grant'
    → IsConsented cs grant
    → IsConsented (c ∷ cs) grant'
Moves-IsConsented dir _ cs _ _ (approves {now = now} grant same is) h =
    λ _. (now + support_access_window, refl, ground (arith, same))
Moves-IsConsented dir _ cs _ _ (denies grant same is) h = λ e. absurd (ground arith)
Moves-IsConsented dir _ cs _ _ (company_revokes grant same is) h = λ e. absurd (ground arith)
Moves-IsConsented dir _ cs _ _ (platform_revokes grant same is) h = λ e. absurd (ground arith)
Moves-IsConsented dir c cs _ _ (scrubs {o = o} grant) h =
    IsConsented-weaken (scrub_call o) cs grant h

Opens-IsConsented : (dir : Directory) (c : Call) (cs : List Call) → Opens dir c (IsConsented cs)
Opens-IsConsented dir (request_call g o why actor now) cs = λ e. absurd (ground arith)
Opens-IsConsented dir (platform_revoke_call g actor now) cs = tt
Opens-IsConsented dir (approve_call g o actor now responded) cs = tt
Opens-IsConsented dir (deny_call g o actor now responded) cs = tt
Opens-IsConsented dir (revoke_call g o actor now) cs = tt
Opens-IsConsented dir (scrub_call o) cs = tt

serve_all-IsConsented :
    (dir : Directory) (cs : List Call) → All (IsConsented cs) (serve_all dir cs).grants
serve_all-IsConsented dir [] = tt
serve_all-IsConsented dir (c ∷ cs) =
    serve-All (IsConsented cs) (IsConsented (c ∷ cs)) dir c (serve_all dir cs)
      (IsConsented-weaken c cs) (Moves-IsConsented dir c cs) (Opens-IsConsented dir c (c ∷ cs))
      (serve_all-IsConsented dir cs)

-- After any sequence of calls from an empty table, a grant that is active at a moment was approved
-- by a call on behalf of the very organization that it targets, and the moment lies before the end
-- of the window of four hours that this approval opened.
pub active_only_by_consent :
    (dir : Directory) (cs : List Call) (grant_id : Uuid) (moment : Time) (grant : SupportGrant)
    → find_where (λ g. g.id == grant_id) (serve_all dir cs).grants ≡ some grant
    → grant_is_active grant moment ≡ true
    → (expiry : Time) × (any_consents grant.id grant.org_id expiry cs ≡ true) × (moment < expiry)
unfolding grant_is_active
active_only_by_consent dir cs grant_id moment grant found active =
    let (expiry, at, by) =
      All-find_where (IsConsented cs) _ (serve_all dir cs).grants (serve_all-IsConsented dir cs)
        found (ground (arith, active)) in
    (expiry, by, ground (arith, at, active))

-- denied or revoked
abbrev pub is_terminal : SupportGrantStatus → Bool
is_terminal denied = true
is_terminal revoked = true
is_terminal _ = false

-- every row of this id has this status
abbrev pub IsSettled : Uuid → SupportGrantStatus → SupportGrant → Type 0
IsSettled grant_id status grant = (grant.id == grant_id) ≡ true → grant.status ≡ status

-- a request that opens a grant has another id
abbrev pub IsOther : Uuid → Call → Type 0
IsOther grant_id (request_call g o why actor now) = (g == grant_id) ≡ false
IsOther grant_id _ = Unit

Moves-IsSettled :
    (dir : Directory) (c : Call) (grant_id : Uuid) (status : SupportGrantStatus)
    (grant grant' : SupportGrant)
    → is_terminal status ≡ true
    → Moves dir c grant grant'
    → IsSettled grant_id status grant
    → IsSettled grant_id status grant'
Moves-IsSettled dir _ grant_id status _ _ terminal (approves grant same is) h =
    λ e. absurd (ground (arith, h e, is, terminal))
Moves-IsSettled dir _ grant_id status _ _ terminal (denies grant same is) h =
    λ e. absurd (ground (arith, h e, is, terminal))
Moves-IsSettled dir _ grant_id status _ _ terminal (company_revokes grant same is) h =
    λ e. absurd (ground (arith, h e, is, terminal))
Moves-IsSettled dir _ grant_id status _ _ terminal (platform_revokes grant same is) h =
    λ e. absurd (ground (arith, h e, is, terminal))
Moves-IsSettled dir c grant_id status _ _ terminal (scrubs grant) h = h

Opens-IsSettled :
    (dir : Directory) (c : Call) (grant_id : Uuid) (status : SupportGrantStatus)
    → IsOther grant_id c
    → Opens dir c (IsSettled grant_id status)
Opens-IsSettled dir (request_call g o why actor now) grant_id status other =
    λ e. absurd (ground (arith, e, other))
Opens-IsSettled dir (platform_revoke_call g actor now) grant_id status other = tt
Opens-IsSettled dir (approve_call g o actor now responded) grant_id status other = tt
Opens-IsSettled dir (deny_call g o actor now responded) grant_id status other = tt
Opens-IsSettled dir (revoke_call g o actor now) grant_id status other = tt
Opens-IsSettled dir (scrub_call o) grant_id status other = tt

-- calls in the order of service, the oldest first
abbrev pub serve_on : Directory → List Call → Desk → Desk
serve_on dir [] s = s
serve_on dir (c ∷ cs) s = serve_on dir cs (serve dir c s)

-- A grant that is denied or revoked keeps that status through any further calls of either service,
-- whoever makes them, where no new grant takes its id.
pub terminal_stays :
    (dir : Directory) (cs : List Call) (s : Desk) (grant_id : Uuid) (status : SupportGrantStatus)
    → is_terminal status ≡ true
    → All (IsOther grant_id) cs
    → All (IsSettled grant_id status) s.grants
    → All (IsSettled grant_id status) (serve_on dir cs s).grants
terminal_stays dir [] s grant_id status terminal others h = h
terminal_stays dir (c ∷ cs) s grant_id status terminal others h =
    terminal_stays dir cs (serve dir c s) grant_id status terminal others.1 (
      serve-All (IsSettled grant_id status) (IsSettled grant_id status) dir c s (λ grant p. p)
        (λ grant grant' move. Moves-IsSettled dir c grant_id status grant grant' terminal move)
        (Opens-IsSettled dir c grant_id status others.0) h)
