-- ===== src/Identity/Denylist/Eviction.antt =====
-- The denylist against the list of all revocations ever made: what it evicts never matters.
use one_ai.Prelude.{
  ℕ, ◌+◌, ◌≤◌, Uuid, Time, ◌≡◌, refl, Bool, true, false, ◌||◌, ◌&&◌, Option, none, some, List, [],
  ◌∷◌, arith, leb, ◌==◌, All,
}
use one_ai.Identity.Denylist.{
  InProcessTokenDenylist, revoke_subject, revoke_org, is_revoked, evict_expired, at_or_before,
  org_at_or_before,
}

pub data Revocation : Type 0 where
  subject org : Uuid → Revocation

abbrev pub revoke : Revocation → Time → InProcessTokenDenylist → InProcessTokenDenylist
revoke (subject s) now d = revoke_subject s now d
revoke (org o) now d = revoke_org o now d

abbrev pub empty_denylist : ℕ → InProcessTokenDenylist
empty_denylist ttl = record {
  access_ttl_seconds = ttl;
  subject_cutoffs = λ _. none;
  org_cutoffs = λ _. none;
}

-- the process's revocations with their times, the newest first
abbrev pub revoke_all : ℕ → List (Revocation × Time) → InProcessTokenDenylist
revoke_all ttl [] = empty_denylist ttl
revoke_all ttl ((r, t) ∷ earlier) = revoke r t (revoke_all ttl earlier)

abbrev pub IsOrdered : List (Revocation × Time) → Type 0
IsOrdered [] = Unit
IsOrdered ((r, t) ∷ earlier) = All (λ e. e.1 ≤ t) earlier × IsOrdered earlier

abbrev pub is_org : Option Uuid → Uuid → Bool
is_org none o = false
is_org (some org_id) o = org_id == o

-- Does the revocation hit a token of this subject and organization, issued at this time?
abbrev pub hits : Uuid → Option Uuid → Time → Revocation → Time → Bool
hits s o iat (subject s') t = s == s' && leb iat t
hits s o iat (org o') t = is_org o o' && leb iat t

abbrev pub hit_by_any : Uuid → Option Uuid → Time → List (Revocation × Time) → Bool
hit_by_any s o iat [] = false
hit_by_any s o iat ((r, t) ∷ earlier) = hits s o iat r t || hit_by_any s o iat earlier

-- the two halves of the reference, by the kind of revocation
abbrev subject_hit : Uuid → Time → List (Revocation × Time) → Bool
subject_hit s iat [] = false
subject_hit s iat ((subject s', t) ∷ earlier) = (s == s' && leb iat t) || subject_hit s iat earlier
subject_hit s iat ((org o', t) ∷ earlier) = subject_hit s iat earlier

abbrev org_hit : Option Uuid → Time → List (Revocation × Time) → Bool
org_hit o iat [] = false
org_hit o iat ((subject s', t) ∷ earlier) = org_hit o iat earlier
org_hit o iat ((org o', t) ∷ earlier) = (is_org o o' && leb iat t) || org_hit o iat earlier

hit_by_any-split :
    (s : Uuid) (o : Option Uuid) (iat : Time) (es : List (Revocation × Time))
    → hit_by_any s o iat es ≡ (subject_hit s iat es || org_hit o iat es)
hit_by_any-split s o iat [] = refl
hit_by_any-split s o iat ((subject s', t) ∷ es) = ground (arith, hit_by_any-split s o iat es)
hit_by_any-split s o iat ((org o', t) ∷ es) = ground (arith, hit_by_any-split s o iat es)

subject_hit_late :
    (s : Uuid) (iat t : Time) (es : List (Revocation × Time))
    → All (λ e. e.1 ≤ t) es
    → subject_hit s iat es ≡ true
    → leb iat t ≡ true
subject_hit_late s iat t [] le h = absurd (ground arith)
subject_hit_late s iat t ((subject s', u) ∷ es) le h =
    ground (arith, le.0, subject_hit_late s iat t es le.1)
subject_hit_late s iat t ((org o', u) ∷ es) le h = subject_hit_late s iat t es le.1 h

org_hit_late :
    (o : Option Uuid) (iat t : Time) (es : List (Revocation × Time))
    → All (λ e. e.1 ≤ t) es
    → org_hit o iat es ≡ true
    → leb iat t ≡ true
org_hit_late o iat t [] le h = absurd (ground arith)
org_hit_late o iat t ((org o', u) ∷ es) le h = ground (arith, le.0, org_hit_late o iat t es le.1)
org_hit_late o iat t ((subject s', u) ∷ es) le h = org_hit_late o iat t es le.1 h

ttl-revoke_all :
    (ttl : ℕ) (es : List (Revocation × Time)) → (revoke_all ttl es).access_ttl_seconds ≡ ttl
unfolding revoke_subject revoke_org
ttl-revoke_all ttl [] = refl
ttl-revoke_all ttl ((subject s, t) ∷ es) = ttl-revoke_all ttl es
ttl-revoke_all ttl ((org o, t) ∷ es) = ttl-revoke_all ttl es

subject_cutoffs-revoke_all :
    (ttl : ℕ) (s : Uuid) (iat now : Time) (es : List (Revocation × Time))
    → IsOrdered es
    → All (λ e. e.1 ≤ now) es
    → now ≤ iat + ttl
    → at_or_before iat ((revoke_all ttl es).subject_cutoffs s) ≡ subject_hit s iat es
unfolding revoke_subject revoke_org evict_expired
subject_cutoffs-revoke_all ttl s iat now [] ordered past live = refl
subject_cutoffs-revoke_all ttl s iat now ((org o, t) ∷ es) ordered past live =
    subject_cutoffs-revoke_all ttl s iat now es ordered.1 past.1 live
subject_cutoffs-revoke_all ttl s iat now ((subject s', t) ∷ es) ordered past live = ground (
  arith,
  past.0,
  ttl-revoke_all ttl es,
  subject_hit_late s iat t es ordered.0,
  subject_cutoffs-revoke_all ttl s iat now es ordered.1 past.1 live,
)

org_cutoffs-revoke_all :
    (ttl : ℕ) (o : Option Uuid) (iat now : Time) (es : List (Revocation × Time))
    → IsOrdered es
    → All (λ e. e.1 ≤ now) es
    → now ≤ iat + ttl
    → org_at_or_before (revoke_all ttl es).org_cutoffs o iat ≡ org_hit o iat es
unfolding revoke_subject revoke_org evict_expired
org_cutoffs-revoke_all ttl none iat now [] ordered past live = refl
org_cutoffs-revoke_all ttl (some k) iat now [] ordered past live = refl
org_cutoffs-revoke_all ttl none iat now ((subject s, t) ∷ es) ordered past live =
    org_cutoffs-revoke_all ttl none iat now es ordered.1 past.1 live
org_cutoffs-revoke_all ttl (some k) iat now ((subject s, t) ∷ es) ordered past live =
    org_cutoffs-revoke_all ttl (some k) iat now es ordered.1 past.1 live
org_cutoffs-revoke_all ttl none iat now ((org o', t) ∷ es) ordered past live =
    org_cutoffs-revoke_all ttl none iat now es ordered.1 past.1 live
org_cutoffs-revoke_all ttl (some k) iat now ((org o', t) ∷ es) ordered past live = ground (
  arith,
  past.0,
  ttl-revoke_all ttl es,
  org_hit_late (some k) iat t es ordered.0,
  org_cutoffs-revoke_all ttl (some k) iat now es ordered.1 past.1 live,
)

-- For a token that has not outlived the access TTL, the check answers exactly whether some
-- revocation of its subject or organization was made at or after its issue, whatever the denylist
-- has evicted since, where the clock never ran backwards.
pub is_revoked_exact :
    (ttl : ℕ) (es : List (Revocation × Time)) (s : Uuid) (o : Option Uuid) (iat now : Time)
    → IsOrdered es
    → All (λ e. e.1 ≤ now) es
    → now ≤ iat + ttl
    → is_revoked (revoke_all ttl es) s o (some iat) ≡ hit_by_any s o iat es
unfolding is_revoked
is_revoked_exact ttl es s o iat now ordered past live = ground (
  arith,
  hit_by_any-split s o iat es,
  subject_cutoffs-revoke_all ttl s iat now es ordered past live,
  org_cutoffs-revoke_all ttl o iat now es ordered past live,
)
