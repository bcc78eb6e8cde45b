-- ===== src/Identity/Denylist.antt =====
-- backend/app/identity/security/token_denylist.py: access tokens are revoked by a cutoff per
-- subject and per organization, checked on each request. The clock counts whole seconds, as `iat`.
pub mod Eviction
use one_ai.Prelude.{
  ℕ, ◌+◌, Uuid, Time, Bool, true, false, ◌||◌, Option, none, some, ltb, leb, ◌==◌, if◌then◌else◌,
}

-- a dict from subject or organization to its cutoff
abbrev pub Cutoffs : Type 0
Cutoffs = Uuid → Option Time

pub record InProcessTokenDenylist : Type 0 where
  pub access_ttl_seconds : ℕ
  pub subject_cutoffs : Cutoffs
  pub org_cutoffs : Cutoffs

unfoldable pub reset : InProcessTokenDenylist → InProcessTokenDenylist
reset d = record d { subject_cutoffs = λ _. none; org_cutoffs = λ _. none }

-- `ts < now - ttl`: the horizon may lie before zero in the source
abbrev keep_fresh : ℕ → Time → Option Time → Option Time
keep_fresh ttl now none = none
keep_fresh ttl now (some ts) = if ltb (ts + ttl) now then none else some ts

unfoldable pub evict_expired : ℕ → Cutoffs → Time → Cutoffs
evict_expired ttl cutoffs now key = keep_fresh ttl now (cutoffs key)

abbrev set_cutoff : Uuid → Time → Cutoffs → Cutoffs
set_cutoff key now cutoffs k = if k == key then some now else cutoffs k

unfoldable pub revoke_subject : Uuid → Time → InProcessTokenDenylist → InProcessTokenDenylist
unfolding evict_expired
revoke_subject subject_id now d = record d {
  subject_cutoffs =
      set_cutoff subject_id now (evict_expired d.access_ttl_seconds d.subject_cutoffs now);
}

unfoldable pub revoke_org : Uuid → Time → InProcessTokenDenylist → InProcessTokenDenylist
unfolding evict_expired
revoke_org org_id now d = record d {
  org_cutoffs = set_cutoff org_id now (evict_expired d.access_ttl_seconds d.org_cutoffs now);
}

abbrev pub at_or_before : Time → Option Time → Bool
at_or_before issued_at none = false
at_or_before issued_at (some cutoff) = leb issued_at cutoff

abbrev pub org_at_or_before : Cutoffs → Option Uuid → Time → Bool
org_at_or_before cutoffs none issued_at = false
org_at_or_before cutoffs (some org_id) issued_at = at_or_before issued_at (cutoffs org_id)

-- a token without an `iat` is revoked
unfoldable pub is_revoked : InProcessTokenDenylist → Uuid → Option Uuid → Option Time → Bool
is_revoked d subject_id org_id none = true
is_revoked d subject_id org_id (some issued_at) =
    at_or_before issued_at (d.subject_cutoffs subject_id)
    || org_at_or_before d.org_cutoffs org_id issued_at
