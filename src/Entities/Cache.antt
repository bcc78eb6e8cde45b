-- ===== src/Entities/Cache.antt =====
-- backend/app/entities/services/resolution_cache.py, which remembers for one run what its transaction
-- has resolved. A dict is the list of its items.
pub mod Ends
pub mod Facts
pub mod Live
pub mod Steps
pub mod Tracking
use one_ai.Prelude.{
  ℕ, ◌+◌, ◌-◌, Uuid, String, Bool, true, false, not, ◌&&◌, Option, none, some, List, [], ◌∷◌, ◌++◌,
  map, ◌==◌, str_eq, leb, ltb, keep_if, if◌then◌else◌,
}

-- a datetime with a time zone or without one
pub record Datetime : Type 0 where
  pub is_aware : Bool
  pub at : ℕ

-- `_CacheKey`, by its tier
pub data CacheKey : Type 0 where
  person company : Uuid → String → CacheKey
  named seen : Uuid → Uuid → CacheKey
  alias host : Uuid → Uuid → String → CacheKey
  link : Uuid → Uuid → Uuid → CacheKey

-- `_CacheValue`
pub data CacheValue : Type 0 where
  uuid : Uuid → CacheValue
  marker : CacheValue
  window : Datetime → Datetime → CacheValue

unfoldable pub key_eq : CacheKey → CacheKey → Bool
key_eq (person o e) (person o' e') = o == o' && str_eq e e'
key_eq (company o k) (company o' k') = o == o' && str_eq k k'
key_eq (named o p) (named o' p') = o == o' && p == p'
key_eq (seen o p) (seen o' p') = o == o' && p == p'
key_eq (alias o p a) (alias o' p' a') = o == o' && p == p' && str_eq a a'
key_eq (host o c h) (host o' c' h') = o == o' && c == c' && str_eq h h'
key_eq (link o p c) (link o' p' c') = o == o' && p == p' && c == c'
key_eq _ _ = false

pub record Staged : Type 0 where
  pub key : CacheKey
  pub value : CacheValue
  pub depth : ℕ

pub record ResolutionCache : Type 0 where
  pub confirmed : List (CacheKey × CacheValue)
  pub staged : List Staged
  pub savepoint_depth : ℕ

-- `__init__`
abbrev pub empty_cache : ResolutionCache
empty_cache = record { confirmed = []; staged = []; savepoint_depth = 0 }

unfoldable pub lookup_staged : CacheKey → List Staged → Option CacheValue
unfolding key_eq
lookup_staged k [] = none
lookup_staged k (e ∷ es) =
    let later = lookup_staged k es in if key_eq k e.key then some e.value else later

unfoldable pub lookup_confirmed : CacheKey → List (CacheKey × CacheValue) → Option CacheValue
unfolding key_eq
lookup_confirmed k [] = none
lookup_confirmed k (e ∷ es) =
    let later = lookup_confirmed k es in if key_eq k e.0 then some e.1 else later

-- the staged value, else the confirmed one
abbrev pub either_value : Option CacheValue → Option CacheValue → Option CacheValue
either_value none v = v
either_value (some v) _ = some v

unfoldable pub lookup : CacheKey → ResolutionCache → Option CacheValue
unfolding lookup_staged lookup_confirmed
lookup k c = either_value (lookup_staged k c.staged) (lookup_confirmed k c.confirmed)

-- assigning a key puts its new item in front and leaves the older one out
unfoldable pub stage : CacheKey → CacheValue → ResolutionCache → ResolutionCache
unfolding key_eq
stage k v c = record c {
  staged =
      record { key = k; value = v; depth = c.savepoint_depth }
      ∷ keep_if (λ e. not (key_eq k e.key)) c.staged;
}

-- `isinstance(value, UUID)`, `value is True`
abbrev pub as_uuid : Option CacheValue → Option Uuid
as_uuid (some (uuid u)) = some u
as_uuid _ = none

abbrev pub is_marker : Option CacheValue → Bool
is_marker (some marker) = true
is_marker _ = false

unfoldable pub person_id : Uuid → String → ResolutionCache → Option Uuid
unfolding lookup
person_id org_id normalized_email c = as_uuid (lookup (person org_id normalized_email) c)

unfoldable pub stage_person : Uuid → String → Uuid → ResolutionCache → ResolutionCache
unfolding stage
stage_person org_id normalized_email id c = stage (person org_id normalized_email) (uuid id) c

unfoldable pub company_id : Uuid → String → ResolutionCache → Option Uuid
unfolding lookup
company_id org_id company_key c = as_uuid (lookup (company org_id company_key) c)

unfoldable pub stage_company : Uuid → String → Uuid → ResolutionCache → ResolutionCache
unfolding stage
stage_company org_id company_key id c = stage (company org_id company_key) (uuid id) c

unfoldable pub has_person_name : Uuid → Uuid → ResolutionCache → Bool
unfolding lookup
has_person_name org_id p c = is_marker (lookup (named org_id p) c)

unfoldable pub stage_person_name : Uuid → Uuid → ResolutionCache → ResolutionCache
unfolding stage
stage_person_name org_id p c = stage (named org_id p) marker c

unfoldable pub has_alias : Uuid → Uuid → String → ResolutionCache → Bool
unfolding lookup
has_alias org_id p a c = is_marker (lookup (alias org_id p a) c)

unfoldable pub stage_alias : Uuid → Uuid → String → ResolutionCache → ResolutionCache
unfolding stage
stage_alias org_id p a c = stage (alias org_id p a) marker c

unfoldable pub has_company_host : Uuid → Uuid → String → ResolutionCache → Bool
unfolding lookup
has_company_host org_id id h c = is_marker (lookup (host org_id id h) c)

unfoldable pub stage_company_host : Uuid → Uuid → String → ResolutionCache → ResolutionCache
unfolding stage
stage_company_host org_id id h c = stage (host org_id id h) marker c

unfoldable pub has_person_company_link : Uuid → Uuid → Uuid → ResolutionCache → Bool
unfolding lookup
has_person_company_link org_id p id c = is_marker (lookup (link org_id p id) c)

unfoldable pub stage_person_company_link : Uuid → Uuid → Uuid → ResolutionCache → ResolutionCache
unfolding stage
stage_person_company_link org_id p id c = stage (link org_id p id) marker c

-- a comparison of a datetime that has a zone with one that has none raises
abbrev pub is_comparable : Datetime → Datetime → Bool
is_comparable a b = if a.is_aware then b.is_aware else not b.is_aware

abbrev pub covers : Option CacheValue → Datetime → Bool
covers (some (window low high)) t =
    is_comparable low t && leb low.at t.at && is_comparable t high && leb t.at high.at
covers _ t = false

unfoldable pub seen_window_covers : Uuid → Uuid → Datetime → ResolutionCache → Bool
unfolding lookup
seen_window_covers org_id p seen_at c = covers (lookup (seen org_id p) c) seen_at

-- `min` and `max`, which keep the first argument where both are equal
abbrev pub earlier : Datetime → Datetime → Datetime
earlier a b = if ltb b.at a.at then b else a

abbrev pub later : Datetime → Datetime → Datetime
later a b = if ltb a.at b.at then b else a

abbrev pub widened : Option CacheValue → Datetime → CacheValue
widened (some (window low high)) t =
    if is_comparable low t && is_comparable high t
    then window (earlier low t) (later high t)
    else window t t
widened _ t = window t t

unfoldable pub stage_seen_window : Uuid → Uuid → Datetime → ResolutionCache → ResolutionCache
unfolding lookup stage
stage_seen_window org_id p seen_at c =
    stage (seen org_id p) (widened (lookup (seen org_id p) c) seen_at) c

-- the listeners, by whether the transaction is a savepoint
abbrev pub track_savepoint_open : Bool → ResolutionCache → ResolutionCache
track_savepoint_open nested c =
    if nested then record c { savepoint_depth = c.savepoint_depth + 1 } else c

abbrev pub track_savepoint_close : Bool → ResolutionCache → ResolutionCache
track_savepoint_close nested c =
    if nested then record c { savepoint_depth = c.savepoint_depth - 1 } else c

unfoldable pub promote_staged : ResolutionCache → ResolutionCache
promote_staged c = if ltb 0 c.savepoint_depth then c else record c {
  confirmed = map (λ (e : Staged). (e.key, e.value)) c.staged ++ c.confirmed;
  staged = [];
}

unfoldable pub discard_staged : ResolutionCache → ResolutionCache
discard_staged c =
    if c.savepoint_depth == 0
    then record c { staged = [] }
    else record c { staged = keep_if (λ e. ltb e.depth c.savepoint_depth) c.staged }
