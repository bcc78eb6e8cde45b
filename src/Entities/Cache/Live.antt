-- ===== src/Entities/Cache/Live.antt =====
-- Whatever the cache tells, the transaction has written and still holds.
use one_ai.Prelude.{
  ◌≤◌, ◌≡◌, refl, subst, true, Uuid, Option, none, some, List, [], ◌∷◌, arith, length,
}
use one_ai.Entities.Cache.{
  CacheKey, seen, CacheValue, uuid, marker, window, Datetime, ResolutionCache, empty_cache, lookup,
  covers, seen_window_covers,
}
use one_ai.Entities.Cache.Facts.{
  Fact, Scopes, nothing_written, IsLive, IsBacked, Event, react, react_all, execute, execute_next,
  execute_all,
}
use one_ai.Entities.Cache.Tracking.{IsTracking, lookup-IsBacked}
use one_ai.Entities.Cache.Steps.{execute-IsTracking, some_injective}

execute_all-IsTracking :
    (es : List Event) (c : ResolutionCache) (s s' : Scopes)
    → execute_all es s ≡ some s'
    → IsTracking c s
    → IsTracking (react_all es c) s'
unfolding execute_all react_all
execute_all-IsTracking [] c s s' q h = subst (IsTracking c) (some_injective q) h
execute_all-IsTracking (e ∷ es) c s s' q h =
    next (execute e s) refl q (λ t. execute_all-IsTracking es (react e c) t s')
  where
    next :
        (o : Option Scopes)
        → execute e s ≡ o
        → execute_next (execute_all es) o ≡ some s'
        → ((t : Scopes)
            → execute_all es t ≡ some s'
            → IsTracking (react e c) t
            → IsTracking (react_all es (react e c)) s')
        → IsTracking (react_all es (react e c)) s'
    next none same q ih = absurd (ground (arith, q))
    next (some t) same q ih = ih t q (execute-IsTracking e c s t same h)

tracking_from_empty :
    (es : List Event) (s : Scopes)
    → execute_all es nothing_written ≡ some s
    → IsTracking (react_all es empty_cache) s
tracking_from_empty es s q =
    execute_all-IsTracking es empty_cache nothing_written s q
      (record { depth = refl; staged = tt; confirmed = tt })

-- an open scope or the committed state holds the fact
abbrev pub IsHeld : Scopes → Fact → Type 0
IsHeld s = IsLive (length s.savepoints) s

-- After any events that the session can produce, a value that the cache answers under a key is
-- backed by what the transaction has written and still holds: the very row, or for a seen window a
-- push at either of its ends, committed or in a scope that is open.
pub lookup-IsHeld :
    (es : List Event) (s : Scopes) (k : CacheKey) (v : CacheValue)
    → execute_all es nothing_written ≡ some s
    → lookup k (react_all es empty_cache) ≡ some v
    → IsBacked (IsHeld s) k v
lookup-IsHeld es s k v q found =
    lookup-IsBacked k (react_all es empty_cache) s v (tracking_from_empty es s q) found

-- Where the cache answers that a window covers a moment, so that the update is skipped, pushes no
-- later and no earlier than the moment are committed or in a scope that is open.
pub seen_window_covers-IsHeld :
    (es : List Event) (s : Scopes) (org_id p : Uuid) (t : Datetime)
    → execute_all es nothing_written ≡ some s
    → seen_window_covers org_id p t (react_all es empty_cache) ≡ true
    → (low : Datetime) × (high : Datetime) × IsHeld s (seen org_id p, window low low)
      × IsHeld s (seen org_id p, window high high)
      × (low.at ≤ t.at)
      × (t.at ≤ high.at)
unfolding seen_window_covers
seen_window_covers-IsHeld es s org_id p t q h =
    ends (lookup (seen org_id p) (react_all es empty_cache)) h
      (λ v. lookup-IsHeld es s (seen org_id p) v q)
  where
    ends :
        (o : Option CacheValue)
        → covers o t ≡ true
        → ((v : CacheValue) → o ≡ some v → IsBacked (IsHeld s) (seen org_id p) v)
        → (low : Datetime) × (high : Datetime) × IsHeld s (seen org_id p, window low low)
          × IsHeld s (seen org_id p, window high high)
          × (low.at ≤ t.at)
          × (t.at ≤ high.at)
    ends none h b = absurd (ground (arith, h))
    ends (some (uuid u)) h b = absurd (ground (arith, h))
    ends (some marker) h b = absurd (ground (arith, h))
    ends (some (window low high)) h b =
        let held = b (window low high) refl in
        (low, high, held.0, held.1, ground (arith, h), ground (arith, h))
