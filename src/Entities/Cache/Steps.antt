-- ===== src/Entities/Cache/Steps.antt =====
-- Every event keeps the invariant of the cache.
use one_ai.Prelude.{
  ℕ, ◌+◌, ◌≡◌, refl, subst, inl, inr, Bool, true, false, ◌&&◌, Uuid, Option, none, some, [], ◌∷◌,
  arith, length, ltb, Bool-cases, if◌then◌else◌,
}
use one_ai.Entities.Cache.{
  CacheKey, person, company, named, seen, alias, host, link, CacheValue, uuid, marker, window,
  Datetime, ResolutionCache, lookup, stage, widened, stage_person, stage_company, stage_person_name,
  stage_alias, stage_company_host, stage_person_company_link, stage_seen_window, is_comparable,
}
use one_ai.Entities.Cache.Facts.{
  Fact, Scopes, IsLive, IsBacked, IsBacked-map, Event, person_resolved, company_resolved,
  name_ensured, alias_ensured, host_ensured, link_ensured, seen_pushed, savepoint_opened,
  savepoint_released, savepoint_rolled_back, committed, rolled_back, react, write, execute,
}
use one_ai.Entities.Cache.Tracking.{
  IsTracking, IsLive-write, written-IsLive, lookup-IsBacked, stage-IsTracking, All-map,
}
use one_ai.Entities.Cache.Ends.{
  released-IsTracking, unwound-IsTracking, committed-IsTracking, rolled_back-IsTracking,
}

-- the window with a pushed datetime is backed at both of its ends
widened-IsBacked :
    (P : Fact → Type 0) (k : CacheKey) (v : Option CacheValue) (t : Datetime)
    → P (k, window t t)
    → ((w : CacheValue) → v ≡ some w → IsBacked P k w)
    → IsBacked P k (widened v t)
widened-IsBacked P k none t h old = (h, h)
widened-IsBacked P k (some (uuid u)) t h old = (h, h)
widened-IsBacked P k (some marker) t h old = (h, h)
widened-IsBacked P k (some (window low high)) t h old =
    let o = old (window low high) refl in
    elim (Bool-cases (is_comparable low t && is_comparable high t)) [
      | inl e ↦ rw e (pick_low (ltb t.at low.at) o.0, pick_high (ltb high.at t.at) o.1)
      | inr e ↦ rw e (h, h)
    ]
  where
    pick_low :
        (b : Bool)
        → P (k, window low low)
        → P (k, window (if b then t else low) (if b then t else low))
    pick_low true o = h
    pick_low false o = o

    pick_high :
        (b : Bool)
        → P (k, window high high)
        → P (k, window (if b then t else high) (if b then t else high))
    pick_high true o = h
    pick_high false o = o

seen_pushed-IsTracking :
    (org_id p : Uuid) (t : Datetime) (c : ResolutionCache) (s : Scopes)
    → IsTracking c s
    → IsTracking (stage_seen_window org_id p t c) (write (seen org_id p, window t t) s)
unfolding stage_seen_window
seen_pushed-IsTracking org_id p t c s h =
    let y : Fact = (seen org_id p, window t t) in
    stage-IsTracking (seen org_id p) _ y c s h (
      widened-IsBacked (IsLive (length s.savepoints) (write y s)) (seen org_id p)
        (lookup (seen org_id p) c) t (written-IsLive y s)
        (λ w e.
          IsBacked-map (seen org_id p) w (IsLive-write y s (length s.savepoints))
            (lookup-IsBacked (seen org_id p) c s w h e)))

opened-IsTracking :
    (c : ResolutionCache) (s : Scopes)
    → IsTracking c s
    → IsTracking
        (record c { savepoint_depth = c.savepoint_depth + 1 })
        (record s { savepoints = [] ∷ s.savepoints })
opened-IsTracking c s h = record {
  depth = omega (arith, h.depth);
  staged = All-map c.staged (λ e. IsBacked-map e.key e.value (λ x. deeper e.depth x)) h.staged;
  confirmed = h.confirmed;
}
  where
    deeper :
        (d : ℕ) (x : Fact) → IsLive d s x → IsLive d (record s { savepoints = [] ∷ s.savepoints }) x
    deeper d x (inl l) = inl l
    deeper d x (inr l) = inr (inr l)

pub some_injective : {s s' : Scopes} → some s ≡ some s' → s ≡ s'
some_injective q = ground (arith, q)

written :
    (k : CacheKey) (v : CacheValue) (c : ResolutionCache) (s s' : Scopes)
    → some (write (k, v) s) ≡ some s'
    → IsTracking c s
    → IsBacked (IsLive (length s.savepoints) (write (k, v) s)) k v
    → IsTracking (stage k v c) s'
written k v c s s' q h b =
    subst (IsTracking (stage k v c)) (some_injective q) (stage-IsTracking k v (k, v) c s h b)

pub execute-IsTracking :
    (e : Event) (c : ResolutionCache) (s s' : Scopes)
    → execute e s ≡ some s'
    → IsTracking c s
    → IsTracking (react e c) s'
unfolding react stage_person stage_company stage_person_name stage_alias stage_company_host
    stage_person_company_link
execute-IsTracking (person_resolved o e p) c s s' q h =
    written (person o e) (uuid p) c s s' q h (written-IsLive _ s)
execute-IsTracking (company_resolved o k id) c s s' q h =
    written (company o k) (uuid id) c s s' q h (written-IsLive _ s)
execute-IsTracking (name_ensured o p) c s s' q h =
    written (named o p) marker c s s' q h (written-IsLive _ s)
execute-IsTracking (alias_ensured o p a) c s s' q h =
    written (alias o p a) marker c s s' q h (written-IsLive _ s)
execute-IsTracking (host_ensured o id n) c s s' q h =
    written (host o id n) marker c s s' q h (written-IsLive _ s)
execute-IsTracking (link_ensured o p id) c s s' q h =
    written (link o p id) marker c s s' q h (written-IsLive _ s)
execute-IsTracking (seen_pushed o p t) c s s' q h =
    subst (IsTracking _) (some_injective q) (seen_pushed-IsTracking o p t c s h)
execute-IsTracking savepoint_opened c s s' q h =
    subst (IsTracking _) (some_injective q) (opened-IsTracking c s h)
execute-IsTracking savepoint_released c s s' q h =
    released-IsTracking c s.committed s.base s.savepoints s' q h
execute-IsTracking savepoint_rolled_back c s s' q h =
    unwound-IsTracking c s.committed s.base s.savepoints s' q h
execute-IsTracking committed c s s' q h =
    committed-IsTracking c s.committed s.base s.savepoints s' q h
execute-IsTracking rolled_back c s s' q h =
    rolled_back-IsTracking c s.committed s.base s.savepoints s' q h
