-- ===== src/Entities/Cache/Facts.antt =====
-- What the transaction of the run has written: the committed facts, those of the open transaction
-- and those of its savepoints, the innermost first.
use one_ai.Prelude.{
  ℕ, suc, ◌≤◌, ◌≡◌, ◌⊎◌, inl, inr, Bool, true, false, Uuid, String, Option, none, some, List, [],
  ◌∷◌, ◌++◌, arith, length, ==_iff, str_eq_iff, if◌then◌else◌,
}
use one_ai.Entities.Cache.{
  CacheKey, person, company, named, seen, alias, host, link, CacheValue, uuid, marker, window,
  Datetime, key_eq, ResolutionCache, stage_person, stage_company, stage_person_name, stage_alias,
  stage_company_host, stage_person_company_link, stage_seen_window, track_savepoint_open,
  track_savepoint_close, promote_staged, discard_staged,
}

-- a row under its key; a push of a datetime to a seen window is the window of that datetime alone
abbrev pub Fact : Type 0
Fact = CacheKey × CacheValue

pub record Scopes : Type 0 where
  pub committed : List Fact
  pub base : List Fact
  pub savepoints : List (List Fact)

abbrev pub nothing_written : Scopes
nothing_written = record { committed = []; base = []; savepoints = [] }

abbrev pub In : Fact → List Fact → Type 0
In x [] = ⊥
In x (y ∷ ys) = (x ≡ y) ⊎ In x ys

pub In-append : (x : Fact) (xs ys : List Fact) → In x xs ⊎ In x ys → In x (xs ++ ys)
In-append x [] ys (inl h) = absurd h
In-append x [] ys (inr h) = h
In-append x (y ∷ xs) ys (inl (inl h)) = inl h
In-append x (y ∷ xs) ys (inl (inr h)) = inr (In-append x xs ys (inl h))
In-append x (y ∷ xs) ys (inr h) = inr (In-append x xs ys (inr h))

-- a fact of the transaction or of a savepoint no deeper than `depth`
abbrev pub IsWithin : ℕ → Fact → List Fact → List (List Fact) → Type 0
IsWithin depth x base [] = In x base
IsWithin depth x base (f ∷ fs) = ((suc (length fs) ≤ depth) × In x f) ⊎ IsWithin depth x base fs

abbrev pub IsLive : ℕ → Scopes → Fact → Type 0
IsLive depth s x = In x s.committed ⊎ IsWithin depth x s.base s.savepoints

-- What a cached value claims of its key: the row itself, or a push at either end of the window.
abbrev pub IsBacked : (Fact → Type 0) → CacheKey → CacheValue → Type 0
IsBacked P k (uuid u) = P (k, uuid u)
IsBacked P k marker = P (k, marker)
IsBacked P k (window low high) = P (k, window low low) × P (k, window high high)

pub IsBacked-map :
    {P Q : Fact → Type 0} (k : CacheKey) (v : CacheValue)
    → ((x : Fact) → P x → Q x)
    → IsBacked P k v
    → IsBacked Q k v
IsBacked-map k (uuid u) f h = f _ h
IsBacked-map k marker f h = f _ h
IsBacked-map k (window low high) f h = (f _ h.0, f _ h.1)

-- what the resolver has written before it stages, and the events of the session
pub data Event : Type 0 where
  person_resolved company_resolved : Uuid → String → Uuid → Event
  name_ensured : Uuid → Uuid → Event
  alias_ensured host_ensured : Uuid → Uuid → String → Event
  link_ensured : Uuid → Uuid → Uuid → Event
  seen_pushed : Uuid → Uuid → Datetime → Event
  savepoint_opened savepoint_released savepoint_rolled_back committed rolled_back : Event

-- the session's events in their order, a savepoint's while it is open
unfoldable pub react : Event → ResolutionCache → ResolutionCache
unfolding stage_person stage_company stage_person_name stage_alias stage_company_host
    stage_person_company_link stage_seen_window promote_staged discard_staged
react (person_resolved o e p) c = stage_person o e p c
react (company_resolved o k id) c = stage_company o k id c
react (name_ensured o p) c = stage_person_name o p c
react (alias_ensured o p a) c = stage_alias o p a c
react (host_ensured o id h) c = stage_company_host o id h c
react (link_ensured o p id) c = stage_person_company_link o p id c
react (seen_pushed o p t) c = stage_seen_window o p t c
react savepoint_opened c = track_savepoint_open true c
react savepoint_released c = track_savepoint_close true (promote_staged c)
react savepoint_rolled_back c = track_savepoint_close true (discard_staged c)
react committed c = track_savepoint_close false (promote_staged c)
react rolled_back c = track_savepoint_close false (discard_staged c)

unfoldable pub react_all : List Event → ResolutionCache → ResolutionCache
unfolding react
react_all [] c = c
react_all (e ∷ es) c = react_all es (react e c)

-- the scopes with these savepoints
abbrev pub scopes : List Fact → List Fact → List (List Fact) → Scopes
scopes cs b fs = record { committed = cs; base = b; savepoints = fs }

-- the fact that the resolver has written, in the innermost scope
abbrev pub write_into : Fact → List Fact → List Fact → List (List Fact) → Scopes
write_into x cs b [] = scopes cs (x ∷ b) []
write_into x cs b (f ∷ fs) = scopes cs b ((x ∷ f) ∷ fs)

-- a released savepoint's facts belong to the scope around it
abbrev pub release : List Fact → List Fact → List (List Fact) → Option Scopes
release cs b [] = none
release cs b (f ∷ []) = some (scopes cs (f ++ b) [])
release cs b (f ∷ g ∷ fs) = some (scopes cs b ((f ++ g) ∷ fs))

abbrev pub roll_back_to : List Fact → List Fact → List (List Fact) → Option Scopes
roll_back_to cs b [] = none
roll_back_to cs b (f ∷ fs) = some (scopes cs b fs)

-- the transaction itself ends outside its savepoints
abbrev pub finish : Bool → List Fact → List Fact → List (List Fact) → Option Scopes
finish keeps cs b [] = some (scopes (if keeps then b ++ cs else cs) [] [])
finish keeps cs b (f ∷ fs) = none

abbrev pub write : Fact → Scopes → Scopes
write x s = write_into x s.committed s.base s.savepoints

abbrev pub execute : Event → Scopes → Option Scopes
execute (person_resolved o e p) s = some (write (person o e, uuid p) s)
execute (company_resolved o k id) s = some (write (company o k, uuid id) s)
execute (name_ensured o p) s = some (write (named o p, marker) s)
execute (alias_ensured o p a) s = some (write (alias o p a, marker) s)
execute (host_ensured o id h) s = some (write (host o id h, marker) s)
execute (link_ensured o p id) s = some (write (link o p id, marker) s)
execute (seen_pushed o p t) s = some (write (seen o p, window t t) s)
execute savepoint_opened s = some (record s { savepoints = [] ∷ s.savepoints })
execute savepoint_released s = release s.committed s.base s.savepoints
execute savepoint_rolled_back s = roll_back_to s.committed s.base s.savepoints
execute committed s = finish true s.committed s.base s.savepoints
execute rolled_back s = finish false s.committed s.base s.savepoints

abbrev pub execute_next : (Scopes → Option Scopes) → Option Scopes → Option Scopes
execute_next f none = none
execute_next f (some s) = f s

-- `none` where an event comes in a scope in which it cannot come
unfoldable pub execute_all : List Event → Scopes → Option Scopes
execute_all [] s = some s
execute_all (e ∷ es) s = execute_next (execute_all es) (execute e s)

pub key_eq_sound : (k k' : CacheKey) → key_eq k k' ≡ true → k ≡ k'
unfolding key_eq
key_eq_sound (person o e) (person o' e') h = ground (arith, h, str_eq_iff e e', ==_iff o o')
key_eq_sound (company o e) (company o' e') h = ground (arith, h, str_eq_iff e e', ==_iff o o')
key_eq_sound (named o p) (named o' p') h = ground (arith, h, ==_iff o o', ==_iff p p')
key_eq_sound (seen o p) (seen o' p') h = ground (arith, h, ==_iff o o', ==_iff p p')
key_eq_sound (alias o p e) (alias o' p' e') h =
    ground (arith, h, str_eq_iff e e', ==_iff o o', ==_iff p p')
key_eq_sound (host o p e) (host o' p' e') h =
    ground (arith, h, str_eq_iff e e', ==_iff o o', ==_iff p p')
key_eq_sound (link o p e) (link o' p' e') h =
    ground (arith, h, ==_iff e e', ==_iff o o', ==_iff p p')
key_eq_sound _ _ h = absurd (ground (arith, h))
