-- ===== src/Entities/Cache/Tracking.antt =====
-- The invariant that ties the cache to what its transaction has written.
use one_ai.Prelude.{
  ℕ, suc, ◌≡◌, refl, sym, subst, ◌∙◌, inl, inr, Bool, true, some, List, [], ◌∷◌, arith, length,
  keep_if, All, Bool-cases, Option-cases,
}
use one_ai.Entities.Cache.{
  CacheKey, CacheValue, Staged, key_eq, ResolutionCache, lookup_staged, lookup_confirmed, lookup,
  stage,
}
use one_ai.Entities.Cache.Facts.{
  Fact, Scopes, In, IsWithin, IsLive, IsBacked, IsBacked-map, scopes, write_into, write,
  key_eq_sound,
}

pub record IsTracking (c : ResolutionCache) (s : Scopes) : Type 0 where
  pub depth : c.savepoint_depth ≡ length s.savepoints
  pub staged : All (λ e. IsBacked (IsLive e.depth s) e.key e.value) c.staged
  pub confirmed : All (λ e. IsBacked (λ x. In x s.committed) e.0 e.1) c.confirmed

-- facts no deeper than the innermost scope are all facts
pub IsWithin-all :
    (d : ℕ) (x : Fact) (b : List Fact) (fs : List (List Fact))
    → IsWithin d x b fs
    → IsWithin (length fs) x b fs
IsWithin-all d x b [] h = h
IsWithin-all d x b (f ∷ fs) (inl h) = inl (omega arith, h.1)
IsWithin-all d x b (f ∷ fs) (inr h) =
    inr (IsWithin_deeper (length fs) x b fs (IsWithin-all d x b fs h))
  where
    IsWithin_deeper :
        (n : ℕ) (x : Fact) (b : List Fact) (gs : List (List Fact))
        → IsWithin n x b gs
        → IsWithin (suc n) x b gs
    IsWithin_deeper n x b [] h = h
    IsWithin_deeper n x b (g ∷ gs) (inl h) = inl (omega (arith, h.0), h.1)
    IsWithin_deeper n x b (g ∷ gs) (inr h) = inr (IsWithin_deeper n x b gs h)

-- what every scope of one state holds, every scope of another holds
abbrev Grows : Scopes → Scopes → Type 0
Grows s s' = (d : ℕ) (x : Fact) → IsLive d s x → IsLive d s' x

pub IsLive-write : (y : Fact) (s : Scopes) → Grows s (write y s)
IsLive-write y s d x h = go s.committed s.base s.savepoints h
  where
    go :
        (cs b : List Fact) (fs : List (List Fact))
        → IsLive d (scopes cs b fs) x
        → IsLive d (write_into y cs b fs) x
    go cs b [] (inl h) = inl h
    go cs b [] (inr h) = inr (inr h)
    go cs b (f ∷ fs) (inl h) = inl h
    go cs b (f ∷ fs) (inr (inl h)) = inr (inl (h.0, inr h.1))
    go cs b (f ∷ fs) (inr (inr h)) = inr (inr h)

pub written-IsLive : (y : Fact) (s : Scopes) → IsLive (length s.savepoints) (write y s) y
written-IsLive y s = go s.committed s.base s.savepoints
  where
    go : (cs b : List Fact) (fs : List (List Fact)) → IsLive (length fs) (write_into y cs b fs) y
    go cs b [] = inr (inl refl)
    go cs b (f ∷ fs) = inr (inl (omega arith, inl refl))

length-write :
    (y : Fact) (s : Scopes) → length (Scopes.savepoints (write y s)) ≡ length s.savepoints
length-write y s = go s.committed s.base s.savepoints
  where
    go :
        (cs b : List Fact) (fs : List (List Fact))
        → length (Scopes.savepoints (write_into y cs b fs)) ≡ length fs
    go cs b [] = refl
    go cs b (f ∷ fs) = refl

committed-write : (y : Fact) (s : Scopes) → Scopes.committed (write y s) ≡ s.committed
committed-write y s = go s.committed s.base s.savepoints
  where
    go : (cs b : List Fact) (fs : List (List Fact)) → Scopes.committed (write_into y cs b fs) ≡ cs
    go cs b [] = refl
    go cs b (f ∷ fs) = refl

pub All-keep_if {ℓ κ} :
    {A : Type ℓ} (P : A → Type κ) (keeps : A → Bool) (xs : List A)
    → All P xs
    → All P (keep_if keeps xs)
All-keep_if P keeps [] h = tt
All-keep_if P keeps (x ∷ xs) h = elim (Bool-cases (keeps x)) [
  | inl e ↦ rw e (h.0, All-keep_if P keeps xs h.1)
  | inr e ↦ rw e (All-keep_if P keeps xs h.1)
]

pub All-map {ℓ κ} :
    {A : Type ℓ} {P Q : A → Type κ} (xs : List A) → ((x : A) → P x → Q x) → All P xs → All Q xs
All-map [] f h = tt
All-map (x ∷ xs) f h = (f x h.0, All-map xs f h.1)

pub IsLive-all : (d : ℕ) (s : Scopes) (x : Fact) → IsLive d s x → IsLive (length s.savepoints) s x
IsLive-all d s x (inl h) = inl h
IsLive-all d s x (inr h) = inr (IsWithin-all d x s.base s.savepoints h)

same_key :
    (P : Fact → Type 0) (k k' : CacheKey) (v : CacheValue)
    → key_eq k k' ≡ true
    → IsBacked P k' v
    → IsBacked P k v
same_key P k k' v e h = subst (λ q. IsBacked P q v) (sym (key_eq_sound k k' e)) h

lookup_staged-IsBacked :
    (k : CacheKey) (s : Scopes) (v : CacheValue) (es : List Staged)
    → All (λ e. IsBacked (IsLive e.depth s) e.key e.value) es
    → lookup_staged k es ≡ some v
    → IsBacked (IsLive (length s.savepoints) s) k v
unfolding lookup_staged
lookup_staged-IsBacked k s v [] h found = absurd (ground (arith, found))
lookup_staged-IsBacked k s v (e ∷ es) h found = elim (Bool-cases (key_eq k e.key)) [
  | inl same ↦
      (let here : e.value ≡ v = ground (arith, found, same) in
        subst (IsBacked (IsLive (length s.savepoints) s) k) here (
          same_key (IsLive (length s.savepoints) s) k e.key e.value same
            (IsBacked-map e.key e.value (IsLive-all e.depth s) h.0)))
  | inr apart ↦ lookup_staged-IsBacked k s v es h.1 (ground (arith, found, apart))
]

lookup_confirmed-IsBacked :
    (k : CacheKey) (P : Fact → Type 0) (v : CacheValue) (es : List (CacheKey × CacheValue))
    → All (λ e. IsBacked P e.0 e.1) es
    → lookup_confirmed k es ≡ some v
    → IsBacked P k v
unfolding lookup_confirmed
lookup_confirmed-IsBacked k P v [] h found = absurd (ground (arith, found))
lookup_confirmed-IsBacked k P v (e ∷ es) h found = elim (Bool-cases (key_eq k e.0)) [
  | inl same ↦
      (let here : e.1 ≡ v = ground (arith, found, same) in
        subst (IsBacked P k) here (same_key P k e.0 e.1 same h.0))
  | inr apart ↦ lookup_confirmed-IsBacked k P v es h.1 (ground (arith, found, apart))
]

pub lookup-IsBacked :
    (k : CacheKey) (c : ResolutionCache) (s : Scopes) (v : CacheValue)
    → IsTracking c s
    → lookup k c ≡ some v
    → IsBacked (IsLive (length s.savepoints) s) k v
unfolding lookup
lookup-IsBacked k c s v t found = elim (Option-cases (lookup_staged k c.staged)) [
  | inl none_staged ↦
      IsBacked-map {P = λ x. In x s.committed} {Q = IsLive (length s.savepoints) s} k v
        (λ x h. inl h)
        (lookup_confirmed-IsBacked k (λ x. In x s.committed) v c.confirmed t.confirmed
          (ground (arith, found, none_staged)))
  | inr (w, staged) ↦ lookup_staged-IsBacked k s v c.staged t.staged (ground (arith, found, staged))
]

-- a value staged beside the fact that was written
pub stage-IsTracking :
    (k : CacheKey) (v : CacheValue) (y : Fact) (c : ResolutionCache) (s : Scopes)
    → IsTracking c s
    → IsBacked (IsLive (length s.savepoints) (write y s)) k v
    → IsTracking (stage k v c) (write y s)
unfolding stage
stage-IsTracking k v y c s t h = record {
  depth = t.depth ∙ sym (length-write y s);
  staged = (
    subst (λ d. IsBacked (IsLive d (write y s)) k v) (sym t.depth) h,
    All-keep_if _ _ c.staged
        (All-map c.staged (λ e. IsBacked-map e.key e.value (IsLive-write y s e.depth)) t.staged),
  );
  confirmed = rw (committed-write y s) t.confirmed;
}
