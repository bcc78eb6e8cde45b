-- ===== src/Entities/Cache/Ends.antt =====
-- The end of a savepoint or of the transaction keeps the invariant of the cache.
use one_ai.Prelude.{
  ℕ, suc, ◌<◌, ◌≡◌, refl, sym, subst, inl, inr, true, false, some, List, [], ◌∷◌, ◌++◌, map, arith,
  length, ltb, keep_if, ◌==◌, All, All-append, Bool-cases,
}
use one_ai.Entities.Cache.{
  CacheKey, CacheValue, Staged, ResolutionCache, promote_staged, discard_staged,
  track_savepoint_close,
}
use one_ai.Entities.Cache.Facts.{
  Fact, Scopes, In, In-append, IsLive, IsBacked, IsBacked-map, scopes, release, roll_back_to,
  finish,
}
use one_ai.Entities.Cache.Tracking.{IsTracking, All-map}

released-IsLive :
    (d : ℕ) (x : Fact) (cs b : List Fact) (fs : List (List Fact)) (s : Scopes)
    → release cs b fs ≡ some s
    → IsLive d (scopes cs b fs) x
    → IsLive d s x
released-IsLive d x cs b [] s e h = absurd (ground (arith, e))
released-IsLive d x cs b (f ∷ []) s e h =
    let q : scopes cs (f ++ b) [] ≡ s = ground (arith, e) in subst (λ q. IsLive d q x) q (go h)
  where
    go : IsLive d (scopes cs b (f ∷ [])) x → IsLive d (scopes cs (f ++ b) []) x
    go (inl l) = inl l
    go (inr (inl l)) = inr (In-append x f b (inl l.1))
    go (inr (inr l)) = inr (In-append x f b (inr l))
released-IsLive d x cs b (f ∷ g ∷ fs) s e h =
    let q : scopes cs b ((f ++ g) ∷ fs) ≡ s = ground (arith, e) in
    subst (λ q. IsLive d q x) q (go h)
  where
    go : IsLive d (scopes cs b (f ∷ g ∷ fs)) x → IsLive d (scopes cs b ((f ++ g) ∷ fs)) x
    go (inl l) = inl l
    go (inr (inl l)) = inr (inl (omega (arith, l.0), In-append x f g (inl l.1)))
    go (inr (inr (inl l))) = inr (inl (l.0, In-append x f g (inr l.1)))
    go (inr (inr (inr l))) = inr (inr l)

released-shape :
    (cs b : List Fact) (fs : List (List Fact)) (s : Scopes)
    → release cs b fs ≡ some s
    → (s.committed ≡ cs) × (suc (length s.savepoints) ≡ length fs)
released-shape cs b [] s e = absurd (ground (arith, e))
released-shape cs b (f ∷ []) s e =
    let q : scopes cs (f ++ b) [] ≡ s = ground (arith, e) in rw (sym q) (refl, refl)
released-shape cs b (f ∷ g ∷ fs) s e =
    let q : scopes cs b ((f ++ g) ∷ fs) ≡ s = ground (arith, e) in rw (sym q) (refl, refl)

pub released-IsTracking :
    (c : ResolutionCache) (cs b : List Fact) (fs : List (List Fact)) (s : Scopes)
    → release cs b fs ≡ some s
    → IsTracking c (scopes cs b fs)
    → IsTracking (track_savepoint_close true (promote_staged c)) s
unfolding promote_staged
released-IsTracking c cs b fs s e h =
    let (same, shorter) = released-shape cs b fs s e in
    let open_now : ltb 0 c.savepoint_depth ≡ true = ground (arith, h.depth, shorter) in
    rw open_now (record {
      depth = omega (arith, h.depth, shorter);
      staged =
          All-map c.staged
            (λ e'. IsBacked-map e'.key e'.value (λ x. released-IsLive e'.depth x cs b fs s e))
            h.staged;
      confirmed = rw same h.confirmed;
    })

pub unwound-IsTracking :
    (c : ResolutionCache) (cs b : List Fact) (fs : List (List Fact)) (s : Scopes)
    → roll_back_to cs b fs ≡ some s
    → IsTracking c (scopes cs b fs)
    → IsTracking (track_savepoint_close true (discard_staged c)) s
unfolding discard_staged
unwound-IsTracking c cs b [] s e h = absurd (ground (arith, e))
unwound-IsTracking c cs b (f ∷ fs) s e h =
    let q : scopes cs b fs ≡ s = ground (arith, e) in
    let d : c.savepoint_depth ≡ suc (length fs) = h.depth in
    let some_open : (suc (length fs) == 0) ≡ false = ground arith in
    subst (IsTracking (track_savepoint_close true (discard_staged c))) q (
      rw (d, some_open)
        (record {
          depth = omega arith;
          staged = outside c.staged h.staged;
          confirmed = h.confirmed;
        }))
  where
    shallow :
        (d : ℕ) (x : Fact)
        → d < suc (length fs)
        → IsLive d (scopes cs b (f ∷ fs)) x
        → IsLive d (scopes cs b fs) x
    shallow d x below (inl l) = inl l
    shallow d x below (inr (inl l)) = absurd (omega (arith, below, l.0))
    shallow d x below (inr (inr l)) = inr l

    outside :
        (es : List Staged)
        → All (λ e. IsBacked (IsLive e.depth (scopes cs b (f ∷ fs))) e.key e.value) es
        → All
            (λ e. IsBacked (IsLive e.depth (scopes cs b fs)) e.key e.value)
            (keep_if (λ e. ltb e.depth (suc (length fs))) es)
    outside [] h = tt
    outside (e ∷ es) h = elim (Bool-cases (ltb e.depth (suc (length fs)))) [
      | inl below ↦ rw below (
        IsBacked-map e.key e.value (λ x. shallow e.depth x (ground (arith, below))) h.0,
        outside es h.1,
      )
      | inr over ↦ rw over (outside es h.1)
    ]

pub committed-IsTracking :
    (c : ResolutionCache) (cs b : List Fact) (fs : List (List Fact)) (s : Scopes)
    → finish true cs b fs ≡ some s
    → IsTracking c (scopes cs b fs)
    → IsTracking (promote_staged c) s
unfolding promote_staged
committed-IsTracking c cs b (f ∷ fs) s e h = absurd (ground (arith, e))
committed-IsTracking c cs b [] s e h =
    let q : scopes (b ++ cs) [] [] ≡ s = ground (arith, e) in
    let d : c.savepoint_depth ≡ 0 = h.depth in
    subst (IsTracking (promote_staged c)) q (
      rw d (record {
        depth = refl;
        staged = tt;
        confirmed = All-append _ _ c.confirmed (moved c.staged h.staged) (
            All-map c.confirmed (λ e'. IsBacked-map e'.0 e'.1 (λ x l. In-append x b cs (inr l)))
              h.confirmed);
      }))
  where
    now_committed : (d : ℕ) (x : Fact) → IsLive d (scopes cs b []) x → In x (b ++ cs)
    now_committed d x (inl l) = In-append x b cs (inr l)
    now_committed d x (inr l) = In-append x b cs (inl l)

    moved :
        (es : List Staged)
        → All (λ e. IsBacked (IsLive e.depth (scopes cs b [])) e.key e.value) es
        → All {A = CacheKey × CacheValue}
            (λ e. IsBacked (λ x. In x (b ++ cs)) e.0 e.1)
            (map (λ (e : Staged). (e.key, e.value)) es)
    moved [] h = tt
    moved (e ∷ es) h = (IsBacked-map e.key e.value (now_committed e.depth) h.0, moved es h.1)

pub rolled_back-IsTracking :
    (c : ResolutionCache) (cs b : List Fact) (fs : List (List Fact)) (s : Scopes)
    → finish false cs b fs ≡ some s
    → IsTracking c (scopes cs b fs)
    → IsTracking (discard_staged c) s
unfolding discard_staged
rolled_back-IsTracking c cs b (f ∷ fs) s e h = absurd (ground (arith, e))
rolled_back-IsTracking c cs b [] s e h =
    let q : scopes cs [] [] ≡ s = ground (arith, e) in
    let d : c.savepoint_depth ≡ 0 = h.depth in
    subst (IsTracking (discard_staged c)) q
      (rw d (record { depth = refl; staged = tt; confirmed = h.confirmed }))
