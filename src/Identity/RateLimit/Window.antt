-- ===== src/Identity/RateLimit/Window.antt =====
-- The deque holds exactly the failures of the last window.
use one_ai.Prelude.{
  ℕ, ◌+◌, ◌≤◌, Time, ◌≡◌, refl, ap, ◌∙◌, Bool, inl, inr, List, [], ◌∷◌, ◌++◌, arith, leb, ltb,
  keep_if, Bool-cases, append_assoc, append-nil, sym,
}
use one_ai.Identity.RateLimit.{RateLimitPolicy, KeyState, empty_state, trim, fail_once}

-- a failure at `t` counts at `now`
abbrev pub in_window : ℕ → Time → Time → Bool
in_window window now t = leb now (t + window)

-- the clock does not run backwards, from `lo` on
abbrev pub IsOrdered : Time → List Time → Type 0
IsOrdered lo [] = Unit
IsOrdered lo (t ∷ ts) = (lo ≤ t) × IsOrdered t ts

IsOrdered-weaken : (lo hi : Time) (ts : List Time) → lo ≤ hi → IsOrdered hi ts → IsOrdered lo ts
IsOrdered-weaken lo hi [] le h = tt
IsOrdered-weaken lo hi (t ∷ ts) le h = (omega arith, h.1)

keep_if-all :
    (window : ℕ) (now lo : Time) (ts : List Time)
    → now ≤ lo + window
    → IsOrdered lo ts
    → keep_if (in_window window now) ts ≡ ts
keep_if-all window now lo [] le h = refl
keep_if-all window now lo (t ∷ ts) le h =
    ground (arith, keep_if-all window now t ts (omega arith) h.1)

trim-eq-keep_if :
    (window : ℕ) (now lo : Time) (ts : List Time)
    → IsOrdered lo ts
    → trim window now ts ≡ keep_if (in_window window now) ts
unfolding trim
trim-eq-keep_if window now lo [] h = refl
trim-eq-keep_if window now lo (t ∷ ts) h = elim (Bool-cases (ltb (t + window) now)) [
  | inl old ↦ ground (arith, old, trim-eq-keep_if window now t ts h.1)
  | inr live ↦ ground (arith, live, keep_if-all window now t ts (ground (arith, live)) h.1)
]

IsOrdered-keep_if :
    (p : Time → Bool) (lo : Time) (ts : List Time) → IsOrdered lo ts → IsOrdered lo (keep_if p ts)
IsOrdered-keep_if p lo [] h = tt
IsOrdered-keep_if p lo (t ∷ ts) h = elim (Bool-cases (p t)) [
  | inl kept ↦ rw kept (h.0, IsOrdered-keep_if p t ts h.1)
  | inr dropped ↦ rw dropped (IsOrdered-keep_if p lo ts (IsOrdered-weaken lo t ts h.0 h.1))
]

IsOrdered-append_left : (lo : Time) (xs ys : List Time) → IsOrdered lo (xs ++ ys) → IsOrdered lo xs
IsOrdered-append_left lo [] ys h = tt
IsOrdered-append_left lo (x ∷ xs) ys h = (h.0, IsOrdered-append_left x xs ys h.1)

keep_if-narrow :
    (window : ℕ) (last now : Time) (ts : List Time)
    → last ≤ now
    → keep_if (in_window window now) (keep_if (in_window window last) ts)
      ≡ keep_if (in_window window now) ts
keep_if-narrow window last now [] le = refl
keep_if-narrow window last now (t ∷ ts) le = elim (Bool-cases (in_window window last t)) [
  | inl kept ↦ ground (arith, kept, keep_if-narrow window last now ts le)
  | inr dropped ↦ ground (arith, dropped, keep_if-narrow window last now ts le)
]

keep_if-snoc_now :
    (window : ℕ) (now : Time) (ts : List Time)
    → keep_if (in_window window now) (ts ++ now ∷ [])
      ≡ keep_if (in_window window now) ts ++ now ∷ []
keep_if-snoc_now window now [] = ground arith
keep_if-snoc_now window now (t ∷ ts) = ground (arith, keep_if-snoc_now window now ts)

failures-fail_once :
    (policy : RateLimitPolicy) (last now : Time) (seen : List Time) (s : KeyState)
    → last ≤ now
    → IsOrdered 0 seen
    → s.failures ≡ keep_if (in_window policy.window_seconds last) seen
    → (fail_once policy now s).failures
      ≡ keep_if (in_window policy.window_seconds now) (seen ++ now ∷ [])
unfolding fail_once
failures-fail_once policy last now seen s le ordered held =
    ap (λ l. l ++ now ∷ [])
      (ap (trim policy.window_seconds now) held
        ∙ trim-eq-keep_if policy.window_seconds now 0
            (keep_if (in_window policy.window_seconds last) seen)
            (IsOrdered-keep_if (in_window policy.window_seconds last) 0 seen ordered)
        ∙ keep_if-narrow policy.window_seconds last now seen le)
    ∙ sym (keep_if-snoc_now policy.window_seconds now seen)

-- a run of failures on one key, and its last time
abbrev pub fail_all : RateLimitPolicy → List Time → KeyState → KeyState
fail_all policy [] s = s
fail_all policy (t ∷ ts) s = fail_all policy ts (fail_once policy t s)

abbrev pub last_of : Time → List Time → Time
last_of last [] = last
last_of last (t ∷ ts) = last_of t ts

fail_all-window :
    (policy : RateLimitPolicy) (last : Time) (rest seen : List Time) (s : KeyState)
    → IsOrdered last rest
    → IsOrdered 0 (seen ++ rest)
    → s.failures ≡ keep_if (in_window policy.window_seconds last) seen
    → (fail_all policy rest s).failures
      ≡ keep_if (in_window policy.window_seconds (last_of last rest)) (seen ++ rest)
fail_all-window policy last [] seen s later ordered held = rw append-nil held
fail_all-window policy last (t ∷ rest) seen s later ordered held =
    fail_all-window policy t rest (seen ++ t ∷ []) (fail_once policy t s) later.1
      (rw append_assoc ordered)
      (failures-fail_once policy last t seen s later.0
        (IsOrdered-append_left 0 seen (t ∷ rest) ordered) held)
    ∙ ap (keep_if (in_window policy.window_seconds (last_of t rest)))
        (append_assoc seen (t ∷ []) rest)

-- After any failures on a key, on a clock that does not run backwards, the deque holds exactly
-- those that lie in the window of the last one, in their order.
pub failures_exact :
    (policy : RateLimitPolicy) (ts : List Time)
    → IsOrdered 0 ts
    → (fail_all policy ts empty_state).failures
      ≡ keep_if (in_window policy.window_seconds (last_of 0 ts)) ts
failures_exact policy ts ordered = fail_all-window policy 0 ts [] empty_state ordered ordered refl
