-- ===== src/Identity/Login/Lockout.antt =====
-- Guessing one account's password ends in its lockout.
use Prim.Native.Char.{Char, code}
use Prim.Native.String.{[] as text_nil, ◌∷◌ as text_cons, ◌++◌ as concat}
use Prim.Native.String.append.{cons}
use text.Mathlib.TextPositions.{starts_with-append}
use one_ai.Prelude.{
  ℕ, ◌+◌, ◌-◌, ◌≤◌, ◌<◌, Time, String, ◌≡◌, ◌≢◌, refl, sym, ap, ◌∙◌, inl, inr, Option, none, some,
  arith, ltb, str_eq, Bool-cases, Option-cases, if◌then◌else◌,
}
use one_ai.Result.{err}
use one_ai.Identity.RateLimit.{
  RateLimiter, ip_key, account_key, policy_for, check, register_failure, lockout_of,
}
use one_ai.Identity.RateLimit.Lockout.{
  counted, check-register_failure_locked, check-register_failure_other,
}
use one_ai.Identity.Realm.{Realm, Organization, is_suspended, get_by_id}
use one_ai.Identity.Users.{User, get_by_email}
use one_ai.Identity.Login.{
  Crypto, Call, rate_limited, invalid_credentials, throttled, register_both, load_loginable_org,
  loginable, principal_for, build_user_view, admitted, authenticated, login_unless, login,
}

abbrev first_code : String → ℕ
first_code text_nil = 0
first_code (text_cons c s) = code c

first_code-append : (c : Char) (s t : String) → first_code (concat (text_cons c s) t) ≡ code c
first_code-append c s t = ap first_code (cons c s t)

account_apart : (email : String) (ip : Option String) → account_key email ≢ ip_key ip
unfolding account_key ip_key
account_apart email ip h =
    let a : first_code (account_key email) ≡ 97 = first_code-append "a" "ccount:" email in
    let i : first_code (ip_key ip) ≡ 105 = starts_i ip in
    absurd (omega (arith, sym a ∙ ap first_code h ∙ i))
  where
    starts_i : (ip : Option String) → first_code (ip_key ip) ≡ 105
    starts_i none = first_code-append "i" "p:" "unknown"
    starts_i (some a) = elim (Bool-cases (str_eq a "")) [
      | inl e ↦ rw e (first_code-append "i" "p:" "unknown")
      | inr e ↦ rw e (first_code-append "i" "p:" a)
    ]

policy_for-account_key :
    (l : RateLimiter) (email : String) → policy_for l (account_key email) ≡ l.account_policy
unfolding policy_for account_key
policy_for-account_key l email = rw (starts_with-append "account:" email) refl

account_policy-register_failure :
    (key : String) (now : Time) (l : RateLimiter)
    → RateLimiter.account_policy (register_failure key now l) ≡ l.account_policy
unfolding register_failure
account_policy-register_failure key now l = refl

-- What `login` refuses for the account it refuses whatever the address.
throttled_account :
    (l : RateLimiter) (email : String) (c : Call) (w : ℕ)
    → check l (account_key email) c.tick ≡ some w
    → (v : ℕ) × (throttled l email c ≡ some v)
unfolding throttled
throttled_account l email c w h = elim (Option-cases (check l (ip_key c.client_ip) c.tick)) [
  | inl open_ip ↦ (w, rw (open_ip, h) refl)
  | inr (v, over) ↦ (v, rw over refl)
]

module _ (k : Crypto) (email : String) where
  admitted-ne-rejected :
      (u : User) (c : Call) (o : Option Organization) (s : Realm)
      → (admitted k u c (loginable o) s).0 ≢ err invalid_credentials
  admitted-ne-rejected u c none s h = absurd (ground (arith, h))
  admitted-ne-rejected u c (some o) s h = elim (Bool-cases (is_suspended o.status)) [
    | inl closed ↦ absurd (ground (arith, closed, h))
    | inr open_org ↦ absurd (ground (arith, open_org, h))
  ]

  rejected_by_user :
      (password : String) (c : Call) (o : Option User) (s : Realm)
      → (authenticated k email password c o s).0 ≡ err invalid_credentials
      → Realm.rate_limiter (authenticated k email password c o s).1
        ≡ register_both email c s.rate_limiter
  unfolding load_loginable_org principal_for build_user_view
  rejected_by_user password c none s h = refl
  rejected_by_user password c (some u) s h = elim (Bool-cases u.is_active) [
    | inr inactive ↦ rw inactive refl
    | inl is_active ↦ elim (Bool-cases (k.verify_password password u.password_hash)) [
      | inr wrong ↦ rw (is_active, wrong) refl
      | inl right ↦ absurd (
          admitted-ne-rejected u c (get_by_id u.org_id s.organizations) s
            (rw (is_active, right) at h))
    ]
  ]

  rejected_by_throttle :
      (password : String) (c : Call) (w : Option ℕ) (s : Realm)
      → (login_unless k w email password c s).0 ≡ err invalid_credentials
      → Realm.rate_limiter (login_unless k w email password c s).1
        ≡ register_both email c s.rate_limiter
  rejected_by_throttle password c (some w) s h = absurd (ground (arith, h))
  rejected_by_throttle password c none s h =
      rejected_by_user password c (get_by_email email s.users) s h

  -- Where a login is rejected for its credentials and the failures of its account in the window
  -- had reached one below the limit or more, every login for that address of mail, from any client
  -- and with any password, is refused as long as the lockout of that account lasts, and leaves the
  -- state as it is, provided nothing has changed the throttle since.
  pub login_locked_out :
      (password password' : String) (c c' : Call) (s later : Realm)
      → (login k email password c s).0 ≡ err invalid_credentials
      → s.rate_limiter.account_policy.max_attempts
        ≤ counted s.rate_limiter (account_key email) c.tick
      → later.rate_limiter ≡ (login k email password c s).1.rate_limiter
      → c'.tick
        < c.tick
          + lockout_of s.rate_limiter.account_policy
              (counted s.rate_limiter (account_key email) c.tick)
      → (w : ℕ) × (login k email password' c' later ≡ (err (rate_limited w), later))
  unfolding login register_both
  login_locked_out password password' c c' s later rejected full same soon =
      let l = s.rate_limiter in
      let key = account_key email in
      let l_ip : RateLimiter = register_failure (ip_key c.client_ip) c.tick l in
      let policy : policy_for l_ip key ≡ l.account_policy =
        policy_for-account_key l_ip email
        ∙ account_policy-register_failure (ip_key c.client_ip) c.tick l in
      let count : counted l_ip key c.tick ≡ counted l key c.tick =
        (check-register_failure_other l (ip_key c.client_ip) key c.tick c.tick
          (account_apart email c.client_ip)).1 in
      let limiter : later.rate_limiter ≡ register_failure key c.tick l_ip =
        same ∙ rejected_by_throttle password c (throttled l email c) s rejected in
      let locked =
        check-register_failure_locked l_ip key c.tick c'.tick (rw count (rw policy full)) in
      let until = c.tick + lockout_of l.account_policy (counted l key c.tick) in
      let (w, refused) = throttled_account later.rate_limiter email c' (until - c'.tick + 1) (
        ap (λ m. check m key c'.tick) limiter
        ∙ locked
        ∙ rw count (rw policy (in_lockout c'.tick until soon))) in
      (w, rw refused refl)
    where
      in_lockout :
          (t until : ℕ)
          → t < until
          → (if ltb t until then some (until - t + 1) else none) ≡ some (until - t + 1)
      in_lockout t until h = ground (arith, h)
