-- ===== src/Identity/Console/Domains.antt =====
-- The tokens of the companies and of the platform do not open each other's sessions.
use one_ai.Prelude.{
  Time, String, ◌≡◌, refl, sym, ◌⊎◌, subst, inl, inr, Bool, false, ◌&&◌, Option, none, some, List,
  arith, str_eq, str_eq_iff, Bool-cases, Option-cases,
}
use one_ai.Result.{is_ok}
use one_ai.Identity.Console.{rotated_admin, refresh_admin}
use one_ai.Identity.Login.{Crypto, Call}
use one_ai.Identity.Realm.{Realm}
use one_ai.Identity.Session.{rotated, refresh}
use one_ai.Identity.Tokens.{RefreshToken, get_by_hash, consume}

-- the type of the stored token, whatever else is wrong with it
abbrev has_type : String → Option RefreshToken → Bool
has_type expected none = false
has_type expected (some t) = str_eq t.subject_type expected

consume_other :
    (sha256_hex : String → String) (raw expected : String) (now : Time) (table : List RefreshToken)
    → has_type expected (get_by_hash (sha256_hex raw) table) ≡ false
    → (consume sha256_hex raw expected now table).0 ≡ none
unfolding consume
consume_other sha256_hex raw expected now table other =
    elim (Option-cases (get_by_hash (sha256_hex raw) table)) [
      | inl absent ↦ ground (arith, absent)
      | inr (t, found) ↦ ground (arith, found, other)
    ]

one_type :
    (o : Option RefreshToken) → (has_type "user" o ≡ false) ⊎ (has_type "platform_admin" o ≡ false)
one_type none = inl refl
one_type (some t) = elim (Bool-cases (str_eq t.subject_type "user")) [
  | inr other ↦ inl other
  | inl same ↦ inr (
      subst (λ x. str_eq x "platform_admin" ≡ false)
        (sym ((str_eq_iff t.subject_type "user").0 same)) refl)
]

module _ (k : Crypto) (c : Call) (s : Realm) where
  rotated_off :
      (r : Option RefreshToken × List RefreshToken) → r.0 ≡ none → is_ok (rotated k r c s).0 ≡ false
  rotated_off (none, table) h = refl
  rotated_off (some t, table) h = absurd (ground (arith, h))

  rotated_admin_off :
      (r : Option RefreshToken × List RefreshToken)
      → r.0 ≡ none
      → is_ok (rotated_admin k r c s).0 ≡ false
  rotated_admin_off (none, table) h = refl
  rotated_admin_off (some t, table) h = absurd (ground (arith, h))

  -- No refresh token is rotated by both planes: on the same tables, of the rotation for a company
  -- and the rotation for the platform at most one succeeds with it.
  pub domains_apart :
      (raw : String) → (is_ok (refresh k raw c s).0 && is_ok (refresh_admin k raw c s).0) ≡ false
  unfolding refresh refresh_admin
  domains_apart raw = elim (one_type (get_by_hash (k.sha256_hex raw) s.refresh_tokens)) [
    | inl not_user ↦
        and_left _
          (rotated_off _ (consume_other k.sha256_hex raw "user" c.now s.refresh_tokens not_user))
    | inr not_admin ↦ and_right _ (
        rotated_admin_off _
          (consume_other k.sha256_hex raw "platform_admin" c.now s.refresh_tokens not_admin))
  ]
    where
      and_left : {a : Bool} (b : Bool) → a ≡ false → (a && b) ≡ false
      and_left b h = ground (arith, h)

      and_right : {b : Bool} (a : Bool) → b ≡ false → (a && b) ≡ false
      and_right a h = ground (arith, h)
