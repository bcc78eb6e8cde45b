-- ===== src/Identity/Tokens.antt =====
-- backend/app/identity/services/token_rotator.py and repositories/refresh_token_repository.py:
-- refresh tokens are stored by their SHA-256 hash and used once. The hash function is a parameter.
pub mod Rotation
use one_ai.Prelude.{
  ℕ, Uuid, Time, String, ◌≡◌, Bool, true, false, not, ◌&&◌, ◌||◌, Option, none, some, List, [], ◌∷◌,
  ◌++◌, ltb, leb, ◌==◌, is_some, is_none, str_eq, find_where, update_where, count_where,
  delete_where, contains, if◌then◌else◌,
}

-- models/refresh_token.py
pub record RefreshToken : Type 0 where
  pub subject_id : Uuid
  pub subject_type : String
  pub token_hash : String
  pub expires_at : Time
  pub revoked_at : Option Time

-- repositories/refresh_token_repository.py
unfoldable pub get_by_hash : String → List RefreshToken → Option RefreshToken
get_by_hash token_hash = find_where λ row. str_eq row.token_hash token_hash

unfoldable pub add : RefreshToken → List RefreshToken → List RefreshToken
add row table = table ++ row ∷ []

abbrev pub is_live : String → RefreshToken → Bool
is_live token_hash row = str_eq row.token_hash token_hash && is_none row.revoked_at

-- the rows affected, and the table
unfoldable pub revoke_by_hash : String → Time → List RefreshToken → ℕ × List RefreshToken
revoke_by_hash token_hash now table = (
  count_where (is_live token_hash) table,
  update_where (is_live token_hash) (λ row. record row { revoked_at = some now }) table,
)

abbrev is_owned : List Uuid → RefreshToken → Bool
is_owned user_ids row = str_eq row.subject_type "user" && contains row.subject_id user_ids

-- erasure: `user_ids` are the users of the organization
unfoldable pub delete_for_org_users : List Uuid → List RefreshToken → ℕ × List RefreshToken
delete_for_org_users user_ids table =
    (count_where (is_owned user_ids) table, delete_where (is_owned user_ids) table)

-- services/token_rotator.py
unfoldable pub is_expired : Time → RefreshToken → Bool
is_expired now token = leb token.expires_at now

module _ (sha256_hex : String → String) where
  -- the SELECT and the UPDATE of one call; `none` is RefreshTokenInvalidError
  unfoldable pub consume :
      String → String → Time → List RefreshToken → Option RefreshToken × List RefreshToken
  unfolding get_by_hash revoke_by_hash is_expired
  consume raw expected_subject_type now table = elim (get_by_hash (sha256_hex raw) table) [
    | none ↦ (none, table)
    | some stored ↦
        if not (str_eq stored.subject_type expected_subject_type) || is_expired now stored
        then (none, table)
        else (let (touched, table') = revoke_by_hash (sha256_hex raw) now table in
            if touched == 0 then (none, table') else (some stored, table'))
  ]

  unfoldable pub revoke : String → Time → List RefreshToken → Option Uuid × List RefreshToken
  unfolding get_by_hash revoke_by_hash
  revoke raw now table = (
    elim (get_by_hash (sha256_hex raw) table) [
      | none ↦ none
      | some stored ↦ some stored.subject_id
    ],
    (revoke_by_hash (sha256_hex raw) now table).1,
  )
