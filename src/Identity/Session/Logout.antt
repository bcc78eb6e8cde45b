-- ===== src/Identity/Session/Logout.antt =====
-- A logout ends the session: its refresh token and the access tokens of its user.
use one_ai.Prelude.{◌≤◌, Uuid, Time, String, ◌≡◌, ap, ◌∙◌, true, Option, none, some, List, arith}
use one_ai.Result.{Result, err}
use one_ai.Identity.Denylist.{is_revoked, revoke_subject}
use one_ai.Identity.Login.{Crypto, Call, AuthError, refresh_token_invalid, TokenPairResponse}
use one_ai.Identity.Realm.{Realm}
use one_ai.Identity.Session.{rotated, refresh, logout}
use one_ai.Identity.Tokens.{RefreshToken, get_by_hash, revoke}
use one_ai.Identity.Tokens.Rotation.{revoke-spends, spent-consume}
use one_ai.Identity.Users.Sessions.{revoke_subject_lem}

rotated-none :
    (k : Crypto) (r : Option RefreshToken × List RefreshToken) (c : Call) (s : Realm)
    → r.0 ≡ none
    → (rotated k r c s).0 ≡ err refresh_token_invalid
rotated-none k r c s h = ap (λ o. Result_of (rotated k (o, r.1) c s)) h
  where
    Result_of : Result AuthError TokenPairResponse × Realm → Result AuthError TokenPairResponse
    Result_of p = p.0

revoked_holder :
    (k : Crypto) (raw : String) (c : Call) (s : Realm) (t : RefreshToken)
    → get_by_hash (k.sha256_hex raw) s.refresh_tokens ≡ some t
    → Realm.denylist (logout k raw c s) ≡ revoke_subject t.subject_id c.now s.denylist
unfolding logout revoke
revoked_holder k raw c s t found = ground (arith, found)

-- After a logout with a stored refresh token, a rotation of that token is refused as invalid, and
-- every access token of its subject that was issued by then counts as revoked.
pub logout_ends_session :
    (k : Crypto) (raw : String) (c c' : Call) (s : Realm) (t : RefreshToken) (iat : Time)
    (org_id : Option Uuid)
    → get_by_hash (k.sha256_hex raw) s.refresh_tokens ≡ some t
    → iat ≤ c.now
    → ((refresh k raw c' (logout k raw c s)).0 ≡ err refresh_token_invalid)
      × (is_revoked (logout k raw c s).denylist t.subject_id org_id (some iat) ≡ true)
unfolding refresh logout revoke
logout_ends_session k raw c c' s t iat org_id found le = (
  rotated-none k _ c' _ (
      spent-consume k.sha256_hex raw "user" c'.now _
        (revoke-spends (k.sha256_hex raw) c.now s.refresh_tokens)),
  ap (λ d. is_revoked d t.subject_id org_id (some iat)) (revoked_holder k raw c s t found)
      ∙ revoke_subject_lem t.subject_id org_id iat c.now s.denylist le,
)
