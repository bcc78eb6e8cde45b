-- ===== src/Examples/Signing.antt =====
-- A token that is rotated twice, and a denylist that evicts.
use one_ai.Prelude.{ℕ, ◌≡◌, refl, String, none, some, List, [], ◌∷◌, arith}
use one_ai.Identity.Tokens.{RefreshToken, consume, get_by_hash, revoke_by_hash, is_expired}
use one_ai.Identity.Tokens.Rotation.{logout, issue, use_all, consumed_once}
use one_ai.Identity.Denylist.{is_revoked}
use one_ai.Identity.Denylist.Eviction.{
  Revocation, subject, org, revoke_all, hit_by_any, is_revoked_exact,
}

abbrev pub plain_hash : String → String
plain_hash raw = raw

abbrev pub token_of : String → RefreshToken
token_of raw = record {
  subject_id = 5;
  subject_type = "user";
  token_hash = raw;
  expires_at = 1000;
  revoked_at = none;
}

consumed_once_example :
    (consume plain_hash "t" "user" 120 (
      use_all plain_hash
        (issue (token_of "u") ∷ logout "u" 110 ∷ [])
        (consume plain_hash "t" "user" 100 (token_of "t" ∷ [])).1)).0
    ≡ none
unfolding consume get_by_hash revoke_by_hash is_expired
consumed_once_example =
    consumed_once plain_hash "t" "user" "user" 100 120 (token_of "t" ∷ []) (token_of "t")
      (issue (token_of "u") ∷ logout "u" 110 ∷ []) refl (refl, tt)

-- the second revocation evicts the first
abbrev revocations : List (Revocation × ℕ)
revocations = (subject 5, 2000) ∷ (subject 6, 100) ∷ (org 1, 90) ∷ []

is_revoked_exact_example :
    is_revoked (revoke_all 900 revocations) 5 (some 1) (some 1500)
    ≡ hit_by_any 5 (some 1) 1500 revocations
is_revoked_exact_example =
    is_revoked_exact 900 revocations 5 (some 1) 1500 2100
      ((omega arith, (omega arith, tt)), ((omega arith, tt), (tt, tt)))
      (omega arith, (omega arith, (omega arith, tt))) (omega arith)
