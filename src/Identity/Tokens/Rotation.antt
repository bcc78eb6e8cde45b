-- ===== src/Identity/Tokens/Rotation.antt =====
-- A refresh token is consumed once, whatever happens in between.
use one_ai.Prelude.{
  Time, String, ◌≡◌, refl, ◌⊎◌, false, none, some, List, [], ◌∷◌, str_eq, count_where, arith, inl,
  inr,
}
use one_ai.Identity.Tokens.{RefreshToken, consume, revoke, revoke_by_hash, is_live, add}

-- no row of this hash is live
abbrev pub IsSpent : String → List RefreshToken → Type 0
IsSpent token_hash table = count_where (is_live token_hash) table ≡ 0

-- What is live after an UPDATE that revokes some rows was live before.
revoke-keeps :
    (h g : String) (now : Time) (table : List RefreshToken)
    → IsSpent h table
    → IsSpent h (revoke_by_hash g now table).1
unfolding revoke_by_hash
revoke-keeps h g now [] spent = refl
revoke-keeps h g now (row ∷ table) spent = ground (arith, revoke-keeps h g now table)

pub revoke-spends :
    (h : String) (now : Time) (table : List RefreshToken) → IsSpent h (revoke_by_hash h now table).1
unfolding revoke_by_hash
revoke-spends h now [] = refl
revoke-spends h now (row ∷ table) = ground (arith, revoke-spends h now table)

module _ (sha256_hex : String → String) where
  -- Whatever a process does with the tokens between two rotations.
  pub data Use : Type 0 where
    rotate : String → String → Time → Use
    logout : String → Time → Use
    issue : RefreshToken → Use

  abbrev pub use_once : Use → List RefreshToken → List RefreshToken
  use_once (rotate raw kind now) table = (consume sha256_hex raw kind now table).1
  use_once (logout raw now) table = (revoke sha256_hex raw now table).1
  use_once (issue row) table = add row table

  abbrev pub use_all : List Use → List RefreshToken → List RefreshToken
  use_all [] table = table
  use_all (u ∷ us) table = use_all us (use_once u table)

  -- The uses issue no second token with this hash (the raw tokens are random).
  abbrev pub IsFresh : String → List Use → Type 0
  IsFresh h [] = Unit
  IsFresh h (issue row ∷ us) = (str_eq row.token_hash h ≡ false) × IsFresh h us
  IsFresh h (_ ∷ us) = IsFresh h us

  add-keeps :
      (h : String) (row : RefreshToken) (table : List RefreshToken)
      → str_eq row.token_hash h ≡ false
      → IsSpent h table
      → IsSpent h (add row table)
  unfolding add
  add-keeps h row [] apart spent = ground (arith, apart)
  add-keeps h row (x ∷ table) apart spent = ground (arith, add-keeps h row table apart)

  consume_table :
      (raw kind : String) (now : Time) (table : List RefreshToken)
      → ((consume sha256_hex raw kind now table).1 ≡ table)
        ⊎ ((consume sha256_hex raw kind now table).1
            ≡ (revoke_by_hash (sha256_hex raw) now table).1)
  unfolding consume revoke_by_hash
  consume_table raw kind now table = ground arith

  use_once-keeps :
      (h : String) (u : Use) (table : List RefreshToken)
      → IsFresh h (u ∷ [])
      → IsSpent h table
      → IsSpent h (use_once u table)
  unfolding revoke
  use_once-keeps h (rotate raw kind now) table fresh spent =
      elim (consume_table raw kind now table) [
        | inl e ↦ rw e spent
        | inr e ↦ rw e (revoke-keeps h (sha256_hex raw) now table spent)
      ]
  use_once-keeps h (logout raw now) table fresh spent =
      revoke-keeps h (sha256_hex raw) now table spent
  use_once-keeps h (issue row) table fresh spent = add-keeps h row table fresh.0 spent

  use_all-keeps :
      (h : String) (us : List Use) (table : List RefreshToken)
      → IsFresh h us
      → IsSpent h table
      → IsSpent h (use_all us table)
  use_all-keeps h [] table fresh spent = spent
  use_all-keeps h (rotate raw kind now ∷ us) table fresh spent =
      use_all-keeps h us _ fresh (use_once-keeps h (rotate raw kind now) table tt spent)
  use_all-keeps h (logout raw now ∷ us) table fresh spent =
      use_all-keeps h us _ fresh (use_once-keeps h (logout raw now) table tt spent)
  use_all-keeps h (issue row ∷ us) table fresh spent =
      use_all-keeps h us _ fresh.1 (use_once-keeps h (issue row) table (fresh.0, tt) spent)

  consume-spends :
      (raw kind : String) (now : Time) (table : List RefreshToken) {row : RefreshToken}
      → (consume sha256_hex raw kind now table).0 ≡ some row
      → IsSpent (sha256_hex raw) (consume sha256_hex raw kind now table).1
  unfolding consume
  consume-spends raw kind now table {row} won =
      ground (arith, revoke-spends (sha256_hex raw) now table)

  pub spent-consume :
      (raw kind : String) (now : Time) (table : List RefreshToken)
      → IsSpent (sha256_hex raw) table
      → (consume sha256_hex raw kind now table).0 ≡ none
  unfolding consume revoke_by_hash
  spent-consume raw kind now table spent = ground (arith, spent)

  -- A refresh token that a rotation returned is never returned again: every later rotation of it
  -- is refused, in either domain, whatever rotations, logouts and issues of other tokens lie
  -- between.
  pub consumed_once :
      (raw kind kind' : String) (now later : Time) (table : List RefreshToken) (row : RefreshToken)
      (us : List Use)
      → (consume sha256_hex raw kind now table).0 ≡ some row
      → IsFresh (sha256_hex raw) us
      → (consume sha256_hex raw kind' later
          (use_all us (consume sha256_hex raw kind now table).1)).0
        ≡ none
  consumed_once raw kind kind' now later table row us won fresh = spent-consume raw kind' later _ (
      use_all-keeps (sha256_hex raw) us _ fresh (consume-spends raw kind now table {row = row} won))
