-- ===== src/Examples/Requesting.antt =====
-- UIDs out of order and twice, in chunks of a few characters.
use one_ai.Prelude.{ℕ, List, [], ◌∷◌, ◌≡◌, All, contains}
use one_ai.Sync.UidSet.{chunk_uid_set}
use one_ai.Sync.UidSet.Exact.{asked, IsStrict, chunk_uid_set_exact}
use one_ai.Sync.UidSet.Length.{IsShort, chunk_uid_set-IsShort}

abbrev uids : List ℕ
uids = 7 ∷ 1 ∷ 2 ∷ 12 ∷ 3 ∷ 7 ∷ []

chunk_uid_set_exact_example :
    (contains 12 (asked (chunk_uid_set uids 6)) ≡ contains 12 uids)
    × IsStrict (asked (chunk_uid_set uids 6))
chunk_uid_set_exact_example = chunk_uid_set_exact uids 6 12

chunk_uid_set-IsShort_example : All (IsShort 6) (chunk_uid_set uids 6)
chunk_uid_set-IsShort_example = chunk_uid_set-IsShort uids 6
