-- ===== src/Sync/Planner/Advance.antt =====
-- `highest_contiguous_uid`: the cursor never passes a UID that is not accounted for, and passes all
-- that it can.
use one_ai.Prelude.{
  ◌⊎◌, inl, refl, ℕ, max, ◌≤◌, ◌<◌, ◌≡◌, true, List, [], ◌∷◌, arith, contains, IsAscending,
  IsAscending-lt,
}
use one_ai.Sync.Planner.{advance_over, highest_contiguous_uid}

module _ (seen : List ℕ) (floor : ℕ) where
  advance_over-ge :
      (uids : List ℕ) (lo a : ℕ)
      → IsAscending lo uids
      → a ≤ max floor lo
      → a ≤ advance_over uids seen floor a
  unfolding advance_over
  advance_over-ge [] lo a h b = omega arith
  advance_over-ge (u ∷ uids) lo a h b =
      ground (arith, advance_over-ge uids u a h.1, advance_over-ge uids u u h.1)

  advance_over_sound :
      (uids : List ℕ) (lo a u : ℕ)
      → IsAscending lo uids
      → a ≤ max floor lo
      → contains u uids ≡ true
      → floor < u
      → u ≤ advance_over uids seen floor a
      → contains u seen ≡ true
  unfolding advance_over
  advance_over_sound [] lo a u h b m f r = cc
  advance_over_sound (x ∷ uids) lo a u h b m f r = ground (
    arith,
    IsAscending-lt x u uids h.1,
    advance_over_sound uids x a u h.1,
    advance_over_sound uids x x u h.1,
  )

  advance_over_complete :
      (uids : List ℕ) (lo a t : ℕ)
      → IsAscending lo uids
      → contains t uids ≡ true
      → floor < t
      → ((u : ℕ) → contains u uids ≡ true → floor < u → u ≤ t → contains u seen ≡ true)
      → t ≤ advance_over uids seen floor a
  unfolding advance_over
  advance_over_complete [] lo a t h m f all = cc
  advance_over_complete (x ∷ uids) lo a t h m f all = ground (
    arith,
    all x,
    IsAscending-lt x t uids h.1,
    advance_over-ge uids x x h.1,
    advance_over_complete uids x a t h.1,
    advance_over_complete uids x x t h.1,
  )

advance_over-mem :
    (uids seen : List ℕ) (floor a : ℕ)
    → (advance_over uids seen floor a ≡ a) ⊎ (contains (advance_over uids seen floor a) uids ≡ true)
unfolding advance_over
advance_over-mem [] seen floor a = inl refl
advance_over-mem (x ∷ uids) seen floor a =
    ground (arith, advance_over-mem uids seen floor a, advance_over-mem uids seen floor x)

-- The advance is the floor or one of the candidates.
pub highest_contiguous_uid-mem :
    (candidates accounted : List ℕ) (floor : ℕ)
    → (highest_contiguous_uid candidates accounted floor ≡ floor)
      ⊎ (contains (highest_contiguous_uid candidates accounted floor) candidates ≡ true)
unfolding highest_contiguous_uid
highest_contiguous_uid-mem candidates accounted floor =
    advance_over-mem candidates accounted floor floor

-- Over ascending candidates the advance never falls below the floor, every candidate between the
-- floor and the result is accounted for, and the result reaches every candidate up to which all
-- candidates above the floor are accounted for.
pub highest_contiguous_uid_exact :
    (candidates accounted : List ℕ) (floor lo : ℕ)
    → IsAscending lo candidates
    → (floor ≤ highest_contiguous_uid candidates accounted floor)
      × ((u : ℕ)
          → contains u candidates ≡ true
          → floor < u
          → u ≤ highest_contiguous_uid candidates accounted floor
          → contains u accounted ≡ true)
      × ((t : ℕ)
          → contains t candidates ≡ true
          → floor < t
          → ((u : ℕ)
              → contains u candidates ≡ true
              → floor < u
              → u ≤ t
              → contains u accounted ≡ true)
          → t ≤ highest_contiguous_uid candidates accounted floor)
unfolding highest_contiguous_uid
highest_contiguous_uid_exact candidates accounted floor lo h = (
  advance_over-ge accounted floor candidates lo floor h (omega arith),
  λ u. advance_over_sound accounted floor candidates lo floor u h (omega arith),
  λ t. advance_over_complete accounted floor candidates lo floor t h,
)
