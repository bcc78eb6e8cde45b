-- ===== src/Prelude/Lists.antt =====
-- Lists over the native numbers: membership as a test, order, and the loops' lemmas.
use Prim.Native.Nat.{ℕ, zero, suc, ◌<◌, ◌≤◌}
use mathlib.Core.Path.{◌≡◌, refl, ap}
use mathlib.Core.Logic.{inl, inr}
use mathlib.Core.Bool.{Bool, true, false, ◌&&◌, ◌||◌}
use mathlib.Core.List.{List, [], ◌∷◌, ◌++◌}
use native.Mathlib.Omega.{arith}
use one_ai.Prelude.Tests.{◌==◌, ltb, if◌then◌else◌, Bool-cases}

module _ {ℓ} {A : Type ℓ} where
  abbrev pub length : List A → ℕ
  length [] = 0
  length (x ∷ xs) = suc (length xs)

  abbrev pub is_empty : List A → Bool
  is_empty [] = true
  is_empty (x ∷ xs) = false

  abbrev pub take : ℕ → List A → List A
  take zero xs = []
  take (suc n) [] = []
  take (suc n) (x ∷ xs) = x ∷ take n xs

  -- A predicate of every element computes to a tuple.
  abbrev pub All {κ} : (A → Type κ) → List A → Type κ
  All P [] = Unit
  All P (x ∷ xs) = P x × All P xs

  abbrev pub any : (A → Bool) → List A → Bool
  any p [] = false
  any p (x ∷ xs) = p x || any p xs

  -- `[x for x in xs if p(x)]`
  abbrev pub keep_if : (A → Bool) → List A → List A
  keep_if p [] = []
  keep_if p (x ∷ xs) = let rest = keep_if p xs in if p x then x ∷ rest else rest

  pub All-append {κ} : (P : A → Type κ) (xs ys : List A) → All P xs → All P ys → All P (xs ++ ys)
  All-append P [] ys hx hy = hy
  All-append P (x ∷ xs) ys hx hy = (hx.0, All-append P xs ys hx.1 hy)

-- `uid in uids`
abbrev pub contains : ℕ → List ℕ → Bool
contains u [] = false
contains u (x ∷ xs) = u == x || contains u xs

-- Strictly ascending, all above `lo`.
abbrev pub IsAscending : ℕ → List ℕ → Type 0
IsAscending lo [] = Unit
IsAscending lo (x ∷ xs) = (lo < x) × IsAscending x xs

pub contains-append :
    (u : ℕ) (xs ys : List ℕ) → contains u (xs ++ ys) ≡ contains u xs || contains u ys
contains-append u [] ys = refl
contains-append u (x ∷ xs) ys = ground (arith, contains-append u xs ys)

pub contains-keep_if :
    (u : ℕ) (p : ℕ → Bool) (xs : List ℕ) → contains u (keep_if p xs) ≡ p u && contains u xs
contains-keep_if u p [] = ground arith
contains-keep_if u p (x ∷ xs) =
    let ih : contains u (keep_if p xs) ≡ p u && contains u xs = contains-keep_if u p xs in
    elim (Bool-cases (u == x)) [
      | inl same ↦ let e : u ≡ x = ground arith in ground (arith, ih, ap p e)
      | inr apart ↦ ground (arith, ih)
    ]

pub IsAscending-lt : (lo u : ℕ) (xs : List ℕ) → IsAscending lo xs → contains u xs ≡ true → lo < u
IsAscending-lt lo u [] h m = ground arith
IsAscending-lt lo u (x ∷ xs) h m = ground (arith, IsAscending-lt x u xs h.1)

pub IsAscending-weaken : (lo hi : ℕ) (xs : List ℕ) → lo ≤ hi → IsAscending hi xs → IsAscending lo xs
IsAscending-weaken lo hi [] h a = tt
IsAscending-weaken lo hi (x ∷ xs) h a = (omega arith, a.1)

-- Dropping what is at most `cut` keeps the order, and all that is left lies above `cut`.
pub IsAscending-drop_le :
    (lo cut : ℕ) (xs ys : List ℕ)
    → IsAscending lo (xs ++ ys)
    → IsAscending lo (keep_if (λ u. ltb cut u) xs ++ ys)
IsAscending-drop_le lo cut [] ys h = h
IsAscending-drop_le lo cut (x ∷ xs) ys h = elim (Bool-cases (ltb cut x)) [
  | inl above ↦ ground (arith, IsAscending-drop_le x cut xs ys h.1)
  | inr below ↦ ground (
    arith,
    IsAscending-drop_le x cut xs ys h.1,
    IsAscending-weaken lo x (keep_if (λ u. ltb cut u) xs ++ ys),
  )
]

pub IsAscending-append_lt :
    (lo x y : ℕ) (xs ys : List ℕ)
    → IsAscending lo (xs ++ ys)
    → contains x xs ≡ true
    → contains y ys ≡ true
    → x < y
IsAscending-append_lt lo x y [] ys h mx my = cc
IsAscending-append_lt lo x y (z ∷ xs) ys h mx my = ground (
  arith,
  contains-append y xs ys,
  IsAscending-lt z y (xs ++ ys) h.1,
  IsAscending-append_lt z x y xs ys h.1,
)

pub IsAscending-append_left :
    (lo : ℕ) (xs ys : List ℕ) → IsAscending lo (xs ++ ys) → IsAscending lo xs
IsAscending-append_left lo [] ys h = tt
IsAscending-append_left lo (x ∷ xs) ys h = (h.0, IsAscending-append_left x xs ys h.1)
