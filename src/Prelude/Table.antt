-- ===== src/Prelude/Table.antt =====
-- SQL statements on one table, a list of rows: SELECT, UPDATE and DELETE with a WHERE clause. The
-- row count of an UPDATE is the number of rows that its clause selects.
use Prim.Native.Nat.{ℕ, ◌+◌, ◌≤◌}
use mathlib.Core.Path.{◌≡◌, refl, subst}
use mathlib.Core.Logic.{inl, inr}
use mathlib.Core.Bool.{Bool, true, false}
use mathlib.Core.Option
use mathlib.Core.Option.{Option, none, some}
use mathlib.Core.List.{List, [], ◌∷◌, ◌++◌}
use native.Mathlib.Omega.{arith}
use one_ai.Prelude.Tests.{if◌then◌else◌, Bool-cases}
use one_ai.Prelude.Lists.{All}

module _ {ℓ} {A : Type ℓ} where
  -- `scalar_one_or_none` of a SELECT: the row, if one matches (the clause names a unique key)
  abbrev pub find_where : (A → Bool) → List A → Option A
  find_where p [] = none
  find_where p (x ∷ xs) = let rest = find_where p xs in if p x then some x else rest

  abbrev pub update_where : (A → Bool) → (A → A) → List A → List A
  update_where p f [] = []
  update_where p f (x ∷ xs) = (if p x then f x else x) ∷ update_where p f xs

  abbrev pub count_where : (A → Bool) → List A → ℕ
  count_where p [] = 0
  count_where p (x ∷ xs) = (if p x then 1 else 0) + count_where p xs

  abbrev pub delete_where : (A → Bool) → List A → List A
  delete_where p [] = []
  delete_where p (x ∷ xs) = let rest = delete_where p xs in if p x then rest else x ∷ rest

  -- An UPDATE that selects no row changes nothing.
  pub update_where_none :
      (p : A → Bool) (f : A → A) (xs : List A) → count_where p xs ≡ 0 → update_where p f xs ≡ xs
  update_where_none p f [] h = refl
  update_where_none p f (x ∷ xs) h = ground (arith, update_where_none p f xs)

  pub find_where_sound :
      (p : A → Bool) (xs : List A) {a : A} → find_where p xs ≡ some a → p a ≡ true
  find_where_sound p [] h = ground arith
  find_where_sound p (x ∷ xs) {a} h = ground (arith, find_where_sound p xs {a = a})

  -- A row property survives an UPDATE that keeps it in the rows that it selects.
  pub All-update_where {κ} :
      (P : A → Type κ) (p : A → Bool) (f : A → A) (xs : List A)
      → ((a : A) → p a ≡ true → P a → P (f a))
      → All P xs
      → All P (update_where p f xs)
  All-update_where P p f [] keep h = tt
  All-update_where P p f (x ∷ xs) keep h = (pick (p x) refl, All-update_where P p f xs keep h.1)
    where
      pick : (b : Bool) → p x ≡ b → P (if b then f x else x)
      pick true e = keep x e h.0
      pick false e = h.0

  pub All-find_where {κ} :
      (P : A → Type κ) (p : A → Bool) (xs : List A) {a : A}
      → All P xs
      → find_where p xs ≡ some a
      → P a
  All-find_where P p [] h e = absurd (ground arith)
  All-find_where P p (x ∷ xs) {a} h e = elim (Bool-cases (p x)) [
    | inl found ↦
        let here : some x ≡ some a = rw found at e in let same : x ≡ a = cc in subst P same h.0
    | inr later ↦ All-find_where P p xs h.1 (rw later at e)
  ]

  -- A SELECT after an UPDATE that keeps the selected key: the row as it is, or as updated.
  pub find_where-update_where :
      (q p : A → Bool) (f : A → A) (xs : List A)
      → ((a : A) → q (f a) ≡ q a)
      → find_where q (update_where p f xs)
        ≡ Option.map (λ a. if p a then f a else a) (find_where q xs)
  find_where-update_where q p f [] same = refl
  find_where-update_where q p f (x ∷ xs) same =
      ground (arith, same x, find_where-update_where q p f xs same)

  pub count_where_le :
      (q p : A → Bool) (xs : List A)
      → ((a : A) → p a ≡ true → q a ≡ true)
      → count_where p xs ≤ count_where q xs
  count_where_le q p [] sub = omega arith
  count_where_le q p (x ∷ xs) sub = ground (arith, sub x, count_where_le q p xs sub)

  -- On a unique key the row count is decided by the one row that has it.
  pub count_where_keyed :
      (q p : A → Bool) (xs : List A)
      → ((a : A) → p a ≡ true → q a ≡ true)
      → count_where q xs ≤ 1
      → count_where p xs ≡ elim (find_where q xs) [ none ↦ 0 | some a ↦ if p a then 1 else 0 ]
  count_where_keyed q p [] sub one = refl
  count_where_keyed q p (x ∷ xs) sub one =
      ground (arith, sub x, count_where_le q p xs sub, count_where_keyed q p xs sub)

  -- Where the update took the one row that has the key, it took every row that has it.
  pub count_where-All :
      (q p : A → Bool) (xs : List A)
      → ((a : A) → p a ≡ true → q a ≡ true)
      → count_where q xs ≤ 1
      → count_where p xs ≡ 1
      → All (λ a. q a ≡ true → p a ≡ true) xs
  count_where-All q p [] sub one hit = tt
  count_where-All q p (x ∷ xs) sub one hit = elim (Bool-cases (p x)) [
    | inl taken ↦ (λ _. taken, All-none xs (ground (arith, sub x taken, taken)))
    | inr left ↦ (
      λ key. ground (arith, left, key, count_where_le q p xs sub),
      count_where-All q p xs sub (ground arith) (ground (arith, left)),
    )
  ]
    where
      All-none : (ys : List A) → count_where q ys ≡ 0 → All (λ a. q a ≡ true → p a ≡ true) ys
      All-none [] none_left = tt
      All-none (y ∷ ys) none_left = (λ key. ground arith, All-none ys (ground arith))

  pub find_where-snoc :
      (q : A → Bool) (xs : List A) (y : A)
      → find_where q (xs ++ y ∷ [])
        ≡ elim (find_where q xs) [ none ↦ if q y then some y else none | some a ↦ some a ]
  find_where-snoc q [] y = refl
  find_where-snoc q (x ∷ xs) y = ground (arith, find_where-snoc q xs y)

  pub find_where-none : (q : A → Bool) (xs : List A) → count_where q xs ≡ 0 → find_where q xs ≡ none
  find_where-none q [] h = refl
  find_where-none q (x ∷ xs) h = ground (arith, find_where-none q xs)

  -- An UPDATE of other rows does not change what a SELECT finds.
  pub find_where-update_where_ne :
      (q p : A → Bool) (f : A → A) (xs : List A)
      → ((a : A) → p a ≡ true → (q a ≡ false) × (q (f a) ≡ false))
      → find_where q (update_where p f xs) ≡ find_where q xs
  find_where-update_where_ne q p f [] apart = refl
  find_where-update_where_ne q p f (x ∷ xs) apart =
      ground (arith, apart x, find_where-update_where_ne q p f xs apart)
