-- ===== src/Sync/UidSet/Decimal.antt =====
-- The digits of a number, whose fuel is enough.
use one_ai.Prelude.{
  ℕ, zero, suc, ◌+◌, ◌*◌, ◌-◌, ◌/◌, ◌%◌, ◌<◌, ◌≡◌, refl, ◌∙◌, inl, inr, List, [], ◌∷◌, ◌++◌, arith,
  ltb, Bool-cases,
}
use one_ai.Sync.UidSet.{digits, str}

-- the number that a text of digits names, after the digits already read
abbrev pub read : ℕ → List ℕ → ℕ
read n [] = n
read n (d ∷ ds) = read (n * 10 + (d - b'0')) ds

read-append : (n d : ℕ) (ds : List ℕ) → read n (ds ++ d ∷ []) ≡ read n ds * 10 + (d - b'0')
read-append n d [] = refl
read-append n d (x ∷ ds) = read-append (n * 10 + (x - b'0')) d ds

read-digits : (fuel n : ℕ) → n < fuel → read 0 (digits fuel n) ≡ n
unfolding digits
read-digits zero n h = absurd (omega (arith, h))
read-digits (suc fuel) n h = elim (Bool-cases (ltb n 10)) [
  | inl one_digit ↦ rw one_digit (omega arith)
  | inr more ↦
      (let ih = read-digits fuel (n / 10) (ground (arith, h, more)) in
        rw more (read-append 0 (b'0' + n % 10) (digits fuel (n / 10)) ∙ rw ih (omega arith)))
]

-- The text of a number reads back as the number.
pub read-str : (n : ℕ) → read 0 (str n) ≡ n
unfolding str
read-str n = read-digits (suc n) n (omega arith)
