-- ===== src/Result.antt =====
-- What a method of a service answers: the value it returns, or the error it raises.
use one_ai.Prelude.{Bool, true, false}

pub data Result (E A : Type 0) : Type 0 where
  ok : A → Result E A
  err : E → Result E A

module _ {E A : Type 0} where
  abbrev pub is_ok : Result E A → Bool
  is_ok (ok a) = true
  is_ok (err e) = false
