-- ===== src/Access/Normalize.antt =====
-- backend/app/entities/services/email_normalizer.py, the one match key of an address. The methods of
-- the language's texts are given.
use one_ai.Prelude.{String}

-- `str.strip()`, `str.strip("<>")` and `str.lower()`
pub record TextMethods : Type 0 where
  pub strip : String → String
  pub strip_brackets : String → String
  pub lower : String → String

unfoldable pub normalize_email : TextMethods → String → String
normalize_email t raw_address = t.lower (t.strip (t.strip_brackets (t.strip raw_address)))
