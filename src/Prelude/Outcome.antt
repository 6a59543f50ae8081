-- ===== src/Prelude/Outcome.antt =====
-- What a call that can fail returns: an error or a value.
pub data Outcome (E A : Type 0) : Type 0 where
  failure : E → Outcome E A
  success : A → Outcome E A
