-- ===== src/Base/Outcome.antt =====
-- What a call of Go does: it returns a value, or it panics.
pub data Ran {ℓ} (A : Type ℓ) : Type ℓ where
  ran : A → Ran A
  panicked : Ran A
