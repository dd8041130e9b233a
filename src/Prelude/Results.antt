-- ===== src/Prelude/Results.antt =====
-- The result of a Rust call: `Ok`, `Err`, or a panic (an index out of bounds, `unwrap` of nothing,
-- `unimplemented!`).

pub data Outcome {ℓ} (E : Type ℓ) (A : Type ℓ) : Type ℓ where
  ok : A → Outcome E A
  err : E → Outcome E A
  panic : Outcome E A
