-- ===== src/Types/Float.antt =====
-- Go's float64, an interface: the arithmetic that the program does with it. Its numbers and their
-- rounding are the implementation's.
use memory3d.Prelude.{ℕ, Bool}

pub record FloatOps (F : Type 0) : Type 0 where
  -- float64 of an unsigned number.
  pub of_nat : ℕ → F
  -- The literal `n` / 10 ^ `places`.
  pub decimal : ℕ → ℕ → F
  pub add : F → F → F
  pub sub : F → F → F
  pub mul : F → F → F
  pub quotient : F → F → F
  -- The test `<`.
  pub below : F → F → Bool
  -- uint64 of a float64, and math.Float64bits.
  pub to_uint64 : F → ℕ
  pub bits : F → ℕ
