-- ===== src/Base/Numbers.antt =====
-- JavaScript's numbers, and what a column of type Decimal(_, 2) keeps of them. A number is its 64 bits,
-- read as a natural number; the arithmetic of the platform and the rounding of the database are
-- parameters, and so the rounding errors of both are not assumed away.
use Prim.Native.Nat.{ℕ}
use msk_back.Base.Int.{ℤ}

pub record Numbers : Type 0 where
  pub times : ℕ → ℕ → ℕ
  pub plus : ℕ → ℕ → ℕ
  pub over : ℕ → ℕ → ℕ
  pub zero : ℕ
  pub one : ℕ
  pub hundred : ℕ
  -- The value of the column, in hundredths.
  pub stored : ℕ → ℤ
