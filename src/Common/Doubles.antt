-- ===== src/Common/Doubles.antt =====
-- The IEEE doubles of the compiler, as a parameter of the code that computes with them.
use crypto_mm_engine.Prelude.{Bool}
use crypto_mm_engine.Prelude.Int.{ℤ}

pub record Doubles : Type 1 where
  pub Double : Type 0
  pub of_int : ℤ → Double
  pub plus : Double → Double → Double
  pub minus : Double → Double → Double
  pub times : Double → Double → Double
  pub over : Double → Double → Double
  pub negate : Double → Double
  pub less : Double → Double → Bool
  pub at_most : Double → Double → Bool
