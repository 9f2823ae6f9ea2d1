-- ===== src/Pow/Doubles.antt =====
-- `double`, which the language provides: the type and the operations that pow/, pool/ and
-- telemetry/ use are a parameter of the model. Its laws are those of IEEE arithmetic that the
-- theorems name.
use minerby.Base.{ℕ, ◌<◌, ◌≤◌, ◌^◌, Bool, true, false, ◌≡◌}

pub record Doubles : Type 1 where
  pub Double : Type 0
  pub of_ℕ : ℕ → Double  -- a literal, or a conversion from an unsigned integer
  pub le : Double → Double → Bool
  pub lt : Double → Double → Bool
  pub add : Double → Double → Double
  pub mul : Double → Double → Double
  pub div : Double → Double → Double
  pub to_u64 : Double → ℕ  -- static_cast<uint64_t>, which truncates

-- A cast gives a 64-bit word; a larger divisor gives a quotient, truncated, that is no larger.
pub record IsIeee (D : Doubles) : Type 0 where
  pub to_u64-lt : (x : D.Double) → D.to_u64 x < 2 ^ 64
  pub le_trans : (x y z : D.Double) → D.le x y ≡ true → D.le y z ≡ true → D.le x z ≡ true
  pub div_antitone :
      (n : ℕ) (x y : D.Double)
      → D.le x (D.of_ℕ 1) ≡ false
      → D.le x y ≡ true
      → D.to_u64 (D.div (D.of_ℕ n) y) ≤ D.to_u64 (D.div (D.of_ℕ n) x)
