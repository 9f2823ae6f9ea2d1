-- ===== src/Examples/Numbers.antt =====
-- `Doubles` with whole numbers: truncated division, and a cast that saturates at 64 bits.
use minerby.Base.{ℕ, ◌+◌, ◌*◌, ◌/◌, ◌-◌, ◌^◌, arith, leb, ltb, min}
use minerby.Pow.Doubles.{Doubles, IsIeee}
use minerby.Pow.Target.Monero.{div_antitone}

abbrev pub whole : Doubles
whole = record {
  Double = ℕ;
  of_ℕ = λ n. n;
  le = leb;
  lt = ltb;
  add = λ a b. a + b;
  mul = λ a b. a * b;
  div = λ a b. a / b;
  to_u64 = λ n. min n (2 ^ 64 - 1);
}

pub whole-IsIeee : IsIeee whole
whole-IsIeee = record {
  to_u64-lt = λ x. ground arith;
  le_trans = λ x y z h k. ground arith;
  div_antitone = λ n x y big le. ground (arith, div_antitone n y x);
}
