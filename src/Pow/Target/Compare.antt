-- ===== src/Pow/Target/Compare.antt =====
-- src/pow/target.cpp: `meets_target` compares the numbers that the two arrays stand for.
use minerby.Base.{
  ℕ, zero, suc, ◌+◌, ◌*◌, ◌^◌, ◌≤◌, ◌<◌, Bytes, [], ◌∷◌, get_or, IsBytes, true, ◌≡◌, refl, ◌↔◌,
  arith,
}
use minerby.Pow.Target.{meets_below, meets_target}
use native.Mathlib.Nat.{pow-suc}

-- The number that the first `n` bytes stand for, the least significant first.
unfoldable pub value_below : ℕ → Bytes → ℕ
value_below zero t = 0
value_below (suc n) t = value_below n t + 256 ^ n * get_or t n 0

abbrev pub value : Bytes → ℕ
value t = value_below 32 t

pub get_or-lt : (t : Bytes) (i : ℕ) → IsBytes t → get_or t i 0 < 256
get_or-lt [] i h = omega arith
get_or-lt (b ∷ t) zero h = h.0
get_or-lt (b ∷ t) (suc i) h = get_or-lt t i h.1

pub value_below-lt : (n : ℕ) (t : Bytes) → IsBytes t → value_below n t < 256 ^ n
unfolding value_below
value_below-lt zero t h = omega arith
value_below-lt (suc n) t h = grind (arith, value_below-lt n t h, get_or-lt t n h, pow-suc 256 n)

-- With lower parts below the weight, the higher digit decides.
higher_digit : (w a b x y : ℕ) → a < w → x < y → a + w * x < b + w * y
higher_digit w a b x y h lt = grind arith

meets_below_iff :
    (n : ℕ) (h t : Bytes)
    → IsBytes h
    → IsBytes t
    → (meets_below n h t ≡ true) ↔ (value_below n h ≤ value_below n t)
unfolding meets_below value_below
meets_below_iff zero h t bh bt = (λ _. omega arith, λ _. refl)
meets_below_iff (suc n) h t bh bt = ground (
  arith,
  meets_below_iff n h t bh bt,
  higher_digit (256 ^ n) (value_below n h) (value_below n t) (get_or h n 0) (get_or t n 0)
      (value_below-lt n h bh),
  higher_digit (256 ^ n) (value_below n t) (value_below n h) (get_or t n 0) (get_or h n 0)
      (value_below-lt n t bt),
)

-- For arrays of bytes: a digest passes exactly when its number is at most the target's, the equal case included.
pub meets_target_iff :
    (hash target : Bytes)
    → IsBytes hash
    → IsBytes target
    → (meets_target hash target ≡ true) ↔ (value hash ≤ value target)
unfolding meets_target
meets_target_iff hash target = meets_below_iff 32 hash target
