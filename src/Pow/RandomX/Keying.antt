-- ===== src/Pow/RandomX/Keying.antt =====
-- src/pow/randomx_context.cpp: `ensure_seed` and the threads that fill the dataset.
use minerby.Base.{
  ℕ, zero, suc, ◌+◌, ◌*◌, ◌/◌, ◌<◌, ◌≤◌, Bytes, List, [], ◌∷◌, true, ◌≡◌, refl, subst, arith,
  Bool-cases, inl, inr, tabulate, same_bytes, same_bytes_refl, same_bytes_sound, ◌&&◌,
}
use minerby.Pow.RandomX.{RandomXContext, share_of, dataset_ranges, ensure_seed}
use native.Mathlib.Nat.{mul-div-le, mul-le-mul_right, suc-mul}

-- Ranges that begin at `first`, end at `last`, and each begin where the one before ends.
abbrev pub Tiles : ℕ → ℕ → List (ℕ × ℕ) → Type 0
Tiles first last [] = first ≡ last
Tiles first last (r ∷ rs) = (r.0 ≡ first) × Tiles (r.0 + r.1) last rs

product_le : (total n i : ℕ) → i ≤ n → i * (total / n) ≤ total
product_le total n i h = grind (arith, mul-div-le total n, mul-le-mul_right (total / n) h)

-- A thread before the last one ends where the next begins.
inner_range :
    (total n k : ℕ) → suc k < n → suc k * (total / n) ≡ k * (total / n) + (share_of total n k).1
inner_range total n k h = ground (arith, suc-mul k (total / n))

tabulate-Tiles :
    (total n k left : ℕ)
    → k + suc left ≡ n
    → Tiles (k * (total / n)) total (tabulate (suc left) k (share_of total n))
tabulate-Tiles total n k zero e = (refl, ground (arith, product_le total n k (omega arith)))
tabulate-Tiles total n k (suc left) e = (
  refl,
  subst (λ first. Tiles first total (tabulate (suc left) (suc k) (share_of total n)))
      (inner_range total n k (omega arith)) (tabulate-Tiles total n (suc k) left (omega arith)),
)

from_zero :
    (total n left : ℕ) → suc left ≡ n → Tiles 0 total (tabulate (suc left) 0 (share_of total n))
from_zero total n left e =
    subst (λ first. Tiles first total (tabulate (suc left) 0 (share_of total n))) (omega arith)
      (tabulate-Tiles total n 0 left (omega arith))

-- Whatever the number of items and of threads, the ranges that the threads initialise cover the
-- dataset from its first item to its last, without a gap and without an overlap.
pub dataset_ranges-Tiles : (total threads : ℕ) → Tiles 0 total (dataset_ranges total threads)
unfolding dataset_ranges
dataset_ranges-Tiles total zero = from_zero total 1 0 refl
dataset_ranges-Tiles total (suc m) = from_zero total (suc m) m (omega arith)

-- After `ensure_seed` the context is keyed for the seed, whatever it was; a second call with that
-- seed changes nothing and fills nothing.
pub ensure_seed_twice :
    (total : ℕ) (c : RandomXContext) (seed : Bytes)
    → let r = ensure_seed total c seed in
      (r.context.seeded ≡ true)
      × (r.context.seed ≡ seed)
      × (ensure_seed total r.context seed ≡ record { context = r.context; fills = [] })
unfolding ensure_seed
ensure_seed_twice total c seed = elim (Bool-cases (c.seeded && same_bytes seed c.seed)) [
  | inl known ↦
      rw known
        (ground (arith, known), ground (arith, known, same_bytes_sound seed c.seed), rw known refl)
  | inr other ↦ rw other (refl, refl, rw (same_bytes_refl seed) refl)
]
