-- ===== src/Miner/Scan/Nonces.antt =====
-- src/miner/worker.cpp: which nonces a worker tries.
use minerby.Base.{
  ℕ, zero, suc, ◌+◌, ◌*◌, ◌/◌, ◌%◌, ◌^◌, ◌≤◌, ◌<◌, List, [], ◌∷◌, u32, ltb, true, ◌≡◌, sym, ap, ◌∙◌,
  arith, ◌↔◌,
}
use native.Mathlib.Nat.{div-add-mod, mod-lt, add-mul-mod_self_left, mod-eq_of_lt, mul_comm}

-- `n, n + step, …`, with `k` entries.
abbrev pub progression : ℕ → ℕ → ℕ → List ℕ
progression zero step n = []
progression (suc k) step n = n ∷ progression k step (n + step)

-- The test after the addition tells exactly whether the 32-bit nonce has wrapped.
pub wrap_iff :
    (nonce threads : ℕ)
    → nonce < 2 ^ 32
    → threads < 2 ^ 32
    → (ltb (u32 (nonce + threads)) threads ≡ true) ↔ (2 ^ 32 ≤ nonce + threads)
wrap_iff nonce threads hn ht = ground arith

-- A nonce below `2 ^ 32` belongs to exactly one worker, the one whose index is its remainder by the
-- number of threads, and that worker reaches it in `nonce / threads` steps from its index.
pub nonce_owner :
    (threads nonce : ℕ)
    → 0 < threads
    → (nonce % threads < threads)
      × (nonce ≡ nonce % threads + nonce / threads * threads)
      × ((i k : ℕ) → i < threads → nonce ≡ i + k * threads → i ≡ nonce % threads)
nonce_owner threads nonce pos = (
  mod-lt nonce pos,
  omega (arith, div-add-mod nonce threads),
  λ i k lt e. sym (
      ap (λ n. n % threads) (e ∙ ap (λ (m : ℕ). i + m) (mul_comm k threads))
      ∙ add-mul-mod_self_left i threads k
      ∙ mod-eq_of_lt lt),
)
