-- ===== src/Miner/Pool/Count.antt =====
-- How many of the first `n` workers satisfy a test: what the counter `in_flight_` stands for.
use minerby.Base.{ℕ, zero, suc, ◌+◌, ◌*◌, ◌≤◌, ◌<◌, ◌≡◌, ◌≢◌, ◌⊎◌, inl, inr, refl, arith}
use minerby.Miner.Pool.{update}

module _ {ℓ} {A : Type ℓ} (weight : A → ℕ) where
  pub tally : ℕ → (ℕ → A) → ℕ
  tally zero f = 0
  tally (suc n) f = weight (f n) + tally n f

  tally_above : (n i : ℕ) (f : ℕ → A) (a : A) → n ≤ i → tally n (update f i a) ≡ tally n f
  unfolding tally
  tally_above zero i f a h = refl
  tally_above (suc n) i f a h = ground (arith, tally_above n i f a)

  -- A change at one index changes the count by the change in its weight.
  pub tally-update :
      (n i : ℕ) (f : ℕ → A) (a : A)
      → i < n
      → tally n (update f i a) + weight (f i) ≡ tally n f + weight a
  unfolding tally
  tally-update zero i f a h = absurd (omega arith)
  tally-update (suc n) i f a h = ground (arith, tally_above n i f a, tally-update n i f a)

  pub tally-zero : (n : ℕ) (f : ℕ → A) → ((i : ℕ) → i < n → weight (f i) ≡ 0) → tally n f ≡ 0
  unfolding tally
  tally-zero zero f h = refl
  tally-zero (suc n) f h =
      omega (arith, h n (omega arith), tally-zero n f (λ i lt. h i (omega arith)))

  pub weight-le-tally : (n i : ℕ) (f : ℕ → A) → i < n → weight (f i) ≤ tally n f
  unfolding tally
  weight-le-tally zero i f h = absurd (omega arith)
  weight-le-tally (suc n) i f h = ground (arith, weight-le-tally n i f)

  -- Weights of at most one count no more than the workers.
  pub tally-le : (n : ℕ) (f : ℕ → A) → ((i : ℕ) → weight (f i) ≤ 1) → tally n f ≤ n
  unfolding tally
  tally-le zero f h = omega arith
  tally-le (suc n) f h = omega (arith, h n, tally-le n f h)

  -- Weights of at most `b`.
  pub tally-bounded : (b n : ℕ) (f : ℕ → A) → ((i : ℕ) → weight (f i) ≤ b) → tally n f ≤ n * b
  unfolding tally
  tally-bounded b zero f h = omega arith
  tally-bounded b (suc n) f h = grind (arith, h n, tally-bounded b n f h)

  -- A count that is not zero has a member.
  pub tally-member :
      (n : ℕ) (f : ℕ → A) → (tally n f ≡ 0) ⊎ ((i : ℕ) × (i < n) × (weight (f i) ≢ 0))
  unfolding tally
  tally-member zero f = inl refl
  tally-member (suc n) f = elim (zero_or_more (weight (f n))) [
    | inr more ↦ inr (n, omega arith, more)
    | inl none ↦ elim (tally-member n f) [
      | inl rest ↦ inl (omega (arith, none, rest))
      | inr (i, lt, more) ↦ inr (i, omega (arith, lt), more)
    ]
  ]
    where
      zero_or_more : (k : ℕ) → (k ≡ 0) ⊎ (k ≢ 0)
      zero_or_more k = ground arith
