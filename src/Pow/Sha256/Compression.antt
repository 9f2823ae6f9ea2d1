-- ===== src/Pow/Sha256/Compression.antt =====
-- src/pow/sha256.cpp: `transform` is the compression of FIPS 180-4.
pub mod Schedule
pub mod Fips
use minerby.Base.{
  ℕ, zero, suc, ◌+◌, ◌-◌, ◌*◌, ◌/◌, ◌%◌, ◌^◌, ◌≤◌, ◌<◌, bit_or, bit_xor, bit_and, bit_or_low, u32,
  ◌<<◌, ◌>>>◌, Bytes, List, [], ◌∷◌, get_or, length, All, IsBytes, ◌≡◌, refl, sym, ap, ap₂, ◌∙◌,
  arith, true,
}
use minerby.Pow.Sha256.{initial_state}
use minerby.Pow.Sha256.Rounds.{rotr, Vars, round, rounds, round_constants, complement}
use minerby.Pow.Sha256.Standard.{
  rotation, big_sigma0, big_sigma1, small_sigma0, small_sigma1, choice, majority, standard_round,
  standard_rounds, primes, are_roots,
}

-- The two shifts of a rotation fill disjoint places.
rotr_as_sum :
    (x n k lo : ℕ)
    → u32 (x << (32 - n)) ≡ lo * 2 ^ k
    → x >>> n < 2 ^ k
    → rotr x n ≡ x / 2 ^ n + lo * 2 ^ k
unfolding rotr
rotr_as_sum x n k lo e fits = ap (bit_or (x >>> n)) e ∙ bit_or_low k (x >>> n) lo fits

module _ (x : ℕ) (fits : x < 2 ^ 32) where
  pub big_sigma0-rotr : bit_xor (bit_xor (rotr x 2) (rotr x 13)) (rotr x 22) ≡ big_sigma0 x
  big_sigma0-rotr =
      rw
        (
          rotr_as_sum x 2 30 (x % 2 ^ 2) (omega arith) (omega arith),
          rotr_as_sum x 13 19 (x % 2 ^ 13) (omega arith) (omega arith),
          rotr_as_sum x 22 10 (x % 2 ^ 22) (omega arith) (omega arith),
        )
        refl

  pub big_sigma1-rotr : bit_xor (bit_xor (rotr x 6) (rotr x 11)) (rotr x 25) ≡ big_sigma1 x
  big_sigma1-rotr =
      rw
        (
          rotr_as_sum x 6 26 (x % 2 ^ 6) (omega arith) (omega arith),
          rotr_as_sum x 11 21 (x % 2 ^ 11) (omega arith) (omega arith),
          rotr_as_sum x 25 7 (x % 2 ^ 25) (omega arith) (omega arith),
        )
        refl

  pub small_sigma0-rotr : bit_xor (bit_xor (rotr x 7) (rotr x 18)) (x >>> 3) ≡ small_sigma0 x
  small_sigma0-rotr =
      rw
        (
          rotr_as_sum x 7 25 (x % 2 ^ 7) (omega arith) (omega arith),
          rotr_as_sum x 18 14 (x % 2 ^ 18) (omega arith) (omega arith),
        )
        refl

  pub small_sigma1-rotr : bit_xor (bit_xor (rotr x 17) (rotr x 19)) (x >>> 10) ≡ small_sigma1 x
  small_sigma1-rotr =
      rw
        (
          rotr_as_sum x 17 15 (x % 2 ^ 17) (omega arith) (omega arith),
          rotr_as_sum x 19 13 (x % 2 ^ 19) (omega arith) (omega arith),
        )
        refl

-- Reducing at each addition is reducing once.
sum5 : (a b c d e : ℕ) → u32 (u32 (u32 (u32 (a + b) + c) + d) + e) ≡ (a + b + c + d + e) % 2 ^ 32
sum5 a b c d e = omega arith

round-standard :
    (v : Vars) (k w : ℕ) → v.a < 2 ^ 32 → v.e < 2 ^ 32 → round v k w ≡ standard_round v k w
unfolding round standard_round
round-standard v k w ha he =
    rw
      (
        big_sigma1-rotr v.e he,
        big_sigma0-rotr v.a ha,
        sum5 v.h (big_sigma1 v.e) (choice v.e v.f v.g) k w,
      )
      refl

round-small : (v : Vars) (k w : ℕ) → ((round v k w).a < 2 ^ 32) × ((round v k w).e < 2 ^ 32)
unfolding round
round-small v k w = (omega arith, omega arith)

-- The lists side by side, from place `t` on, and the indexed words.
pub rounds-standard :
    (ks ws : List ℕ) (t : ℕ) (w : ℕ → ℕ) (v : Vars)
    → length ks ≡ length ws
    → ((i : ℕ) → i < length ks → get_or ks i 0 ≡ get_or round_constants (t + i) 0)
    → ((i : ℕ) → i < length ws → get_or ws i 0 ≡ w (t + i))
    → v.a < 2 ^ 32
    → v.e < 2 ^ 32
    → rounds ks ws v ≡ standard_rounds (length ks) t w v
unfolding rounds standard_rounds
rounds-standard [] ws t w v same hk hw ha he = refl
rounds-standard (k ∷ ks) [] t w v same hk hw ha he = absurd (omega arith)
rounds-standard (k ∷ ks) (x ∷ ws) t w v same hk hw ha he =
    let (ha', he') = round-small v k x in
    let here : t + 0 ≡ t = omega arith in
    let step : (i : ℕ) → t + suc i ≡ suc t + i = λ i. omega arith in
    rounds-standard ks ws (suc t) w (round v k x) (omega arith)
      (λ i lt. hk (suc i) (omega arith) ∙ ap (λ j. get_or round_constants j 0) (step i))
      (λ i lt. hw (suc i) (omega arith) ∙ ap w (step i)) ha' he'
    ∙ ap (standard_rounds (length ks) (suc t) w) (
        round-standard v k x ha he
        ∙ ap₂ (standard_round v) (hk 0 (omega arith) ∙ ap (λ j. get_or round_constants j 0) here)
            (hw 0 (omega arith) ∙ ap w here))
