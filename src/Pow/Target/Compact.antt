-- ===== src/Pow/Target/Compact.antt =====
-- src/pow/target.cpp: `target_from_compact` decodes a mantissa and an exponent.
use minerby.Base.{
  ℕ, zero, suc, ◌+◌, ◌*◌, ◌-◌, ◌/◌, ◌%◌, ◌^◌, ◌≤◌, ◌<◌, Bytes, get_or, length, leb, ◌≡◌, refl, ap,
  ◌∙◌, arith, get_or-set_self, get_or-set_ne, length-set, tabulate, get_or-tabulate, u8,
  if◌then◌else◌, Bool-cases, inl, inr, replicate, ◌==◌,
}
use minerby.Pow.Target.{zeros32, set_checked, compact_be, target_from_compact}
use minerby.Pow.Target.Compare.{value_below, value}
use native.Mathlib.Nat.{pow-suc}

module _ (t : Bytes) where
  value_below-zeros : (n : ℕ) → ((i : ℕ) → i < n → get_or t i 0 ≡ 0) → value_below n t ≡ 0
  unfolding value_below
  value_below-zeros zero z = refl
  value_below-zeros (suc n) z =
      grind (arith, value_below-zeros n (λ i lt. z i (omega arith)), z n (omega arith))

  value_below-zeros_above :
      (k n : ℕ)
      → ((i : ℕ) → n ≤ i → i < k + n → get_or t i 0 ≡ 0)
      → value_below (k + n) t ≡ value_below n t
  unfolding value_below
  value_below-zeros_above zero n z = ap (λ m. value_below m t) (omega arith)
  value_below-zeros_above (suc k) n z =
      ap (λ m. value_below m t) step
      ∙ grind (
        arith,
        value_below-zeros_above k n (λ i lo hi. z i lo (omega arith)),
        z (k + n) (omega arith) (omega arith),
      )
    where
      step : suc k + n ≡ suc (k + n)
      step = omega arith

  -- Three bytes at `s`, and zeros elsewhere.
  pub value-three :
      (s m : ℕ)
      → m < 2 ^ 24
      → s + 3 ≤ 32
      → get_or t s 0 ≡ u8 m
      → get_or t (suc s) 0 ≡ u8 (m / 2 ^ 8)
      → get_or t (suc (suc s)) 0 ≡ u8 (m / 2 ^ 16)
      → ((i : ℕ) → i < s → get_or t i 0 ≡ 0)
      → ((i : ℕ) → s + 3 ≤ i → i < 32 → get_or t i 0 ≡ 0)
      → value t ≡ m * 256 ^ s
  unfolding value_below
  value-three s m fits room e0 e1 e2 below above =
      ap (λ n. value_below n t) split
      ∙ value_below-zeros_above (29 - s) (suc (suc (suc s)))
          (λ i lo hi. above i (omega arith) (omega arith))
      ∙ sum
    where
      split : 32 ≡ (29 - s) + suc (suc (suc s))
      split = omega arith

      digits : m ≡ u8 m + 256 * u8 (m / 2 ^ 8) + 65536 * u8 (m / 2 ^ 16)
      digits = omega arith

      sum : value_below (suc (suc (suc s))) t ≡ m * 256 ^ s
      sum =
          rw (value_below-zeros s below, e0, e1, e2, pow-suc 256 (suc s), pow-suc 256 s)
            (omega (arith, ap (λ (x : ℕ). x * 256 ^ s) digits))

-- The little-endian array that the code reads off `be`.
abbrev flip : Bytes → Bytes
flip be = tabulate 32 0 (λ i. get_or be (31 - i) 0)

get_or-flip : (be : Bytes) (i : ℕ) → i < 32 → get_or (flip be) i 0 ≡ get_or be (31 - i) 0
get_or-flip be i lt =
    get_or-tabulate 32 0 (λ j. get_or be (31 - j) 0) i 0 lt
    ∙ ap (λ k. get_or be (31 - k) 0) (omega arith)

get_or-zeros : (n i : ℕ) → ◌≡◌ {A = ℕ} (get_or (replicate n 0) i 0) 0
get_or-zeros zero i = refl
get_or-zeros (suc n) zero = refl
get_or-zeros (suc n) (suc i) = get_or-zeros n i

-- The guarded write, read back: it lands where the index is `p - e`, and nowhere if that is out of
-- range.
get_or-set_checked :
    (be : Bytes) (p e v j : ℕ)
    → length be ≡ 32
    → j < 32
    → get_or (set_checked be p e v) j 0 ≡ (if j + e == p then v else get_or be j 0)
unfolding set_checked
get_or-set_checked be p e v j n lt =
    ground (arith, get_or-set_self be (p - e) v 0, get_or-set_ne be (p - e) j v 0)

length-set_checked : (be : Bytes) (p e v : ℕ) → length (set_checked be p e v) ≡ length be
unfolding set_checked
length-set_checked be p e v = ground (arith, length-set be (p - e) v)

-- The three writes of the branch for `3 < exp`, read back.
get_or-compact_be :
    (e m j : ℕ)
    → 3 < e
    → j < 32
    → get_or (compact_be e m) j 0 ≡ (
        if j + e == 34
        then u8 m
        else if j + e == 33
        then u8 (m / 2 ^ 8)
        else if j + e == 32
        then u8 (m / 2 ^ 16)
        else 0)
unfolding compact_be
get_or-compact_be e m j lo lt = ground (
  arith,
  get_or-set_checked
      (set_checked (set_checked zeros32 32 e (u8 (m / 2 ^ 16))) 33 e (u8 (m / 2 ^ 8))) 34 e (u8 m)
      j,
  get_or-set_checked (set_checked zeros32 32 e (u8 (m / 2 ^ 16))) 33 e (u8 (m / 2 ^ 8)) j,
  get_or-set_checked zeros32 32 e (u8 (m / 2 ^ 16)) j,
  length-set_checked zeros32 32 e (u8 (m / 2 ^ 16)),
  length-set_checked (set_checked zeros32 32 e (u8 (m / 2 ^ 16))) 33 e (u8 (m / 2 ^ 8)),
  get_or-zeros 32 j,
)

value-compact_large :
    (e m : ℕ) → m < 2 ^ 24 → 3 < e → e ≤ 32 → value (flip (compact_be e m)) ≡ m * 256 ^ (e - 3)
value-compact_large e m fits lo hi =
    value-three (flip (compact_be e m)) (e - 3) m fits (omega arith)
      (ground (arith, at (e - 3), read (e - 3)))
      (ground (arith, at (suc (e - 3)), read (suc (e - 3))))
      (ground (arith, at (suc (suc (e - 3))), read (suc (suc (e - 3)))))
      (λ i lt. ground (arith, at i, read i)) (λ i ge lt. ground (arith, at i, read i))
  where
    at : (i : ℕ) → i < 32 → get_or (flip (compact_be e m)) i 0 ≡ get_or (compact_be e m) (31 - i) 0
    at = get_or-flip (compact_be e m)

    read :
        (i : ℕ)
        → i < 32
        → get_or (compact_be e m) (31 - i) 0 ≡ (
            if 31 - i + e == 34
            then u8 m
            else if 31 - i + e == 33
            then u8 (m / 2 ^ 8)
            else if 31 - i + e == 32
            then u8 (m / 2 ^ 16)
            else 0)
    read i lt = get_or-compact_be e m (31 - i) lo (omega arith)

value-compact_small :
    (e m : ℕ) → m < 2 ^ 24 → e ≤ 3 → value (flip (compact_be e m)) ≡ m / 256 ^ (3 - e)
unfolding compact_be value_below
value-compact_small zero m fits h = omega arith
value-compact_small (suc zero) m fits h = omega arith
value-compact_small (suc (suc zero)) m fits h = omega arith
value-compact_small (suc (suc (suc zero))) m fits h = omega arith
value-compact_small (suc (suc (suc (suc e)))) m fits h = absurd (omega arith)

-- A compact encoding with mantissa `m` and exponent `e` up to 32 decodes to the 256-bit number
-- m * 256 ^ (e - 3), where a negative power drops the low bytes; the sign bit is ignored.
pub value-target_from_compact :
    (bits : ℕ)
    → bits / 2 ^ 24 ≤ 32
    → value (target_from_compact bits) ≡ (
        if leb (bits / 2 ^ 24) 3
        then bits % 2 ^ 23 / 256 ^ (3 - bits / 2 ^ 24)
        else bits % 2 ^ 23 * 256 ^ (bits / 2 ^ 24 - 3))
unfolding target_from_compact
value-target_from_compact bits hi = elim (Bool-cases (leb (bits / 2 ^ 24) 3)) [
  | inl small ↦
      rw small (value-compact_small (bits / 2 ^ 24) (bits % 2 ^ 23) (omega arith) (ground arith))
  | inr large ↦
      rw large (value-compact_large (bits / 2 ^ 24) (bits % 2 ^ 23) (omega arith) (ground arith) hi)
]
