-- ===== src/Pow/Target/Difficulty.antt =====
-- src/pow/target.cpp: the conversions between a difficulty, a `double`, and a target.
use minerby.Base.{
  ℕ, zero, suc, ◌+◌, ◌*◌, ◌-◌, ◌^◌, ◌≤◌, ◌<◌, Bytes, get_or, set, IsBytes, ◌≡◌, refl, ap, ◌∙◌,
  arith, u8, u32, ◌>>>◌, ◌==◌, ◌&&◌, ltb, true, false, ◌||◌, ◌⊎◌, if◌then◌else◌, Bool-cases, inl,
  inr, tabulate,
}
use minerby.Pow.Doubles.{Doubles, IsIeee}
use minerby.Pow.Target.{zeros32, ones32, max_u64, top_target, or_bytes, meets_target}
use minerby.Pow.Target.Compare.{value, value_below, meets_target_iff}
use minerby.Pow.Target.Monero.{value-top_target, top_target-size, or_bytes-le_number}

-- `put_word(word, v)`: four bytes, the least significant first.
unfoldable pub put_word : Bytes → ℕ → ℕ → Bytes
put_word t word v =
    set
      (set (set (set t (word * 4) (u8 v)) (word * 4 + 1) (u8 (v >>> 8))) (word * 4 + 2)
        (u8 (v >>> 16)))
      (word * 4 + 3) (u8 (v >>> 24))

-- The words `k` and, where there is one, `k + 1` of a target, from the two halves of `m`.
unfoldable pub put_words : ℕ → ℕ → Bytes
put_words k m =
    let t = put_word zeros32 k (u32 m) in
    if ltb (k + 1) 8 then put_word t (k + 1) (u32 (m >>> 32)) else t

-- The upper 64 bits of a target: `hi |= target[24 + i] << (8 * i)` for `i < 8`.
unfoldable pub top64 : Bytes → ℕ
top64 t = or_bytes 0 0 (tabulate 8 0 (λ i. get_or t (24 + i) 0))

module _ (D : Doubles) where
  open D use {Double, of_ℕ, le, lt, div, to_u64}

  -- `for (; k > 0 && d > 1.0; --k) d /= 4294967296.0;` gives the last `k` and `d`.
  unfoldable pub scale : ℕ → Double → record { k : ℕ; d : Double }
  scale zero d = record { k = 0; d = d }
  scale (suc k) d =
      let rest = scale k (div d (of_ℕ (2 ^ 32))) in
      if lt (of_ℕ 1) d then rest else record { k = suc k; d = d }

  unfoldable pub target_from_difficulty : Double → Bytes
  target_from_difficulty diff =
      let s = scale 6 diff in
      let m = to_u64 (div (of_ℕ 4294901760) s.d) in
      if le diff (of_ℕ 0) then ones32 else if m == 0 && s.k == 6 then ones32 else put_words s.k m

  unfoldable pub target_to_difficulty : Bytes → Double
  target_to_difficulty t = if top64 t == 0 then of_ℕ 0 else div (of_ℕ max_u64) (of_ℕ (top64 t))

  unfoldable pub target_from_difficulty64 : Double → Bytes
  target_from_difficulty64 diff =
      top_target (if le diff (of_ℕ 1) then max_u64 else to_u64 (div (of_ℕ max_u64) diff))

-- What the words of a target stand for.
value-put_words : (k m : ℕ) → k ≤ 6 → m < 2 ^ 64 → value (put_words k m) ≡ m * 256 ^ (4 * k)
unfolding put_words put_word value_below
value-put_words zero m h lt = omega arith
value-put_words (suc zero) m h lt = omega arith
value-put_words (suc (suc zero)) m h lt = omega arith
value-put_words (suc (suc (suc zero))) m h lt = omega arith
value-put_words (suc (suc (suc (suc zero)))) m h lt = omega arith
value-put_words (suc (suc (suc (suc (suc zero))))) m h lt = omega arith
value-put_words (suc (suc (suc (suc (suc (suc zero)))))) m h lt = omega arith
value-put_words (suc (suc (suc (suc (suc (suc (suc k))))))) m h lt = absurd (omega arith)

top64-top_target : (hi : ℕ) → hi < 2 ^ 64 → top64 (top_target hi) ≡ hi
unfolding top64 top_target
top64-top_target hi h = or_bytes-le_number _ (omega arith) ∙ omega arith

module _ (D : Doubles) (laws : IsIeee D) where
  open D use {Double, of_ℕ, le, lt, div, to_u64}

  -- `diff` divided by 2^32, `n` times.
  abbrev pub quotient : ℕ → Double → Double
  quotient zero d = d
  quotient (suc n) d = quotient n (div d (of_ℕ 4294967296))

  -- `n` is the first number of divisions, up to `most`, that leaves no more than one.
  pub record IsScaling (most n : ℕ) (d : Double) : Type 0 where
    pub bounded : n ≤ most
    pub above : (i : ℕ) → i < n → lt (of_ℕ 1) (quotient i d) ≡ true
    pub reached : (n ≡ most) ⊎ (lt (of_ℕ 1) (quotient n d) ≡ false)

  scale-IsScaling :
      (k : ℕ) (d : Double)
      → (n : ℕ) × IsScaling k n d × ((scale D k d).k ≡ k - n) × ((scale D k d).d ≡ quotient n d)
  unfolding scale
  scale-IsScaling zero d = (
    0,
    record { bounded = omega arith; above = λ i h. absurd (omega arith); reached = inl refl },
    refl,
    refl,
  )
  scale-IsScaling (suc k) d = elim (Bool-cases (lt (of_ℕ 1) d)) [
    | inl large ↦
        let (n, v, words, left) = scale-IsScaling k (div d (of_ℕ (2 ^ 32))) in
        rw large (suc n, further large n v, words ∙ omega arith, left)
    | inr small ↦ rw small (0, stop small, omega arith, refl)
  ]
    where
      further :
          lt (of_ℕ 1) d ≡ true
          → (n : ℕ) → IsScaling k n (div d (of_ℕ 4294967296))
          → IsScaling (suc k) (suc n) d
      further large n v = record {
        bounded = omega (arith, v.bounded);
        above = later;
        reached = elim v.reached [ inl all ↦ inl (ap suc all) | inr small ↦ inr small ];
      }
        where
          later : (i : ℕ) → i < suc n → lt (of_ℕ 1) (quotient i d) ≡ true
          later zero h = large
          later (suc i) h = v.above i (omega arith)

      stop : lt (of_ℕ 1) d ≡ false → IsScaling (suc k) 0 d
      stop small = record {
        bounded = omega arith;
        above = λ i h. absurd (omega arith);
        reached = inr small;
      }

  -- The truncated quotient of 0xffff0000 after `n` divisions.
  abbrev pub mantissa : ℕ → Double → ℕ
  mantissa n diff = to_u64 (div (of_ℕ 4294901760) (quotient n diff))

  -- Under the laws of `double`: the difficulty is divided by 2^32 until it is no more than one, six
  -- times at most. The target is all ones for a difficulty up to zero, and where no division was
  -- made and the mantissa vanishes; else it is the mantissa, the truncated quotient 0xffff0000 / d
  -- by what is left, shifted down from the seventh word by a word for each division.
  pub value-target_from_difficulty :
      (diff : Double)
      → (n : ℕ) × IsScaling 6 n diff
        × (value (target_from_difficulty D diff) ≡ (
            if le diff (of_ℕ 0) || (mantissa n diff == 0 && n == 0)
            then 2 ^ 256 - 1
            else mantissa n diff * 256 ^ (4 * (6 - n))))
  unfolding target_from_difficulty
  value-target_from_difficulty diff =
      let (n, v, words, left) = scale-IsScaling 6 diff in
      (
        n,
        v,
        elim (Bool-cases (le diff (of_ℕ 0))) [
          | inl none ↦ rw none (unfold value_below in refl)
          | inr some ↦ elim (Bool-cases (mantissa n diff == 0 && n == 0)) [
            | inl tiny ↦
                rw (some, words, left, top_word n v.bounded, tiny) (unfold value_below in refl)
            | inr more ↦
                rw (some, words, left, top_word n v.bounded, more)
                  (value-put_words (6 - n) (mantissa n diff) (omega arith) (laws.to_u64-lt _))
          ]
        ],
      )
    where
      top_word : (n : ℕ) → n ≤ 6 → (6 - n == 6) ≡ (n == 0)
      top_word n h = ground arith

  abbrev pub top_of : Double → ℕ
  top_of diff = if le diff (of_ℕ 1) then max_u64 else to_u64 (div (of_ℕ max_u64) diff)

  top_of-lt : (diff : Double) → top_of diff < 2 ^ 64
  top_of-lt diff = ground (arith, laws.to_u64-lt (div (of_ℕ max_u64) diff))

  top_of_mono : (x y : Double) → le x y ≡ true → top_of y ≤ top_of x
  top_of_mono x y h = ground (
    arith,
    laws.to_u64-lt (div (of_ℕ max_u64) y),
    laws.div_antitone max_u64 x y,
    laws.le_trans x y (of_ℕ 1) h,
  )

  -- Under the laws of `double`: a higher difficulty never makes the forced target easier: a digest that meets the target for
  -- `y` meets the one for any `x` up to `y`.
  pub target_from_difficulty64_mono :
      (x y : Double) (hash : Bytes)
      → le x y ≡ true
      → IsBytes hash
      → meets_target hash (target_from_difficulty64 D y) ≡ true
      → meets_target hash (target_from_difficulty64 D x) ≡ true
  unfolding target_from_difficulty64
  target_from_difficulty64_mono x y hash h bytes m =
      (meets_target_iff hash _ bytes (top_target-size (top_of x)).1).1 (
        omega (
          arith,
          (meets_target_iff hash _ bytes (top_target-size (top_of y)).1).0 m,
          value-top_target (top_of x) (top_of-lt x),
          value-top_target (top_of y) (top_of-lt y),
          top_of_mono x y h,
        ))

  -- The difficulty shown for a forced target is the quotient by the 64 bits that it was made of.
  pub target_to_difficulty-from64 :
      (diff : Double)
      → target_to_difficulty D (target_from_difficulty64 D diff)
        ≡ (if top_of diff == 0 then of_ℕ 0 else div (of_ℕ max_u64) (of_ℕ (top_of diff)))
  unfolding target_to_difficulty target_from_difficulty64
  target_to_difficulty-from64 diff = rw (top64-top_target (top_of diff) (top_of-lt diff))
