-- ===== src/Pow/Target/Monero.antt =====
-- src/pow/target.cpp: `monero_target_from_hex` and the three forms of target that it expands.
use minerby.Base.{
  ℕ, suc, ◌+◌, ◌*◌, ◌-◌, ◌/◌, ◌^◌, ◌≤◌, ◌<◌, Bytes, [], ◌∷◌, length, IsBytes, ◌≡◌, refl, ◌∙◌, subst,
  arith, ok, err, bit_or_low, ◌==◌, ==_iff, true, false, Bool-cases, inl, inr, bad_length,
  shift_step, >>=-eq-ok, ok-injective, ◌≢◌, if◌then◌else◌,
}
use minerby.Util.Hex.{from_hex}
use minerby.Util.Hex.Laws.{from_hex-IsReading}
use minerby.Pow.Target.{
  top_target, or_bytes, expand_compact, monero_target, monero_target_from_hex, max_u64,
  meets_target,
}
use minerby.Pow.Target.Compare.{value_below, value, meets_target_iff}
use native.Mathlib.Nat.{pow-suc, div-le_self, mul-div-le, lt-mul-div-succ, mul-le-mul_right}

-- The number that little-endian bytes stand for.
abbrev pub le_number : Bytes → ℕ
le_number [] = 0
le_number (b ∷ bs) = b + 256 * le_number bs

-- `acc |= b << (8 * i)` adds, since the bytes before fill only the lower bits.
or_bytes-sum :
    (bs : Bytes) (acc i : ℕ)
    → IsBytes bs
    → acc < 2 ^ (8 * i)
    → or_bytes acc i bs ≡ acc + 2 ^ (8 * i) * le_number bs
unfolding or_bytes
or_bytes-sum [] acc i h lt = omega arith
or_bytes-sum (b ∷ bs) acc i h lt =
    rw (bit_or_low (8 * i) acc b lt)
      (or_bytes-sum bs (acc + b * 2 ^ (8 * i)) (suc i) h.1 fits ∙ rw (shift_step i) (omega arith))
  where
    fits : acc + b * 2 ^ (8 * i) < 2 ^ (8 * suc i)
    fits = rw (shift_step i) (grind (arith, h.0))

pub value-top_target : (hi : ℕ) → hi < 2 ^ 64 → value (top_target hi) ≡ hi * 256 ^ 24
unfolding top_target value_below
value-top_target hi h = omega arith

pub top_target-size : (hi : ℕ) → (length (top_target hi) ≡ 32) × IsBytes (top_target hi)
unfolding top_target
top_target-size hi = (refl, omega arith)

le_number-lt : (bs : Bytes) → IsBytes bs → le_number bs < 256 ^ length bs
le_number-lt [] h = omega arith
le_number-lt (b ∷ bs) h = rw (pow-suc 256 (length bs)) (omega (arith, h.0, le_number-lt bs h.1))

-- The loop over the bytes of a short target reads a little-endian number.
pub or_bytes-le_number : (bs : Bytes) → IsBytes bs → or_bytes 0 0 bs ≡ le_number bs
or_bytes-le_number bs h = or_bytes-sum bs 0 0 h (omega arith) ∙ omega arith

-- The reciprocal in 64 bits, for a compact form that is not zero.
abbrev pub reciprocal : ℕ → ℕ
reciprocal c = max_u64 / ((2 ^ 32 - 1) / c)

reciprocal-lt : (c : ℕ) → reciprocal c < 2 ^ 64
reciprocal-lt c = omega (arith, div-le_self max_u64 ((2 ^ 32 - 1) / c))

pub div_antitone : (n a b : ℕ) → 0 < b → b ≤ a → n / a ≤ n / b
div_antitone n a b pos le =
    grind (arith, mul-div-le n a, lt-mul-div-succ n pos, mul-le-mul_right (n / a) le)

div_pos : (n c : ℕ) → 0 < c → c ≤ n → 0 < n / c
div_pos n c pos le = grind (arith, lt-mul-div-succ n pos)

reciprocal_mono : (c c' : ℕ) → 0 < c → c ≤ c' → c' < 2 ^ 32 → reciprocal c ≤ reciprocal c'
reciprocal_mono c c' pos le fits =
    div_antitone max_u64 ((2 ^ 32 - 1) / c) ((2 ^ 32 - 1) / c')
      (div_pos (2 ^ 32 - 1) c' (omega arith) (omega arith)) (div_antitone (2 ^ 32 - 1) c' c pos le)

-- The number that the target for the bytes `b` has to stand for, by the form that their count
-- selects. (A target of 32 bytes is taken as it is.)
abbrev pub short_value : Bytes → ℕ
short_value b =
    if length b == 4
    then if le_number b == 0 then 2 ^ 256 - 1 else reciprocal (le_number b) * 256 ^ 24
    else le_number b * 256 ^ 24

value-expand_compact :
    (c : ℕ) → value (expand_compact c) ≡ (if c == 0 then 2 ^ 256 - 1 else reciprocal c * 256 ^ 24)
unfolding expand_compact
value-expand_compact c = elim (Bool-cases (c == 0)) [
  | inl z ↦ rw z (unfold value_below in refl)
  | inr nz ↦ rw nz (value-top_target (reciprocal c) (reciprocal-lt c))
]

expand_compact-size : (c : ℕ) → (length (expand_compact c) ≡ 32) × IsBytes (expand_compact c)
unfolding expand_compact
expand_compact-size c = elim (Bool-cases (c == 0)) [
  | inl z ↦ rw z (refl, omega arith)
  | inr nz ↦ rw nz (top_target-size (reciprocal c))
]

-- What is promised of the target `t` for the bytes `b` that were sent.
pub record IsExpansion (b t : Bytes) : Type 0 where
  pub size : length t ≡ 32
  pub bytes : IsBytes t
  pub full : length b ≡ 32 → t ≡ b
  pub short : length b ≢ 32 → value t ≡ short_value b

module _ (b : Bytes) (h : IsBytes b) where
  full-IsExpansion : length b ≡ 32 → IsExpansion b b
  full-IsExpansion n = record { size = n; bytes = h; full = λ _. refl; short = λ ne. absurd (ne n) }

  four-IsExpansion : length b ≡ 4 → IsExpansion b (expand_compact (or_bytes 0 0 b))
  four-IsExpansion n = record {
    size = size.0;
    bytes = size.1;
    full = λ m. absurd (omega arith);
    short = λ _.
        let four : (length b == 4) ≡ true = (==_iff _ 4).1 n in
        rw (four, or_bytes-le_number b h) (value-expand_compact (le_number b));
  }
    where
      size :
          (length (expand_compact (or_bytes 0 0 b)) ≡ 32)
          × IsBytes (expand_compact (or_bytes 0 0 b))
      size = expand_compact-size (or_bytes 0 0 b)

  eight-IsExpansion : length b ≡ 8 → IsExpansion b (top_target (or_bytes 0 0 b))
  eight-IsExpansion n = record {
    size = size.0;
    bytes = size.1;
    full = λ m. absurd (omega arith);
    short = λ _.
        let other : (length b == 4) ≡ false = ground arith in
        rw (other, or_bytes-le_number b h) (value-top_target (le_number b) fits);
  }
    where
      size : (length (top_target (or_bytes 0 0 b)) ≡ 32) × IsBytes (top_target (or_bytes 0 0 b))
      size = top_target-size (or_bytes 0 0 b)

      fits : le_number b < 2 ^ 64
      fits = subst (λ k. le_number b < 256 ^ k) n (le_number-lt b h)

  monero_target-IsExpansion : (t : Bytes) → monero_target b ≡ ok t → IsExpansion b t
  unfolding monero_target
  monero_target-IsExpansion t e = elim (Bool-cases (length b == 32)) [
    | inl f ↦
        subst (IsExpansion b) (ok-injective (rw f at e)) (full-IsExpansion ((==_iff _ 32).0 f))
    | inr nf ↦ elim (Bool-cases (length b == 4)) [
      | inl f ↦
          subst (IsExpansion b) (ok-injective (rw (nf, f) at e))
            (four-IsExpansion ((==_iff _ 4).0 f))
      | inr nf' ↦ elim (Bool-cases (length b == 8)) [
        | inl f ↦
            subst (IsExpansion b) (ok-injective (rw (nf, nf', f) at e))
              (eight-IsExpansion ((==_iff _ 8).0 f))
        | inr no_form ↦ absurd (let bad : err bad_length ≡ ok t = rw (nf, nf', no_form) at e in cc)
      ]
    ]
  ]

-- A target text that is accepted denotes 32 bytes: those of the text if it has 32, else zeros below
-- 64 bits that are the text's little-endian number (8 bytes) or the reciprocal of it (4 bytes, with
-- all ones for zero).
pub monero_target_from_hex-IsExpansion :
    (hex t : Bytes)
    → monero_target_from_hex hex ≡ ok t
    → (b : Bytes) × (from_hex hex ≡ ok b) × IsExpansion b t
unfolding monero_target_from_hex
monero_target_from_hex-IsExpansion hex t e =
    let (b, read, rest) = >>=-eq-ok (from_hex hex) _ e in
    (b, read, monero_target-IsExpansion b (from_hex-IsReading hex b read).bytes t rest)

-- Every length but 4, 8 and 32 bytes is refused.
pub monero_target_from_hex_refuses :
    (hex b : Bytes)
    → from_hex hex ≡ ok b
    → length b ≢ 4
    → length b ≢ 8
    → length b ≢ 32
    → monero_target_from_hex hex ≡ err bad_length
unfolding monero_target_from_hex monero_target
monero_target_from_hex_refuses hex b read n4 n8 n32 = rw read (ground arith)

-- Of two compact values from 1 to 2 ^ 32 - 1, the larger gives a target that is at least as easy: every digest that meets the
-- smaller one's target meets the larger one's.
pub expand_compact_mono :
    (c c' : ℕ) (hash : Bytes)
    → 0 < c
    → c ≤ c'
    → c' < 2 ^ 32
    → IsBytes hash
    → meets_target hash (expand_compact c) ≡ true
    → meets_target hash (expand_compact c') ≡ true
expand_compact_mono c c' hash pos le fits h m =
    (meets_target_iff hash (expand_compact c') h (expand_compact-size c').1).1
      (omega (arith, below, larger))
  where
    below : value hash ≤ value (expand_compact c)
    below = (meets_target_iff hash (expand_compact c) h (expand_compact-size c).1).0 m

    larger : value (expand_compact c) ≤ value (expand_compact c')
    larger = ground (arith, value-expand_compact c, value-expand_compact c', reciprocal_mono c c')
