-- ===== src/Base/Bits.antt =====
-- `|` of disjoint bit fields is a sum, whichever operand is the high one.
use Prim.Native.Nat.{
  ℕ, zero, suc, ◌+◌, ◌*◌, ◌/◌, ◌%◌, ◌^◌, ◌≤◌, ◌<◌, max, bit_or, digits, bit_or-bitwise,
}
use mathlib.Core.Path.{◌≡◌, refl, ap, ◌∙◌}
use native.Mathlib.Nat.{pow-suc, le_refl, div-add-mod, mod-lt, mod-eq_of_lt, add-mul-mod_self_left}
use native.Mathlib.Omega.{arith}

-- The digit recursion that `bit_or` stands for, with enough fuel, does not depend on the fuel.
abbrev or_digits : (fuel x y : ℕ) → ℕ
or_digits fuel x y = digits (λ rest. rest) max fuel x y

or_digits_fuel : (x y k l : ℕ) → x ≤ k → x ≤ l → or_digits k x y ≡ or_digits l x y
or_digits_fuel (suc x) y (suc k) (suc l) hk hl =
    omega (arith, or_digits_fuel (suc x / 2) (y / 2) k l (omega arith) (omega arith))
or_digits_fuel zero y (suc k) (suc l) hk hl = refl
or_digits_fuel zero y zero zero hk hl = refl
or_digits_fuel zero y zero (suc l) hk hl = refl
or_digits_fuel zero y (suc k) zero hk hl = refl
or_digits_fuel (suc x) y zero l hk hl = absurd (omega arith)
or_digits_fuel (suc x) y (suc k) zero hk hl = absurd (omega arith)

-- The lowest digit apart from the rest.
pub bit_or_step : (x y : ℕ) → bit_or x y ≡ bit_or (x / 2) (y / 2) * 2 + max (x % 2) (y % 2)
bit_or_step (suc x) y = omega (
  arith,
  or_digits_fuel (suc x / 2) (y / 2) x (suc x / 2) (omega arith) (omega arith),
  bit_or-bitwise (suc x / 2) (y / 2),
  bit_or-bitwise (suc x) y,
)
bit_or_step zero y = simp bit_or-bitwise (omega arith)

pub zero-bit_or : (b : ℕ) → bit_or 0 b ≡ b
zero-bit_or b = bit_or-bitwise 0 b

or_zero_fuel : (n a : ℕ) → a ≤ n → bit_or a 0 ≡ a
or_zero_fuel n zero h = refl
or_zero_fuel zero (suc a) h = absurd (omega arith)
or_zero_fuel (suc n) (suc a) h =
    omega (arith, bit_or_step (suc a) 0, or_zero_fuel n (suc a / 2) (omega arith))

pub bit_or-zero : (a : ℕ) → bit_or a 0 ≡ a
bit_or-zero a = or_zero_fuel a a (le_refl a)

double_field : (q k : ℕ) → q * 2 ^ suc k ≡ 2 * (q * 2 ^ k)
double_field q k = omega (arith, ap (λ (t : ℕ). q * t) (pow-suc 2 k))

-- A high field on the left.
pub bit_or_high : (k q r : ℕ) → r < 2 ^ k → bit_or (q * 2 ^ k) r ≡ q * 2 ^ k + r
bit_or_high zero q r fits = ground (arith, bit_or-zero q)
bit_or_high (suc k) q r fits =
    ground (
      arith,
      bit_or_step (q * 2 ^ suc k) r,
      double_field q k,
      bit_or_high k q (r / 2) (omega arith),
    )

-- A high field on the right.
pub bit_or_low : (k r q : ℕ) → r < 2 ^ k → bit_or r (q * 2 ^ k) ≡ r + q * 2 ^ k
bit_or_low zero r q fits = ground (arith, zero-bit_or q)
bit_or_low (suc k) r q fits =
    ground
      (arith, bit_or_step r (q * 2 ^ suc k), double_field q k, bit_or_low k (r / 2) q (omega arith))

-- Four bytes put together by shifts, the most significant first.
pub bit_or_word :
    (a b c d : ℕ)
    → b < 256
    → c < 256
    → d < 256
    → bit_or (bit_or (bit_or (a * 2 ^ 24) (b * 2 ^ 16)) (c * 2 ^ 8)) d
      ≡ a * 2 ^ 24 + b * 2 ^ 16 + c * 2 ^ 8 + d
bit_or_word a b c d hb hc hd =
    ap (λ t. bit_or (bit_or t (c * 2 ^ 8)) d) two ∙ ap (λ t. bit_or t d) three ∙ four
  where
    two : bit_or (a * 2 ^ 24) (b * 2 ^ 16) ≡ (a * 256 + b) * 2 ^ 16
    two = omega (arith, bit_or_high 24 a (b * 2 ^ 16) (omega arith))

    three : bit_or ((a * 256 + b) * 2 ^ 16) (c * 2 ^ 8) ≡ (a * 2 ^ 16 + b * 2 ^ 8 + c) * 2 ^ 8
    three = omega (arith, bit_or_high 16 (a * 256 + b) (c * 2 ^ 8) (omega arith))

    four : bit_or ((a * 2 ^ 16 + b * 2 ^ 8 + c) * 2 ^ 8) d ≡ a * 2 ^ 24 + b * 2 ^ 16 + c * 2 ^ 8 + d
    four = omega (arith, bit_or_high 8 (a * 2 ^ 16 + b * 2 ^ 8 + c) d (omega arith))

-- A byte more in the exponent.
pub shift_step : (i : ℕ) → 2 ^ (8 * suc i) ≡ 256 * 2 ^ (8 * i)
shift_step i =
    ap (λ n. 2 ^ n) eight
    ∙ omega (
      arith,
      pow-suc 2 k,
      pow-suc 2 (suc k),
      pow-suc 2 (suc (suc k)),
      pow-suc 2 (suc (suc (suc k))),
      pow-suc 2 (suc (suc (suc (suc k)))),
      pow-suc 2 (suc (suc (suc (suc (suc k))))),
      pow-suc 2 (suc (suc (suc (suc (suc (suc k)))))),
      pow-suc 2 (suc (suc (suc (suc (suc (suc (suc k))))))),
    )
  where
    k : ℕ
    k = 8 * i

    eight : 8 * suc i ≡ suc (suc (suc (suc (suc (suc (suc (suc k)))))))
    eight = omega arith

pub pow_bytes : (n : ℕ) → 2 ^ (8 * n) ≡ 256 ^ n
pow_bytes zero = refl
pow_bytes (suc n) = omega (arith, shift_step n, pow_bytes n, pow-suc 256 n)

-- One digit more of a number, at the weight `w`.
pub digit_split : (w v : ℕ) → 0 < w → v % (w * 256) ≡ v / w % 256 * w + v % w
digit_split w v pos =
    ap (λ x. x % (w * 256)) whole
    ∙ add-mul-mod_self_left (v / w % 256 * w + v % w) (w * 256) (v / w / 256)
    ∙ mod-eq_of_lt fits
  where
    whole : v ≡ v / w % 256 * w + v % w + w * 256 * (v / w / 256)
    whole = omega (arith, div-add-mod v w, ap (λ (x : ℕ). w * x) (div-add-mod (v / w) 256))

    fits : v / w % 256 * w + v % w < w * 256
    fits = grind (arith, mod-lt v pos)
