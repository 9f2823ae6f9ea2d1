-- ===== src/Util/Hex/Laws.antt =====
-- src/util/hex.hpp: the two directions of the codec are inverse, up to the case of the digits.
use minerby.Base.{
  ℕ, ◌+◌, ◌*◌, ◌/◌, ◌%◌, ◌^◌, ◌<◌, Bytes, [], ◌∷◌, map, Option, none, some, Bool, true, false, ◌&&◌,
  ◌==◌, leb, ==_iff, get_or, length, if◌then◌else◌, IsBytes, ok, err, ◌≡◌, refl, ap, ap₂, arith,
  all_below, all_below_sound, bit_or_high, >>=-eq-ok, inl, inr, All, ◌≢◌, zero, suc, Bool-cases,
  subst, odd_length, ok-injective,
}
use minerby.Util.Hex.{hex_digits, to_hex, hex_val, hex_byte, from_hex_pairs, from_hex}

abbrev some_is : ℕ → Option ℕ → Bool
some_is x none = false
some_is x (some y) = y == x

some_is_lem : (x : ℕ) (o : Option ℕ) → some_is x o ≡ true → o ≡ some x
some_is_lem x none h = cc
some_is_lem x (some y) h = ap some ((==_iff y x).0 h)

digit_table : all_below 16 (λ x. some_is x (hex_val (get_or hex_digits x 0))) ≡ true
unfolding all_below hex_val
digit_table = refl

pub hex_val-digit : (x : ℕ) → x < 16 → hex_val (get_or hex_digits x 0) ≡ some x
hex_val-digit x h = some_is_lem x _ (all_below_sound x 16 _ h digit_table)

pub hex_val-lt : (c x : ℕ) → hex_val c ≡ some x → x < 16
unfolding hex_val
hex_val-lt c x h = ground arith

hex_byte-ok : (x y : ℕ) → x < 16 → y < 16 → hex_byte (some x) (some y) ≡ ok (x * 16 + y)
unfolding hex_byte
hex_byte-ok x y p q = rw (bit_or_high 4 x y q) (ap ok (omega arith))

pub from_hex_pairs-to_hex : (bs : Bytes) → IsBytes bs → from_hex_pairs (to_hex bs) ≡ ok bs
unfolding from_hex_pairs to_hex
from_hex_pairs-to_hex [] h = refl
from_hex_pairs-to_hex (b ∷ bs) h =
    rw
      (
        hex_val-digit (b / 2 ^ 4) (omega (arith, h.0)),
        hex_val-digit (b % 16) (omega arith),
        hex_byte-ok (b / 2 ^ 4) (b % 16) (omega (arith, h.0)) (omega arith),
        from_hex_pairs-to_hex bs h.1,
      )
      (ap (λ x. ok (x ∷ bs)) (omega arith))

pub length-to_hex : (bs : Bytes) → length (to_hex bs) ≡ 2 * length bs
unfolding to_hex
length-to_hex [] = refl
length-to_hex (b ∷ bs) = omega (arith, length-to_hex bs)

-- Printing bytes and reading the text gives the bytes back.
pub from_hex-to_hex : (bs : Bytes) → IsBytes bs → from_hex (to_hex bs) ≡ ok bs
unfolding from_hex
from_hex-to_hex bs h =
    let even : (length (to_hex bs) % 2 == 0) ≡ true =
      (==_iff _ 0).1 (omega (arith, length-to_hex bs)) in
    rw even (from_hex_pairs-to_hex bs h)

-- What `to_hex` prints for a digit that `hex_val` accepts: the digit in lower case.
abbrev pub lower : ℕ → ℕ
lower c = if leb b'A' c && leb c b'F' then c + 32 else c

hex_val_small : (c x : ℕ) → hex_val c ≡ some x → c < 128
unfolding hex_val
hex_val_small c x h = ground arith

abbrev lower_is : ℕ → Option ℕ → Bool
lower_is c none = true
lower_is c (some x) = get_or hex_digits x 0 == lower c

lower_table : all_below 128 (λ c. lower_is c (hex_val c)) ≡ true
unfolding all_below hex_val
lower_table = refl

digit-hex_val : (c x : ℕ) → hex_val c ≡ some x → get_or hex_digits x 0 ≡ lower c
digit-hex_val c x h = (==_iff _ _).0 (
    rw h at (all_below_sound c 128 (λ c. lower_is c (hex_val c)) (hex_val_small c x h) lower_table))

-- A pair that is read as the byte `b`.
record ReadsAs (c d b : ℕ) : Type 0 where
  fits : b < 256
  high : get_or hex_digits (b / 2 ^ 4) 0 ≡ lower c
  low : get_or hex_digits (b % 16) 0 ≡ lower d

hex_byte-ReadsAs :
    (c d : ℕ) (o p : Option ℕ) {b : ℕ}
    → hex_val c ≡ o
    → hex_val d ≡ p
    → hex_byte o p ≡ ok b
    → ReadsAs c d b
unfolding hex_byte
hex_byte-ReadsAs c d none p e f h = cc
hex_byte-ReadsAs c d (some x) none e f h = cc
hex_byte-ReadsAs c d (some x) (some y) {b} e f h = record {
  fits = omega (arith, value, x_fits, y_fits);
  high = rw hi (digit-hex_val c x e);
  low = rw lo (digit-hex_val d y f);
}
  where
    x_fits : x < 16
    x_fits = hex_val-lt c x e

    y_fits : y < 16
    y_fits = hex_val-lt d y f

    value : b ≡ x * 16 + y
    value = ground (arith, hex_byte-ok x y x_fits y_fits)

    hi : b / 2 ^ 4 ≡ x
    hi = omega (arith, value, y_fits)

    lo : b % 16 ≡ y
    lo = omega (arith, value, y_fits)

-- What a successful reading says of the text.
pub record IsReading (s bs : Bytes) : Type 0 where
  pub bytes : IsBytes bs
  pub twice : length s ≡ 2 * length bs
  pub printed : to_hex bs ≡ map lower s

from_hex_pairs-IsReading : (s bs : Bytes) → from_hex_pairs s ≡ ok bs → IsReading s bs
unfolding from_hex_pairs to_hex
from_hex_pairs-IsReading [] [] h = record { bytes = tt; twice = refl; printed = refl }
from_hex_pairs-IsReading [] (b ∷ bs) h = cc
from_hex_pairs-IsReading (c ∷ []) bs h = cc
from_hex_pairs-IsReading (c ∷ d ∷ s) bs h =
    let (b, here, h') = >>=-eq-ok (hex_byte (hex_val c) (hex_val d)) _ h in
    let (out, rest, done) = >>=-eq-ok (from_hex_pairs s) _ h' in
    let ih = from_hex_pairs-IsReading s out rest in
    let r = hex_byte-ReadsAs c d (hex_val c) (hex_val d) refl refl here in
    subst (IsReading (c ∷ d ∷ s)) (ok-injective done) (record {
      bytes = (r.fits, ih.bytes);
      twice = omega (arith, ih.twice);
      printed = ap₂ (λ x xs. x ∷ xs) r.high (ap₂ (λ x xs. x ∷ xs) r.low ih.printed);
    })

-- Whatever `from_hex` accepts, it returns bytes, half as many as the text has characters, and
-- `to_hex` prints them as the text in lower case.
pub from_hex-IsReading : (s bs : Bytes) → from_hex s ≡ ok bs → IsReading s bs
unfolding from_hex
from_hex-IsReading s bs h = elim (Bool-cases (length s % 2 == 0)) [
  | inl even ↦ from_hex_pairs-IsReading s bs (rw even at h)
  | inr odd ↦ absurd (let bad : err odd_length ≡ ok bs = rw odd at h in cc)
]

abbrev pub IsHexDigit : ℕ → Type 0
IsHexDigit c = hex_val c ≢ none

from_hex_pairs-total :
    (n : ℕ) (s : Bytes)
    → length s ≡ 2 * n
    → All IsHexDigit s
    → (bs : Bytes) × (from_hex_pairs s ≡ ok bs)
unfolding from_hex_pairs
from_hex_pairs-total zero [] e h = ([], refl)
from_hex_pairs-total zero (c ∷ s) e h = absurd (omega arith)
from_hex_pairs-total (suc n) [] e h = absurd (omega arith)
from_hex_pairs-total (suc n) (c ∷ []) e h = absurd (omega arith)
from_hex_pairs-total (suc n) (c ∷ d ∷ s) e h =
    let (out, rest) = from_hex_pairs-total n s (omega arith) h.1.1 in
    go out rest (hex_val c) (hex_val d) refl refl
  where
    go :
        (out : Bytes)
        → from_hex_pairs s ≡ ok out
        → (o p : Option ℕ) → hex_val c ≡ o
        → hex_val d ≡ p
        → (bs : Bytes) × (from_hex_pairs (c ∷ d ∷ s) ≡ ok bs)
    go out rest none p eo ep = absurd (h.0 eo)
    go out rest (some x) none eo ep = absurd (h.1.0 ep)
    go out rest (some x) (some y) eo ep = (
      (x * 16 + y) ∷ out,
      rw (eo, ep, hex_byte-ok x y (hex_val-lt c x eo) (hex_val-lt d y ep), rest) refl,
    )

-- `from_hex` succeeds on every text of even length whose characters are all hex digits.
pub from_hex-total :
    (n : ℕ) (s : Bytes) → length s ≡ 2 * n → All IsHexDigit s → (bs : Bytes) × (from_hex s ≡ ok bs)
unfolding from_hex
from_hex-total n s e h =
    let (bs, read) = from_hex_pairs-total n s e h in
    let even : (length s % 2 == 0) ≡ true = (==_iff _ 0).1 (omega arith) in (bs, rw even read)

-- An odd length is refused whatever the characters are.
pub from_hex_odd : (s : Bytes) → length s % 2 ≡ 1 → from_hex s ≡ err odd_length
unfolding from_hex
from_hex_odd s h = let odd : (length s % 2 == 0) ≡ false = ground arith in rw odd
