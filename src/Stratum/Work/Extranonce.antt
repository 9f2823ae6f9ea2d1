-- ===== src/Stratum/Work/Extranonce.antt =====
-- src/stratum/work.cpp: `encode_extranonce2` writes a counter at a fixed width.
use minerby.Base.{
  ℕ, zero, suc, ◌+◌, ◌*◌, ◌-◌, ◌/◌, ◌%◌, ◌^◌, ◌<◌, ◌≤◌, Bytes, [], ◌∷◌, length, tabulate, IsBytes,
  ltb, u8, ok, err, ◌≡◌, refl, sym, ap, ap₂, pow_bytes, digit_split, out_of_range, ◌∙◌, arith, pos,
  negsuc, ok-injective, false, ◌>>>◌, undefined_behaviour,
}
use minerby.Util.Hex.{to_hex, from_hex}
use minerby.Util.Hex.Laws.{from_hex-to_hex, length-to_hex}
use minerby.Stratum.Work.{encode_extranonce2}
use native.Mathlib.Nat.{pow-suc, one-le-pow, mod-eq_of_lt}

-- The number that big-endian bytes stand for, after the digits `acc`.
abbrev pub be_number : ℕ → Bytes → ℕ
be_number acc [] = acc
be_number acc (b ∷ bs) = be_number (acc * 256 + b) bs

-- `size` bytes of `value`, by recursion: the byte of weight `256 ^ (size - 1)` first.
abbrev pub be_digits : ℕ → ℕ → Bytes
be_digits zero value = []
be_digits (suc n) value = u8 (value / 256 ^ n) ∷ be_digits n value

be_number-digits :
    (n acc value : ℕ) → be_number acc (be_digits n value) ≡ acc * 256 ^ n + value % 256 ^ n
be_number-digits zero acc value = omega arith
be_number-digits (suc n) acc value =
    be_number-digits n (acc * 256 + u8 (value / 256 ^ n)) value
    ∙ rw (pow-suc 256 n)
        (omega (arith, digit_split (256 ^ n) value (one-le-pow n 256 (omega arith))))

tabulate-be_digits :
    (n k size value : ℕ)
    → n + k ≡ size
    → tabulate n k (λ i. u8 (value >>> (8 * (size - 1 - i)))) ≡ be_digits n value
tabulate-be_digits zero k size value e = refl
tabulate-be_digits (suc n) k size value e =
    ap₂ ◌∷◌ (ap (λ w. u8 (value / w)) (ap (λ m. 2 ^ (8 * m)) (omega arith) ∙ pow_bytes n))
      (tabulate-be_digits n (suc k) size value (omega arith))

be_digits-IsBytes : (n value : ℕ) → IsBytes (be_digits n value)
be_digits-IsBytes zero value = tt
be_digits-IsBytes (suc n) value = (omega arith, be_digits-IsBytes n value)

length-be_digits : (n value : ℕ) → length (be_digits n value) ≡ n
length-be_digits zero value = refl
length-be_digits (suc n) value = ap suc (length-be_digits n value)

encoded :
    (value size : ℕ)
    → size ≤ 8
    → encode_extranonce2 value (pos size) ≡ ok (to_hex (be_digits size value))
unfolding encode_extranonce2
encoded value size h =
    let small : ltb 8 size ≡ false = ground arith in
    rw small (ap (λ b. ok (to_hex b)) (tabulate-be_digits size 0 size value (omega arith)))

-- The text of a counter: two digits for each byte of the width, which decode to big-endian bytes of
-- the counter, modulo what the width can hold.
pub record IsEncoding (value size : ℕ) (s : Bytes) : Type 0 where
  pub width : length s ≡ 2 * size
  pub bytes : Bytes
  pub decodes : from_hex s ≡ ok bytes
  pub number : be_number 0 bytes ≡ value % 256 ^ size

-- At a width up to 8, which is what the subscription allows, a text comes out, and it is the
-- encoding of the counter.
pub encode_extranonce2-IsEncoding :
    (value size : ℕ)
    → size ≤ 8
    → (s : Bytes) × (encode_extranonce2 value (pos size) ≡ ok s) × IsEncoding value size s
encode_extranonce2-IsEncoding value size h = (
  to_hex (be_digits size value),
  encoded value size h,
  record {
    width = length-to_hex (be_digits size value) ∙ ap (λ n. 2 * n) (length-be_digits size value);
    bytes = be_digits size value;
    decodes = from_hex-to_hex (be_digits size value) (be_digits-IsBytes size value);
    number = be_number-digits size 0 value ∙ omega arith;
  },
)

-- Two counters that the width can hold never share a text: each job of a session has an extranonce
-- of its own until the counter outgrows the width.
pub encode_extranonce2-injective :
    (v w size : ℕ)
    → size ≤ 8
    → v < 256 ^ size
    → w < 256 ^ size
    → encode_extranonce2 v (pos size) ≡ encode_extranonce2 w (pos size)
    → v ≡ w
encode_extranonce2-injective v w size h fv fw e =
    let (s, es, a) = encode_extranonce2-IsEncoding v size h in
    let (t, et, b) = encode_extranonce2-IsEncoding w size h in
    let same : s ≡ t = ok-injective (sym es ∙ e ∙ et) in
    let bytes : a.bytes ≡ b.bytes = ok-injective (sym a.decodes ∙ ap from_hex same ∙ b.decodes) in
    sym (mod-eq_of_lt fv) ∙ sym a.number ∙ ap (be_number 0) bytes ∙ b.number ∙ mod-eq_of_lt fw

-- Above 8 bytes the shifts are undefined, and a negative size throws.
pub encode_extranonce2_bad_size :
    (value n : ℕ)
    → (8 < n → encode_extranonce2 value (pos n) ≡ err undefined_behaviour)
      × (encode_extranonce2 value (negsuc n) ≡ err out_of_range)
unfolding encode_extranonce2
encode_extranonce2_bad_size value n = (λ h. ground arith, refl)
