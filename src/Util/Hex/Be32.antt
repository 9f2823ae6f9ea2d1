-- ===== src/Util/Hex/Be32.antt =====
-- src/util/hex.hpp: `be32_from_hex` reads eight digits as a big-endian word.
use minerby.Base.{
  ℕ, ◌+◌, ◌*◌, ◌/◌, ◌%◌, ◌^◌, ◌<◌, Bytes, [], ◌∷◌, map, length, IsBytes, ok, ◌≡◌, ap, arith,
  >>=-eq-ok, ◌∙◌, sym, bit_or_word, ok-injective,
}
use minerby.Util.Hex.{to_hex, from_hex, be32, be32_from_hex}
use minerby.Util.Hex.Laws.{lower, from_hex-IsReading, from_hex-to_hex}

-- The four bytes of a word, the most significant first.
abbrev pub be_bytes : ℕ → Bytes
be_bytes n = (n / 2 ^ 24) ∷ (n / 2 ^ 16 % 256) ∷ (n / 2 ^ 8 % 256) ∷ (n % 256) ∷ []

pub be32_as_sum :
    (a b c d : ℕ)
    → IsBytes (a ∷ b ∷ c ∷ d ∷ [])
    → be32 (a ∷ b ∷ c ∷ d ∷ []) ≡ ok (a * 2 ^ 24 + b * 2 ^ 16 + c * 2 ^ 8 + d)
unfolding be32
be32_as_sum a b c d h = ap ok (omega (arith, bit_or_word a b c d h.1.0 h.1.1.0 h.1.1.1.0, h.0))

be32-IsWord : (bs : Bytes) (n : ℕ) → IsBytes bs → be32 bs ≡ ok n → (n < 2 ^ 32) × (be_bytes n ≡ bs)
unfolding be32
be32-IsWord [] n h e = cc
be32-IsWord (a ∷ []) n h e = cc
be32-IsWord (a ∷ b ∷ []) n h e = cc
be32-IsWord (a ∷ b ∷ c ∷ []) n h e = cc
be32-IsWord (a ∷ b ∷ c ∷ d ∷ []) n h e =
    let sum : n ≡ a * 2 ^ 24 + b * 2 ^ 16 + c * 2 ^ 8 + d =
      ok-injective (sym e ∙ be32_as_sum a b c d h) in
    (omega (arith, sum, h), ground (arith, sum, h.0, h.1.0, h.1.1.0, h.1.1.1.0))
be32-IsWord (a ∷ b ∷ c ∷ d ∷ x ∷ xs) n h e = cc

-- A text that `be32_from_hex` accepts has eight digits and denotes a 32-bit word, whose four
-- bytes print as that text in lower case.
pub be32_from_hex-IsWord :
    (s : Bytes) (n : ℕ)
    → be32_from_hex s ≡ ok n
    → (n < 2 ^ 32) × (length s ≡ 8) × (to_hex (be_bytes n) ≡ map lower s)
unfolding be32_from_hex
be32_from_hex-IsWord s n e =
    let (bs, read, word) = >>=-eq-ok (from_hex s) _ e in
    let r = from_hex-IsReading s bs read in
    let (fits, same) = be32-IsWord bs n r.bytes word in
    (fits, omega (arith, r.twice, ap length same), ap to_hex same ∙ r.printed)

-- Every 32-bit word, printed as four big-endian bytes, is read back.
pub be32_from_hex-to_hex : (n : ℕ) → n < 2 ^ 32 → be32_from_hex (to_hex (be_bytes n)) ≡ ok n
unfolding be32_from_hex
be32_from_hex-to_hex n h = rw (from_hex-to_hex (be_bytes n) (omega arith)) (
    be32_as_sum (n / 2 ^ 24) (n / 2 ^ 16 % 256) (n / 2 ^ 8 % 256) (n % 256) (omega arith)
    ∙ ap ok (omega arith))
