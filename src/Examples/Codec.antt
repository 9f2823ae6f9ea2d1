-- ===== src/Examples/Codec.antt =====
-- src/util/hex.hpp and src/pow/sha256.cpp at concrete inputs.
use minerby.Base.{
  All, ◌≡◌, refl, arith, Bytes, [], ◌∷◌, codes, ok, err, odd_length, bad_digit, replicate, ℕ, true,
}
use minerby.Util.Hex.{to_hex, hex_val, hex_byte, from_hex_pairs, from_hex, be32, be32_from_hex}
use minerby.Util.Hex.Laws.{IsReading, IsHexDigit, from_hex-to_hex, from_hex-IsReading}
use minerby.Pow.Sha256.{sha256, initial_state}
use minerby.Pow.Sha256.Rounds.{compress, round_constants}
use minerby.Pow.Sha256.Standard.{IsSchedule, standard_compress, primes, are_roots}
use minerby.Pow.Sha256.Compression.Fips.{compress-standard}
use minerby.Pow.Sha256.Padding.{IsDigest, sha256-IsDigest}

abbrev three_bytes : Bytes
three_bytes = 0 ∷ 0xde ∷ 0xff ∷ []

-- Mixed case is read.
from_hex_mixed : from_hex (codes "00DeFf") ≡ ok three_bytes
unfolding from_hex from_hex_pairs hex_val hex_byte
from_hex_mixed = refl

from_hex_odd_run : from_hex (codes "abc") ≡ err odd_length
unfolding from_hex
from_hex_odd_run = refl

from_hex_bad_run : from_hex (codes "0g") ≡ err bad_digit
unfolding from_hex from_hex_pairs hex_val hex_byte
from_hex_bad_run = refl

be32_run : be32_from_hex (codes "1d00ffff") ≡ ok 0x1d00ffff
unfolding be32_from_hex from_hex from_hex_pairs hex_val hex_byte be32
be32_run = refl

from_hex-to_hex_example : from_hex (to_hex three_bytes) ≡ ok three_bytes
from_hex-to_hex_example = from_hex-to_hex three_bytes (omega arith)

from_hex-IsReading_example : IsReading (codes "00DeFf") three_bytes
from_hex-IsReading_example = from_hex-IsReading (codes "00DeFf") three_bytes from_hex_mixed

digits_only : All IsHexDigit (codes "0f")
unfolding hex_val
digits_only = (λ h. cc, (λ h. cc, tt))

abbrev junk_stack : Bytes
junk_stack = replicate 64 7

sha256-IsDigest_example : IsDigest (codes "abc") (sha256 junk_stack (codes "abc"))
sha256-IsDigest_example = sha256-IsDigest junk_stack (codes "abc") refl

compress-standard_example :
    (are_roots 3 primes round_constants ≡ true)
    × ((w : ℕ → ℕ) × IsSchedule (replicate 64 7) w
        × (compress initial_state (replicate 64 7) ≡ standard_compress initial_state w))
compress-standard_example =
    compress-standard initial_state (replicate 64 7) (omega arith) (omega arith) (omega arith)
