-- ===== src/Util/Hex.antt =====
-- src/util/hex.hpp: bytes to hexadecimal text and back.
pub mod Laws
pub mod Be32
use minerby.Base.{
  ℕ, ◌+◌, ◌-◌, ◌/◌, ◌%◌, Bytes, [], ◌∷◌, Option, none, some, Bool, ◌&&◌, ◌==◌, leb, codes, get_or,
  length, if◌then◌else◌, bit_or, u8, u32, ◌<<◌, ◌>>>◌, Result, ok, err, odd_length, bad_digit,
  bad_length, require, ◌>>=◌, ◌>>◌,
}

-- `static const char* d`
abbrev pub hex_digits : Bytes
hex_digits = codes "0123456789abcdef"

unfoldable pub to_hex : Bytes → Bytes
to_hex [] = []
to_hex (p ∷ ps) = get_or hex_digits (p >>> 4) 0 ∷ get_or hex_digits (p % 16) 0 ∷ to_hex ps

-- `none` is the -1 of the code.
unfoldable pub hex_val : ℕ → Option ℕ
hex_val c =
    if leb b'0' c && leb c b'9'
    then some (c - b'0')
    else if leb b'a' c && leb c b'f'
    then some (c - b'a' + 10)
    else if leb b'A' c && leb c b'F'
    then some (c - b'A' + 10)
    else none

-- A pair of digits makes a byte; the code throws if either is no digit.
unfoldable pub hex_byte : Option ℕ → Option ℕ → Result ℕ
hex_byte (some hi) (some lo) = ok (u8 (bit_or (hi << 4) lo))
hex_byte _ _ = err bad_digit

-- The loop of `from_hex`, which is entered only at an even length.
unfoldable pub from_hex_pairs : Bytes → Result Bytes
from_hex_pairs [] = ok []
from_hex_pairs (c ∷ []) = err bad_digit
from_hex_pairs (c ∷ d ∷ s) = do
  b ← hex_byte (hex_val c) (hex_val d)
  out ← from_hex_pairs s
  ok (b ∷ out)

unfoldable pub from_hex : Bytes → Result Bytes
from_hex s = do require (length s % 2 == 0) odd_length; from_hex_pairs s

-- The four bytes of a big-endian word.
unfoldable pub be32 : Bytes → Result ℕ
be32 (b0 ∷ b1 ∷ b2 ∷ b3 ∷ []) =
    ok (u32 (bit_or (bit_or (bit_or (b0 << 24) (b1 << 16)) (b2 << 8)) b3))
be32 _ = err bad_length

unfoldable pub be32_from_hex : Bytes → Result ℕ
be32_from_hex s = do b ← from_hex s; be32 b
