-- ===== src/Pow/Target.antt =====
-- src/pow/target.hpp and src/pow/target.cpp: 256-bit targets, little-endian.
pub mod Compare
pub mod Compact
pub mod Monero
pub mod Difficulty
use minerby.Base.{
  ℕ, zero, suc, ◌+◌, ◌*◌, ◌-◌, ◌/◌, ◌^◌, Bytes, List, [], ◌∷◌, ◌==◌, leb, ltb, ◌&&◌, get_or, set,
  tabulate, replicate, length, u8, u32, u64, ◌<<◌, ◌>>>◌, bit_or, if◌then◌else◌, Bool, true, false,
  Result, ok, err, bad_length, ◌>>=◌, ◌%◌,
}
use minerby.Util.Hex.{from_hex}

-- The loop of `meets_target`, with the indices below its argument still to compare.
unfoldable pub meets_below : ℕ → Bytes → Bytes → Bool
meets_below zero hash target = true
meets_below (suc i) hash target =
    let rest = meets_below i hash target in
    if ltb (get_or hash i 0) (get_or target i 0)
    then true
    else if ltb (get_or target i 0) (get_or hash i 0)
    then false
    else rest

unfoldable pub meets_target : Bytes → Bytes → Bool
meets_target hash target = meets_below 32 hash target

abbrev pub zeros32 : Bytes
zeros32 = replicate 32 0

-- `be[pos] = v` with `pos = p - e`, where the code tests `pos >= 0 && pos < 32`.
unfoldable pub set_checked : Bytes → ℕ → ℕ → ℕ → Bytes
set_checked be p e v = if leb e p && ltb (p - e) 32 then set be (p - e) v else be

-- The big-endian array `be` of `target_from_compact`; `pos` is `32 - (exp - 3) - 3 + i`.
unfoldable pub compact_be : ℕ → ℕ → Bytes
compact_be exp mant =
    if leb exp 3
    then (let m = mant >>> (8 * (3 - exp)) in
        set (set (set zeros32 31 (u8 m)) 30 (u8 (m >>> 8))) 29 (u8 (m >>> 16)))
    else set_checked
        (set_checked (set_checked zeros32 32 exp (u8 (mant >>> 16))) 33 exp (u8 (mant >>> 8))) 34
        exp (u8 mant)

-- `bits & 0x007fffff` is a remainder.
unfoldable pub target_from_compact : ℕ → Bytes
target_from_compact bits =
    let be = compact_be (bits >>> 24) (bits % 2 ^ 23) in tabulate 32 0 (λ i. get_or be (31 - i) 0)

-- `acc |= b[i] << (8 * i)` over the bytes that are left, from index `i` on.
unfoldable pub or_bytes : ℕ → ℕ → Bytes → ℕ
or_bytes acc i [] = acc
or_bytes acc i (b ∷ bs) = or_bytes (bit_or acc (b << (8 * i))) (suc i) bs

-- A target whose upper 64 bits are `hi`: `t[24 + i] = hi >> (8 * i)` over zeros.
unfoldable pub top_target : ℕ → Bytes
top_target hi = tabulate 32 0 (λ i. if ltb i 24 then 0 else u8 (hi >>> (8 * (i - 24))))

abbrev pub ones32 : Bytes
ones32 = replicate 32 0xff

abbrev pub max_u64 : ℕ
max_u64 = 2 ^ 64 - 1

-- The compact form of four bytes.
unfoldable pub expand_compact : ℕ → Bytes
expand_compact compact =
    if compact == 0 then ones32 else top_target (max_u64 / ((2 ^ 32 - 1) / compact))

unfoldable pub monero_target : Bytes → Result Bytes
monero_target b =
    if length b == 32
    then ok b
    else if length b == 4
    then ok (expand_compact (or_bytes 0 0 b))
    else if length b == 8
    then ok (top_target (or_bytes 0 0 b))
    else err bad_length

unfoldable pub monero_target_from_hex : Bytes → Result Bytes
monero_target_from_hex hex = do b ← from_hex hex; monero_target b
