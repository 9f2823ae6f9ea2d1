-- ===== src/Examples/Target.antt =====
-- src/pow/target.cpp at concrete inputs.
use minerby.Base.{
  ℕ, ◌*◌, ◌/◌, ◌^◌, ◌-◌, ◌≤◌, ◌≡◌, refl, arith, Bytes, codes, set, ok, true, ◌↔◌, if◌then◌else◌,
  ◌||◌, ◌&&◌, ◌==◌,
}
use minerby.Util.Hex.{hex_val, hex_byte, from_hex_pairs, from_hex}
use minerby.Pow.Target.{
  meets_target, meets_below, zeros32, ones32, monero_target_from_hex, monero_target, expand_compact,
  or_bytes, max_u64, top_target,
}
use minerby.Pow.Target.Compare.{value, meets_target_iff}
use minerby.Pow.Target.Monero.{IsExpansion, monero_target_from_hex-IsExpansion}
use minerby.Pow.Target.Difficulty.{
  target_from_difficulty, target_from_difficulty64, IsScaling, mantissa,
  value-target_from_difficulty,
}
use minerby.Examples.Numbers.{whole, whole-IsIeee}

-- A number one above another, and the same array with the top byte lower.
abbrev low_hash : Bytes
low_hash = set ones32 31 0

meets_target_iff_example : (meets_target low_hash ones32 ≡ true) ↔ (value low_hash ≤ value ones32)
meets_target_iff_example = meets_target_iff low_hash ones32 (omega arith) (omega arith)

abbrev short_text : Bytes
short_text = codes "ffffff00"

abbrev short_target : Bytes
short_target = top_target (max_u64 / ((2 ^ 32 - 1) / 0xffffff))

short_run : monero_target_from_hex short_text ≡ ok short_target
unfolding monero_target_from_hex from_hex from_hex_pairs hex_val hex_byte monero_target
    expand_compact or_bytes
short_run = refl

monero_target_from_hex-IsExpansion_example :
    (b : Bytes) × (from_hex short_text ≡ ok b) × IsExpansion b short_target
monero_target_from_hex-IsExpansion_example =
    monero_target_from_hex-IsExpansion short_text short_target short_run

abbrev zero_hash : Bytes
zero_hash = zeros32

zero_meets : meets_target zero_hash (expand_compact 5) ≡ true
unfolding meets_target meets_below expand_compact top_target
zero_meets = refl

-- A difficulty of 3 in whole numbers.
value-target_from_difficulty_example :
    (n : ℕ) × IsScaling whole whole-IsIeee 6 n 3
    × (value (target_from_difficulty whole 3) ≡ (
        if whole.le 3 (whole.of_ℕ 0) || (mantissa whole whole-IsIeee n 3 == 0 && n == 0)
        then 2 ^ 256 - 1
        else mantissa whole whole-IsIeee n 3 * 256 ^ (4 * (6 - n))))
value-target_from_difficulty_example = value-target_from_difficulty whole whole-IsIeee 3

zero_meets_forced : meets_target zero_hash (target_from_difficulty64 whole 7) ≡ true
unfolding meets_target meets_below target_from_difficulty64 top_target
zero_meets_forced = refl
