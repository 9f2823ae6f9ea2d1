-- ===== src/Stratum/Work.antt =====
-- src/stratum/work.hpp and src/stratum/work.cpp: from a payload to an 80-byte header.
pub mod Extranonce
pub mod Header
pub mod Branch
pub mod Build
use minerby.Base.{
  ℕ, zero, suc, ◌+◌, ◌*◌, ◌-◌, Bytes, List, [], ◌∷◌, ◌++◌, ◌==◌, get_or, set, replicate, tabulate,
  length, u8, ◌>>>◌, ltb, Option, none, some, Result, ok, err, require, bad_length, out_of_range,
  undefined_behaviour, ◌>>=◌, ◌>>◌, ℤ, pos, negsuc, if◌then◌else◌,
}
use minerby.Util.Hex.{to_hex, from_hex, be32_from_hex}
use minerby.Pow.Doubles.{Doubles}
use minerby.Pow.Sha256.{sha256d}
use minerby.Pow.Target.Difficulty.{target_from_difficulty}
use minerby.Miner.Job.{MiningJob}
use minerby.Stratum.Job.{StratumJob}

-- `size` bytes of `value`, the most significant first. A vector of a negative size throws, and a
-- shift by 64 bits or more, at a size above 8, is undefined.
unfoldable pub encode_extranonce2 : ℕ → ℤ → Result Bytes
encode_extranonce2 value (negsuc n) = err out_of_range
encode_extranonce2 value (pos size) =
    if ltb 8 size
    then err undefined_behaviour
    else ok (to_hex (tabulate size 0 (λ i. u8 (value >>> (8 * (size - 1 - i))))))

-- `h[at], h[at + 1], … = bytes`
unfoldable pub write : Bytes → ℕ → Bytes → Bytes
write h at [] = h
write h at (b ∷ bs) = write (set h at b) (suc at) bs

abbrev pub le_bytes : ℕ → Bytes
le_bytes v = u8 v ∷ u8 (v >>> 8) ∷ u8 (v >>> 16) ∷ u8 (v >>> 24) ∷ []

-- The word `w` of `prevhash`, its bytes reversed.
abbrev pub swapped_word : Bytes → ℕ → Bytes
swapped_word prevhash w =
    get_or prevhash (w * 4 + 3) 0
    ∷ get_or prevhash (w * 4 + 2) 0
    ∷ get_or prevhash (w * 4 + 1) 0
    ∷ get_or prevhash (w * 4 + 0) 0
    ∷ []

-- The loop over the words of `prevhash`, from word `w`, with `left` rounds to go.
unfoldable pub write_words : ℕ → ℕ → Bytes → Bytes → Bytes
write_words zero w prevhash h = h
write_words (suc left) w prevhash h =
    write_words left (suc w) prevhash (write h (4 + w * 4) (swapped_word prevhash w))

unfoldable pub header : ℕ → Bytes → Bytes → ℕ → ℕ → Bytes
header version prevhash merkle ntime nbits =
    let h = write (replicate 80 0) 0 (le_bytes version) in
    let h = write_words 8 0 prevhash h in
    let h = write h 36 merkle in let h = write h 68 (le_bytes ntime) in write h 72 (le_bytes nbits)

-- The writes to `out`, which stand at the end of the `try` block.
unfoldable pub fill_job :
    (D : Doubles) → StratumJob → Bytes → D.Double → MiningJob → Result Bytes → Option MiningJob
fill_job D j xn2_hex share_diff out (err e) = none
fill_job D j xn2_hex share_diff out (ok h) = some (record out {
  blob = h;
  nonce_offset = 76;
  target = target_from_difficulty D share_diff;
  job_id = j.job_id;
  extranonce2_hex = xn2_hex;
  ntime_hex = j.ntime;
})

module _ (junk : Bytes) where
  -- The loop over the branch: each node is hashed to the right of what is there.
  unfoldable pub fold_branch : Bytes → List Bytes → Result Bytes
  fold_branch merkle [] = ok merkle
  fold_branch merkle (node ∷ nodes) = do
    nb ← from_hex node
    require (length nb == 32) bad_length
    fold_branch (sha256d junk (merkle ++ nb)) nodes

  -- The body of the `try` block up to the header: `return false` is an error here too.
  unfoldable pub build_header : StratumJob → Bytes → Bytes → Result Bytes
  build_header j xn1 xn2_hex = do
    coinb1 ← from_hex j.coinb1
    coinb2 ← from_hex j.coinb2
    xn1b ← from_hex xn1
    xn2b ← from_hex xn2_hex
    merkle ← fold_branch (sha256d junk (coinb1 ++ (xn1b ++ (xn2b ++ coinb2)))) j.merkle_branch
    version ← be32_from_hex j.version
    nbits ← be32_from_hex j.nbits
    ntime ← be32_from_hex j.ntime
    prevhash ← from_hex j.prevhash
    require (length prevhash == 32) bad_length
    ok (header version prevhash merkle ntime nbits)

  -- `none` is `return false`, with `out` untouched: the handler catches every error above.
  unfoldable pub build_work :
      (D : Doubles) → StratumJob → Bytes → Bytes → D.Double → MiningJob → Option MiningJob
  build_work D j xn1 xn2_hex share_diff out =
      fill_job D j xn2_hex share_diff out (build_header j xn1 xn2_hex)
