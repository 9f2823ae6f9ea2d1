-- ===== src/Pow/Sha256/Compression/Fips.antt =====
-- src/pow/sha256.cpp: the whole of `transform`, with its constants.
use minerby.Base.{ℕ, ◌+◌, ◌^◌, ◌<◌, Bytes, List, get_or, IsBytes, ◌≡◌, refl, sym, ap, arith, true}
use minerby.Pow.Sha256.{initial_state}
use minerby.Pow.Sha256.Rounds.{round_constants, schedule, compress, add_back, load, length-schedule}
use minerby.Pow.Sha256.Standard.{IsSchedule, standard_compress, primes, are_roots}
use minerby.Pow.Sha256.Compression.{rounds-standard}
use minerby.Pow.Sha256.Compression.Schedule.{schedule-IsSchedule}

-- The first chaining value is read off square roots in the same way.
initial_state-roots : are_roots 2 primes initial_state ≡ true
initial_state-roots = refl

-- From words in the chaining value and bytes in the block, `transform` computes the compression
-- function of FIPS 180-4 for the message schedule of the block, and the constants of the rounds are
-- the first 32 bits of the fractions of the cube roots of the first 64 primes.
pub compress-standard :
    (s : List ℕ) (block : Bytes)
    → IsBytes block
    → get_or s 0 0 < 2 ^ 32
    → get_or s 4 0 < 2 ^ 32
    → (are_roots 3 primes round_constants ≡ true)
      × ((w : ℕ → ℕ) × IsSchedule block w × (compress s block ≡ standard_compress s w))
unfolding compress add_back load standard_compress
compress-standard s block h ha he = (
  refl,
  (
    words,
    schedule-IsSchedule block h,
    ap (add_back s) (
        rounds-standard round_constants (schedule block) 0 words (load s)
          (sym (length-schedule block)) (λ i lt. ap (λ j. get_or round_constants j 0) (from_zero i))
          (λ i lt. ap words (from_zero i)) ha he),
  ),
)
  where
    words : ℕ → ℕ
    words t = get_or (schedule block) t 0

    from_zero : (t : ℕ) → t ≡ 0 + t
    from_zero t = omega arith
