-- ===== src/Pow/Sha256/Standard.antt =====
-- SHA-256 as FIPS 180-4 describes it, apart from src/pow/sha256.cpp: rotations as quotients and
-- remainders, the schedule as a recurrence, one reduction modulo 2^32 for each sum, and the
-- constants by the roots that they come from.
use minerby.Base.{
  ℕ, zero, suc, ◌+◌, ◌-◌, ◌*◌, ◌/◌, ◌%◌, ◌^◌, ◌≤◌, ◌<◌, bit_and, bit_xor, Bytes, List, [], ◌∷◌,
  get_or, ltb, leb, Bool, true, false, ◌&&◌, if◌then◌else◌, ◌≡◌,
}
use minerby.Pow.Sha256.Rounds.{Vars, round_constants}

-- A word turned right by `n` places.
abbrev pub rotation : ℕ → ℕ → ℕ
rotation x n = x / 2 ^ n + x % 2 ^ n * 2 ^ (32 - n)

abbrev pub big_sigma0 : ℕ → ℕ
big_sigma0 x = bit_xor (bit_xor (rotation x 2) (rotation x 13)) (rotation x 22)

abbrev pub big_sigma1 : ℕ → ℕ
big_sigma1 x = bit_xor (bit_xor (rotation x 6) (rotation x 11)) (rotation x 25)

abbrev pub small_sigma0 : ℕ → ℕ
small_sigma0 x = bit_xor (bit_xor (rotation x 7) (rotation x 18)) (x / 2 ^ 3)

abbrev pub small_sigma1 : ℕ → ℕ
small_sigma1 x = bit_xor (bit_xor (rotation x 17) (rotation x 19)) (x / 2 ^ 10)

abbrev pub choice : ℕ → ℕ → ℕ → ℕ
choice x y z = bit_xor (bit_and x y) (bit_and (2 ^ 32 - 1 - x) z)

abbrev pub majority : ℕ → ℕ → ℕ → ℕ
majority x y z = bit_xor (bit_xor (bit_and x y) (bit_and x z)) (bit_and y z)

-- The words W_0 to W_63 of a block.
pub record IsSchedule (block : Bytes) (w : ℕ → ℕ) : Type 0 where
  pub first :
      (t : ℕ)
      → t < 16
      → w t
        ≡ get_or block (t * 4 + 0) 0 * 2 ^ 24
          + get_or block (t * 4 + 1) 0 * 2 ^ 16
          + get_or block (t * 4 + 2) 0 * 2 ^ 8
          + get_or block (t * 4 + 3) 0
  pub next :
      (t : ℕ)
      → 16 ≤ t
      → t < 64
      → w t
        ≡ (small_sigma1 (w (t - 2)) + w (t - 7) + small_sigma0 (w (t - 15)) + w (t - 16)) % 2 ^ 32

-- One step, with the constant and the word.
unfoldable pub standard_round : Vars → ℕ → ℕ → Vars
standard_round v k w = record {
  a = (t1 + t2) % 2 ^ 32;
  b = v.a;
  c = v.b;
  d = v.c;
  e = (v.d + t1) % 2 ^ 32;
  f = v.e;
  g = v.f;
  h = v.g;
}
  where
    t1 : ℕ
    t1 = (v.h + big_sigma1 v.e + choice v.e v.f v.g + k + w) % 2 ^ 32

    t2 : ℕ
    t2 = (big_sigma0 v.a + majority v.a v.b v.c) % 2 ^ 32

-- Steps from `t` on.
unfoldable pub standard_rounds : ℕ → ℕ → (ℕ → ℕ) → Vars → Vars
standard_rounds zero t w v = v
standard_rounds (suc left) t w v =
    standard_rounds left (suc t) w (standard_round v (get_or round_constants t 0) (w t))

unfoldable pub standard_compress : List ℕ → (ℕ → ℕ) → List ℕ
standard_compress s w =
    (at 0 + v.a) % 2 ^ 32
    ∷ (at 1 + v.b) % 2 ^ 32
    ∷ (at 2 + v.c) % 2 ^ 32
    ∷ (at 3 + v.d) % 2 ^ 32
    ∷ (at 4 + v.e) % 2 ^ 32
    ∷ (at 5 + v.f) % 2 ^ 32
    ∷ (at 6 + v.g) % 2 ^ 32
    ∷ (at 7 + v.h) % 2 ^ 32
    ∷ []
  where
    at : ℕ → ℕ
    at i = get_or s i 0

    v : Vars
    v =
        standard_rounds 64 0 w (record {
          a = at 0;
          b = at 1;
          c = at 2;
          d = at 3;
          e = at 4;
          f = at 5;
          g = at 6;
          h = at 7;
        })

abbrev pub primes : List ℕ
primes =
    2 ∷ 3 ∷ 5 ∷ 7 ∷ 11 ∷ 13 ∷ 17 ∷ 19 ∷ 23 ∷ 29 ∷ 31 ∷ 37 ∷ 41 ∷ 43 ∷ 47 ∷ 53 ∷ 59 ∷ 61 ∷ 67 ∷ 71
    ∷ 73 ∷ 79 ∷ 83 ∷ 89 ∷ 97 ∷ 101 ∷ 103 ∷ 107 ∷ 109 ∷ 113 ∷ 127 ∷ 131 ∷ 137 ∷ 139 ∷ 149 ∷ 151 ∷ 157
    ∷ 163 ∷ 167 ∷ 173 ∷ 179 ∷ 181 ∷ 191 ∷ 193 ∷ 197 ∷ 199 ∷ 211 ∷ 223 ∷ 227 ∷ 229 ∷ 233 ∷ 239 ∷ 241
    ∷ 251 ∷ 257 ∷ 263 ∷ 269 ∷ 271 ∷ 277 ∷ 281 ∷ 283 ∷ 293 ∷ 307 ∷ 311 ∷ []

-- `c` is the first 32 bits of the fraction of the `d`-th root of `p`, whose whole part is `i`.
abbrev pub is_root : (d p i c : ℕ) → Bool
is_root d p i c =
    ltb c (2 ^ 32)
    && (leb ((i * 2 ^ 32 + c) ^ d) (p * 2 ^ (32 * d))
        && ltb (p * 2 ^ (32 * d)) ((i * 2 ^ 32 + c + 1) ^ d))

-- The whole part of a root, by trying.
abbrev pub whole_root : (fuel d p i : ℕ) → ℕ
whole_root zero d p i = i
whole_root (suc fuel) d p i =
    let more = whole_root fuel d p (suc i) in if leb ((i + 1) ^ d) p then more else i

-- Every constant of a list is that of its prime.
abbrev pub are_roots : (d : ℕ) → List ℕ → List ℕ → Bool
are_roots d (p ∷ ps) (c ∷ cs) = is_root d p (whole_root 20 d p 1) c && are_roots d ps cs
are_roots d _ [] = true
are_roots d [] (c ∷ cs) = false
