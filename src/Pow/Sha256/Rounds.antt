-- ===== src/Pow/Sha256/Rounds.antt =====
-- src/pow/sha256.cpp: the constants, the message schedule and the 64 rounds of `transform`.
use minerby.Base.{
  ℕ, zero, suc, ◌+◌, ◌-◌, Bytes, List, [], ◌∷◌, ◌++◌, get_or, tabulate, length, bit_and, bit_or,
  bit_xor, u32, ◌<<◌, ◌>>>◌, ◌≡◌, ◌∙◌, ap, arith, length-append, length-tabulate, ◌^◌, ◌*◌,
}

abbrev pub round_constants : List ℕ
round_constants =
    0x428a2f98 ∷ 0x71374491 ∷ 0xb5c0fbcf ∷ 0xe9b5dba5 ∷ 0x3956c25b ∷ 0x59f111f1 ∷ 0x923f82a4
    ∷ 0xab1c5ed5 ∷ 0xd807aa98 ∷ 0x12835b01 ∷ 0x243185be ∷ 0x550c7dc3 ∷ 0x72be5d74 ∷ 0x80deb1fe
    ∷ 0x9bdc06a7 ∷ 0xc19bf174 ∷ 0xe49b69c1 ∷ 0xefbe4786 ∷ 0x0fc19dc6 ∷ 0x240ca1cc ∷ 0x2de92c6f
    ∷ 0x4a7484aa ∷ 0x5cb0a9dc ∷ 0x76f988da ∷ 0x983e5152 ∷ 0xa831c66d ∷ 0xb00327c8 ∷ 0xbf597fc7
    ∷ 0xc6e00bf3 ∷ 0xd5a79147 ∷ 0x06ca6351 ∷ 0x14292967 ∷ 0x27b70a85 ∷ 0x2e1b2138 ∷ 0x4d2c6dfc
    ∷ 0x53380d13 ∷ 0x650a7354 ∷ 0x766a0abb ∷ 0x81c2c92e ∷ 0x92722c85 ∷ 0xa2bfe8a1 ∷ 0xa81a664b
    ∷ 0xc24b8b70 ∷ 0xc76c51a3 ∷ 0xd192e819 ∷ 0xd6990624 ∷ 0xf40e3585 ∷ 0x106aa070 ∷ 0x19a4c116
    ∷ 0x1e376c08 ∷ 0x2748774c ∷ 0x34b0bcb5 ∷ 0x391c0cb3 ∷ 0x4ed8aa4a ∷ 0x5b9cca4f ∷ 0x682e6ff3
    ∷ 0x748f82ee ∷ 0x78a5636f ∷ 0x84c87814 ∷ 0x8cc70208 ∷ 0x90befffa ∷ 0xa4506ceb ∷ 0xbef9a3f7
    ∷ 0xc67178f2 ∷ []

unfoldable pub rotr : ℕ → ℕ → ℕ
rotr x n = bit_or (x >>> n) (u32 (x << (32 - n)))

-- `m[i]` for `i < 16`: four bytes of the block, the most significant first.
unfoldable pub block_word : Bytes → ℕ → ℕ
block_word block i = bit_or (bit_or (bit_or (byte 0 << 24) (byte 1 << 16)) (byte 2 << 8)) (byte 3)
  where
    byte : ℕ → ℕ
    byte j = get_or block (i * 4 + j) 0

-- `m[i]` for `16 ≤ i`, from the words before it.
unfoldable pub schedule_word : List ℕ → ℕ → ℕ
schedule_word m i = u32 (u32 (u32 (at 16 + s0) + at 7) + s1)
  where
    at : ℕ → ℕ
    at k = get_or m (i - k) 0

    s0 : ℕ
    s0 = bit_xor (bit_xor (rotr (at 15) 7) (rotr (at 15) 18)) (at 15 >>> 3)

    s1 : ℕ
    s1 = bit_xor (bit_xor (rotr (at 2) 17) (rotr (at 2) 19)) (at 2 >>> 10)

-- The second loop over `m`, at index `i`, with `left` rounds to go. `m` holds the words so far.
unfoldable pub expand : ℕ → ℕ → List ℕ → List ℕ
expand zero i m = m
expand (suc left) i m = expand left (suc i) (m ++ schedule_word m i ∷ [])

unfoldable pub schedule : Bytes → List ℕ
schedule block = expand 48 16 (tabulate 16 0 (block_word block))

-- The locals `a` to `h`.
pub record Vars : Type 0 where
  pub a : ℕ
  pub b : ℕ
  pub c : ℕ
  pub d : ℕ
  pub e : ℕ
  pub f : ℕ
  pub g : ℕ
  pub h : ℕ

-- `~x` on a word.
abbrev pub complement : ℕ → ℕ
complement x = 2 ^ 32 - 1 - x

-- One round, with the constant `k` and the word `w` of the schedule.
unfoldable pub round : Vars → ℕ → ℕ → Vars
round v k w = record {
  a = u32 (t1 + t2);
  b = v.a;
  c = v.b;
  d = v.c;
  e = u32 (v.d + t1);
  f = v.e;
  g = v.f;
  h = v.g;
}
  where
    s1 : ℕ
    s1 = bit_xor (bit_xor (rotr v.e 6) (rotr v.e 11)) (rotr v.e 25)

    ch : ℕ
    ch = bit_xor (bit_and v.e v.f) (bit_and (complement v.e) v.g)

    t1 : ℕ
    t1 = u32 (u32 (u32 (u32 (v.h + s1) + ch) + k) + w)

    s0 : ℕ
    s0 = bit_xor (bit_xor (rotr v.a 2) (rotr v.a 13)) (rotr v.a 22)

    maj : ℕ
    maj = bit_xor (bit_xor (bit_and v.a v.b) (bit_and v.a v.c)) (bit_and v.b v.c)

    t2 : ℕ
    t2 = u32 (s0 + maj)

-- The loop of the rounds: `K[i]` and `m[i]` side by side.
unfoldable pub rounds : List ℕ → List ℕ → Vars → Vars
rounds (k ∷ ks) (w ∷ ws) v = rounds ks ws (round v k w)
rounds _ _ v = v

unfoldable pub load : List ℕ → Vars
load s = record {
  a = get_or s 0 0;
  b = get_or s 1 0;
  c = get_or s 2 0;
  d = get_or s 3 0;
  e = get_or s 4 0;
  f = get_or s 5 0;
  g = get_or s 6 0;
  h = get_or s 7 0;
}

-- `state_[0] += a` up to `state_[7] += h`.
unfoldable pub add_back : List ℕ → Vars → List ℕ
add_back s v =
    u32 (get_or s 0 0 + v.a)
    ∷ u32 (get_or s 1 0 + v.b)
    ∷ u32 (get_or s 2 0 + v.c)
    ∷ u32 (get_or s 3 0 + v.d)
    ∷ u32 (get_or s 4 0 + v.e)
    ∷ u32 (get_or s 5 0 + v.f)
    ∷ u32 (get_or s 6 0 + v.g)
    ∷ u32 (get_or s 7 0 + v.h)
    ∷ []

-- What `transform` does to `state_`.
unfoldable pub compress : List ℕ → Bytes → List ℕ
compress s block = add_back s (rounds round_constants (schedule block) (load s))

length-expand : (left i : ℕ) (m : List ℕ) → length (expand left i m) ≡ length m + left
unfolding expand
length-expand zero i m = omega arith
length-expand (suc left) i m = omega (
  arith,
  length-expand left (suc i) (m ++ schedule_word m i ∷ []),
  length-append m (schedule_word m i ∷ []),
)

-- The schedule has a word for each round, so that no round is skipped.
pub length-schedule : (block : Bytes) → length (schedule block) ≡ length round_constants
unfolding schedule
length-schedule block =
    length-expand 48 16 (tabulate 16 0 (block_word block))
    ∙ ap (λ (n : ℕ). n + 48) (length-tabulate 16 0 (block_word block))
