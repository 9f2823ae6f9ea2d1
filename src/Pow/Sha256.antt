-- ===== src/Pow/Sha256.antt =====
-- src/pow/sha256.hpp and src/pow/sha256.cpp: the streaming hash `Sha256`.
pub mod Rounds
pub mod Absorb
pub mod Padding
pub mod Standard
pub mod Compression
mod Tests
use minerby.Base.{
  ℕ, zero, suc, ◌+◌, ◌*◌, ◌-◌, Bytes, List, [], ◌∷◌, ◌==◌, get_or, set, tabulate, foldl, u8, u64,
  ◌>>>◌, if◌then◌else◌,
}
use Rounds.{compress}

-- The members of the class. `buf` has 64 entries; those from `buflen` on are left over.
pub record Sha256 : Type 0 where
  pub state : List ℕ
  pub bitlen : ℕ  -- uint64_t
  pub buf : Bytes
  pub buflen : ℕ

abbrev pub initial_state : List ℕ
initial_state =
    0x6a09e667 ∷ 0xbb67ae85 ∷ 0x3c6ef372 ∷ 0xa54ff53a ∷ 0x510e527f ∷ 0x9b05688c ∷ 0x1f83d9ab
    ∷ 0x5be0cd19 ∷ []

-- `buf_` is left as it is.
unfoldable pub reset : Sha256 → Sha256
reset s = record s { state = initial_state; bitlen = 0; buflen = 0 }

-- A new object: the constructor calls `reset` on members with indeterminate values, `junk` in the
-- buffer among them.
unfoldable pub fresh : Bytes → Sha256
fresh junk = reset (record { state = []; bitlen = 0; buf = junk; buflen = 0 })

unfoldable pub transform : Sha256 → Sha256
transform s = record s { state = compress s.state s.buf }

-- One round of the loop of `update`.
unfoldable pub update_byte : Sha256 → ℕ → Sha256
update_byte s b =
    let stored = record s { buf = set s.buf s.buflen b; buflen = s.buflen + 1 } in
    if stored.buflen == 64
    then record (transform stored) { bitlen = u64 (stored.bitlen + 512); buflen = 0 }
    else stored

unfoldable pub update : Sha256 → Bytes → Sha256
update s [] = s
update s (b ∷ bs) = update (update_byte s b) bs

-- `while (buflen_ != 56) update(&zero, 1);`, on fuel.
unfoldable pub pad_zeros : ℕ → Sha256 → Sha256
pad_zeros zero s = s
pad_zeros (suc fuel) s =
    let rest = pad_zeros fuel (update s (0 ∷ [])) in if s.buflen == 56 then s else rest

unfoldable pub length_bytes : ℕ → Bytes
length_bytes bits = tabulate 8 0 (λ i. u8 (bits >>> (56 - i * 8)))

unfoldable pub word_bytes : ℕ → Bytes → Bytes
word_bytes w rest = u8 (w >>> 24) ∷ u8 (w >>> 16) ∷ u8 (w >>> 8) ∷ u8 w ∷ rest

-- The loop that writes `out`.
unfoldable pub digest_bytes : List ℕ → Bytes
digest_bytes [] = []
digest_bytes (w ∷ ws) = word_bytes w (digest_bytes ws)

-- `finish` before it writes `out`. No more than 63 zeros are ever needed.
unfoldable pub finish_state : Sha256 → Sha256
finish_state s =
    let bits = u64 (s.bitlen + s.buflen * 8) in
    let padded = pad_zeros 64 (update s (0x80 ∷ [])) in update padded (length_bytes bits)

unfoldable pub finish : Sha256 → Bytes
finish s = digest_bytes (finish_state s).state

-- `junk` is what the stack holds where the object is created.
unfoldable pub sha256 : Bytes → Bytes → Bytes
sha256 junk msg = finish (update (fresh junk) msg)

unfoldable pub sha256d : Bytes → Bytes → Bytes
sha256d junk msg = sha256 junk (sha256 junk msg)
