-- ===== src/Miner/Scan.antt =====
-- src/miner/worker.cpp: what one worker does between two looks at the shared state, the chunk of
-- hashes in `MinerPool::run`.
pub mod Nonces
pub mod Shares
use minerby.Base.{
  ℕ, zero, suc, ◌+◌, Bytes, List, [], ◌∷◌, ◌++◌, set, u8, u32, ◌>>>◌, ltb, Bool, true, false,
  if◌then◌else◌, length, leb,
}
use minerby.Pow.Target.{meets_target}

-- `blob[off + 0] = nonce; …`, the least significant byte first.
unfoldable pub splice : Bytes → ℕ → ℕ → Bytes
splice blob off nonce =
    set
      (set (set (set blob (off + 0) (u8 nonce)) (off + 1) (u8 (nonce >>> 8))) (off + 2)
        (u8 (nonce >>> 16)))
      (off + 3) (u8 (nonce >>> 24))

-- A call of `on_share`.
pub record Share : Type 0 where
  pub nonce : ℕ
  pub digest : Bytes

-- The locals that the loop changes, and the calls of `on_share` that it makes.
pub record Chunk : Type 0 where
  pub blob : Bytes
  pub nonce : ℕ
  pub done : ℕ
  pub shares : List Share

-- `kChunk`
abbrev pub chunk_size : ℕ
chunk_size = 16

-- `blob.size() < local->nonce_offset + 4` in 32 bits: such a job is not hashed.
unfoldable pub too_short : Bytes → ℕ → Bool
too_short blob off = ltb (length blob) (u32 (off + 4))

module _ (hash : Bytes → Bytes) (threads off : ℕ) (target : Bytes) where
  unfoldable pub report : ℕ → Bytes → List Share
  report nonce digest =
      if meets_target digest target then record { nonce = nonce; digest = digest } ∷ [] else []

  -- The loop, with `left` rounds to go: it ends early where the nonce wraps.
  unfoldable pub scan : ℕ → Bytes → ℕ → Chunk
  scan zero blob nonce = record { blob = blob; nonce = nonce; done = 0; shares = [] }
  scan (suc left) blob nonce =
      let filled = splice blob off nonce in
      let found = report nonce (hash filled) in
      let next = u32 (nonce + threads) in
      let rest = scan left filled next in
      if ltb next threads
      then record { blob = filled; nonce = next; done = 1; shares = found }
      else record {
        blob = rest.blob;
        nonce = rest.nonce;
        done = suc rest.done;
        shares = found ++ rest.shares;
      }

  unfoldable pub run_chunk : Bytes → ℕ → Chunk
  run_chunk blob nonce = scan chunk_size blob nonce
