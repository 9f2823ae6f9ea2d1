-- ===== src/Miner/Job.antt =====
-- src/miner/job.hpp: a unit of work, whichever protocol it came by.
use minerby.Base.{ℕ, Bytes, []}
use minerby.Pow.Target.{zeros32}

pub record MiningJob : Type 0 where
  pub blob : Bytes
  pub nonce_offset : ℕ  -- uint32_t
  pub target : Bytes
  pub job_id : Bytes
  pub generation : ℕ  -- uint64_t
  pub extranonce2_hex : Bytes
  pub ntime_hex : Bytes

-- A `MiningJob` with the members' initial values.
abbrev pub empty_job : MiningJob
empty_job = record {
  blob = [];
  nonce_offset = 0;
  target = zeros32;
  job_id = [];
  generation = 0;
  extranonce2_hex = [];
  ntime_hex = [];
}
