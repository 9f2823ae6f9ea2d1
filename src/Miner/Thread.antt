-- ===== src/Miner/Thread.antt =====
-- src/miner/worker.hpp and src/miner/worker.cpp: a thread of `MinerPool` in `run`, one step at a time.
use minerby.Base.{ℕ, ◌+◌, ◌-◌, Bytes, [], ◌≡◌, ◌≢◌, Bool, true, false, Option, none, some, u64}
use minerby.Miner.Job.{MiningJob}
use minerby.Miner.Scan.{too_short, run_chunk}

-- The members that threads share. `work_mtx_` is held in single steps only.
pub record Shared : Type 0 where
  pub running : Bool
  pub paused : Bool
  pub in_flight : ℕ
  pub hashes : ℕ
  pub work_gen : ℕ
  pub hasher_gen : ℕ
  pub work : Option MiningJob
  pub seed : ℕ  -- the seed of the context that `make_hasher_` reads

-- Where a worker stands in `run`, with the locals that live only there.
pub data Pc : Type 0 where
  exited : Pc  -- no thread, or past the loop
  starting : Pc  -- before the first `make_hasher_`
  made : Pc  -- before the first load of `hasher_gen_`
  top : Pc  -- the loop's test
  look : Pc  -- the load of `paused_`
  checked : Pc  -- the comparison of `hasher_gen_`
  remake : Pc  -- before `make_hasher_` in the loop
  remade : Pc  -- before the load of `hasher_gen_` after it
  at_work : Pc  -- the load of `work_gen_`
  loaded : (gen : ℕ) → Pc  -- a new generation, before the lock
  ready : Pc  -- before the test of the job
  entering : Pc  -- before `in_flight_` goes up
  entered : Pc  -- before the second load of `paused_`
  leaving : Pc  -- `in_flight_` is to go down again
  hashing : Pc  -- the chunk
  leave_chunk : (done : ℕ) → Pc  -- `in_flight_` is to go down
  adding : (done : ℕ) → Pc  -- `hashes_` is to go up

-- A worker's locals. `made_for` is the seed that its hasher was created with.
pub record Worker : Type 0 where
  pub pc : Pc
  pub made_for : ℕ
  pub local_hasher_gen : ℕ
  pub job : Option MiningJob
  pub local_work_gen : ℕ
  pub blob : Bytes
  pub nonce : ℕ

abbrev pub new_worker : Worker
new_worker = record {
  pc = starting;
  made_for = 0;
  local_hasher_gen = 0;
  job = none;
  local_work_gen = 0;
  blob = [];
  nonce = 0;
}

-- `local = work_; …` for the worker `index`.
unfoldable pub adopt_work : ℕ → ℕ → Option MiningJob → Worker → Worker
adopt_work index gen none w = record w { pc = ready; job = none; local_work_gen = gen }
adopt_work index gen (some j) w = record w {
  pc = ready;
  job = some j;
  local_work_gen = gen;
  blob = j.blob;
  nonce = index;
}

-- `!local || blob.size() < local->nonce_offset + 4`
abbrev pub idle_job : Option MiningJob → Bytes → Bool
idle_job none blob = true
idle_job (some j) blob = too_short blob j.nonce_offset

-- The chunk, with the digest of a hasher that was made for a seed.
unfoldable pub hash_job : (ℕ → Bytes → Bytes) → ℕ → Option MiningJob → Worker → Worker
hash_job hash threads none w = record w { pc = leave_chunk 0 }
hash_job hash threads (some j) w =
    let r = run_chunk (hash w.made_for) threads j.nonce_offset j.target w.blob w.nonce in
    record w { pc = leave_chunk r.done; blob = r.blob; nonce = r.nonce }

-- One step of the worker `index`, of `threads`.
pub data Move (hash : ℕ → Bytes → Bytes) (threads index : ℕ) (m : Shared) (w : Worker)
    : Shared → Worker → Type 0 where
  create :
      w.pc ≡ starting → Move hash threads index m w m (record w { pc = made; made_for = m.seed })
  first_gen :
      w.pc ≡ made
      → Move hash threads index m w m (record w { pc = top; local_hasher_gen = m.hasher_gen })
  go_on : w.pc ≡ top → m.running ≡ true → Move hash threads index m w m (record w { pc = look })
  quit : w.pc ≡ top → m.running ≡ false → Move hash threads index m w m (record w { pc = exited })
  sleep_paused :
      w.pc ≡ look → m.paused ≡ true → Move hash threads index m w m (record w { pc = top })
  unpaused :
      w.pc ≡ look → m.paused ≡ false → Move hash threads index m w m (record w { pc = checked })
  same_hasher :
      w.pc ≡ checked
      → m.hasher_gen ≡ w.local_hasher_gen
      → Move hash threads index m w m (record w { pc = at_work })
  new_hasher :
      w.pc ≡ checked
      → m.hasher_gen ≢ w.local_hasher_gen
      → Move hash threads index m w m (record w { pc = remake })
  recreate :
      w.pc ≡ remake → Move hash threads index m w m (record w { pc = remade; made_for = m.seed })
  next_gen :
      w.pc ≡ remade
      → Move hash threads index m w m (record w { pc = at_work; local_hasher_gen = m.hasher_gen })
  same_work :
      w.pc ≡ at_work
      → m.work_gen ≡ w.local_work_gen
      → Move hash threads index m w m (record w { pc = ready })
  new_work :
      w.pc ≡ at_work
      → m.work_gen ≢ w.local_work_gen
      → Move hash threads index m w m (record w { pc = loaded m.work_gen })
  take_work :
      {gen : ℕ} → w.pc ≡ loaded gen → Move hash threads index m w m (adopt_work index gen m.work w)
  no_job :
      w.pc ≡ ready
      → idle_job w.job w.blob ≡ true
      → Move hash threads index m w m (record w { pc = top })
  has_job :
      w.pc ≡ ready
      → idle_job w.job w.blob ≡ false
      → Move hash threads index m w m (record w { pc = entering })
  enter :
      w.pc ≡ entering
      → Move hash threads index m w
          (record m { in_flight = m.in_flight + 1 })
          (record w { pc = entered })
  back_out :
      w.pc ≡ entered → m.paused ≡ true → Move hash threads index m w m (record w { pc = leaving })
  commit :
      w.pc ≡ entered → m.paused ≡ false → Move hash threads index m w m (record w { pc = hashing })
  left :
      w.pc ≡ leaving
      → Move hash threads index m w
          (record m { in_flight = m.in_flight - 1 })
          (record w { pc = top })
  chunk : w.pc ≡ hashing → Move hash threads index m w m (hash_job hash threads w.job w)
  finish :
      {done : ℕ}
      → w.pc ≡ leave_chunk done
      → Move hash threads index m w
          (record m { in_flight = m.in_flight - 1 })
          (record w { pc = adding done })
  count :
      {done : ℕ}
      → w.pc ≡ adding done
      → Move hash threads index m w
          (record m { hashes = u64 (m.hashes + done) })
          (record w { pc = top })
