-- ===== src/Miner/Pool.antt =====
-- src/miner/worker.hpp and src/miner/worker.cpp: `MinerPool`, its threads as interleaved steps. Each
-- access to an atomic member, and each critical section of the mutex, is one step (sequential
-- consistency). A chunk of hashes touches no shared member, and is one step too.
pub mod Count
pub mod Effect
pub mod Invariant
pub mod Pause
pub mod Drain
pub mod Later
pub mod Stale
pub mod Rekey
use minerby.Base.{
  ℕ, zero, suc, ◌+◌, ◌-◌, ◌<◌, Bytes, List, [], ◌≡◌, ◌≢◌, Bool, true, false, Option, none, some,
  u64, ◌==◌, if◌then◌else◌,
}
use minerby.Miner.Job.{MiningJob}
use minerby.Miner.Scan.{Chunk, too_short, run_chunk}
use minerby.Miner.Thread.{
  Shared, Pc, Worker, new_worker, adopt_work, idle_job, hash_job, Move, exited, starting, made, top,
  look, checked, remake, remade, at_work, loaded, ready, entering, entered, leaving, hashing,
  leave_chunk, adding, create, first_gen, go_on, quit, sleep_paused, unpaused, same_hasher,
  new_hasher, recreate, next_gen, same_work, new_work, take_work, no_job, has_job, enter, back_out,
  commit, left, chunk, finish, count,
}

-- Where the thread that owns the pool stands.
pub data Owner : Type 0 where
  idle : Owner  -- in no method
  storing : (job : Option MiningJob) → Owner  -- `set_work` or `clear_work`, before the lock
  pausing : Owner  -- the loop of `pause`
  quiet : Owner  -- after `pause`, before `resume`
  stopping : Owner  -- `stop`, before `paused_` is stored
  joining : Owner  -- `stop`, at the joins

pub record System : Type 0 where
  pub mem : Shared
  pub owner : Owner
  pub workers : ℕ → Worker

abbrev pub update {ℓ} : {A : Type ℓ} → (ℕ → A) → ℕ → A → ℕ → A
update f i a j = if i == j then a else f j

-- `work` as `set_work` stores it: with the generation that the counter has reached.
abbrev pub stamped : ℕ → MiningJob → MiningJob
stamped gen j = record j { generation = gen }

-- `n` workers. An index from `n` on names no thread.
pub data Step (hash : ℕ → Bytes → Bytes) (n : ℕ) (s : System) : System → Type 0 where
  worker :
      (i : ℕ) {m : Shared} {w : Worker}
      → i < n
      → Move hash n i s.mem (s.workers i) m w
      → Step hash n s (record s { mem = m; workers = update s.workers i w })
  start :
      s.owner ≡ idle
      → s.mem.running ≡ false
      → Step hash n s
          (record s { mem = record (s.mem) { running = true }; workers = λ _. new_worker })
  stop :
      s.owner ≡ idle
      → s.mem.running ≡ true
      → Step hash n s (record s { mem = record (s.mem) { running = false }; owner = stopping })
  stop_unpause :
      s.owner ≡ stopping
      → Step hash n s (record s { mem = record (s.mem) { paused = false }; owner = joining })
  join :
      s.owner ≡ joining
      → ((i : ℕ) → i < n → (s.workers i).pc ≡ exited)
      → Step hash n s (record s { owner = idle })
  set_work :
      (j : MiningJob)
      → s.owner ≡ idle
      → Step hash n s (record s {
        mem = record (s.mem) { work_gen = u64 (s.mem.work_gen + 1) };
        owner = storing (some (stamped (u64 (s.mem.work_gen + 1)) j));
      })
  clear_work :
      s.owner ≡ idle
      → Step hash n s (record s {
        mem = record (s.mem) { work_gen = u64 (s.mem.work_gen + 1) };
        owner = storing none;
      })
  store :
      {o : Option MiningJob}
      → s.owner ≡ storing o
      → Step hash n s (record s { mem = record (s.mem) { work = o }; owner = idle })
  pause :
      s.owner ≡ idle
      → Step hash n s (record s { mem = record (s.mem) { paused = true }; owner = pausing })
  pause_done :
      s.owner ≡ pausing
      → s.mem.running ≡ true
      → s.mem.in_flight ≡ 0
      → Step hash n s (record s { owner = quiet })
  pause_stopped :
      s.owner ≡ pausing → s.mem.running ≡ false → Step hash n s (record s { owner = quiet })
  rekey : (k : ℕ) → s.owner ≡ quiet → Step hash n s (record s { mem = record (s.mem) { seed = k } })
  first_key :
      (k : ℕ)
      → s.owner ≡ idle
      → s.mem.running ≡ false
      → Step hash n s (record s { mem = record (s.mem) { seed = k } })
  rebuild :
      s.owner ≡ quiet
      → Step hash n s
          (record s { mem = record (s.mem) { hasher_gen = u64 (s.mem.hasher_gen + 1) } })
  resume :
      s.owner ≡ quiet
      → Step hash n s (record s { mem = record (s.mem) { paused = false }; owner = idle })

-- A pool as it is constructed.
abbrev pub init : System
init = record {
  mem = record {
    running = false;
    paused = false;
    in_flight = 0;
    hashes = 0;
    work_gen = 0;
    hasher_gen = 0;
    work = none;
    seed = 0;
  };
  owner = idle;
  workers = λ _. record new_worker { pc = exited };
}

pub data Reach (hash : ℕ → Bytes → Bytes) (n : ℕ) : System → Type 0 where
  here : Reach hash n init
  next : {s t : System} → Reach hash n s → Step hash n s t → Reach hash n t
