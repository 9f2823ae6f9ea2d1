-- ===== src/Examples/Mining.antt =====
-- src/miner/worker.cpp at concrete jobs and schedules.
use minerby.Base.{
  ℕ, ◌+◌, ◌*◌, ◌/◌, ◌%◌, ◌^◌, ◌≤◌, ◌<◌, ◌≡◌, ◌≢◌, ◌↔◌, refl, arith, Bytes, replicate, none, some,
  true, false, ltb, u32, ◌⊎◌,
}
use minerby.Pow.Target.{ones32}
use minerby.Miner.Job.{empty_job}
use minerby.Miner.Scan.{scan}
use minerby.Miner.Scan.Nonces.{wrap_iff, nonce_owner}
use minerby.Miner.Scan.Shares.{IsScan, scan-IsScan}
use minerby.Miner.Thread.{hashing, create, first_gen, Shared, Worker, Move}
use minerby.Miner.Pool.{
  System, idle, quiet, stamped, Reach, here, next, start, pause, pause_done, worker, pausing, Step,
}
use minerby.Miner.Pool.Drain.{Waits, asleep, moved, pause-returns}
use minerby.Miner.Pool.Effect.{busy}
use minerby.Miner.Pool.Pause.{quiet_pool}
use minerby.Miner.Pool.Later.{Later}
use minerby.Miner.Pool.Stale.{set_work_missed}
use minerby.Miner.Pool.Rekey.{rebuild_missed}

-- A chunk that meets the end of the nonces.
scan-IsScan_example :
    IsScan
      (λ b. b)
      4
      39
      ones32
      16
      (replicate 43 1)
      4294967290
      (scan (λ b. b) 4 39 ones32 16 (replicate 43 1) 4294967290)
scan-IsScan_example =
    scan-IsScan (λ b. b) 4 39 ones32 16 (replicate 43 1) 4294967290 (omega arith) (omega arith)
      (omega arith)

wrap_iff_example : (ltb (u32 (4294967295 + 4)) 4 ≡ true) ↔ (2 ^ 32 ≤ 4294967295 + 4)
wrap_iff_example = wrap_iff 4294967295 4 (omega arith) (omega arith)

nonce_owner_example :
    (10 % 4 < 4) × (10 ≡ 10 % 4 + 10 / 4 * 4) × ((i k : ℕ) → i < 4 → 10 ≡ i + k * 4 → i ≡ 10 % 4)
nonce_owner_example = nonce_owner 4 10 (omega arith)

abbrev digest : ℕ → Bytes → Bytes
digest seed blob = replicate 32 seed

-- Two threads are started, one of them has its hasher, and the owner pauses.
pausing_run : (s : System) × Reach digest 2 s × (s.owner ≡ pausing) × (s.mem.running ≡ true)
pausing_run = (
  _,
  next (next (next here (start refl refl)) (worker 1 (omega arith) (create refl))) (pause refl),
  refl,
  refl,
)

-- The owner sees that the counter is zero.
paused_run : (s : System) × Reach digest 2 s × (s.owner ≡ quiet) × (s.mem.running ≡ true)
unfolding pausing_run
paused_run = (_, next (pausing_run.1) (pause_done refl refl refl), refl, refl)

quiet_pool_example :
    (paused_run.0.mem.paused ≡ true) × ((i : ℕ) → i < 2 → (paused_run.0.workers i).pc ≢ hashing)
quiet_pool_example = quiet_pool paused_run.1 paused_run.2 paused_run.3

-- The same thread goes on.
first_wait : (t : System) × Waits digest 2 (pausing_run.0) 1 t
unfolding pausing_run
first_wait = (_, moved asleep 1 (omega arith) (first_gen refl))

pause-returns_example :
    (1 ≤ 2 * 9)
    × (Step digest 2 (first_wait.0) (record (first_wait.0) { owner = quiet })
        ⊎ ((i : ℕ) × (i < 2)
            × (busy (first_wait.0.workers i).pc ≢ 0)
            × ((m : Shared) × ((w : Worker) × Move digest 2 i
                    (first_wait.0.mem)
                    (first_wait.0.workers i)
                    m
                    w))))
pause-returns_example = pause-returns (pausing_run.1) (pausing_run.2) (pausing_run.3) (first_wait.1)

set_work_missed_example :
    (s : System) × Reach digest 2 s
    × (s.owner ≡ idle)
    × (s.mem.running ≡ true)
    × (s.mem.work ≡ some (stamped 1 empty_job))
    × ((t : System) → Later digest 2 (λ m. m.work_gen) s t → (t.workers 0).job ≡ none)
set_work_missed_example = set_work_missed digest 2 empty_job (omega arith)

rebuild_missed_example :
    (s : System) × Reach digest 2 s
    × (s.owner ≡ idle)
    × (s.mem.running ≡ true)
    × (s.mem.paused ≡ false)
    × (s.mem.seed ≡ 5)
    × ((t : System) → Later digest 2 (λ m. m.hasher_gen) s t → (t.workers 0).made_for ≡ 0)
rebuild_missed_example = rebuild_missed digest 2 5 (omega arith)
