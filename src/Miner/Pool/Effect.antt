-- ===== src/Miner/Pool/Effect.antt =====
-- src/miner/worker.cpp: what a step of a worker does to the counter and to the flags.
use minerby.Base.{ℕ, ◌+◌, ◌≤◌, Bytes, Bool, true, false, ◌≡◌, ◌⊎◌, refl, arith, Option, none, some}
use minerby.Miner.Job.{MiningJob}
use minerby.Miner.Thread.{
  Shared, Pc, exited, ready, entered, leaving, hashing, leave_chunk, Worker, adopt_work, hash_job,
  Move, create, first_gen, go_on, quit, sleep_paused, unpaused, same_hasher, new_hasher, recreate,
  next_gen, same_work, new_work, take_work, no_job, has_job, enter, back_out, commit, left, chunk,
  finish, count,
}

-- Counted in `in_flight_`.
abbrev pub busy : Pc → ℕ
busy entered = 1
busy leaving = 1
busy hashing = 1
busy (leave_chunk _) = 1
busy _ = 0

-- Using its hasher, or just done with it and still counted.
abbrev pub deep : Pc → Bool
deep hashing = true
deep (leave_chunk _) = true
deep _ = false

abbrev pub busy_worker : Worker → ℕ
busy_worker w = busy w.pc

abbrev pub is_gone : Pc → Bool
is_gone exited = true
is_gone _ = false

pub adopt_work-pc :
    (i gen : ℕ) (o : Option MiningJob) (w : Worker) → (adopt_work i gen o w).pc ≡ ready
unfolding adopt_work
adopt_work-pc i gen none w = refl
adopt_work-pc i gen (some j) w = refl

pub hash_job-pc :
    (hash : ℕ → Bytes → Bytes) (threads : ℕ) (o : Option MiningJob) (w : Worker)
    → (d : ℕ) × ((hash_job hash threads o w).pc ≡ leave_chunk d)
unfolding hash_job
hash_job-pc hash threads none w = (0, refl)
hash_job-pc hash threads (some j) w = (_, refl)

pub record Effect (m : Shared) (w : Worker) (m' : Shared) (w' : Worker) : Type 0 where
  pub flags : (m'.running ≡ m.running) × (m'.paused ≡ m.paused)
  pub counted : busy w.pc ≤ m.in_flight → m'.in_flight + busy w.pc ≡ m.in_flight + busy w'.pc
  pub went_deep : deep w'.pc ≡ true → (deep w.pc ≡ true) ⊎ (m.paused ≡ false)
  pub was_here : is_gone w.pc ≡ false

pub Move-Effect :
    {hash : ℕ → Bytes → Bytes} {threads i : ℕ} {m m' : Shared} {w w' : Worker}
    → Move hash threads i m w m' w'
    → Effect m w m' w'
Move-Effect (create e) = ground arith
Move-Effect (first_gen e) = ground arith
Move-Effect (go_on e r) = ground arith
Move-Effect (quit e r) = ground arith
Move-Effect (sleep_paused e p) = ground arith
Move-Effect (unpaused e p) = ground arith
Move-Effect (same_hasher e h) = ground arith
Move-Effect (new_hasher e h) = ground arith
Move-Effect (recreate e) = ground arith
Move-Effect (next_gen e) = ground arith
Move-Effect (same_work e h) = ground arith
Move-Effect (new_work e h) = ground arith
Move-Effect {i} {m} {w} (take_work {gen} e) = ground (arith, adopt_work-pc i gen m.work w)
Move-Effect (no_job e j) = ground arith
Move-Effect (has_job e j) = ground arith
Move-Effect (enter e) = ground arith
Move-Effect (back_out e p) = ground arith
Move-Effect (commit e p) = ground arith
Move-Effect (left e) = ground arith
Move-Effect {hash} {threads} {w} (chunk e) = ground (arith, hash_job-pc hash threads w.job w)
Move-Effect (finish e) = ground arith
Move-Effect (count e) = ground arith
