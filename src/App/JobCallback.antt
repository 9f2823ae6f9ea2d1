-- ===== src/App/JobCallback.antt =====
-- src/app/main.cpp: the callback `on_job` of `cmd_run` in a build with RandomX, as the calls that it
-- makes. Only the thread that makes them starts and stops the workers.
pub mod Order
use minerby.Base.{
  ℕ, Bytes, List, [], ◌∷◌, ◌++◌, Bool, true, false, not, ◌&&◌, Option, none, some, if◌then◌else◌,
  same_bytes,
}
use minerby.Pow.Doubles.{Doubles}
use minerby.Pow.Target.Difficulty.{target_from_difficulty64}
use minerby.Miner.Job.{MiningJob}

-- A call of a method of the pool, the context or the metrics.
pub data Call : Type 0 where
  pause : Call
  ensure_seed : (seed : Bytes) → Call
  rebuild_hashers : Call
  resume : Call
  start : Call
  set_work : (job : MiningJob) → Call
  show_difficulty : Call

-- The calls, and the `current_seed` that they leave.
pub record Called : Type 0 where
  pub calls : List Call
  pub current_seed : Bytes

abbrev pub is_nil : Bytes → Bool
is_nil [] = true
is_nil (b ∷ bs) = false

-- `if (test_share_diff > 0.0)`
unfoldable pub retargeted : (D : Doubles) → D.Double → MiningJob → MiningJob
retargeted D share_diff job =
    if D.lt (D.of_ℕ 0) share_diff
    then record job { target = target_from_difficulty64 D share_diff }
    else job

-- `!seed.empty() && seed != current_seed`
abbrev pub needs_key : Bytes → Bytes → Bool
needs_key seed current = not (is_nil seed) && not (same_bytes seed current)

unfoldable pub rekey_calls : Bool → Bytes → List Call
rekey_calls true seed = pause ∷ ensure_seed seed ∷ rebuild_hashers ∷ resume ∷ []
rekey_calls false seed = ensure_seed seed ∷ []

-- `running` is `pool.running()`.
unfoldable pub handle_job : (D : Doubles) → D.Double → Bool → Bytes → MiningJob → Bytes → Called
handle_job D share_diff running current job seed = record {
  calls =
      (if needs_key seed current then rekey_calls running seed else [])
      ++ ((if running then [] else start ∷ [])
          ++ set_work (retargeted D share_diff job) ∷ show_difficulty ∷ []);
  current_seed = if needs_key seed current then seed else current;
}

-- What the calls change in the pool and the context, as the thread that makes them sees it: whether
-- the workers run, whether they are paused, the job that they have, the seed of the context.
pub record Workers : Type 0 where
  pub running : Bool
  pub paused : Bool
  pub job : Option MiningJob
  pub seed : Bytes

unfoldable pub do_call : Workers → Call → Workers
do_call w pause = record w { paused = true }
do_call w (ensure_seed s) = record w { seed = s }
do_call w rebuild_hashers = w
do_call w resume = record w { paused = false }
do_call w start = record w { running = true }
do_call w (set_work j) = record w { job = some j }
do_call w show_difficulty = w
