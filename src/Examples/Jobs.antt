-- ===== src/Examples/Jobs.antt =====
-- src/app/main.cpp at a concrete job.
use minerby.Base.{Bytes, [], replicate, true, false, none, some, ◌≡◌, ◌≢◌}
use minerby.Miner.Job.{empty_job}
use minerby.App.JobCallback.{handle_job, retargeted}
use minerby.App.JobCallback.Order.{follow, handle_job-follow}
use minerby.Examples.Numbers.{whole}

abbrev old_seed : Bytes
old_seed = replicate 32 1

abbrev new_seed : Bytes
new_seed = replicate 32 2

-- A new seed while the workers run.
handle_job-follow_example :
    let r = handle_job whole 0 true old_seed empty_job new_seed in
    (follow r.calls (record { running = true; paused = false; job = none; seed = old_seed })
      ≡ some (record {
        running = true;
        paused = false;
        job = some (retargeted whole 0 empty_job);
        seed = r.current_seed;
      }))
    × (new_seed ≢ [] → r.current_seed ≡ new_seed)
handle_job-follow_example = handle_job-follow whole 0 true none old_seed empty_job new_seed
