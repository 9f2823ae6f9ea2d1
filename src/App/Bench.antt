-- ===== src/App/Bench.antt =====
-- src/app/main.cpp: what `cmd_bench` sets up, and the figures of `cmd_estimate`. The log is left out.
pub mod Quiet
use minerby.Base.{
  ℕ, ◌==◌, ◌^◌, Bytes, List, [], ◌∷◌, ◌++◌, codes, take, replicate, Bool, true, false, not, ◌||◌,
  ◌&&◌, Option, none, some, if◌then◌else◌, same_bytes,
}
use minerby.Pow.Doubles.{Doubles}
use minerby.Pow.Target.{zeros32}
use minerby.Pow.RandomX.{Options}
use minerby.Miner.Job.{MiningJob, empty_job}
use minerby.App.Engine.{Engine, sha256d_stratum, randomx_monero}

-- `threads == 0`: what the machine has, or one.
abbrev pub bench_threads : (threads hardware : ℕ) → ℕ
bench_threads threads hardware =
    if threads == 0 then (if hardware == 0 then 1 else hardware) else threads

-- The hashers, the seed that the context is keyed for, and the job.
pub record Bench : Type 0 where
  pub engine : Engine
  pub seed : Bytes
  pub job : MiningJob

abbrev pub bench_job : Bytes → ℕ → MiningJob
bench_job blob offset = record empty_job { target = zeros32; blob = blob; nonce_offset = offset }

-- `none` is `return 2`. The options of RandomX but `fast_mode` have their initial values.
unfoldable pub bench_setup : Bool → Bytes → Bool → Option Bench
bench_setup with_randomx engine fast =
    if same_bytes engine (codes "sha256d")
    then some
        (record { engine = sha256d_stratum; seed = []; job = bench_job (replicate 80 0x11) 76 })
    else if same_bytes engine (codes "randomx") && with_randomx
    then some (record {
      engine =
          randomx_monero (record {
            fast_mode = fast;
            init_threads = 0;
            large_pages = false;
            secure_jit = false;
          });
      seed = replicate 32 0x2a;
      job = bench_job (replicate 76 0x11) 39;
    })
    else none

-- The figures of `cmd_estimate`.
pub record Estimate (Double : Type 0) : Type 0 where
  pub net_hashrate : Double
  pub share : Double
  pub xmr_day : Double

module _ (D : Doubles) where
  -- `none` is `return 2`.
  unfoldable pub estimate : (hashrate net_diff block_reward : D.Double) → Option (Estimate D.Double)
  estimate hashrate net_diff block_reward =
      if D.le hashrate (D.of_ℕ 0) || D.le net_diff (D.of_ℕ 0)
      then none
      else let net_hashrate = D.div net_diff (D.of_ℕ 120) in
        let share = D.div hashrate net_hashrate in
        let blocks_per_day = D.div (D.of_ℕ 86400) (D.of_ℕ 120) in
        some (record {
          net_hashrate = net_hashrate;
          share = share;
          xmr_day = D.mul (D.mul share blocks_per_day) block_reward;
        })

-- `human_hashrate`: `show` prints a `double` as `%.2f` does, and the buffer has 64 bytes.
unfoldable pub human_hashrate : (D : Doubles) → (D.Double → Bytes) → D.Double → Bytes
human_hashrate D show hs =
    let in_unit = λ (scale : ℕ) (unit : Bytes). show (D.div hs (D.of_ℕ scale)) ++ b' ' ∷ unit in
    take 63 (
      if D.le (D.of_ℕ (10 ^ 9)) hs
      then in_unit (10 ^ 9) (codes "GH/s")
      else if D.le (D.of_ℕ (10 ^ 6)) hs
      then in_unit (10 ^ 6) (codes "MH/s")
      else if D.le (D.of_ℕ (10 ^ 3)) hs
      then in_unit (10 ^ 3) (codes "kH/s")
      else show hs ++ b' ' ∷ codes "H/s")
