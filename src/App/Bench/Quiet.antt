-- ===== src/App/Bench/Quiet.antt =====
-- src/app/main.cpp: the job of the benchmark.
use minerby.Base.{
  ℕ, ◌≤◌, ◌<◌, ◌^◌, Bytes, All, IsBytes, Bool, false, some, ◌≡◌, refl, sym, subst, arith, codes,
  same_bytes, if_split, some-injective, ◌&&◌, replicate,
}
use minerby.Pow.Target.{zeros32}
use minerby.Pow.Target.Compare.{value, value_below, meets_target_iff}
use minerby.Miner.Job.{MiningJob}
use minerby.Miner.Scan.{chunk_size, too_short, splice, run_chunk}
use minerby.Miner.Scan.Shares.{scan-IsScan}
use minerby.App.Shares.{All-hits}
use minerby.App.Bench.{Bench, bench_job, bench_setup}

-- A job that the workers hash and that only a digest of zeros meets.
pub record IsQuiet (digest_of : Bytes → Bytes) (threads nonce : ℕ) (j : MiningJob) : Type 0 where
  pub hashed : too_short j.blob j.nonce_offset ≡ false
  pub silent :
      All
        (λ s. value s.digest ≡ 0)
        (run_chunk digest_of threads j.nonce_offset j.target j.blob nonce).shares

zeros32-IsBytes : IsBytes zeros32
zeros32-IsBytes = omega arith

value-zeros32 : value zeros32 ≡ 0
unfolding value_below
value-zeros32 = refl

bench_job-IsQuiet :
    (digest_of : Bytes → Bytes) (threads nonce : ℕ) (blob : Bytes) (offset : ℕ)
    → ((x : Bytes) → IsBytes (digest_of x))
    → 0 < threads
    → threads < 2 ^ 32
    → nonce < 2 ^ 32
    → too_short blob offset ≡ false
    → IsQuiet digest_of threads nonce (bench_job blob offset)
unfolding run_chunk
bench_job-IsQuiet digest_of threads nonce blob offset bytes pos few lt long =
    let scanned = scan-IsScan digest_of threads offset zeros32 chunk_size blob nonce pos few lt in
    record {
      hashed = long;
      silent = subst (All (λ s. value s.digest ≡ 0)) (sym scanned.tried) (
          All-hits digest_of threads offset zeros32 (λ s. value s.digest ≡ 0) blob _
            (λ n hit.
              let x = digest_of (splice blob offset n) in
              let low : value x ≤ value zeros32 =
                (meets_target_iff x zeros32 (bytes (splice blob offset n)) zeros32-IsBytes).0 hit in
              omega (arith, low, value-zeros32)));
    }

-- Whatever engine is benchmarked, with any hasher whose digests are bytes, any number of threads and
-- from any nonce: the job is hashed, and a chunk on it reports no share but one whose digest is
-- zero.
pub bench_setup-IsQuiet :
    (with_randomx : Bool) (engine : Bytes) (fast : Bool) (b : Bench) (digest_of : Bytes → Bytes)
    (threads nonce : ℕ)
    → bench_setup with_randomx engine fast ≡ some b
    → ((x : Bytes) → IsBytes (digest_of x))
    → 0 < threads
    → threads < 2 ^ 32
    → nonce < 2 ^ 32
    → IsQuiet digest_of threads nonce b.job
unfolding bench_setup too_short
bench_setup-IsQuiet with_randomx engine fast b digest_of threads nonce h bytes pos few lt =
    if_split (same_bytes engine (codes "sha256d"))
      (λ _ e.
        subst (λ x. IsQuiet digest_of threads nonce x.job) (some-injective e)
          (bench_job-IsQuiet digest_of threads nonce (replicate 80 0x11) 76 bytes pos few lt refl))
      (λ _.
        if_split (same_bytes engine (codes "randomx") && with_randomx)
          (λ _ e.
            subst (λ x. IsQuiet digest_of threads nonce x.job) (some-injective e)
              (bench_job-IsQuiet digest_of threads nonce (replicate 76 0x11) 39 bytes pos few lt
                refl))
          (λ _ e. cc))
      h
