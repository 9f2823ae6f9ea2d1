-- ===== src/Miner/Pool/Pause.antt =====
-- src/miner/worker.cpp: what `pause` guarantees while the hashers' context is changed.
use minerby.Base.{ℕ, ◌≤◌, ◌<◌, Bytes, true, ◌≡◌, ◌≢◌, arith}
use minerby.Miner.Thread.{hashing}
use minerby.Miner.Pool.{System, quiet, Reach}
use minerby.Miner.Pool.Count.{tally, tally-le}
use minerby.Miner.Pool.Effect.{busy_worker}
use minerby.Miner.Pool.Invariant.{Reach-Inv}

-- With sequentially consistent accesses: from the return of `pause` on a running pool to the call of `resume`, no worker is inside a
-- chunk: no hasher computes a digest while the context is re-keyed, for any number of threads and
-- any interleaving.
pub quiet_pool :
    {hash : ℕ → Bytes → Bytes} {n : ℕ} {s : System}
    → Reach hash n s
    → s.owner ≡ quiet
    → s.mem.running ≡ true
    → (s.mem.paused ≡ true) × ((i : ℕ) → i < n → (s.workers i).pc ≢ hashing)
quiet_pool r e run =
    let v = Reach-Inv r in
    (v.held (ground arith), λ i lt h. absurd (ground (arith, v.calm e run i lt)))

-- The counter never exceeds the number of threads, nor wraps below zero: it is the number of
-- workers between its two updates.
pub in_flight_exact :
    {hash : ℕ → Bytes → Bytes} {n : ℕ} {s : System}
    → Reach hash n s
    → (s.mem.in_flight ≡ tally busy_worker n s.workers) × (s.mem.in_flight ≤ n)
in_flight_exact {n} {s} r =
    let v = Reach-Inv r in
    (v.counted, omega (arith, v.counted, tally-le busy_worker n s.workers (λ i. ground arith)))
