-- ===== src/Miner/Pool/Later.antt =====
-- src/miner/worker.cpp: what may follow while the pool runs on.
use minerby.Base.{ℕ, Bytes, true, ◌≡◌}
use minerby.Miner.Thread.{Shared}
use minerby.Miner.Pool.{System, Step}

-- Steps of a running pool that leave a counter of the shared members alone.
pub data Later (hash : ℕ → Bytes → Bytes) (n : ℕ) (counter : Shared → ℕ) (s : System)
    : System → Type 0 where
  now : Later hash n counter s s
  then_step :
      {t u : System}
      → Later hash n counter s t
      → Step hash n t u
      → t.mem.running ≡ true
      → counter u.mem ≡ counter t.mem
      → Later hash n counter s u
