-- ===== src/App/Totals.antt =====
-- src/app/main.cpp: `persist`, the lifetime statistics that a run saves from time to time.
pub mod Sessions
use minerby.Base.{ℕ, ◌+◌, u64, Bytes, List, [], ◌∷◌, ◌++◌, foldl, true}
use minerby.Json.{JsonLib}
use minerby.Pow.Doubles.{Doubles}
use minerby.Telemetry.StatsStore.{LifetimeStats, Disk, load, save, all_succeed}

-- What one run has counted so far.
pub record Counted (Double : Type 0) : Type 0 where
  pub accepted : ℕ  -- metrics.accepted(), uint64_t
  pub rejected : ℕ
  pub hashes : ℕ  -- pool.total_hashes()
  pub elapsed : Double

module _ (D : Doubles) (J : JsonLib D.Double) where
  -- The totals with this run's: `base` is what was loaded at its start.
  unfoldable pub added : LifetimeStats D.Double → Counted D.Double → LifetimeStats D.Double
  added base n = record {
    accepted = u64 (base.accepted + n.accepted);
    rejected = u64 (base.rejected + n.rejected);
    hashes = u64 (base.hashes + n.hashes);
    uptime_s = D.add base.uptime_s n.elapsed;
    sessions = u64 (base.sessions + 1);
  }

  -- A call of `persist`, where the calls of the system succeed.
  unfoldable pub persist : LifetimeStats D.Double → Disk → Counted D.Double → Disk
  persist base d n = save J (D.of_ℕ 0) all_succeed (added base n) d

  -- A run: it loads the totals once, saves them from time to time, and at its end.
  unfoldable pub session : Disk → List (Counted D.Double) → Counted D.Double → Disk
  session d during final =
      let base = load J (D.of_ℕ 0) d in persist base (foldl (persist base) d during) final
