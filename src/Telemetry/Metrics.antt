-- ===== src/Telemetry/Metrics.antt =====
-- src/telemetry/metrics.hpp and src/telemetry/metrics.cpp: the counters, the rolling hash rate, and
-- their text for Prometheus. The clock is an argument, in nanoseconds; how a stream prints a
-- `double` is a parameter.
pub mod Text
use minerby.Base.{
  ℕ, ◌+◌, ◌-◌, ◌^◌, u64, Bytes, List, [], ◌∷◌, ◌++◌, codes, Bool, ◌&&◌, if◌then◌else◌,
}
use minerby.Util.Decimal.{to_string}
use minerby.Pow.Doubles.{Doubles}

-- The members; the atomic ones are read and written one at a time.
pub record Metrics (Double : Type 0) : Type 0 where
  pub hashes : ℕ  -- uint64_t
  pub accepted : ℕ
  pub rejected : ℕ
  pub difficulty : Double
  pub start : ℕ
  pub last : ℕ
  pub last_hashes : ℕ
  pub hr_ema : Double

pub record Snapshot (Double : Type 0) : Type 0 where
  pub hashrate : Double
  pub hashes : ℕ
  pub accepted : ℕ
  pub rejected : ℕ
  pub difficulty : Double
  pub uptime_s : Double

-- `total - last_hashes_`, a difference of `uint64_t`.
abbrev pub u64_minus : ℕ → ℕ → ℕ
u64_minus a b = u64 (a + (2 ^ 64 - b))

-- Each line with its end.
abbrev pub unlines : List Bytes → Bytes
unlines [] = []
unlines (line ∷ lines) = line ++ b'\n' ∷ unlines lines

module _ (D : Doubles) where
  abbrev pub new_metrics : ℕ → Metrics D.Double
  new_metrics now = record {
    hashes = 0;
    accepted = 0;
    rejected = 0;
    difficulty = D.of_ℕ 0;
    start = now;
    last = now;
    last_hashes = 0;
    hr_ema = D.of_ℕ 0;
  }

  abbrev pub set_total_hashes : ℕ → Metrics D.Double → Metrics D.Double
  set_total_hashes n m = record m { hashes = n }

  unfoldable pub share_accepted : Metrics D.Double → Metrics D.Double
  share_accepted m = record m { accepted = u64 (m.accepted + 1) }

  unfoldable pub share_rejected : Metrics D.Double → Metrics D.Double
  share_rejected m = record m { rejected = u64 (m.rejected + 1) }

  abbrev pub set_difficulty : D.Double → Metrics D.Double → Metrics D.Double
  set_difficulty d m = record m { difficulty = d }

  -- `duration<double>(…).count()`
  abbrev pub seconds_of : ℕ → D.Double
  seconds_of nanoseconds = D.div (D.of_ℕ nanoseconds) (D.of_ℕ (10 ^ 9))

  -- `x == 0.0`
  abbrev pub is_zero : D.Double → Bool
  is_zero x = D.le x (D.of_ℕ 0) && D.le (D.of_ℕ 0) x

  -- `0.6 * ema + 0.4 * inst`: a quotient is rounded as the literal is.
  abbrev pub smoothed : D.Double → D.Double → D.Double
  smoothed ema inst =
      D.add (D.mul (D.div (D.of_ℕ 3) (D.of_ℕ 5)) ema) (D.mul (D.div (D.of_ℕ 2) (D.of_ℕ 5)) inst)

  -- The `if` block of `snapshot`: the window moves on.
  unfoldable pub advance : ℕ → Metrics D.Double → Metrics D.Double
  advance now m =
      let dt = seconds_of (now - m.last) in
      let inst = D.div (D.of_ℕ (u64_minus m.hashes m.last_hashes)) dt in
      if D.lt (D.of_ℕ 0) dt
      then record m {
        hr_ema = if is_zero m.hr_ema then inst else smoothed m.hr_ema inst;
        last = now;
        last_hashes = m.hashes;
      }
      else m

  -- The snapshot is of the members that `advance` leaves.
  unfoldable pub snapshot : ℕ → Metrics D.Double → Metrics D.Double × Snapshot D.Double
  snapshot now m =
      let n = advance now m in
      (
        n,
        record {
          hashrate = n.hr_ema;
          hashes = n.hashes;
          accepted = n.accepted;
          rejected = n.rejected;
          difficulty = n.difficulty;
          uptime_s = seconds_of (now - n.start);
        },
      )

  -- The lines of `prometheus`; `show` prints a `double`.
  abbrev pub prometheus_lines : (D.Double → Bytes) → Snapshot D.Double → List Bytes
  prometheus_lines show s =
      codes "# HELP minerby_hashrate Current hashrate in hashes per second"
      ∷ codes "# TYPE minerby_hashrate gauge"
      ∷ (codes "minerby_hashrate " ++ show s.hashrate)
      ∷ codes "# HELP minerby_hashes_total Cumulative hashes computed"
      ∷ codes "# TYPE minerby_hashes_total counter"
      ∷ (codes "minerby_hashes_total " ++ to_string s.hashes)
      ∷ codes "# HELP minerby_shares_accepted_total Accepted shares"
      ∷ codes "# TYPE minerby_shares_accepted_total counter"
      ∷ (codes "minerby_shares_accepted_total " ++ to_string s.accepted)
      ∷ codes "# HELP minerby_shares_rejected_total Rejected shares"
      ∷ codes "# TYPE minerby_shares_rejected_total counter"
      ∷ (codes "minerby_shares_rejected_total " ++ to_string s.rejected)
      ∷ codes "# HELP minerby_difficulty Current share difficulty"
      ∷ codes "# TYPE minerby_difficulty gauge"
      ∷ (codes "minerby_difficulty " ++ show s.difficulty)
      ∷ codes "# HELP minerby_uptime_seconds Process uptime"
      ∷ codes "# TYPE minerby_uptime_seconds gauge"
      ∷ (codes "minerby_uptime_seconds " ++ show s.uptime_s)
      ∷ []

  unfoldable pub prometheus : (D.Double → Bytes) → ℕ → Metrics D.Double → Metrics D.Double × Bytes
  prometheus show now m = let (n, s) = snapshot now m in (n, unlines (prometheus_lines show s))
