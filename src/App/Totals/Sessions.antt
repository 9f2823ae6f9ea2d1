-- ===== src/App/Totals/Sessions.antt =====
-- src/app/main.cpp: what the statistics file has after any number of runs.
use minerby.Base.{
  ℕ, suc, ◌+◌, ◌%◌, ◌^◌, ◌<◌, u64, length, List, [], ◌∷◌, All, some, ◌≡◌, refl, sym, subst, ap, ◌∙◌,
  arith,
}
use minerby.Json.{JsonLib, IsObjectLib}
use minerby.Pow.Doubles.{Doubles}
use minerby.Telemetry.StatsStore.{LifetimeStats, Disk, stats_text, stats_json, load}
use minerby.Telemetry.StatsStore.Crash.{IsCounted, load-save}
use minerby.App.Totals.{Counted, added, persist, session}

module _ (D : Doubles) (J : JsonLib D.Double) where
  -- A run: what it had counted at each save but the last, and at the last.
  abbrev pub Ran : Type 0
  Ran = List (Counted D.Double) × Counted D.Double

  abbrev pub sessions : Disk → List Ran → Disk
  sessions d [] = d
  sessions d ((during, final) ∷ more) = sessions (session D J d during final) more

  -- The totals after each run.
  abbrev pub totals_after : LifetimeStats D.Double → List Ran → List (LifetimeStats D.Double)
  totals_after base [] = []
  totals_after base ((during, final) ∷ more) =
      added D J base final ∷ totals_after (added D J base final) more

  abbrev pub total : LifetimeStats D.Double → List Ran → LifetimeStats D.Double
  total base [] = base
  total base ((during, final) ∷ more) = total (added D J base final) more

  -- The text of the totals is read back as the value that was printed.
  abbrev pub ReadsBack : LifetimeStats D.Double → Type 0
  ReadsBack s = J.read (stats_text J (D.of_ℕ 0) s) ≡ some (stats_json J (D.of_ℕ 0) s)

  added-IsCounted :
      (base : LifetimeStats D.Double) (n : Counted D.Double) → IsCounted (added D J base n)
  unfolding added
  added-IsCounted base n = record {
    accepted = omega arith;
    rejected = omega arith;
    hashes = omega arith;
    sessions = omega arith;
  }

  session-total :
      (d : Disk) (during : List (Counted D.Double)) (final : Counted D.Double)
      → IsObjectLib J
      → ReadsBack (added D J (load J (D.of_ℕ 0) d) final)
      → load J (D.of_ℕ 0) (session D J d during final) ≡ added D J (load J (D.of_ℕ 0) d) final
  unfolding session persist
  session-total d during final laws back =
      load-save J (D.of_ℕ 0) laws _ _ (added-IsCounted (load J (D.of_ℕ 0) d) final) back

  -- What the runs have counted at their last saves, summed.
  abbrev pub sum_of : (Counted D.Double → ℕ) → List Ran → ℕ
  sum_of count [] = 0
  sum_of count ((during, final) ∷ more) = count final + sum_of count more

  abbrev pub uptime_after : D.Double → List Ran → D.Double
  uptime_after t [] = t
  uptime_after t ((during, final) ∷ more) = uptime_after (D.add t final.elapsed) more

  -- The sums on top of `base`, in 64 bits.
  abbrev pub summed : LifetimeStats D.Double → List Ran → LifetimeStats D.Double
  summed base runs = record {
    accepted = (base.accepted + sum_of (λ n. n.accepted) runs) % 2 ^ 64;
    rejected = (base.rejected + sum_of (λ n. n.rejected) runs) % 2 ^ 64;
    hashes = (base.hashes + sum_of (λ n. n.hashes) runs) % 2 ^ 64;
    uptime_s = uptime_after base.uptime_s runs;
    sessions = (base.sessions + length runs) % 2 ^ 64;
  }

  carry : (b n rest : ℕ) → (u64 (b + n) + rest) % 2 ^ 64 ≡ (b + (n + rest)) % 2 ^ 64
  carry b n rest = omega arith

  summed-added :
      (base : LifetimeStats D.Double) (during : List (Counted D.Double)) (final : Counted D.Double)
      (more : List Ran)
      → summed (added D J base final) more ≡ summed base ((during, final) ∷ more)
  unfolding added
  summed-added base during final more =
      rw
        (
          carry base.accepted final.accepted (sum_of (λ n. n.accepted) more),
          carry base.rejected final.rejected (sum_of (λ n. n.rejected) more),
          carry base.hashes final.hashes (sum_of (λ n. n.hashes) more),
          sessions_carry,
        )
        refl
    where
      sessions_carry :
          (u64 (base.sessions + 1) + length more) % 2 ^ 64
          ≡ (base.sessions + suc (length more)) % 2 ^ 64
      sessions_carry = omega arith

  total-summed :
      (base : LifetimeStats D.Double) (runs : List Ran)
      → IsCounted base
      → total base runs ≡ summed base runs
  total-summed base [] c =
      rw (small c.accepted, small c.rejected, small c.hashes, small c.sessions) refl
    where
      small : {n : ℕ} → n < 2 ^ 64 → (n + 0) % 2 ^ 64 ≡ n
      small h = omega arith
  total-summed base ((during, final) ∷ more) c =
      total-summed (added D J base final) more (added-IsCounted base final)
      ∙ summed-added base during final more

  load-total :
      (d : Disk) (runs : List Ran)
      → IsObjectLib J
      → All ReadsBack (totals_after (load J (D.of_ℕ 0) d) runs)
      → load J (D.of_ℕ 0) (sessions d runs) ≡ total (load J (D.of_ℕ 0) d) runs
  load-total d [] laws back = refl
  load-total d ((during, final) ∷ more) laws back =
      let once = session-total d during final laws back.0 in
      load-total (session D J d during final) more laws
        (subst (λ b. All ReadsBack (totals_after b more)) (sym once) back.1)
      ∙ ap (λ b. total b more) once

  -- However often each run saves, the file has after one or more runs the totals of the first load and,
  -- added to them, the sums over the runs of what each had counted at its last save, the number of
  -- runs among them, the counters modulo 2^64: saving again within a run adds nothing. This is
  -- where the calls of the system succeed, and the printed totals of each run are read back.
  pub sessions-summed :
      (d : Disk) (first : Ran) (more : List Ran)
      → IsObjectLib J
      → All ReadsBack (totals_after (load J (D.of_ℕ 0) d) (first ∷ more))
      → load J (D.of_ℕ 0) (sessions d (first ∷ more)) ≡ summed (load J (D.of_ℕ 0) d) (first ∷ more)
  sessions-summed d (during, final) more laws back =
      let base = load J (D.of_ℕ 0) d in
      load-total d ((during, final) ∷ more) laws back
      ∙ total-summed (added D J base final) more (added-IsCounted base final)
      ∙ summed-added base during final more
