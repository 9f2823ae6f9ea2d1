-- ===== src/Miner/Pool/Drain.antt =====
-- src/miner/worker.cpp: the loop of `pause` comes to an end.
use minerby.Base.{ℕ, ◌+◌, ◌*◌, ◌≤◌, ◌<◌, Bytes, true, ◌≡◌, ◌≢◌, ◌⊎◌, inl, inr, refl, ◌∙◌, arith}
use minerby.Miner.Thread.{
  Shared, Pc, starting, made, top, exited, look, checked, remake, remade, at_work, loaded, ready,
  entering, entered, leaving, hashing, leave_chunk, adding, Worker, Move, create, first_gen, go_on,
  quit, sleep_paused, unpaused, same_hasher, new_hasher, recreate, next_gen, same_work, new_work,
  take_work, no_job, has_job, enter, back_out, commit, left, chunk, finish, count,
}
use minerby.Miner.Pool.{pausing, quiet, System, update, Step, worker, pause_done, Reach, next}
use minerby.Miner.Pool.Count.{tally, tally-update, tally-bounded, tally-member}
use minerby.Miner.Pool.Effect.{busy, busy_worker, adopt_work-pc, hash_job-pc, Move-Effect}
use minerby.Miner.Pool.Invariant.{Reach-Inv}

-- Steps of a worker until it waits at the top of its loop, at most, while `paused_` is set.
abbrev pub ahead : Pc → ℕ
ahead starting = 2
ahead made = 1
ahead checked = 9
ahead remake = 8
ahead remade = 7
ahead at_work = 6
ahead (loaded _) = 5
ahead ready = 4
ahead entering = 3
ahead entered = 2
ahead leaving = 1
ahead hashing = 3
ahead (leave_chunk _) = 2
ahead (adding _) = 1
ahead _ = 0

abbrev pub ahead_worker : Worker → ℕ
ahead_worker w = ahead w.pc

-- One for a step other than the waits at the top of the loop.
abbrev pub busy_step : Pc → ℕ
busy_step top = 0
busy_step look = 0
busy_step exited = 0
busy_step _ = 1

Move-ahead :
    {hash : ℕ → Bytes → Bytes} {threads i : ℕ} {m m' : Shared} {w w' : Worker}
    → Move hash threads i m w m' w'
    → m.paused ≡ true
    → ahead w'.pc + busy_step w.pc ≤ ahead w.pc
Move-ahead (create e) on = ground arith
Move-ahead (first_gen e) on = ground arith
Move-ahead (go_on e r) on = ground arith
Move-ahead (quit e r) on = ground arith
Move-ahead (sleep_paused e p) on = ground arith
Move-ahead (unpaused e p) on = ground arith
Move-ahead (same_hasher e h) on = ground arith
Move-ahead (new_hasher e h) on = ground arith
Move-ahead (recreate e) on = ground arith
Move-ahead (next_gen e) on = ground arith
Move-ahead (same_work e h) on = ground arith
Move-ahead (new_work e h) on = ground arith
Move-ahead {i} {m} {w} (take_work {gen} e) on = ground (arith, adopt_work-pc i gen m.work w)
Move-ahead (no_job e j) on = ground arith
Move-ahead (has_job e j) on = ground arith
Move-ahead (enter e) on = ground arith
Move-ahead (back_out e p) on = ground arith
Move-ahead (commit e p) on = ground arith
Move-ahead (left e) on = ground arith
Move-ahead {hash} {threads} {w} (chunk e) on = ground (arith, hash_job-pc hash threads w.job w)
Move-ahead (finish e) on = ground arith
Move-ahead (count e) on = ground arith

-- The workers run, in any order, while the owner sleeps in the loop of `pause`: `k` of their steps
-- are other than waits.
pub data Waits (hash : ℕ → Bytes → Bytes) (n : ℕ) (s : System) : ℕ → System → Type 0 where
  asleep : Waits hash n s 0 s
  moved :
      {k : ℕ} {t : System} {m : Shared} {w : Worker}
      → Waits hash n s k t
      → (i : ℕ) → i < n
      → Move hash n i t.mem (t.workers i) m w
      → Waits hash n s
          (k + busy_step (t.workers i).pc)
          (record t { mem = m; workers = update t.workers i w })

record Waited (hash : ℕ → Bytes → Bytes) (n : ℕ) (s : System) (k : ℕ) (t : System) : Type 0 where
  reached : Reach hash n t
  owner_stays : t.owner ≡ s.owner
  runs : t.mem.running ≡ s.mem.running
  flag : t.mem.paused ≡ s.mem.paused
  spent : k + tally ahead_worker n t.workers ≤ tally ahead_worker n s.workers

module _ {hash : ℕ → Bytes → Bytes} {n : ℕ} {s : System} where
  Waits-Waited :
      {k : ℕ} {t : System}
      → Reach hash n s
      → s.mem.paused ≡ true
      → Waits hash n s k t
      → Waited hash n s k t
  Waits-Waited r on asleep = record {
    reached = r;
    owner_stays = refl;
    runs = refl;
    flag = refl;
    spent = omega arith;
  }
  Waits-Waited r on (moved {k} {t} {m} {w} before i lt mv) =
      let v = Waits-Waited r on before in
      let f = Move-Effect mv in
      record {
        reached = next (v.reached) (worker i lt mv);
        owner_stays = v.owner_stays;
        runs = f.flags.0 ∙ v.runs;
        flag = f.flags.1 ∙ v.flag;
        spent = omega (
          arith,
          v.spent,
          Move-ahead mv (v.flag ∙ on),
          tally-update ahead_worker n i t.workers w lt,
        );
      }

-- A counted worker can always go on.
busy-moves :
    {hash : ℕ → Bytes → Bytes} {n i : ℕ} (m : Shared) (w : Worker) (p : Pc)
    → w.pc ≡ p
    → busy p ≢ 0
    → m.paused ≡ true
    → (m' : Shared) × ((w' : Worker) × Move hash n i m w m' w')
busy-moves m w entered e b on = (_, (_, back_out e on))
busy-moves m w leaving e b on = (_, (_, left e))
busy-moves m w hashing e b on = (_, (_, chunk e))
busy-moves m w (leave_chunk d) e b on = (_, (_, finish e))
busy-moves m w starting e b on = absurd (b refl)
busy-moves m w made e b on = absurd (b refl)
busy-moves m w top e b on = absurd (b refl)
busy-moves m w exited e b on = absurd (b refl)
busy-moves m w look e b on = absurd (b refl)
busy-moves m w checked e b on = absurd (b refl)
busy-moves m w remake e b on = absurd (b refl)
busy-moves m w remade e b on = absurd (b refl)
busy-moves m w at_work e b on = absurd (b refl)
busy-moves m w (loaded g) e b on = absurd (b refl)
busy-moves m w ready e b on = absurd (b refl)
busy-moves m w entering e b on = absurd (b refl)
busy-moves m w (adding d) e b on = absurd (b refl)

-- While the owner waits in `pause` on a running pool, whatever the order in which the workers run,
-- they take at most nine steps each that are not waits. At each moment either the counter is zero
-- and `pause` can return, or a worker that is counted has a step to take, so the wait ends once the
-- workers have been given their steps.
pub pause-returns :
    {hash : ℕ → Bytes → Bytes} {n : ℕ} {s : System} {k : ℕ} {t : System}
    → Reach hash n s
    → s.owner ≡ pausing
    → s.mem.running ≡ true
    → Waits hash n s k t
    → (k ≤ n * 9)
      × (Step hash n t (record t { owner = quiet })
          ⊎ ((i : ℕ) × (i < n)
              × (busy (t.workers i).pc ≢ 0)
              × ((m : Shared) × ((w : Worker) × Move hash n i t.mem (t.workers i) m w))))
pause-returns {n} {s} {t} r e run waits =
    let on : s.mem.paused ≡ true = (Reach-Inv r).held (ground arith) in
    let v = Waits-Waited r on waits in
    let counted = (Reach-Inv (v.reached)).counted in
    (
      omega (arith, v.spent, tally-bounded ahead_worker 9 n s.workers (λ i. ground arith)),
      elim (tally-member busy_worker n t.workers) [
        | inl none ↦ inl (pause_done (v.owner_stays ∙ e) (v.runs ∙ run) (counted ∙ none))
        | inr (i, lt, one) ↦
            inr (i, lt, one, busy-moves t.mem (t.workers i) (t.workers i).pc refl one (v.flag ∙ on))
      ],
    )
