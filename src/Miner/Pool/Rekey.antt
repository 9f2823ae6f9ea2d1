-- ===== src/Miner/Pool/Rekey.antt =====
-- src/miner/worker.cpp: `run` makes its hasher before it loads the generation of the hashers, and a
-- worker that is between the two misses a re-keying.
use minerby.Base.{
  ℕ, ◌<◌, Bytes, Bool, true, false, ◌≡◌, refl, sym, ◌∙◌, arith, Option, none, some, ◌==◌, subst,
  Bool-cases, ==_iff, inl, inr,
}
use minerby.Miner.Job.{MiningJob}
use minerby.Miner.Thread.{
  Shared, Pc, starting, made, remake, remade, Worker, Move, create, first_gen, go_on, quit,
  sleep_paused, unpaused, same_hasher, new_hasher, recreate, next_gen, same_work, new_work,
  take_work, no_job, has_job, enter, back_out, commit, left, chunk, finish, count, adopt_work,
  hash_job,
}
use minerby.Miner.Pool.{
  System, idle, update, Step, Reach, here, next, worker, start, stop, stop_unpause, join, set_work,
  clear_work, store, pause, pause_done, pause_stopped, rekey, first_key, rebuild, resume,
}
use minerby.Miner.Pool.Later.{Later, now, then_step}
use mathlib.Core.Bool.{false≢true}

-- The worker is making a hasher.
abbrev pub is_making : Pc → Bool
is_making starting = true
is_making made = true
is_making remake = true
is_making remade = true
is_making _ = false

-- A worker whose hasher is for a seed, and who takes it for one of the current generation.
record Stale (seed gen : ℕ) (w : Worker) : Type 0 where
  same : w.local_hasher_gen ≡ gen
  old : w.made_for ≡ seed
  done : is_making w.pc ≡ false

adopt_work-Stale :
    (seed gen index k : ℕ) (o : Option MiningJob) (w : Worker)
    → Stale seed gen w
    → Stale seed gen (adopt_work index k o w)
unfolding adopt_work
adopt_work-Stale seed gen index k none w v = ground (arith, v.same, v.old)
adopt_work-Stale seed gen index k (some j) w v = ground (arith, v.same, v.old)

hash_job-Stale :
    (hash : ℕ → Bytes → Bytes) (threads seed gen : ℕ) (o : Option MiningJob) (w : Worker)
    → Stale seed gen w
    → Stale seed gen (hash_job hash threads o w)
unfolding hash_job
hash_job-Stale hash threads seed gen none w v = ground (arith, v.same, v.old)
hash_job-Stale hash threads seed gen (some j) w v = record {
  same = v.same;
  old = v.old;
  done = refl;
}

Move-Stale :
    {hash : ℕ → Bytes → Bytes} {threads i seed : ℕ} {m m' : Shared} {w w' : Worker}
    → Move hash threads i m w m' w'
    → Stale seed m.hasher_gen w
    → (m'.hasher_gen ≡ m.hasher_gen) × Stale seed m.hasher_gen w'
Move-Stale (create e) v = absurd (ground (arith, v.done))
Move-Stale (first_gen e) v = absurd (ground (arith, v.done))
Move-Stale (go_on e r) v = ground arith
Move-Stale (quit e r) v = ground arith
Move-Stale (sleep_paused e p) v = ground arith
Move-Stale (unpaused e p) v = ground arith
Move-Stale (same_hasher e h) v = ground arith
Move-Stale (new_hasher e h) v = absurd (h (sym v.same))
Move-Stale (recreate e) v = absurd (ground (arith, v.done))
Move-Stale (next_gen e) v = absurd (ground (arith, v.done))
Move-Stale (same_work e h) v = ground arith
Move-Stale (new_work e h) v = ground arith
Move-Stale {i} {seed} {m} {w} (take_work {gen} e) v =
    (refl, adopt_work-Stale seed m.hasher_gen i gen m.work w v)
Move-Stale (no_job e j) v = ground arith
Move-Stale (has_job e j) v = ground arith
Move-Stale (enter e) v = ground arith
Move-Stale (back_out e p) v = ground arith
Move-Stale (commit e p) v = ground arith
Move-Stale (left e) v = ground arith
Move-Stale {hash} {threads} {seed} {m} {w} (chunk e) v =
    (refl, hash_job-Stale hash threads seed m.hasher_gen w.job w v)
Move-Stale (finish e) v = ground arith
Move-Stale (count e) v = ground arith

-- Worker `i` is stale.
abbrev IsStale : ℕ → ℕ → System → Type 0
IsStale seed i s = Stale seed s.mem.hasher_gen (s.workers i)

-- A step of the owner that leaves the generation and the workers alone.
kept : {seed gen gen' : ℕ} {w : Worker} → Stale seed gen w → gen' ≡ gen → Stale seed gen' w
kept {seed} {w} v e = subst (λ g. Stale seed g w) (sym e) v

moved :
    {hash : ℕ → Bytes → Bytes} {n seed : ℕ} (s : System) (i k : ℕ) {m : Shared} {w : Worker}
    → IsStale seed i s
    → Move hash n k s.mem (s.workers k) m w
    → m.hasher_gen ≡ s.mem.hasher_gen
    → Stale seed m.hasher_gen (update s.workers k w i)
moved {seed} s i k {m} {w} v mv e = elim (Bool-cases (k == i)) [
  | inl hit ↦
      let same = (==_iff k i).0 hit in
      let v' = subst (λ x. Stale seed s.mem.hasher_gen (s.workers x)) (sym same) v in
      rw hit (kept (Move-Stale mv v').1 e)
  | inr other ↦ rw other (kept v e)
]

Step-IsStale :
    {hash : ℕ → Bytes → Bytes} {n seed : ℕ} {s t : System} (i : ℕ)
    → IsStale seed i s
    → Step hash n s t
    → s.mem.running ≡ true
    → t.mem.hasher_gen ≡ s.mem.hasher_gen
    → IsStale seed i t
Step-IsStale {s} i v (worker k lt mv) run e = moved s i k v mv e
Step-IsStale i v (start o r) run e = absurd (false≢true (sym r ∙ run))
Step-IsStale i v (stop o r) run e = kept v e
Step-IsStale i v (stop_unpause o) run e = kept v e
Step-IsStale i v (join o out) run e = kept v e
Step-IsStale i v (set_work j o) run e = kept v e
Step-IsStale i v (clear_work o) run e = kept v e
Step-IsStale i v (store o) run e = kept v e
Step-IsStale i v (pause o) run e = kept v e
Step-IsStale i v (pause_done o r z) run e = kept v e
Step-IsStale i v (pause_stopped o r) run e = kept v e
Step-IsStale i v (rekey k o) run e = kept v e
Step-IsStale i v (first_key k o r) run e = kept v e
Step-IsStale i v (rebuild o) run e = kept v e
Step-IsStale i v (resume o) run e = kept v e

Later-IsStale :
    {hash : ℕ → Bytes → Bytes} {n seed : ℕ} {s t : System} (i : ℕ)
    → IsStale seed i s
    → Later hash n (λ m. m.hasher_gen) s t
    → IsStale seed i t
Later-IsStale i v now = v
Later-IsStale i v (then_step l st run e) = Step-IsStale i (Later-IsStale i v l) st run e

module _ (hash : ℕ → Bytes → Bytes) (n : ℕ) (some_threads : 0 < n) (seed : ℕ) where
  -- Thread 0 has made its hasher when the owner pauses, re-keys, rebuilds and resumes.
  rekeyed :
      (s : System) × Reach hash n s
      × (s.owner ≡ idle)
      × (s.mem.running ≡ true)
      × (s.mem.paused ≡ false)
      × (s.mem.seed ≡ seed)
      × IsStale 0 0 s
  rekeyed =
      let made_it = next (next here (start refl refl)) (worker 0 some_threads (create refl)) in
      let paused = next (next made_it (pause refl)) (pause_done refl refl refl) in
      let resumed = next (next (next paused (rekey seed refl)) (rebuild refl)) (resume refl) in
      (
        _,
        next resumed (worker 0 some_threads (first_gen refl)),
        refl,
        refl,
        refl,
        refl,
        record { same = refl; old = refl; done = refl },
      )

-- With any number of threads and any new seed: the owner can pause, re-key the context, raise the
-- generation of the hashers and resume, as it does for a new seed, and leave a worker whose hasher
-- was made for the seed before, which it keeps through every sequence of steps of a running pool
-- that leaves that generation alone, as all but `rebuild_hashers` do.
pub rebuild_missed :
    (hash : ℕ → Bytes → Bytes) (n seed : ℕ)
    → 0 < n
    → (s : System) × Reach hash n s
      × (s.owner ≡ idle)
      × (s.mem.running ≡ true)
      × (s.mem.paused ≡ false)
      × (s.mem.seed ≡ seed)
      × ((t : System) → Later hash n (λ m. m.hasher_gen) s t → (t.workers 0).made_for ≡ 0)
rebuild_missed hash n seed pos =
    let (s, r, o, run, free, key, v) = rekeyed hash n pos seed in
    (s, r, o, run, free, key, λ t l. (Later-IsStale 0 v l).old)
