-- ===== src/Miner/Pool/Stale.antt =====
-- src/miner/worker.cpp: `set_work` raises the generation before it stores the job, and a worker that
-- looks in between misses the job.
use minerby.Base.{
  ℕ, ◌<◌, Bytes, Bool, true, false, ◌≡◌, ◌≢◌, refl, sym, ◌∙◌, arith, Option, none, some, ◌==◌, ap,
  subst, Bool-cases, ==_iff, inl, inr,
}
use minerby.Miner.Job.{MiningJob}
use minerby.Miner.Thread.{
  Shared, Pc, loaded, Worker, Move, create, first_gen, go_on, quit, sleep_paused, unpaused,
  same_hasher, new_hasher, recreate, next_gen, same_work, new_work, take_work, no_job, has_job,
  enter, back_out, commit, left, chunk, finish, count, adopt_work, hash_job,
}
use minerby.Miner.Pool.{
  System, Owner, idle, stamped, update, Step, Reach, here, next, worker, start, stop, stop_unpause,
  join, set_work, clear_work, store, pause, pause_done, pause_stopped, rekey, first_key, rebuild,
  resume,
}
use minerby.Miner.Pool.Later.{Later, now, then_step}
use mathlib.Core.Bool.{false≢true}

abbrev pub is_loaded : Pc → Bool
is_loaded (loaded _) = true
is_loaded _ = false

-- The worker has no job and takes the current generation for one that it has seen.
pub record HasMissed (i : ℕ) (s : System) : Type 0 where
  pub up_to_date : (s.workers i).local_work_gen ≡ s.mem.work_gen
  pub jobless : (s.workers i).job ≡ none
  pub settled : is_loaded (s.workers i).pc ≡ false

-- Whether the worker is in this state does not depend on the other members.
record Missed (gen : ℕ) (w : Worker) : Type 0 where
  same : w.local_work_gen ≡ gen
  none_held : w.job ≡ none
  not_loaded : is_loaded w.pc ≡ false

hash_job-Missed :
    (hash : ℕ → Bytes → Bytes) (threads gen : ℕ) (o : Option MiningJob) (w : Worker)
    → o ≡ none
    → Missed gen w
    → Missed gen (hash_job hash threads o w)
unfolding hash_job
hash_job-Missed hash threads gen none w e v = ground (arith, v.same, v.none_held)
hash_job-Missed hash threads gen (some j) w e v = cc

Move-Missed :
    {hash : ℕ → Bytes → Bytes} {threads i : ℕ} {m m' : Shared} {w w' : Worker}
    → Move hash threads i m w m' w'
    → Missed m.work_gen w
    → (m'.work_gen ≡ m.work_gen) × Missed m.work_gen w'
Move-Missed (create e) v = ground arith
Move-Missed (first_gen e) v = ground arith
Move-Missed (go_on e r) v = ground arith
Move-Missed (quit e r) v = ground arith
Move-Missed (sleep_paused e p) v = ground arith
Move-Missed (unpaused e p) v = ground arith
Move-Missed (same_hasher e h) v = ground arith
Move-Missed (new_hasher e h) v = ground arith
Move-Missed (recreate e) v = ground arith
Move-Missed (next_gen e) v = ground arith
Move-Missed (same_work e h) v = ground arith
Move-Missed (new_work e h) v = absurd (h (sym v.same))
Move-Missed (take_work e) v = absurd (ground (arith, v.not_loaded))
Move-Missed (no_job e j) v = ground arith
Move-Missed (has_job e j) v = ground arith
Move-Missed (enter e) v = ground arith
Move-Missed (back_out e p) v = ground arith
Move-Missed (commit e p) v = ground arith
Move-Missed (left e) v = ground arith
Move-Missed {hash} {threads} {m} {w} (chunk e) v =
    (refl, hash_job-Missed hash threads m.work_gen w.job w v.none_held v)
Move-Missed (finish e) v = ground arith
Move-Missed (count e) v = ground arith

missed : {s : System} (i : ℕ) → HasMissed i s → Missed s.mem.work_gen (s.workers i)
missed i v = record { same = v.up_to_date; none_held = v.jobless; not_loaded = v.settled }

of_Missed :
    {s : System} {w : Worker} (i : ℕ) → s.workers i ≡ w → Missed s.mem.work_gen w → HasMissed i s
of_Missed i e v = record {
  up_to_date = ap (λ x. x.local_work_gen) e ∙ v.same;
  jobless = ap (λ x. x.job) e ∙ v.none_held;
  settled = ap (λ x. is_loaded x.pc) e ∙ v.not_loaded;
}

owner_missed :
    {s : System} (i : ℕ)
    → HasMissed i s
    → (m : Shared) (o : Owner) → m.work_gen ≡ s.mem.work_gen
    → HasMissed i (record s { mem = m; owner = o })
owner_missed {s} i v m o e =
    of_Missed i refl (subst (λ g. Missed g (s.workers i)) (sym e) (missed i v))

module _ {hash : ℕ → Bytes → Bytes} {n : ℕ} {s : System} (i : ℕ) (v : HasMissed i s) where
  worker-HasMissed :
      (k : ℕ) {m : Shared} {w : Worker}
      → Move hash n k s.mem (s.workers k) m w
      → m.work_gen ≡ s.mem.work_gen
      → HasMissed i (record s { mem = m; workers = update s.workers k w })
  worker-HasMissed k {m} {w} mv e = elim (Bool-cases (k == i)) [
    | inl hit ↦
        let same = (==_iff k i).0 hit in
        let v' = subst (λ x. Missed s.mem.work_gen (s.workers x)) (sym same) (missed i v) in
        of_Missed i (rw hit) (subst (λ g. Missed g w) (sym e) (Move-Missed mv v').1)
    | inr other ↦ of_Missed i (rw other) (subst (λ g. Missed g (s.workers i)) (sym e) (missed i v))
  ]

  Step-HasMissed :
      {t : System}
      → Step hash n s t
      → s.mem.running ≡ true
      → t.mem.work_gen ≡ s.mem.work_gen
      → HasMissed i t
  Step-HasMissed (worker k lt mv) run e = worker-HasMissed k mv e
  Step-HasMissed (start o r) run e = absurd (false≢true (sym r ∙ run))
  Step-HasMissed (stop o r) run e = owner_missed i v _ _ e
  Step-HasMissed (stop_unpause o) run e = owner_missed i v _ _ e
  Step-HasMissed (join o out) run e = owner_missed i v _ _ e
  Step-HasMissed (set_work j o) run e = owner_missed i v _ _ e
  Step-HasMissed (clear_work o) run e = owner_missed i v _ _ e
  Step-HasMissed (store o) run e = owner_missed i v _ _ e
  Step-HasMissed (pause o) run e = owner_missed i v _ _ e
  Step-HasMissed (pause_done o r z) run e = owner_missed i v _ _ e
  Step-HasMissed (pause_stopped o r) run e = owner_missed i v _ _ e
  Step-HasMissed (rekey k o) run e = owner_missed i v _ _ e
  Step-HasMissed (first_key k o r) run e = owner_missed i v _ _ e
  Step-HasMissed (rebuild o) run e = owner_missed i v _ _ e
  Step-HasMissed (resume o) run e = owner_missed i v _ _ e

Later-HasMissed :
    {hash : ℕ → Bytes → Bytes} {n : ℕ} {s t : System} (i : ℕ)
    → HasMissed i s
    → Later hash n (λ m. m.work_gen) s t
    → HasMissed i t
Later-HasMissed i v now = v
Later-HasMissed i v (then_step l st run e) = Step-HasMissed i (Later-HasMissed i v l) st run e

one_ne_zero : ◌≢◌ {A = ℕ} 1 0
one_ne_zero e = absurd (omega arith)

module _ (hash : ℕ → Bytes → Bytes) (n : ℕ) (some_threads : 0 < n) (j : MiningJob) where
  -- Thread 0 looks between the two halves of `set_work`.
  race :
      (s : System) × Reach hash n s
      × (s.owner ≡ idle)
      × (s.mem.running ≡ true)
      × (s.mem.work ≡ some (stamped 1 j))
      × HasMissed 0 s
  unfolding adopt_work
  race =
      let begun = next (next here (start refl refl)) (worker 0 some_threads (create refl)) in
      let looked =
        next
          (next
            (next (next begun (worker 0 some_threads (first_gen refl)))
              (worker 0 some_threads (go_on refl refl)))
            (worker 0 some_threads (unpaused refl refl)))
          (worker 0 some_threads (same_hasher refl refl)) in
      let raised = next looked (set_work j refl) in
      let missed_it =
        next (next raised (worker 0 some_threads (new_work refl one_ne_zero)))
          (worker 0 some_threads (take_work refl)) in
      (
        _,
        next missed_it (store refl),
        refl,
        refl,
        refl,
        record { up_to_date = refl; jobless = refl; settled = refl },
      )

-- With any number of threads and any job: `set_work` can return with the job stored and a worker
-- without it, and that worker stays without a job through every sequence of steps of a running pool
-- that leaves the generation alone, as all but `set_work` and `clear_work` do.
pub set_work_missed :
    (hash : ℕ → Bytes → Bytes) (n : ℕ) (j : MiningJob)
    → 0 < n
    → (s : System) × Reach hash n s
      × (s.owner ≡ idle)
      × (s.mem.running ≡ true)
      × (s.mem.work ≡ some (stamped 1 j))
      × ((t : System) → Later hash n (λ m. m.work_gen) s t → (t.workers 0).job ≡ none)
set_work_missed hash n j pos =
    let (s, r, o, run, w, v) = race hash n pos j in
    (s, r, o, run, w, λ t l. (Later-HasMissed 0 v l).jobless)
