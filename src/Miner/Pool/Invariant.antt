-- ===== src/Miner/Pool/Invariant.antt =====
-- src/miner/worker.cpp: the counter, the pause flag and the threads in every reachable state.
use minerby.Base.{ℕ, ◌<◌, Bytes, Bool, true, false, ◌≡◌, refl, sym, ap, ◌∙◌, arith, none}
use minerby.Miner.Thread.{Shared, Pc, Worker, new_worker}
use minerby.Miner.Pool.{
  Owner, idle, storing, pausing, quiet, stopping, joining, System, update, Step, worker, start,
  stop, stop_unpause, join, set_work, clear_work, store, pause, pause_done, pause_stopped, rekey,
  first_key, rebuild, resume, init, Reach, here, next,
}
use minerby.Miner.Pool.Count.{tally, tally-update, tally-zero, weight-le-tally}
use minerby.Miner.Pool.Effect.{busy, busy_worker, deep, is_gone, Effect, Move-Effect}

-- The owner is between the calls of `pause` and `resume`.
abbrev pub holds : Owner → Bool
holds pausing = true
holds quiet = true
holds _ = false

abbrev pub winding_down : Owner → Bool
winding_down stopping = true
winding_down joining = true
winding_down _ = false

pub record Inv (n : ℕ) (s : System) : Type 0 where
  pub counted : s.mem.in_flight ≡ tally busy_worker n s.workers
  pub held : holds s.owner ≡ true → s.mem.paused ≡ true
  pub calm :
      s.owner ≡ quiet → s.mem.running ≡ true → (i : ℕ) → i < n → deep (s.workers i).pc ≡ false
  pub gone :
      s.mem.running ≡ false
      → winding_down s.owner ≡ false
      → (i : ℕ) → i < n
      → is_gone (s.workers i).pc ≡ true

gone-busy : (p : Pc) → is_gone p ≡ true → busy p ≡ 0
gone-busy p h = ground arith

busy-deep : (p : Pc) → busy p ≡ 0 → deep p ≡ false
busy-deep p h = ground arith

init-Inv : (n : ℕ) → Inv n init
init-Inv n = record {
  counted = sym (tally-zero busy_worker n init.workers (λ i lt. refl));
  held = λ h. cc;
  calm = λ h r i lt. refl;
  gone = λ r h i lt. refl;
}

module _ {n : ℕ} {s : System} (v : Inv n s) where
  open v use {counted, held, calm, gone}

  -- A step of a worker.
  worker-Inv :
      (i : ℕ) (m : Shared) (w : Worker)
      → i < n
      → Effect s.mem (s.workers i) m w
      → Inv n (record s { mem = m; workers = update s.workers i w })
  worker-Inv i m w lt f = record {
    counted = omega (
      arith,
      counted,
      f.counted (omega (arith, counted, weight-le-tally busy_worker n i s.workers lt)),
      tally-update busy_worker n i s.workers w lt,
      weight-le-tally busy_worker n i s.workers lt,
    );
    held = λ h. f.flags.1 ∙ held h;
    calm = λ h r j lj. ground (
      arith,
      f.went_deep,
      f.flags,
      held,
      calm h (sym (f.flags.0) ∙ r) i lt,
      calm h (sym (f.flags.0) ∙ r) j lj,
    );
    gone = λ r h j lj. absurd (ground (arith, f.was_here, gone (sym (f.flags.0) ∙ r) h i lt));
  }

  start-Inv :
      s.owner ≡ idle
      → s.mem.running ≡ false
      → Inv n (record s { mem = record (s.mem) { running = true }; workers = λ _. new_worker })
  start-Inv e r = record {
    counted =
        counted
        ∙ tally-zero busy_worker n s.workers (λ i lt. gone-busy _ (gone r (ground arith) i lt))
        ∙ sym (tally-zero busy_worker n (λ _. new_worker) (λ i lt. refl));
    held = held;
    calm = λ h r' i lt. refl;
    gone = λ r' h i lt. cc;
  }

  -- A step of the owner that leaves the counter and the workers alone.
  owner-Inv :
      (m : Shared) (o : Owner)
      → m.in_flight ≡ s.mem.in_flight
      → (holds o ≡ true → m.paused ≡ true)
      → (o ≡ quiet → m.running ≡ true → (s.owner ≡ quiet) × (s.mem.running ≡ true))
      → (m.running ≡ false
          → winding_down o ≡ false
          → (s.mem.running ≡ false) × (winding_down s.owner ≡ false))
      → Inv n (record s { mem = m; owner = o })
  owner-Inv m o same flag still out = record {
    counted = same ∙ counted;
    held = flag;
    calm = λ h r. calm (still h r).0 (still h r).1;
    gone = λ r h. gone (out r h).0 (out r h).1;
  }

  join-Inv :
      s.owner ≡ joining
      → ((i : ℕ) → i < n → (s.workers i).pc ≡ Pc.exited)
      → Inv n (record s { owner = idle })
  join-Inv e out = record {
    counted = counted;
    held = λ h. cc;
    calm = λ h. cc;
    gone = λ r h i lt. ap is_gone (out i lt);
  }

  pause_done-Inv :
      s.owner ≡ pausing
      → s.mem.running ≡ true
      → s.mem.in_flight ≡ 0
      → Inv n (record s { owner = quiet })
  pause_done-Inv e r z = record {
    counted = counted;
    held = λ h. held (ground arith);
    calm = λ h r' i lt.
        busy-deep _ (omega (arith, counted, weight-le-tally busy_worker n i s.workers lt));
    gone = λ r' h i lt. cc;
  }

-- Every step keeps the invariant.
pub Step-Inv :
    {hash : ℕ → Bytes → Bytes} {n : ℕ} {s t : System} → Step hash n s t → Inv n s → Inv n t
Step-Inv (worker i {m} {w} lt mv) v = worker-Inv v i m w lt (Move-Effect mv)
Step-Inv (start e r) v = start-Inv v e r
Step-Inv (stop e r) v =
    owner-Inv v _ stopping refl (λ h. ground (arith, v.held)) (λ h r'. ground arith)
      (λ r' h. ground arith)
Step-Inv (stop_unpause e) v =
    owner-Inv v _ joining refl (λ h. ground (arith, v.held)) (λ h r. ground arith)
      (λ r h. ground arith)
Step-Inv (join e out) v = join-Inv v e out
Step-Inv (set_work j e) v =
    owner-Inv v _ (storing _) refl (λ h. ground (arith, v.held)) (λ h r. ground arith)
      (λ r h. ground arith)
Step-Inv (clear_work e) v =
    owner-Inv v _ (storing none) refl (λ h. ground (arith, v.held)) (λ h r. ground arith)
      (λ r h. ground arith)
Step-Inv (store e) v =
    owner-Inv v _ idle refl (λ h. ground (arith, v.held)) (λ h r. ground arith)
      (λ r h. ground arith)
Step-Inv (pause e) v =
    owner-Inv v _ pausing refl (λ h. ground (arith, v.held)) (λ h r. ground arith)
      (λ r h. ground arith)
Step-Inv (pause_done e r z) v = pause_done-Inv v e r z
Step-Inv {s} (pause_stopped e r) v =
    owner-Inv v (s.mem) quiet refl (λ h. ground (arith, v.held)) (λ h r'. ground arith)
      (λ r' h. ground arith)
Step-Inv {s} (rekey k e) v =
    owner-Inv v _ s.owner refl (λ h. ground (arith, v.held)) (λ h r. ground arith)
      (λ r h. ground arith)
Step-Inv {s} (first_key k e r) v =
    owner-Inv v _ s.owner refl (λ h. ground (arith, v.held)) (λ h r'. ground arith)
      (λ r' h. ground arith)
Step-Inv {s} (rebuild e) v =
    owner-Inv v _ s.owner refl (λ h. ground (arith, v.held)) (λ h r. ground arith)
      (λ r h. ground arith)
Step-Inv (resume e) v =
    owner-Inv v _ idle refl (λ h. ground (arith, v.held)) (λ h r. ground arith)
      (λ r h. ground arith)

pub Reach-Inv : {hash : ℕ → Bytes → Bytes} {n : ℕ} {s : System} → Reach hash n s → Inv n s
Reach-Inv {n} here = init-Inv n
Reach-Inv (next r st) = Step-Inv st (Reach-Inv r)
