-- ===== src/App/JobCallback/Order.antt =====
-- src/app/main.cpp: the order of the calls that a new job makes.
use minerby.Base.{
  Bytes, List, [], ◌∷◌, Bool, true, false, not, ◌&&◌, Option, none, some, ◌≡◌, ◌≢◌, refl, sym,
  if◌then◌else◌, foldl, some-injective, Bool-cases, inl, inr, same_bytes, same_bytes_sound,
}
use minerby.Pow.Doubles.{Doubles}
use minerby.Miner.Job.{MiningJob}
use minerby.App.JobCallback.{
  Call, pause, ensure_seed, rebuild_hashers, resume, start, set_work, show_difficulty, retargeted,
  needs_key, rekey_calls, handle_job, Workers, do_call,
}

-- `none` where a call comes too early: the context and the hashers may change only while no worker
-- runs or all are paused.
abbrev pub follow : List Call → Workers → Option Workers
follow [] w = some w
follow (pause ∷ cs) w = follow cs (record w { paused = true })
follow (ensure_seed s ∷ cs) w =
    if w.running && not w.paused then none else follow cs (record w { seed = s })
follow (rebuild_hashers ∷ cs) w = if w.running && not w.paused then none else follow cs w
follow (resume ∷ cs) w = follow cs (record w { paused = false })
follow (start ∷ cs) w = follow cs (record w { running = true })
follow (set_work j ∷ cs) w = follow cs (record w { job = some j })
follow (show_difficulty ∷ cs) w = follow cs w

remembers :
    (seed current : Bytes) → seed ≢ [] → (if needs_key seed current then seed else current) ≡ seed
remembers [] current some_seed = absurd (some_seed refl)
remembers (b ∷ seed) current some_seed = elim (Bool-cases (same_bytes (b ∷ seed) current)) [
  | inl same ↦ rw same (sym (same_bytes_sound (b ∷ seed) current same))
  | inr other ↦ rw other refl
]

abbrev before : Bool → Option MiningJob → Bytes → Workers
before running held current = record {
  running = running;
  paused = false;
  job = held;
  seed = current;
}

ordered :
    (D : Doubles) (share_diff : D.Double) (running : Bool) (held : Option MiningJob)
    (current : Bytes) (job : MiningJob) (seed : Bytes)
    → follow (handle_job D share_diff running current job seed).calls (before running held current)
      ≡ some (record {
        running = true;
        paused = false;
        job = some (retargeted D share_diff job);
        seed = (handle_job D share_diff running current job seed).current_seed;
      })
unfolding handle_job rekey_calls
ordered D share_diff true held current job seed = elim (Bool-cases (needs_key seed current)) [
  | inl new ↦ rw new refl
  | inr known ↦ rw known refl
]
ordered D share_diff false held current job seed = elim (Bool-cases (needs_key seed current)) [
  | inl new ↦ rw new refl
  | inr known ↦ rw known refl
]

-- From any state of the workers that is not paused, with the context keyed for `current`: the calls
-- of the callback come in a permitted order, the context being changed only while no worker runs or
-- all are paused, and they end with the workers running, on the new job, and the context keyed for
-- the seed that the callback remembers, which is the job's if it has one.
pub handle_job-follow :
    (D : Doubles) (share_diff : D.Double) (running : Bool) (held : Option MiningJob)
    (current : Bytes) (job : MiningJob) (seed : Bytes)
    → let r = handle_job D share_diff running current job seed in
      (follow r.calls (record { running = running; paused = false; job = held; seed = current })
        ≡ some (record {
          running = true;
          paused = false;
          job = some (retargeted D share_diff job);
          seed = r.current_seed;
        }))
      × (seed ≢ [] → r.current_seed ≡ seed)
unfolding handle_job
handle_job-follow D share_diff running held current job seed =
    (ordered D share_diff running held current job seed, remembers seed current)

allowed :
    (early : Bool) {o : Option Workers} {w : Workers}
    → (if early then none else o) ≡ some w
    → o ≡ some w
allowed false h = h
allowed true h = cc

-- Calls that are followed in order leave what they leave with no regard to the order.
pub follow_calls :
    (cs : List Call) (w w' : Workers) → follow cs w ≡ some w' → foldl do_call w cs ≡ w'
unfolding do_call
follow_calls [] w w' h = some-injective h
follow_calls (pause ∷ cs) w w' h = follow_calls cs (record w { paused = true }) w' h
follow_calls (ensure_seed s ∷ cs) w w' h =
    follow_calls cs (record w { seed = s }) w' (allowed (w.running && not w.paused) h)
follow_calls (rebuild_hashers ∷ cs) w w' h =
    follow_calls cs w w' (allowed (w.running && not w.paused) h)
follow_calls (resume ∷ cs) w w' h = follow_calls cs (record w { paused = false }) w' h
follow_calls (start ∷ cs) w w' h = follow_calls cs (record w { running = true }) w' h
follow_calls (set_work j ∷ cs) w w' h = follow_calls cs (record w { job = some j }) w' h
follow_calls (show_difficulty ∷ cs) w w' h = follow_calls cs w w' h
