-- ===== src/App/Run/Sound.antt =====
-- src/app/main.cpp: what holds at the head of the connection loop.
use minerby.Base.{
  ℕ, ◌+◌, ◌≤◌, ltb, Bytes, List, [], ◌∷◌, foldl, Bool, true, false, Option, none, some, ok,
  >>=-eq-ok, ok-injective, ◌≡◌, ◌⊎◌, inl, inr, refl, sym, subst, ap, ap₂, arith, if_split,
  Bool-cases,
}
use minerby.Pow.Doubles.{Doubles}
use minerby.Miner.Job.{MiningJob}
use minerby.Pool.Events.{Event, on_job, on_submit_result}
use minerby.Pool.PoolClient.{Answer, PoolClient}
use minerby.App.JobCallback.{handle_job, retargeted, Workers, do_call}
use minerby.App.JobCallback.Order.{follow, follow_calls, handle_job-follow}
use minerby.App.Run.{
  Run, Round, Ended, job_timeout, is_over, take_event, take_answer, drop_work, go_on, after_poll,
  poll_round, after_connect, connect_round, round, begin,
}

-- The wait for another try is between 1 and 30 seconds, no pause of the workers is left over, the
-- context has the seed that the callback remembers, and the workers run if they have a job.
pub record IsSoundAt (backoff : ℕ) (workers : Workers) (current_seed : Bytes) : Type 0 where
  pub waits : 1 ≤ backoff
  pub bounded : backoff ≤ 30
  pub resumed : workers.paused ≡ false
  pub keyed : workers.seed ≡ current_seed
  pub at_work : (workers.job ≡ none) ⊎ (workers.running ≡ true)

abbrev pub IsSound : {Client : Type 0} → Run Client → Type 0
IsSound s = IsSoundAt s.backoff s.workers s.current_seed

pub begin-IsSound : {Client : Type 0} (c : Client) (now : ℕ) → IsSound (begin c now)
begin-IsSound c now = record {
  waits = omega arith;
  bounded = omega arith;
  resumed = refl;
  keyed = refl;
  at_work = inl refl;
}

module _ (D : Doubles) (share_diff : D.Double) where
  -- The workers after the calls for a new job.
  abbrev mining : MiningJob → Bytes → Workers
  mining job current = record {
    running = true;
    paused = false;
    job = some (retargeted D share_diff job);
    seed = current;
  }

  pub rekeyed :
      {Client : Type 0} (s : Run Client) (job : MiningJob) (seed : Bytes)
      → IsSound s
      → let r = handle_job D share_diff s.workers.running s.current_seed job seed in
        foldl do_call s.workers r.calls ≡ mining job r.current_seed
  rekeyed s job seed v =
      let r = handle_job D share_diff s.workers.running s.current_seed job seed in
      let (in_order, _) =
        handle_job-follow D share_diff s.workers.running s.workers.job s.current_seed job seed in
      let same =
        ap₂
          (λ p k. record { running = s.workers.running; paused = p; job = s.workers.job; seed = k })
          v.resumed v.keyed in
      follow_calls r.calls s.workers (mining job r.current_seed)
        (subst (λ w. follow r.calls w ≡ some (mining job r.current_seed)) (sym same) in_order)

  take_event-IsSound :
      {Client : Type 0} (at : ℕ) (s : Run Client) (e : Event)
      → IsSound s
      → IsSound (take_event D share_diff at s e)
  unfolding take_event
  take_event-IsSound at s (on_job job seed) v =
      let same = rekeyed s job seed v in
      record {
        waits = v.waits;
        bounded = v.bounded;
        resumed = ap (λ w. w.paused) same;
        keyed = ap (λ w. w.seed) same;
        at_work = inr (ap (λ w. w.running) same);
      }
  take_event-IsSound at s (on_submit_result true error) v = v
  take_event-IsSound at s (on_submit_result false error) v = v

  take_events-IsSound :
      {Client : Type 0} (at : ℕ) (s : Run Client) (es : List Event)
      → IsSound s
      → IsSound (foldl (take_event D share_diff at) s es)
  take_events-IsSound at s [] v = v
  take_events-IsSound at s (e ∷ es) v =
      take_events-IsSound at (take_event D share_diff at s e) es (take_event-IsSound at s e v)

  pub take_answer-IsSound :
      {Client : Type 0} (at : ℕ) (s : Run Client) (a : Answer Client)
      → IsSound s
      → IsSound (take_answer D share_diff at s a)
  unfolding take_answer
  take_answer-IsSound at s a v = take_events-IsSound at (record s { client = a.client }) a.events v

module _ (D : Doubles) (share_diff : D.Double) (P : PoolClient) (deadline : Option ℕ) where
  open P use {Client, Outside}

  drop_work-IsSound : (s : Run Client) → IsSound s → IsSound (drop_work D share_diff P deadline s)
  drop_work-IsSound s v = record {
    waits = v.waits;
    bounded = v.bounded;
    resumed = v.resumed;
    keyed = v.keyed;
    at_work = inl refl;
  }

  go_on-IsSound :
      (s : Run Client) (r : Round Outside)
      → IsSound s
      → IsSound (go_on D share_diff P deadline s r).run
  unfolding go_on
  go_on-IsSound s r v = v

  after_poll-IsSound :
      (done : Bool) (s : Run Client) (r : Round Outside)
      → IsSound s
      → IsSound (after_poll D share_diff P deadline done s r).run
  unfolding after_poll
  after_poll-IsSound false s r v = drop_work-IsSound s v
  after_poll-IsSound true s r v =
      elim (Bool-cases (ltb (s.last_job_at + job_timeout) r.watchdog_at)) [
        | inl late ↦ rw late (drop_work-IsSound s v)
        | inr fresh ↦ rw fresh (go_on-IsSound s r v)
      ]

  poll_round-IsSound :
      (s : Run Client) (r : Round Outside) (e : Ended Client)
      → IsSound s
      → poll_round D share_diff P deadline s r ≡ ok e
      → IsSound e.run
  unfolding poll_round
  poll_round-IsSound s r e v h =
      let (a, _, h') = >>=-eq-ok (P.poll s.client r.polling) _ h in
      subst (λ x. IsSound x.run) (ok-injective h')
        (after_poll-IsSound a.done _ r (take_answer-IsSound D share_diff r.polling_job_at s a v))

  after_connect-IsSound :
      (done : Bool) (s : Run Client) (r : Round Outside) (e : Ended Client)
      → IsSound s
      → after_connect D share_diff P deadline done s r ≡ ok e
      → IsSound e.run
  unfolding after_connect
  after_connect-IsSound false s r e v h =
      subst (λ x. IsSound x.run) (ok-injective h)
        (record {
          waits = omega (arith, v.waits);
          bounded = omega arith;
          resumed = v.resumed;
          keyed = v.keyed;
          at_work = v.at_work;
        })
  after_connect-IsSound true s r e v h =
      poll_round-IsSound (record s { backoff = 1; last_job_at = r.joined_at }) r e
        (record {
          waits = omega arith;
          bounded = omega arith;
          resumed = v.resumed;
          keyed = v.keyed;
          at_work = v.at_work;
        })
        h

  -- A round keeps the loop sound, whatever the pool sends and whatever fails.
  pub round-IsSound :
      (s : Run Client) (r : Round Outside) (e : Ended Client)
      → IsSound s
      → round D share_diff P deadline s r ≡ ok e
      → IsSound e.run
  unfolding round connect_round
  round-IsSound s r e v =
      if_split r.stop (λ _ h. subst (λ x. IsSound x.run) (ok-injective h) v)
        (λ _.
          if_split (is_over deadline r.deadline_at)
            (λ _ h. subst (λ x. IsSound x.run) (ok-injective h) v)
            (λ _.
              if_split (P.connected s.client) (λ _. poll_round-IsSound s r e v)
                (λ _ h.
                  let (a, _, h') = >>=-eq-ok (P.connect s.client r.joining) _ h in
                  after_connect-IsSound a.done _ r e
                    (take_answer-IsSound D share_diff r.joining_job_at s a v) h')))
