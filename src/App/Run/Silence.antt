-- ===== src/App/Run/Silence.antt =====
-- src/app/main.cpp: a pool that sends no job, and a try to connect that leaves a connection.
use minerby.Base.{
  ℕ, ◌+◌, ◌*◌, ◌<◌, min, lt→ltb, List, [], ◌∷◌, foldl, All, true, false, Option, none, ok, ◌≡◌,
  refl, ap, ◌∙◌,
}
use minerby.Pow.Doubles.{Doubles}
use minerby.Pool.Events.{Event, on_job, on_submit_result}
use minerby.Pool.PoolClient.{Answer, PoolClient, IsPoolClient}
use minerby.App.Run.{
  Run, Round, retried, starved, Ended, job_timeout, is_over, naps, take_event, take_answer,
  drop_work, after_poll, poll_round, after_connect, connect_round, round,
}
use minerby.App.Run.Rounds.{take_answer-backoff}

-- The callback brings no job.
abbrev pub IsJobless : Event → Type 0
IsJobless (on_job job seed) = ⊥
IsJobless (on_submit_result accepted error) = Unit

module _ (D : Doubles) (share_diff : D.Double) where
  event-job_at :
      {Client : Type 0} (at : ℕ) (s : Run Client) (e : Event)
      → IsJobless e
      → (take_event D share_diff at s e).last_job_at ≡ s.last_job_at
  unfolding take_event
  event-job_at at s (on_job job seed) jobless = absurd jobless
  event-job_at at s (on_submit_result true error) jobless = refl
  event-job_at at s (on_submit_result false error) jobless = refl

  event-client :
      {Client : Type 0} (at : ℕ) (s : Run Client) (e : Event)
      → (take_event D share_diff at s e).client ≡ s.client
  unfolding take_event
  event-client at s (on_job job seed) = refl
  event-client at s (on_submit_result true error) = refl
  event-client at s (on_submit_result false error) = refl

  events-client :
      {Client : Type 0} (at : ℕ) (s : Run Client) (es : List Event)
      → (foldl (take_event D share_diff at) s es).client ≡ s.client
  events-client at s [] = refl
  events-client at s (e ∷ es) =
      events-client at (take_event D share_diff at s e) es ∙ event-client at s e

  events-job_at :
      {Client : Type 0} (at : ℕ) (s : Run Client) (es : List Event)
      → All IsJobless es
      → (foldl (take_event D share_diff at) s es).last_job_at ≡ s.last_job_at
  events-job_at at s [] jobless = refl
  events-job_at at s (e ∷ es) jobless =
      events-job_at at (take_event D share_diff at s e) es jobless.1 ∙ event-job_at at s e jobless.0

module _ (D : Doubles) (share_diff : D.Double) (P : PoolClient) (deadline : Option ℕ) where
  open P use {Client, Outside}

  -- Neither a signal nor the deadline ends the round.
  pub record GoesOn (r : Round Outside) : Type 0 where
    pub no_stop : r.stop ≡ false
    pub early : is_over deadline r.deadline_at ≡ false

  pub round-connected :
      (s : Run Client) (r : Round Outside)
      → GoesOn r
      → P.connected s.client ≡ true
      → round D share_diff P deadline s r ≡ poll_round D share_diff P deadline s r
  unfolding round
  round-connected s r goes on = rw (goes.no_stop, goes.early, on) refl

  pub round-unconnected :
      (s : Run Client) (r : Round Outside)
      → GoesOn r
      → P.connected s.client ≡ false
      → round D share_diff P deadline s r ≡ connect_round D share_diff P deadline s r
  unfolding round
  round-unconnected s r goes off = rw (goes.no_stop, goes.early, off) refl

  starving :
      (s : Run Client) (r : Round Outside) (a : Answer Client)
      → P.poll s.client r.polling ≡ ok a
      → a.done ≡ true
      → All IsJobless a.events
      → s.last_job_at + job_timeout < r.watchdog_at
      → poll_round D share_diff P deadline s r
        ≡ ok (record {
          run = drop_work D share_diff P deadline (take_answer D share_diff r.polling_job_at s a);
          ending = starved;
        })
  unfolding poll_round after_poll take_answer
  starving s r a polled done jobless late =
      let kept =
        events-job_at D share_diff r.polling_job_at (record s { client = a.client }) a.events
          jobless in
      rw (polled, done, kept, lt→ltb _ _ late) refl

  -- A pool that keeps the connection but sends no job is left: in the first round whose watchdog reads
  -- a time more than 150 seconds after the last job, the connection is closed and the workers lose
  -- their job, and the next round that neither a signal nor the deadline ends connects again.
  pub silent_pool-reconnects :
      (s : Run Client) (r : Round Outside) (a : Answer Client)
      → IsPoolClient P
      → GoesOn r
      → P.connected s.client ≡ true
      → P.poll s.client r.polling ≡ ok a
      → a.done ≡ true
      → All IsJobless a.events
      → s.last_job_at + job_timeout < r.watchdog_at
      → (e : Ended Client) × (round D share_diff P deadline s r ≡ ok e)
        × (e.ending ≡ starved)
        × (P.connected e.run.client ≡ false)
        × (e.run.workers.job ≡ none)
        × ((r' : Round Outside)
            → GoesOn r'
            → round D share_diff P deadline e.run r'
              ≡ connect_round D share_diff P deadline e.run r')
  silent_pool-reconnects s r a laws goes on polled done jobless late =
      let t = take_answer D share_diff r.polling_job_at s a in
      let off = laws.disconnect-connected t.client in
      (
        record { run = drop_work D share_diff P deadline t; ending = starved },
        round-connected s r goes on ∙ starving s r a polled done jobless late,
        refl,
        off,
        refl,
        λ r' goes'. round-unconnected (drop_work D share_diff P deadline t) r' goes' off,
      )

  -- A try to connect that fails but leaves the connection open is not repeated: the next round polls
  -- the connection as if the client had logged in.
  pub failed_try-polls :
      (s : Run Client) (r : Round Outside) (a : Answer Client)
      → GoesOn r
      → P.connected s.client ≡ false
      → P.connect s.client r.joining ≡ ok a
      → a.done ≡ false
      → P.connected a.client ≡ true
      → (e : Ended Client) × (round D share_diff P deadline s r ≡ ok e)
        × (e.ending ≡ retried (naps (s.backoff * 10) r.looks))
        × ((r' : Round Outside)
            → GoesOn r'
            → round D share_diff P deadline e.run r' ≡ poll_round D share_diff P deadline e.run r')
  unfolding connect_round after_connect take_answer
  failed_try-polls s r a goes off joined failed on =
      let t = take_answer D share_diff r.joining_job_at s a in
      let same =
        events-client D share_diff r.joining_job_at (record s { client = a.client }) a.events in
      (
        record {
          run = record t { backoff = min (t.backoff * 2) 30 };
          ending = retried (naps (t.backoff * 10) r.looks);
        },
        round-unconnected s r goes off ∙ rw (joined, failed) refl,
        ap (λ b. retried (naps (b * 10) r.looks))
            (take_answer-backoff D share_diff r.joining_job_at s a),
        λ r' goes'.
            round-connected (record t { backoff = min (t.backoff * 2) 30 }) r' goes'
              (ap P.connected same ∙ on),
      )
