-- ===== src/App/Run/Rounds.antt =====
-- src/app/main.cpp: how a round of the connection loop ends, and what holds then.
use minerby.Base.{
  ℕ, ◌+◌, ◌*◌, ◌≤◌, ◌<◌, min, ltb, suc, zero, List, [], ◌∷◌, Bool, true, false, not, Option, none,
  ok, >>=-eq-ok, ok-injective, ◌≡◌, refl, subst, ap, arith, if_split, foldl, ◌∙◌,
}
use minerby.Pow.Doubles.{Doubles}
use minerby.Pool.Events.{Event, on_job, on_submit_result}
use minerby.Pool.PoolClient.{Answer, PoolClient, IsPoolClient}
use minerby.App.Run.{
  Run, Round, Ending, stopped, expired, retried, dropped, starved, went_on, Ended, seconds,
  job_timeout, is_over, naps, take_event, take_answer, go_on, after_poll, poll_round, after_connect,
  connect_round, round,
}

pub naps_all : (n : ℕ) → naps n [] ≡ n
unfolding naps
naps_all zero = refl
naps_all (suc n) = ap suc (naps_all n)

pub naps-le : (n : ℕ) (looks : List Bool) → naps n looks ≤ n
unfolding naps
naps-le zero looks = omega arith
naps-le (suc n) [] = omega (arith, naps-le n [])
naps-le (suc n) (true ∷ looks) = omega arith
naps-le (suc n) (false ∷ looks) = omega (arith, naps-le n looks)

module _ (D : Doubles) (share_diff : D.Double) where
  take_event-backoff :
      {Client : Type 0} (at : ℕ) (s : Run Client) (e : Event)
      → (take_event D share_diff at s e).backoff ≡ s.backoff
  unfolding take_event
  take_event-backoff at s (on_job job seed) = refl
  take_event-backoff at s (on_submit_result true error) = refl
  take_event-backoff at s (on_submit_result false error) = refl

  take_events-backoff :
      {Client : Type 0} (at : ℕ) (s : Run Client) (es : List Event)
      → (foldl (take_event D share_diff at) s es).backoff ≡ s.backoff
  take_events-backoff at s [] = refl
  take_events-backoff at s (e ∷ es) =
      take_events-backoff at (take_event D share_diff at s e) es ∙ take_event-backoff at s e

  pub take_answer-backoff :
      {Client : Type 0} (at : ℕ) (s : Run Client) (a : Answer Client)
      → (take_answer D share_diff at s a).backoff ≡ s.backoff
  unfolding take_answer
  take_answer-backoff at s a = take_events-backoff at (record s { client = a.client }) a.events

module _ (D : Doubles) (share_diff : D.Double) (P : PoolClient) (laws : IsPoolClient P)
    (deadline : Option ℕ) where
  open P use {Client, Outside}

  -- What a round that began with `s` leaves, by its end.
  abbrev pub Left : Run Client → Round Outside → Run Client → Ending → Type 0
  Left s r t stopped = (r.stop ≡ true) × (t ≡ s)
  Left s r t expired = (is_over deadline r.deadline_at ≡ true) × (t ≡ s)
  Left s r t (retried n) =
      (P.connected s.client ≡ false)
      × ((a : Answer Client) × (P.connect s.client r.joining ≡ ok a) × (a.done ≡ false))
      × (t.backoff ≡ min (s.backoff * 2) 30)
      × (n ≤ s.backoff * 10)
      × (r.looks ≡ [] → n ≡ s.backoff * 10)
  Left s r t dropped = (P.connected t.client ≡ false) × (t.workers.job ≡ none)
  Left s r t starved =
      (P.connected t.client ≡ false)
      × (t.workers.job ≡ none)
      × (t.last_job_at + job_timeout < r.watchdog_at)
  Left s r t (went_on persisted shown) =
      (r.watchdog_at ≤ t.last_job_at + job_timeout)
      × (persisted ≡ true → t.next_persist ≤ r.persist_at + seconds 30)
      × (persisted ≡ false → r.persist_at < t.next_persist)
      × (shown ≡ true → t.next_status ≤ r.status_at + seconds 5)
      × (shown ≡ false → r.status_at < t.next_status)

  abbrev pub IsSettled : Run Client → Round Outside → Ended Client → Type 0
  IsSettled s r e = Left s r e.run e.ending

  go_on-IsSettled :
      (s₀ s : Run Client) (r : Round Outside)
      → r.watchdog_at ≤ s.last_job_at + job_timeout
      → IsSettled s₀ r (go_on D share_diff P deadline s r)
  unfolding go_on
  go_on-IsSettled s₀ s r h = (h, ground arith, ground arith, ground arith, ground arith)

  after_poll-IsSettled :
      (s₀ s : Run Client) (r : Round Outside) (done : Bool) (e : Ended Client)
      → after_poll D share_diff P deadline done s r ≡ e
      → IsSettled s₀ r e
  unfolding after_poll
  after_poll-IsSettled s₀ s r done e =
      if_split (not done)
        (λ _ h. subst (IsSettled s₀ r) h (laws.disconnect-connected s.client, refl))
        (λ _.
          if_split (ltb (s.last_job_at + job_timeout) r.watchdog_at)
            (λ late h.
              subst (IsSettled s₀ r) h (laws.disconnect-connected s.client, refl, ground arith))
            (λ fresh h. subst (IsSettled s₀ r) h (go_on-IsSettled s₀ s r (ground arith))))

  poll_round-IsSettled :
      (s₀ s : Run Client) (r : Round Outside) (e : Ended Client)
      → poll_round D share_diff P deadline s r ≡ ok e
      → IsSettled s₀ r e
  unfolding poll_round
  poll_round-IsSettled s₀ s r e h =
      let (a, _, h') = >>=-eq-ok (P.poll s.client r.polling) _ h in
      after_poll-IsSettled s₀ _ r a.done e (ok-injective h')

  pub after_connect-IsSettled :
      (s₀ s : Run Client) (r : Round Outside) (a : Answer Client) (done : Bool) (e : Ended Client)
      → P.connected s₀.client ≡ false
      → P.connect s₀.client r.joining ≡ ok a
      → a.done ≡ done
      → s.backoff ≡ s₀.backoff
      → after_connect D share_diff P deadline done s r ≡ ok e
      → IsSettled s₀ r e
  unfolding after_connect
  after_connect-IsSettled s₀ s r a true e off called done kept h = poll_round-IsSettled s₀ _ r e h
  after_connect-IsSettled s₀ s r a false e off called done kept h =
      subst (IsSettled s₀ r) (ok-injective h) (
        off,
        (a, called, done),
        omega (arith, kept),
        omega (arith, kept, naps-le (s.backoff * 10) r.looks),
        λ calm. rw calm (omega (arith, kept, naps_all (s.backoff * 10))),
      )

  connect_round-IsSettled :
      (s : Run Client) (r : Round Outside) (e : Ended Client)
      → P.connected s.client ≡ false
      → connect_round D share_diff P deadline s r ≡ ok e
      → IsSettled s r e
  unfolding connect_round
  connect_round-IsSettled s r e off h =
      let (a, called, h') = >>=-eq-ok (P.connect s.client r.joining) _ h in
      after_connect-IsSettled s _ r a a.done e off called refl
        (take_answer-backoff D share_diff r.joining_job_at s a) h'

  -- Each way out of a round of the loop. A signal or the deadline ends it with nothing done. A failed
  -- try to connect happens only without a connection; it doubles the wait up to 30 seconds, and
  -- sleeps no longer than the wait was, and as long without a signal. A lost connection and the watchdog, which acts only on a job
  -- older than 150 seconds, leave no connection and no work. Otherwise the last job is at most 150
  -- seconds old, the totals are saved and the status is shown if they are due, and a next time is
  -- at most one period ahead of the reading where they are, and ahead of it where they are not.
  pub round-IsSettled :
      (s : Run Client) (r : Round Outside) (e : Ended Client)
      → round D share_diff P deadline s r ≡ ok e
      → IsSettled s r e
  unfolding round
  round-IsSettled s r e =
      if_split r.stop (λ stop h. subst (IsSettled s r) (ok-injective h) (stop, refl))
        (λ _.
          if_split (is_over deadline r.deadline_at)
            (λ over h. subst (IsSettled s r) (ok-injective h) (over, refl))
            (λ _.
              if_split (P.connected s.client) (λ _. poll_round-IsSettled s s r e)
                (λ off. connect_round-IsSettled s r e off)))
