-- ===== src/App/Run.antt =====
-- src/app/main.cpp: the connection loop of `cmd_run`, in a build with RandomX. What the system
-- returns, the looks at the flag that a signal sets and the readings of the clock are arguments;
-- times are in milliseconds. The log and the status lines are left out.
pub mod Rounds
pub mod Sound
pub mod Loop
pub mod Retries
pub mod Silence
pub mod Login
use minerby.Base.{
  ℕ, zero, suc, ◌+◌, ◌*◌, min, ltb, leb, ◌==◌, ℤ, pos, negsuc, u64, Bytes, List, [], ◌∷◌, foldl,
  Bool, true, false, not, Option, none, some, Result, ok, err, ◌>>=◌, if◌then◌else◌,
}
use minerby.Pow.Doubles.{Doubles}
use minerby.Pool.Events.{Event, on_job, on_submit_result}
use minerby.Pool.PoolClient.{Answer, PoolClient}
use minerby.App.JobCallback.{Call, handle_job, Workers, do_call}

-- The variables of `cmd_run` that the loop and the callbacks change.
pub record Run (Client : Type 0) : Type 0 where
  pub client : Client
  pub workers : Workers
  pub current_seed : Bytes
  pub accepted : ℕ  -- uint64_t
  pub rejected : ℕ
  pub backoff : ℕ  -- seconds
  pub last_job_at : ℕ
  pub next_persist : ℕ
  pub next_status : ℕ

-- What one round of the loop sees. The jobs of one call of the client are read at one time.
pub record Round (Outside : Type 0) : Type 0 where
  pub stop : Bool  -- `g_stop` at the head of the loop
  pub deadline_at : ℕ
  pub joining : Outside
  pub joining_job_at : ℕ
  pub looks : List Bool  -- `g_stop` in the wait for another try
  pub joined_at : ℕ
  pub polling : Outside
  pub polling_job_at : ℕ
  pub watchdog_at : ℕ
  pub persist_at : ℕ
  pub status_at : ℕ

-- Before the loop, at the time `now`. `client` has its callbacks; A new context has
-- no seed.
abbrev pub begin : {Client : Type 0} → Client → ℕ → Run Client
begin client now = record {
  client = client;
  workers = record { running = false; paused = false; job = none; seed = [] };
  current_seed = [];
  accepted = 0;
  rejected = 0;
  backoff = 1;
  last_job_at = now;
  next_persist = now + 30000;
  next_status = now + 5000;
}

-- How a round ends.
pub data Ending : Type 0 where
  stopped : Ending  -- the loop's test fails
  expired : Ending  -- the duration of the run is over
  retried : (naps : ℕ) → Ending  -- `connect` failed, with the tenths of a second that it slept
  dropped : Ending  -- `poll` said that the connection is gone
  starved : Ending  -- the watchdog found no job
  went_on : (persisted : Bool) (shown : Bool) → Ending

pub record Ended (Client : Type 0) : Type 0 where
  pub run : Run Client
  pub ending : Ending

-- `k` seconds.
abbrev pub seconds : ℕ → ℕ
seconds k = k * 1000

abbrev pub job_timeout : ℕ
job_timeout = seconds 150

-- `run_for_seconds > 0`, and the deadline then.
unfoldable pub deadline_of : ℕ → ℤ → Option ℕ
deadline_of run_start (negsuc n) = none
deadline_of run_start (pos n) = if n == 0 then none else some (run_start + seconds n)

abbrev pub is_over : Option ℕ → ℕ → Bool
is_over none now = false
is_over (some deadline) now = leb deadline now

-- `for (int i = 0; i < n && !g_stop.load(); ++i)`: how often it sleeps. A list of looks that ends
-- stands for no signal from there on.
unfoldable pub naps : ℕ → List Bool → ℕ
naps zero looks = 0
naps (suc n) [] = suc (naps n [])
naps (suc n) (true ∷ looks) = 0
naps (suc n) (false ∷ looks) = suc (naps n looks)

-- The loop after some rounds.
pub record Looped (Client : Type 0) : Type 0 where
  pub run : Run Client
  pub endings : List Ending
  pub over : Bool

-- `break`, or the end of the loop by its test.
abbrev pub is_last : Ending → Bool
is_last stopped = true
is_last expired = true
is_last (retried n) = false
is_last dropped = false
is_last starved = false
is_last (went_on persisted shown) = false

-- After a round: the end of the loop, or the rounds to come.
unfoldable pub loop_on :
    {Client : Type 0}
    → (Run Client → Result (Looped Client))
    → Ended Client
    → Result (Looped Client)
loop_on more e =
    if is_last e.ending
    then ok (record { run = e.run; endings = e.ending ∷ []; over = true })
    else do
      rest ← more e.run
      ok (record { run = rest.run; endings = e.ending ∷ rest.endings; over = rest.over })

-- `pool.stop()`: it returns at once where the workers do not run.
unfoldable pub stop_workers : Workers → Workers
stop_workers w = if w.running then record w { running = false; paused = false } else w

module _ (D : Doubles) (share_diff : D.Double) where
  -- `cb.on_job` and `cb.on_submit_result`.
  unfoldable pub take_event : {Client : Type 0} → ℕ → Run Client → Event → Run Client
  take_event at s (on_job job seed) =
      let r = handle_job D share_diff s.workers.running s.current_seed job seed in
      record s {
        workers = foldl do_call (s.workers) r.calls;
        current_seed = r.current_seed;
        last_job_at = at;
      }
  take_event at s (on_submit_result true error) = record s { accepted = u64 (s.accepted + 1) }
  take_event at s (on_submit_result false error) = record s { rejected = u64 (s.rejected + 1) }

  -- A call of the client: its state, and what its callbacks did.
  unfoldable pub take_answer : {Client : Type 0} → ℕ → Run Client → Answer Client → Run Client
  take_answer at s a = foldl (take_event at) (record s { client = a.client }) a.events

module _ (D : Doubles) (share_diff : D.Double) (P : PoolClient) (deadline : Option ℕ) where
  open P use {Client, Outside}

  -- `pool_client->disconnect(); pool.clear_work();`
  abbrev pub drop_work : Run Client → Run Client
  drop_work s = record s {
    client = P.disconnect s.client;
    workers = record (s.workers) { job = none };
  }

  -- After the watchdog: the totals are saved and the status shown when they are due.
  unfoldable pub go_on : Run Client → Round Outside → Ended Client
  go_on s r =
      let persisted = leb s.next_persist r.persist_at in
      let shown = leb s.next_status r.status_at in
      record {
        run = record s {
          next_persist = if persisted then s.next_persist + seconds 30 else s.next_persist;
          next_status = if shown then s.next_status + seconds 5 else s.next_status;
        };
        ending = went_on persisted shown;
      }

  -- After `poll`, with its result. The clock never runs back.
  unfoldable pub after_poll : Bool → Run Client → Round Outside → Ended Client
  after_poll done s r =
      if not done
      then record { run = drop_work s; ending = dropped }
      else if ltb (s.last_job_at + job_timeout) r.watchdog_at
      then record { run = drop_work s; ending = starved }
      else go_on s r

  unfoldable pub poll_round : Run Client → Round Outside → Result (Ended Client)
  poll_round s r = do
    a ← P.poll s.client r.polling
    ok (after_poll a.done (take_answer D share_diff r.polling_job_at s a) r)

  unfoldable pub after_connect : Bool → Run Client → Round Outside → Result (Ended Client)
  after_connect false s r = ok (record {
    run = record s { backoff = min (s.backoff * 2) 30 };
    ending = retried (naps (s.backoff * 10) r.looks);
  })
  after_connect true s r = poll_round (record s { backoff = 1; last_job_at = r.joined_at }) r

  unfoldable pub connect_round : Run Client → Round Outside → Result (Ended Client)
  connect_round s r = do
    a ← P.connect s.client r.joining
    after_connect a.done (take_answer D share_diff r.joining_job_at s a) r

  -- One round of `while (!g_stop.load())`.
  unfoldable pub round : Run Client → Round Outside → Result (Ended Client)
  round s r =
      if r.stop
      then ok (record { run = s; ending = stopped })
      else if is_over deadline r.deadline_at
      then ok (record { run = s; ending = expired })
      else if P.connected s.client
      then poll_round s r
      else connect_round s r

  -- The loop over rounds. Where the list ends, the loop is not over.
  unfoldable pub loop : Run Client → List (Round Outside) → Result (Looped Client)
  loop s [] = ok (record { run = s; endings = []; over = false })
  loop s (r ∷ rs) = do e ← round s r; loop_on (λ t. loop t rs) e

  -- `pool.stop(); … pool_client->disconnect();`
  unfoldable pub shut_down : Run Client → Run Client
  shut_down s = record s { client = P.disconnect s.client; workers = stop_workers s.workers }
