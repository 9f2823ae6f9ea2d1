-- ===== src/Examples/Loop.antt =====
-- The loop of src/app/main.cpp with a Monero client, at concrete rounds.
use minerby.Base.{
  ℕ, ◌*◌, arith, List, [], ◌∷◌, codes, true, false, none, some, ok, inl, ◌≡◌, refl, sym, subst, All,
  tabulate,
}
use minerby.Net.TcpClient.{refused, connected, is_open, try_all, connect, adopt}
use minerby.Net.TcpClient.{read_line, read_loop, split_line, or_line}
use minerby.Pool.MoneroClient.{MoneroClient, new_monero_client}
use minerby.Pool.MoneroClient.Session.{connect_monero, poll, polled, maybe_keepalive}
use minerby.Pool.Events.{Event}
use minerby.Pool.PoolClient.{Answer, PoolClient, Network, monero_pool, monero_pool-IsPoolClient}
use minerby.App.Run.{
  Run, Round, Ending, retried, starved, Ended, Looped, begin, naps, take_answer, after_connect,
  connect_round, poll_round, round, loop, loop_on, shut_down,
}
use minerby.App.Run.Rounds.{IsSettled, round-IsSettled}
use minerby.App.Run.Sound.{IsSound, begin-IsSound}
use minerby.App.Run.Loop.{loop-IsSound, loop-ends}
use minerby.App.Run.Retries.{IsRetry, wait_after, retries-back_off}
use minerby.App.Run.Silence.{IsJobless, GoesOn, silent_pool-reconnects}
use minerby.App.Run.Login.{silent_server-polls}
use minerby.Examples.Numbers.{whole}
use minerby.Examples.Documents.{documents}

abbrev pool : PoolClient
pool = monero_pool whole (documents [])

-- No address, and nothing received.
abbrev nowhere : Network
nowhere = record { addrs = none; now = 0; sends = []; more_sends = []; received = [] }

-- The second address takes the connection.
abbrev somewhere : Network
somewhere = record nowhere { addrs = some (refused 6 ∷ connected 7 ∷ []) }

abbrev quiet_round : Network → Round Network
quiet_round joining = record {
  stop = false;
  deadline_at = 1000;
  joining = joining;
  joining_job_at = 1000;
  looks = [];
  joined_at = 1000;
  polling = nowhere;
  polling_job_at = 1000;
  watchdog_at = 200000;
  persist_at = 200000;
  status_at = 200000;
}

abbrev client : MoneroClient ℕ
client = new_monero_client whole (documents []) (codes "wallet") (codes "x") true true

abbrev first : Run (MoneroClient ℕ)
first = begin client 0

tried :
    (e : Ended (MoneroClient ℕ)) × (round whole 0 pool (some 600000) first (quiet_round nowhere)
      ≡ ok e)
unfolding round connect_round connect_monero connect adopt after_connect new_monero_client
tried = (_, refl)

round-IsSettled_example :
    IsSettled whole 0 pool
      (monero_pool-IsPoolClient whole (documents []))
      (some 600000)
      first
      (quiet_round nowhere)
      tried.0
round-IsSettled_example =
    round-IsSettled whole 0 pool (monero_pool-IsPoolClient whole (documents [])) (some 600000) first
      (quiet_round nowhere) tried.0 tried.1

abbrev last_round : Round Network
last_round = record (quiet_round nowhere) { stop = true }

looped :
    (o : Looped (MoneroClient ℕ)) × (loop whole 0 pool
        (some 600000)
        first
        (quiet_round nowhere ∷ quiet_round nowhere ∷ last_round ∷ [])
      ≡ ok o)
unfolding loop loop_on round connect_round connect_monero connect adopt after_connect take_answer
    new_monero_client
looped = (_, refl)

loop-IsSound_example : IsSound looped.0.run
loop-IsSound_example =
    loop-IsSound whole 0 pool (some 600000) first
      (quiet_round nowhere ∷ quiet_round nowhere ∷ last_round ∷ []) looped.0
      (begin-IsSound client 0) looped.1

loop-ends_example :
    let last = shut_down whole 0 pool (some 600000) looped.0.run in
    (looped.0.over ≡ true) × (last.workers.running ≡ false) × (pool.connected last.client ≡ false)
loop-ends_example =
    loop-ends whole 0 pool (some 600000) first (quiet_round nowhere ∷ quiet_round nowhere ∷ [])
      last_round [] looped.0 (monero_pool-IsPoolClient whole (documents [])) (inl refl) looped.1

refused_twice :
    (o : Looped (MoneroClient ℕ)) × (loop whole 0 pool none first
        (quiet_round nowhere ∷ quiet_round nowhere ∷ [])
      ≡ ok o)
    × (◌≡◌ {A = List Ending} o.endings (retried 10 ∷ retried 20 ∷ []))
unfolding loop loop_on round connect_round connect_monero connect adopt after_connect take_answer
    new_monero_client naps
refused_twice = (_, refl, refl)

retries-back_off_example : refused_twice.0.endings ≡ tabulate 2 0 (λ i. retried (10 * wait_after i))
retries-back_off_example =
    retries-back_off whole 0 pool (monero_pool-IsPoolClient whole (documents [])) none first
      (quiet_round nowhere ∷ quiet_round nowhere ∷ []) refused_twice.0 refl (refl, (refl, tt))
      (subst (All IsRetry) (sym refused_twice.2) (tt, (tt, tt))) refused_twice.1

-- Connected, and logged in.
abbrev mining : Run (MoneroClient ℕ)
mining = begin (record client { conn = record { sock = some 7; rx = [] }; logged_in = true }) 0

goes : (r : Network) → GoesOn whole 0 pool (some 600000) (quiet_round r)
goes r = record { no_stop = refl; early = refl }

polled_nothing :
    (a : Answer (MoneroClient ℕ)) × (pool.poll mining.client nowhere ≡ ok a)
    × (a.done ≡ true)
    × (◌≡◌ {A = List Event} a.events [])
unfolding poll polled maybe_keepalive read_line read_loop or_line split_line new_monero_client
polled_nothing = (_, refl, refl, refl)

silent_pool-reconnects_example :
    (e : Ended (MoneroClient ℕ)) × (round whole 0 pool (some 600000) mining (quiet_round nowhere)
      ≡ ok e)
    × (e.ending ≡ starved)
    × (pool.connected e.run.client ≡ false)
    × (e.run.workers.job ≡ none)
    × ((r' : Round Network)
        → GoesOn whole 0 pool (some 600000) r'
        → round whole 0 pool (some 600000) e.run r'
          ≡ connect_round whole 0 pool (some 600000) e.run r')
silent_pool-reconnects_example =
    silent_pool-reconnects whole 0 pool (some 600000) mining (quiet_round nowhere) polled_nothing.0
      (monero_pool-IsPoolClient whole (documents [])) (goes nowhere) refl polled_nothing.1
      polled_nothing.2 (subst (All IsJobless) (sym polled_nothing.3) tt) (omega arith)

unconnected : (is_open client.conn ≡ false) × (client.logged_in ≡ false)
unfolding new_monero_client
unconnected = (refl, refl)

reached : (try_all (refused 6 ∷ connected 7 ∷ [])).s ≡ some 7
unfolding try_all
reached = refl

silent_server-polls_example :
    (e : Ended (MoneroClient ℕ)) × (round whole 0 pool (some 600000) first (quiet_round somewhere)
      ≡ ok e)
    × (e.ending ≡ retried (naps 10 []))
    × ((r' : Round Network)
        → GoesOn whole 0 pool (some 600000) r'
        → round whole 0 pool (some 600000) e.run r'
          ≡ poll_round whole 0 pool (some 600000) e.run r')
silent_server-polls_example =
    silent_server-polls whole (documents []) 0 (some 600000) first (quiet_round somewhere)
      (refused 6 ∷ connected 7 ∷ []) 7 (goes somewhere) unconnected.0 unconnected.1 refl reached
      refl
