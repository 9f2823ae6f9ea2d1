-- ===== src/App/Run/Login.antt =====
-- src/app/main.cpp with the clients of src/pool/: a server that takes the connection and says nothing.
use minerby.Base.{
  ℕ, ◌+◌, ◌*◌, pos, zero, suc, List, [], Bytes, true, false, not, Option, some, Result, ok, ◌≡◌,
  refl, sym, subst, ap, if_either, ◌>>=◌,
}
use minerby.Json.{JsonLib}
use minerby.Pow.Doubles.{Doubles}
use minerby.Net.TcpClient.{
  TcpClient, Attempt, Sent, try_all, connect, adopt, is_open, read_line, read_loop, split_line,
  or_line,
}
use minerby.Pool.Events.{Polled, Joined}
use minerby.Pool.MoneroClient.{MoneroClient}
use minerby.Pool.MoneroClient.Session.{
  maybe_keepalive, poll, polled, await_login, or_dropped, login, connect_monero, stay, joined,
}
use minerby.Pool.PoolClient.{Network, monero_pool, joined_answer}
use minerby.App.Run.{Run, Round, Ended, retried, naps, round, poll_round}
use minerby.App.Run.Silence.{GoesOn, failed_try-polls}

-- A connection with nothing in its buffer.
abbrev pub opened : ℕ → TcpClient
opened k = record { sock = some k; rx = [] }

pub connect-opens :
    (c : TcpClient) (addrs : List Attempt) (k : ℕ)
    → (try_all addrs).s ≡ some k
    → ((connect c (some addrs)).client ≡ opened k) × ((connect c (some addrs)).done ≡ true)
unfolding connect adopt
connect-opens c addrs k h = rw h (refl, refl)

module _ (D : Doubles) (J : JsonLib D.Double) where
  -- The client with the connection, not logged in.
  abbrev waiting : MoneroClient D.Double → ℕ → MoneroClient D.Double
  waiting c k = record c { conn = opened k; logged_in = false }

  await_silence :
      (n : ℕ) (c : MoneroClient D.Double) (k : ℕ)
      → await_login D J n (waiting c k) [] ≡ ok (stay D J (waiting c k) false [])
  unfolding await_login poll polled or_dropped maybe_keepalive read_line read_loop or_line
      split_line
  await_silence zero c k = refl
  await_silence (suc n) c k = rw (await_silence n c k) refl

  -- `connect` returned false, and the connection is open.
  abbrev pub FailsOpen : Result (Joined (MoneroClient D.Double)) → Type 0
  FailsOpen tried =
      (j : Joined (MoneroClient D.Double)) × (tried ≡ ok j)
      × (j.done ≡ false)
      × (is_open j.client.conn ≡ true)

  after_wait :
      (waited : Result (Polled (MoneroClient D.Double))) (wire : Bytes) (c : MoneroClient D.Double)
      (k : ℕ)
      → waited ≡ ok (stay D J (waiting c k) false [])
      → FailsOpen (waited >>= λ p. ok (joined D J wire p))
  after_wait waited wire c k same = rw same (_, refl, refl, refl)

  login-FailsOpen :
      (c : MoneroClient D.Double) (k now : ℕ) (sends : List Sent)
      → FailsOpen (login D J (waiting c k) now sends [])
  unfolding login
  login-FailsOpen c k now sends =
      let named = record c {
        login_id = pos c.next_id;
        next_id = c.next_id + 1;
        last_keepalive = now;
      } in
      if_either FailsOpen (not _) (_, refl, refl, refl)
        (after_wait _ _ named k (await_silence 20 named k))

  -- A server that takes the connection and sends no line: `connect` fails whatever comes of sending
  -- the login, and leaves the connection open.
  pub connect_monero-FailsOpen :
      (c : MoneroClient D.Double) (addrs : List Attempt) (k now : ℕ) (sends : List Sent)
      → (try_all addrs).s ≡ some k
      → c.logged_in ≡ false
      → FailsOpen (connect_monero D J c (some addrs) now sends [])
  unfolding connect_monero
  connect_monero-FailsOpen c addrs k now sends h out =
      let (same, done) = connect-opens c.conn addrs k h in
      let waits = ap (λ b. record c { conn = opened k; logged_in = b }) out in
      rw (same, done)
        (subst (λ x. FailsOpen (login D J x now sends [])) (sym waits)
          (login-FailsOpen c k now sends))

  -- The loop with a Monero client and a server that takes the connection and says nothing: the round
  -- counts as a failed try, and the next round, if it goes on, does not connect or log in: it polls
  -- the connection.
  pub silent_server-polls :
      (share_diff : D.Double) (deadline : Option ℕ) (s : Run (MoneroClient D.Double))
      (r : Round Network) (addrs : List Attempt) (k : ℕ)
      → GoesOn D share_diff (monero_pool D J) deadline r
      → is_open s.client.conn ≡ false
      → s.client.logged_in ≡ false
      → r.joining.addrs ≡ some addrs
      → (try_all addrs).s ≡ some k
      → r.joining.received ≡ []
      → (e : Ended (MoneroClient D.Double)) × (round D share_diff (monero_pool D J) deadline s r
          ≡ ok e)
        × (e.ending ≡ retried (naps (s.backoff * 10) r.looks))
        × ((r' : Round Network)
            → GoesOn D share_diff (monero_pool D J) deadline r'
            → round D share_diff (monero_pool D J) deadline e.run r'
              ≡ poll_round D share_diff (monero_pool D J) deadline e.run r')
  silent_server-polls share_diff deadline s r addrs k goes off out named reached silent =
      let (j, tried, failed, on) =
        connect_monero-FailsOpen s.client addrs k r.joining.now r.joining.sends reached out in
      failed_try-polls D share_diff (monero_pool D J) deadline s r (joined_answer j) goes off
        (rw (named, silent, tried) refl) failed on
