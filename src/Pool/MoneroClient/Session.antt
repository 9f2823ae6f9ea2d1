-- ===== src/Pool/MoneroClient/Session.antt =====
-- src/pool/monero_client.cpp: `connect`, `poll`, the keepalive and `submit` over the connection.
use minerby.Base.{
  ℕ, suc, zero, ◌+◌, ◌-◌, ◌/◌, pos, ltb, Bytes, List, [], ◌∷◌, ◌++◌, codes, Bool, true, false, not,
  ◌||◌, Option, none, some, Result, ok, ◌>>=◌, if◌then◌else◌,
}
use minerby.Json.{JsonLib}
use minerby.Util.Hex.{to_hex}
use minerby.Pow.Doubles.{Doubles}
use minerby.Miner.Job.{MiningJob}
use minerby.Net.TcpClient.{
  is_open, Attempt, connect, Sent, SendResult, send_all, Received, read_line,
}
use minerby.Pool.Events.{Polled, Submitted, Joined, after_events, nonce_bytes, is_nil}
use minerby.Pool.MoneroClient.{Client, handle}

module _ (D : Doubles) (J : JsonLib D.Double) where
  open J use {Json}

  -- A request with the version of the protocol.
  abbrev pub rpc : ℕ → Bytes → List (Bytes × Json) → Json
  rpc id method params = J.object (
      (codes "id", J.number id)
      ∷ (codes "jsonrpc", J.string (codes "2.0"))
      ∷ (codes "method", J.string method)
      ∷ (codes "params", J.object params)
      ∷ [])

  abbrev pub send_rpc : Client D J → Json → List Sent → SendResult
  send_rpc c m sends = send_all c.conn (J.dump m ++ b'\n' ∷ []) sends

  -- The result of the send is dropped.
  unfoldable pub maybe_keepalive : Client D J → ℕ → List Sent → Submitted (Client D J)
  maybe_keepalive c now sends =
      let m = rpc c.next_id (codes "keepalived") ((codes "id", J.string c.rpc_id) ∷ []) in
      if (not c.logged_in || is_nil c.rpc_id) || ltb ((now - c.last_keepalive) / 1000) 45
      then record { client = c; done = true; wire = [] }
      else record {
        client = record c { last_keepalive = now; next_id = c.next_id + 1 };
        done = true;
        wire = (send_rpc c m sends).wire;
      }

  abbrev pub stay : Client D J → Bool → List Received → Polled (Client D J)
  stay c done rs = record { client = c; events = []; done = done; left = rs }

  unfoldable pub take_message :
      Client D J → Option Json → List Received → Result (Polled (Client D J))
  take_message c none left = ok (stay c true left)
  take_message c (some msg) left = do
    h ← handle D J c msg
    ok (record { client = h.client; events = h.events; done = true; left = left })

  unfoldable pub polled : Client D J → Option Bytes → List Received → Result (Polled (Client D J))
  polled c none left = ok (stay c (is_open c.conn) left)
  polled c (some []) left = ok (stay c true left)
  polled c (some (b ∷ bs)) left = take_message c (J.parse (b ∷ bs)) left

  -- `now` is the clock's, `sends` and `rs` what the socket calls return.
  unfoldable pub poll : Client D J → ℕ → List Sent → List Received → Result (Polled (Client D J))
  poll c now sends rs =
      let kept = (maybe_keepalive c now sends).client in
      let r = read_line kept.conn rs in
      polled (record kept { conn = record (kept.conn) { rx = r.rx } }) r.line r.left

  unfoldable pub or_dropped :
      (Client D J → List Received → Result (Polled (Client D J)))
      → Polled (Client D J)
      → Result (Polled (Client D J))
  or_dropped go_on p =
      if not p.done then ok p else do rest ← go_on p.client p.left; ok (after_events p.events rest)

  -- `for (int i = 0; i < 20 && !logged_in_; ++i)`, with the rounds that are left. The client is not
  -- logged in before a poll, so no keepalive is sent here and the clock does not matter.
  unfoldable pub await_login : ℕ → Client D J → List Received → Result (Polled (Client D J))
  await_login zero c rs = ok (stay c c.logged_in rs)
  await_login (suc n) c rs =
      if c.logged_in
      then ok (stay c true rs)
      else do p ← poll c 0 [] rs; or_dropped (await_login n) p

  abbrev pub joined : Bytes → Polled (Client D J) → Joined (Client D J)
  joined wire p = record {
    client = p.client;
    events = p.events;
    done = p.done;
    left = p.left;
    wire = wire;
  }

  -- The `login` request, and the wait for its reply.
  unfoldable pub login : Client D J → ℕ → List Sent → List Received → Result (Joined (Client D J))
  login c now sends rs =
      let named = record c { login_id = pos c.next_id; next_id = c.next_id + 1 } in
      let m = rpc c.next_id (codes "login") (
        (codes "login", J.string c.user)
        ∷ (codes "pass", J.string c.pass)
        ∷ (codes "agent", J.string (codes "minerby/0.2.0"))
        ∷ (codes "algo", J.array (J.string (codes "rx/0") ∷ []))
        ∷ []) in
      let s = send_rpc named m sends in
      if not s.done
      then ok (joined s.wire (stay named false rs))
      else do p ← await_login 20 (record named { last_keepalive = now }) rs; ok (joined s.wire p)

  unfoldable pub connect_monero :
      Client D J
      → Option (List Attempt)
      → ℕ
      → List Sent
      → List Received
      → Result (Joined (Client D J))
  connect_monero c addrs now sends rs =
      let r = connect c.conn addrs in
      let opened = record c { conn = r.client } in
      if not r.done then ok (joined [] (stay opened false rs)) else login opened now sends rs

  unfoldable pub submit_share :
      Client D J → MiningJob → ℕ → Bytes → List Sent → Submitted (Client D J)
  submit_share c job nonce digest sends =
      let named = record c { last_submit_id = pos c.next_id; next_id = c.next_id + 1 } in
      let m = rpc c.next_id (codes "submit") (
        (codes "id", J.string c.rpc_id)
        ∷ (codes "job_id", J.string job.job_id)
        ∷ (codes "nonce", J.string (to_hex (nonce_bytes nonce)))
        ∷ (codes "result", J.string (to_hex digest))
        ∷ []) in
      let s = send_rpc named m sends in record { client = named; done = s.done; wire = s.wire }
