-- ===== src/Pool/StratumV1Client/Session.antt =====
-- src/pool/stratum_v1_client.cpp: `connect`, `poll` and `submit` over the connection.
use minerby.Base.{
  ℕ, suc, zero, ◌+◌, pos, Bytes, List, [], ◌∷◌, ◌++◌, codes, Bool, true, false, not, Option, none,
  some, Result, ok, ◌>>=◌, if◌then◌else◌,
}
use minerby.Json.{JsonLib}
use minerby.Util.Hex.{to_hex}
use minerby.Pow.Doubles.{Doubles}
use minerby.Miner.Job.{MiningJob}
use minerby.Net.TcpClient.{
  is_open, Attempt, connect, Sent, SendResult, send_all, Received, read_line,
}
use minerby.Pool.Events.{Polled, Submitted, Joined, after_events, nonce_bytes, is_nil}
use minerby.Pool.StratumV1Client.{Client, handle_line}

module _ (junk : Bytes) (D : Doubles) (J : JsonLib D.Double) where
  open J use {Json}

  unfoldable pub polled :
      Client junk D J → Option Bytes → List Received → Result (Polled (Client junk D J))
  polled c none left = ok (record { client = c; events = []; done = is_open c.conn; left = left })
  polled c (some []) left = ok (record { client = c; events = []; done = true; left = left })
  polled c (some (b ∷ bs)) left = do
    h ← handle_line junk D J c (b ∷ bs)
    ok (record { client = h.client; events = h.events; done = true; left = left })

  -- `rs` is what `recv` will return.
  unfoldable pub poll : Client junk D J → List Received → Result (Polled (Client junk D J))
  poll c rs =
      let r = read_line c.conn rs in
      polled (record c { conn = record (c.conn) { rx = r.rx } }) r.line r.left

  abbrev pub stay : Client junk D J → Bool → List Received → Polled (Client junk D J)
  stay c done rs = record { client = c; events = []; done = done; left = rs }

  -- `if (!poll(5000)) return false;`, and the rest of the loop.
  unfoldable pub or_dropped :
      (Client junk D J → List Received → Result (Polled (Client junk D J)))
      → Polled (Client junk D J)
      → Result (Polled (Client junk D J))
  or_dropped go_on p =
      if not p.done then ok p else do rest ← go_on p.client p.left; ok (after_events p.events rest)

  -- `for (int i = 0; i < 20 && extranonce1_.empty(); ++i)`, with the rounds that are left.
  unfoldable pub await_subscribed :
      ℕ → Client junk D J → List Received → Result (Polled (Client junk D J))
  await_subscribed zero c rs = ok (stay c (not (is_nil c.extranonce1)) rs)
  await_subscribed (suc n) c rs =
      if not (is_nil c.extranonce1)
      then ok (stay c true rs)
      else do p ← poll c rs; or_dropped (await_subscribed n) p

  abbrev pub request : ℕ → Bytes → List Json → Json
  request id method params = J.object (
      (codes "id", J.number id)
      ∷ (codes "method", J.string method)
      ∷ (codes "params", J.array params)
      ∷ [])

  -- A line with its end.
  abbrev pub send_json : Client junk D J → Json → List Sent → SendResult
  send_json c m sends = send_all c.conn (J.dump m ++ b'\n' ∷ []) sends

  abbrev pub joined : Bytes → Polled (Client junk D J) → Joined (Client junk D J)
  joined wire p = record {
    client = p.client;
    events = p.events;
    done = p.done;
    left = p.left;
    wire = wire;
  }

  -- From the second request on.
  unfoldable pub authorize :
      Client junk D J → Bytes → List Sent → List Received → Result (Joined (Client junk D J))
  authorize c wire sends rs =
      let named = record c { authorize_id = pos c.next_id; next_id = c.next_id + 1 } in
      let m =
        request c.next_id (codes "mining.authorize") (J.string c.user ∷ J.string c.pass ∷ []) in
      let s = send_json named m sends in
      if not s.done
      then ok (joined (wire ++ s.wire) (stay named false rs))
      else do p ← await_subscribed 20 named rs; ok (joined (wire ++ s.wire) p)

  unfoldable pub subscribe :
      Client junk D J → List Sent → List Sent → List Received → Result (Joined (Client junk D J))
  subscribe c sends sends' rs =
      let named = record c { subscribe_id = pos c.next_id; next_id = c.next_id + 1 } in
      let m = request c.next_id (codes "mining.subscribe") (J.string (codes "minerby/0.2") ∷ []) in
      let s = send_json named m sends in
      if not s.done
      then ok (joined s.wire (stay named false rs))
      else authorize named s.wire sends' rs

  -- `addrs`, `sends`, `sends'` and `rs` are what the socket calls return.
  unfoldable pub connect_stratum :
      Client junk D J
      → Option (List Attempt)
      → List Sent
      → List Sent
      → List Received
      → Result (Joined (Client junk D J))
  connect_stratum c addrs sends sends' rs =
      let r = connect c.conn addrs in
      let opened = record c { conn = r.client } in
      if not r.done then ok (joined [] (stay opened false rs)) else subscribe opened sends sends' rs

  unfoldable pub submit : Client junk D J → MiningJob → ℕ → List Sent → Submitted (Client junk D J)
  submit c job nonce sends =
      let named = record c { last_submit_id = pos c.next_id; next_id = c.next_id + 1 } in
      let m = request c.next_id (codes "mining.submit") (
        J.string c.user
        ∷ J.string job.job_id
        ∷ J.string job.extranonce2_hex
        ∷ J.string job.ntime_hex
        ∷ J.string (to_hex (nonce_bytes nonce))
        ∷ []) in
      let s = send_json named m sends in record { client = named; done = s.done; wire = s.wire }
