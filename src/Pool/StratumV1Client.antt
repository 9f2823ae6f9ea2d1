-- ===== src/Pool/StratumV1Client.antt =====
-- src/pool/stratum_v1_client.hpp and src/pool/stratum_v1_client.cpp: the client of Bitcoin-style
-- Stratum. An exception that the code does not catch is an error of the result. `next_id_` is taken
-- to stay below the bound of `int`; the log is left out.
pub mod Session
pub mod Rebuild
pub mod Delivery
pub mod Extranonces
use minerby.Base.{
  ℕ, suc, zero, ◌+◌, ℤ, pos, negsuc, int_eq, Bytes, List, [], ◌∷◌, ◌++◌, codes, length, ◌==◌, Bool,
  true, false, not, ◌&&◌, ◌||◌, u8, u64, ◌>>>◌, Option, none, some, Result, ok, err, ◌>>=◌, ◌>>◌,
  if◌then◌else◌, same_bytes,
}
use minerby.Json.{JsonLib}
use minerby.Util.Hex.{to_hex}
use minerby.Pow.Doubles.{Doubles}
use minerby.Miner.Job.{MiningJob, empty_job}
use minerby.Net.TcpClient.{
  TcpClient, new_client, is_open, close, Attempt, connect, Sent, SendResult, send_all, Received,
  ReadResult, read_line,
}
use minerby.Stratum.Job.{StratumJob, no_job}
use minerby.Stratum.Parse.{Subscribed, parse_notify, parse_subscribe}
use minerby.Stratum.Work.{encode_extranonce2, build_work}
use minerby.Pool.Events.{Event, on_job, on_submit_result, call_if, Handled, Polled, Submitted}

-- `cb_` is two flags: whether each callback is set.
pub record StratumV1Client (Double : Type 0) : Type 0 where
  pub user : Bytes
  pub pass : Bytes
  pub conn : TcpClient
  pub has_on_job : Bool
  pub has_on_submit_result : Bool
  pub next_id : ℕ
  pub subscribe_id : ℤ
  pub authorize_id : ℤ
  pub last_submit_id : ℤ
  pub extranonce1 : Bytes
  pub extranonce2_size : ℤ
  pub difficulty : Double
  pub job : StratumJob
  pub have_job : Bool
  pub xn2_counter : ℕ  -- uint64_t

module _ (junk : Bytes) (D : Doubles) (J : JsonLib D.Double) where
  open J use {Json}

  abbrev pub Client : Type 0
  Client = StratumV1Client D.Double

  unfoldable pub new_stratum_client : Bytes → Bytes → Bool → Bool → Client
  new_stratum_client user pass has_on_job has_on_submit_result = record {
    user = user;
    pass = pass;
    conn = new_client;
    has_on_job = has_on_job;
    has_on_submit_result = has_on_submit_result;
    next_id = 1;
    subscribe_id = negsuc 0;
    authorize_id = negsuc 0;
    last_submit_id = negsuc 0;
    extranonce1 = [];
    extranonce2_size = pos 4;
    difficulty = D.of_ℕ 1;
    job = no_job;
    have_job = false;
    xn2_counter = 0;
  }

  abbrev pub quietly : Client → Handled Client
  quietly c = record { client = c; events = [] }

  unfoldable pub disconnect : Client → Client
  disconnect c = record c { conn = close c.conn; have_job = false }

  abbrev pub delivered : Client → Option MiningJob → Handled Client
  delivered c none = quietly c
  delivered c (some mj) = record { client = c; events = on_job mj [] ∷ [] }

  unfoldable pub rebuild_job : Client → Result (Handled Client)
  rebuild_job c = if not c.have_job || not c.has_on_job then ok (quietly c) else do
    xn2 ← encode_extranonce2 c.xn2_counter c.extranonce2_size
    ok (
        delivered (record c { xn2_counter = u64 (c.xn2_counter + 1) })
          (build_work junk D c.job c.extranonce1 xn2 c.difficulty empty_job))

  -- `mining.set_difficulty`, with the entries of `params` where it is an array.
  unfoldable pub take_difficulty : Client → List Json → Result (Handled Client)
  take_difficulty c [] = ok (quietly c)
  take_difficulty c (p ∷ more) = do d ← J.get_double p; rebuild_job (record c { difficulty = d })

  unfoldable pub set_difficulty : Client → Json → Result (Handled Client)
  set_difficulty c msg = if not (J.contains msg (codes "params")) then ok (quietly c) else do
    params ← J.member msg (codes "params")
    if J.is_array params then take_difficulty c (J.elements params) else ok (quietly c)

  unfoldable pub take_job : Client → Option StratumJob → Result (Handled Client)
  take_job c none = ok (quietly c)
  take_job c (some j) = rebuild_job (record c { job = j; have_job = true })

  unfoldable pub notify : Client → Json → Result (Handled Client)
  notify c msg = do
    params ← J.value_json msg (codes "params") (J.array [])
    take_job c (parse_notify J params)

  -- `!msg["result"].is_null() && !(… == false)`
  unfoldable pub result_holds : Json → Result Bool
  result_holds r =
      if J.is_null r then ok false else if J.is_boolean r then J.get_bool r else ok true

  unfoldable pub is_accepted : Json → Result Bool
  is_accepted msg =
      if not (J.contains msg (codes "result"))
      then ok false
      else do r ← J.member msg (codes "result"); result_holds r

  unfoldable pub error_text : Json → Result Bytes
  error_text msg =
      if not (J.contains msg (codes "error"))
      then ok []
      else do e ← J.member msg (codes "error"); ok (if J.is_null e then [] else J.dump e)

  unfoldable pub subscribed : Client → Subscribed → Client
  subscribed c s = record c { extranonce1 = s.extranonce1; extranonce2_size = s.extranonce2_size }

  unfoldable pub take_subscribe : Client → Json → Result (Handled Client)
  take_subscribe c msg = do
    r ← J.value_json msg (codes "result") J.null
    ok (quietly (subscribed c (parse_subscribe J r c.extranonce1 c.extranonce2_size)))

  unfoldable pub answered : Client → Json → ℤ → Bool → Bytes → Result (Handled Client)
  answered c msg id accepted error =
      if int_eq id c.subscribe_id
      then take_subscribe c msg
      else if int_eq id c.authorize_id
      then ok (quietly c)
      else ok (
          if int_eq id c.last_submit_id
          then record {
            client = c;
            events = call_if c.has_on_submit_result (on_submit_result accepted error);
          }
          else quietly c)

  unfoldable pub take_reply : Client → Json → Json → Result (Handled Client)
  take_reply c msg id_json = do
    id ← J.get_int id_json
    accepted ← is_accepted msg
    error ← error_text msg
    answered c msg id accepted error

  unfoldable pub reply : Client → Json → Result (Handled Client)
  reply c msg = if not (J.contains msg (codes "id")) then ok (quietly c) else do
    id_json ← J.member msg (codes "id")
    if J.is_null id_json then ok (quietly c) else take_reply c msg id_json

  unfoldable pub dispatch : Client → Bytes → Json → Result (Handled Client)
  dispatch c method msg =
      if same_bytes method (codes "mining.set_difficulty")
      then set_difficulty c msg
      else if same_bytes method (codes "mining.notify")
      then notify c msg
      else if same_bytes method (codes "client.reconnect")
      then ok (quietly (record c { conn = close c.conn }))
      else reply c msg

  unfoldable pub handle_message : Client → Option Json → Result (Handled Client)
  handle_message c none = ok (quietly c)
  handle_message c (some msg) = do
    method ← J.value_string msg (codes "method") []
    dispatch c method msg

  unfoldable pub handle_line : Client → Bytes → Result (Handled Client)
  handle_line c line = handle_message c (J.parse line)
