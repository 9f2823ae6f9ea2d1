-- ===== src/Pool/MoneroClient.antt =====
-- src/pool/monero_client.hpp and src/pool/monero_client.cpp: the client of the Monero protocol. An
-- exception that the code does not catch is an error of the result. `next_id_` is taken to stay
-- below the bound of `int`; the log is left out, but not the reading of `height` for it, which may
-- throw.
pub mod Session
pub mod Jobs
pub mod Delivery
use minerby.Base.{
  ℕ, ℤ, pos, negsuc, int_eq, Bytes, List, [], ◌∷◌, codes, length, leb, Bool, true, false, not, ◌||◌,
  Option, none, some, Result, ok, err, require, bad_length, undefined_behaviour, ◌>>=◌, ◌>>◌,
  if◌then◌else◌, same_bytes,
}
use minerby.Json.{JsonLib}
use minerby.Util.Hex.{from_hex}
use minerby.Pow.Doubles.{Doubles}
use minerby.Pow.Target.{monero_target_from_hex}
use minerby.Pow.Target.Difficulty.{target_to_difficulty}
use minerby.Miner.Job.{MiningJob, empty_job}
use minerby.Net.TcpClient.{TcpClient, new_client, close}
use minerby.Pool.Events.{Event, on_job, on_submit_result, call_if, Handled, is_nil}

-- `cb_` is two flags: whether each callback is set. Times are in milliseconds.
pub record MoneroClient (Double : Type 0) : Type 0 where
  pub user : Bytes
  pub pass : Bytes
  pub conn : TcpClient
  pub has_on_job : Bool
  pub has_on_submit_result : Bool
  pub next_id : ℕ
  pub login_id : ℤ
  pub last_submit_id : ℤ
  pub rpc_id : Bytes
  pub logged_in : Bool
  pub difficulty : Double
  pub last_keepalive : ℕ

module _ (D : Doubles) (J : JsonLib D.Double) where
  open J use {Json}

  abbrev pub Client : Type 0
  Client = MoneroClient D.Double

  unfoldable pub new_monero_client : Bytes → Bytes → Bool → Bool → Client
  new_monero_client user pass has_on_job has_on_submit_result = record {
    user = user;
    pass = pass;
    conn = new_client;
    has_on_job = has_on_job;
    has_on_submit_result = has_on_submit_result;
    next_id = 1;
    login_id = negsuc 0;
    last_submit_id = negsuc 0;
    rpc_id = [];
    logged_in = false;
    difficulty = D.of_ℕ 0;
    last_keepalive = 0;
  }

  abbrev pub quietly : Client → Handled Client
  quietly c = record { client = c; events = [] }

  unfoldable pub log_out : Client → Client
  log_out c = record c { conn = close c.conn; logged_in = false; rpc_id = [] }

  -- `j.at(key).get<std::string>()`
  abbrev pub string_at : Json → Bytes → Result Bytes
  string_at j key = do v ← J.member j key; J.get_string v

  -- The `try` block of `apply_job` up to the difficulty; `return false` is an error here too.
  unfoldable pub read_work : Json → Result MiningJob
  read_work j = do
    blob_text ← string_at j (codes "blob")
    blob ← from_hex blob_text
    require (leb 43 (length blob)) bad_length
    target_text ← string_at j (codes "target")
    target ← monero_target_from_hex target_text
    job_id ← string_at j (codes "job_id")
    ok (record empty_job { blob = blob; nonce_offset = 39; target = target; job_id = job_id })

  unfoldable pub decode_seed : Json → Result Bytes
  decode_seed s = do text ← J.get_string s; from_hex text

  unfoldable pub read_seed : Json → Result Bytes
  read_seed j =
      if not (J.contains j (codes "seed_hash"))
      then ok []
      else do s ← J.member j (codes "seed_hash"); if J.is_string s then decode_seed s else ok []

  -- The rest of the `try` block, with the seed where nothing has thrown. The difficulty is written
  -- before.
  unfoldable pub announce : Client → MiningJob → Result Bytes → Handled Client
  announce c mj (err e) = quietly c
  announce c mj (ok seed) = record { client = c; events = call_if c.has_on_job (on_job mj seed) }

  unfoldable pub read_announced : Json → Result Bytes
  read_announced j = do seed ← read_seed j; height ← J.value_int j (codes "height") (pos 0); ok seed

  unfoldable pub apply_read : Client → Json → Result MiningJob → Handled Client
  apply_read c j (err e) = quietly c
  apply_read c j (ok mj) =
      announce (record c { difficulty = target_to_difficulty D mj.target }) mj (read_announced j)

  -- Its result is used by no caller.
  unfoldable pub apply_job : Client → Json → Handled Client
  apply_job c j = apply_read c j (read_work j)

  unfoldable pub error_text : Json → Result Bytes
  error_text msg =
      if not (J.contains msg (codes "error"))
      then ok []
      else do e ← J.member msg (codes "error"); ok (if J.is_null e then [] else J.dump e)

  -- `result.contains("job")`, and the job.
  unfoldable pub first_job : Client → Json → Result (Handled Client)
  first_job c result =
      if not (J.contains result (codes "job"))
      then ok (quietly c)
      else do job ← J.member result (codes "job"); ok (apply_job c job)

  -- `msg["result"]` on a constant object is undefined for a key that is not there.
  unfoldable pub log_in : Client → Json → Bytes → Result (Handled Client)
  log_in c msg error = if not (is_nil error) then ok (quietly c) else do
    require (J.contains msg (codes "result")) undefined_behaviour
    result ← J.member msg (codes "result")
    id ← J.value_string result (codes "id") []
    first_job (record c { rpc_id = id; logged_in = not (is_nil id) }) result

  unfoldable pub result_is_ok : Json → Result Bool
  result_is_ok r =
      if J.is_null r
      then ok false
      else do status ← J.value_string r (codes "status") []; ok (same_bytes status (codes "OK"))

  unfoldable pub is_accepted : Json → Bytes → Result Bool
  is_accepted msg error =
      if not (is_nil error) || not (J.contains msg (codes "result"))
      then ok false
      else do r ← J.member msg (codes "result"); result_is_ok r

  unfoldable pub take_submit : Client → Json → Bytes → Result (Handled Client)
  take_submit c msg error = do
    accepted ← is_accepted msg error
    ok (record {
      client = c;
      events = call_if c.has_on_submit_result (on_submit_result accepted error);
    })

  unfoldable pub answered : Client → Json → ℤ → Bytes → Result (Handled Client)
  answered c msg id error =
      if int_eq id c.login_id
      then log_in c msg error
      else if int_eq id c.last_submit_id
      then take_submit c msg error
      else ok (quietly c)

  unfoldable pub take_reply : Client → Json → Json → Result (Handled Client)
  take_reply c msg id_json = do
    id ← J.get_int id_json
    error ← error_text msg
    answered c msg id error

  unfoldable pub reply : Client → Json → Result (Handled Client)
  reply c msg = if not (J.contains msg (codes "id")) then ok (quietly c) else do
    id_json ← J.member msg (codes "id")
    if J.is_null id_json then ok (quietly c) else take_reply c msg id_json

  unfoldable pub new_job : Client → Json → Result (Handled Client)
  new_job c msg = do
    params ← J.value_json msg (codes "params") (J.object [])
    ok (apply_job c params)

  unfoldable pub handle : Client → Json → Result (Handled Client)
  handle c msg = do
    method ← J.value_string msg (codes "method") []
    if same_bytes method (codes "job") then new_job c msg else reply c msg
