-- ===== src/Examples/Pools.antt =====
-- src/stratum/parse.cpp and src/pool/ at concrete messages.
use minerby.Base.{
  ℕ, ◌<◌, ◌-◌, get_or, length, arith, Option, pos, Bytes, List, [], ◌∷◌, codes, replicate, ◌++◌,
  none, true, some, All, ok, ◌≡◌, refl, same_bytes,
}
use minerby.Util.Hex.{hex_val, hex_byte, from_hex_pairs, from_hex}
use minerby.Pow.Target.{monero_target_from_hex, monero_target}
use minerby.Stratum.Work.{encode_extranonce2}
use minerby.Stratum.Parse.{parse_notify, read_job, read_strings, read_clean}
use minerby.Stratum.Parse.Laws.{notify_params, parse_notify-notify_params}
use minerby.Pool.Events.{Handled, Polled}
use minerby.Pool.StratumV1Client.{
  StratumV1Client, delivered, new_stratum_client, handle_line, handle_message, dispatch, notify,
  take_job, rebuild_job,
}
use minerby.Pool.StratumV1Client.Rebuild.{IsHandled}
use minerby.Pool.StratumV1Client.Delivery.{handle_line-IsHandled}
use minerby.Pool.MoneroClient.{
  new_monero_client, read_work, read_seed, read_announced, announce, apply_read, apply_job, new_job,
  handle,
}
use minerby.Pool.StratumV1Client.Extranonces.{
  Session, begun, polled_once, submitted, Distinct, Session-Distinct,
}
use minerby.Miner.Job.{MiningJob, empty_job}
use minerby.Miner.Scan.{splice}
use minerby.Net.TcpClient.{
  Received, got, read_line, read_loop, or_line, split_line, strip_cr, took, send_all, send_loop,
}
use minerby.Pool.StratumV1Client.Session.{poll, polled, submit}
use minerby.Util.Hex.{be32}
use minerby.Stratum.Work.{build_work, build_header, fold_branch, fill_job}
use minerby.Pool.MoneroClient
use minerby.Pool.MoneroClient.Delivery.{handle-IsHandled}
use minerby.Util.Hex.{to_hex, be32_from_hex}
use minerby.Stratum.Work.{le_bytes}
use minerby.App.MoneroShares
use minerby.App.MoneroShares.{handle-Mines}
use minerby.App.Shares.{Mines, handle_line-Mines, submit_reversed, share_line}
use minerby.Examples.Numbers.{whole}
use minerby.Examples.Documents.{
  Document, nothing, text, table, keyed, no_key, documents, documents-IsJsonLib,
}
use minerby.Examples.Work.{stack, payload}

parse_notify-notify_params_example :
    parse_notify
      (documents [])
      (notify_params (documents []) (documents-IsJsonLib []) payload (nothing ∷ []))
    ≡ some payload
parse_notify-notify_params_example =
    parse_notify-notify_params (documents []) (documents-IsJsonLib []) payload (nothing ∷ [])

abbrev notification : Document
notification = table (
    keyed (codes "method") (text (codes "mining.notify")) (
      keyed (codes "params") (notify_params (documents []) (documents-IsJsonLib []) payload [])
        no_key))

abbrev lines : List (Bytes × Document)
lines = (codes "line", notification) ∷ []

abbrev start : StratumV1Client ℕ
start = new_stratum_client stack whole (documents lines) (codes "user") (codes "x") true true

delivered_size :
    (c : StratumV1Client ℕ) (o : Option MiningJob)
    → (delivered stack whole (documents lines) c o).client.extranonce2_size ≡ c.extranonce2_size
delivered_size c none = refl
delivered_size c (some mj) = refl

-- A client that has just been made takes the payload.
notified :
    (h : Handled (StratumV1Client ℕ)) × (handle_line stack whole
        (documents lines)
        start
        (codes "line")
      ≡ ok h)
    × (h.client.extranonce2_size ≡ pos 4)
unfolding handle_line handle_message dispatch notify take_job rebuild_job encode_extranonce2
    parse_notify read_job read_strings read_clean same_bytes new_stratum_client
notified = (_, refl, delivered_size _ _)

-- The socket is open, and a line arrives.
abbrev online : StratumV1Client ℕ
online = record start { conn = record { sock = some 5; rx = [] } }

abbrev arriving : List Received
arriving = got (codes "line" ++ b'\n' ∷ []) ∷ []

first_poll :
    (p : Polled (StratumV1Client ℕ)) × (poll stack whole (documents lines) online arriving ≡ ok p)
    × (p.client.extranonce2_size ≡ pos 4)
    × (length p.events ≡ 1)
unfolding poll polled read_line read_loop or_line split_line strip_cr handle_line handle_message
    dispatch notify take_job rebuild_job encode_extranonce2 parse_notify read_job read_strings
    read_clean same_bytes new_stratum_client build_work build_header fold_branch fill_job
    be32_from_hex be32 from_hex from_hex_pairs hex_val hex_byte to_hex
first_poll = (_, refl, refl, refl)

-- A share is submitted, and the same notification comes again.
abbrev submitting : StratumV1Client ℕ
submitting = (submit stack whole (documents lines) (first_poll.0.client) empty_job 1 []).client

second_poll :
    (p : Polled (StratumV1Client ℕ)) × (poll stack whole (documents lines) submitting arriving
      ≡ ok p)
    × (p.client.extranonce2_size ≡ pos 4)
    × (length p.events ≡ 1)
unfolding first_poll submit poll polled read_line read_loop or_line split_line strip_cr handle_line
    handle_message dispatch notify take_job rebuild_job encode_extranonce2 parse_notify read_job
    read_strings read_clean same_bytes new_stratum_client build_work build_header fold_branch
    fill_job be32_from_hex be32 from_hex from_hex_pairs hex_val hex_byte to_hex
second_poll = (_, refl, refl, refl)

session :
    Session stack refl whole
      (documents lines)
      4
      0
      2
      second_poll.0.client
      (second_poll.0.events ++ (first_poll.0.events ++ []))
unfolding new_stratum_client
session =
    polled_once
      (submitted
        (polled_once (begun online refl) arriving (first_poll.0) (first_poll.1) (first_poll.2))
        empty_job 1 [])
      arriving (second_poll.0) (second_poll.1) (second_poll.2)

Session-Distinct_example : Distinct (second_poll.0.events ++ (first_poll.0.events ++ []))
Session-Distinct_example =
    Session-Distinct stack refl whole (documents lines) 4 0 2 second_poll.0.client
      (second_poll.0.events ++ (first_poll.0.events ++ [])) (omega arith) (omega arith)
      (omega arith) session

handle_line-IsHandled_example :
    IsHandled stack refl whole
      (documents lines)
      (new_stratum_client stack whole (documents lines) (codes "user") (codes "x") true true)
      notified.0
handle_line-IsHandled_example =
    handle_line-IsHandled stack refl whole (documents lines)
      (new_stratum_client stack whole (documents lines) (codes "user") (codes "x") true true)
      (codes "line") notified.0 notified.1

abbrev job_params : Document
job_params = table (
    keyed (codes "blob") (text (replicate 86 b'0')) (
      keyed (codes "job_id") (text (codes "7"))
        (keyed (codes "target") (text (codes "ffffff00")) no_key)))

abbrev job_message : Document
job_message =
    table (keyed (codes "method") (text (codes "job")) (keyed (codes "params") job_params no_key))

handed_on :
    (h : Handled _) × (handle whole
        (documents [])
        (new_monero_client whole (documents []) (codes "wallet") (codes "x") true true)
        job_message
      ≡ ok h)
unfolding handle new_job apply_job apply_read read_work read_announced read_seed announce from_hex
    from_hex_pairs hex_val hex_byte monero_target_from_hex monero_target same_bytes
    new_monero_client
handed_on = (_, refl)

handle-IsHandled_example :
    MoneroClient.Delivery.IsHandled whole
      (documents [])
      job_message
      (new_monero_client whole (documents []) (codes "wallet") (codes "x") true true)
      handed_on.0
handle-IsHandled_example =
    handle-IsHandled whole (documents []) job_message
      (new_monero_client whole (documents []) (codes "wallet") (codes "x") true true) handed_on.0
      handed_on.1

-- A hasher whose digests meet every target.
abbrev zero_digest : Bytes → Bytes
zero_digest blob = replicate 32 0

handle-Mines_example :
    All (MoneroShares.Mines whole (documents []) zero_digest job_message 1 0) handed_on.0.events
handle-Mines_example =
    handle-Mines whole (documents []) zero_digest 1 0 (omega arith) (omega arith) (omega arith)
      (λ blob. omega arith) job_message
      (new_monero_client whole (documents []) (codes "wallet") (codes "x") true true) handed_on.0
      handed_on.1

-- One worker, from nonce 0, on the job that the notification brings.
handle_line-Mines_example :
    All (Mines stack refl whole (documents lines) notified.0.client 1 0) notified.0.events
handle_line-Mines_example =
    handle_line-Mines stack refl whole (documents lines) start (codes "line") notified.0 1 0
      notified.1 (omega arith) (omega arith) (omega arith)

abbrev waiting : StratumV1Client ℕ
waiting =
    record (new_stratum_client stack whole (documents []) (codes "user") (codes "x") true true) {
      conn = record { sock = some 5; rx = [] };
    }

abbrev found : MiningJob
found = record empty_job { blob = replicate 80 0; nonce_offset = 76 }

all_sent : (submit stack whole (documents []) waiting found 1 (took 1000 ∷ [])).done ≡ true
unfolding submit send_all send_loop new_stratum_client
all_sent = refl

submit_reversed_example :
    (text : Bytes) × (m : ℕ) × ((submit stack whole
        (documents [])
        waiting
        found
        1
        (took 1000 ∷ [])).wire
      ≡ share_line stack whole (documents []) waiting found text)
    × (be32_from_hex text ≡ ok m)
    × ((i : ℕ) → i < 4 → get_or (le_bytes m) i 0 ≡ get_or (splice found.blob 76 1) (79 - i) 0)
submit_reversed_example =
    submit_reversed stack whole (documents []) waiting found 1 (took 1000 ∷ []) (omega arith) refl
      all_sent
