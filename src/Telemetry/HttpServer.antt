-- ===== src/Telemetry/HttpServer.antt =====
-- src/telemetry/http_server.hpp and src/telemetry/http_server.cpp: the endpoint for the metrics. What
-- the socket calls return, and the loads of `running_`, are arguments; the Windows branch and the
-- log are left out, and so is what `send` takes: its result is not looked at.
pub mod Message
pub mod Answers
pub mod Sockets
use minerby.Base.{
  ℕ, ◌==◌, Bytes, List, [], ◌∷◌, ◌++◌, codes, length, Bool, true, false, not, ◌&&◌, ◌||◌, Option,
  none, some, Result, ok, err, undefined_behaviour, if◌then◌else◌,
}
use minerby.Util.Decimal.{to_string}

-- A line, its end, and what follows.
abbrev pub with_end : (line rest : Bytes) → Bytes
with_end line rest = line ++ b'\r' ∷ b'\n' ∷ rest

unfoldable pub http_response : (code : ℕ) (status content_type body : Bytes) → Bytes
http_response code status content_type body =
    with_end (codes "HTTP/1.1 " ++ (to_string code ++ (codes " " ++ status))) (
      with_end (codes "Content-Type: " ++ content_type) (
        with_end (codes "Content-Length: " ++ to_string (length body))
          (with_end (codes "Connection: close") (with_end [] body))))

-- `req.rfind(prefix, 0) == 0`
unfoldable pub starts_with : (prefix req : Bytes) → Bool
starts_with [] req = true
starts_with (p ∷ prefix) [] = false
starts_with (p ∷ prefix) (c ∷ req) = p == c && starts_with prefix req

abbrev pub get_metrics : Bytes
get_metrics = codes "GET /metrics"

abbrev pub get_healthz : Bytes
get_healthz = codes "GET /healthz"

-- `body` is what `body_provider_` returns.
unfoldable pub respond : (req body : Bytes) → Bytes
respond req body =
    if starts_with get_metrics req
    then http_response 200 (codes "OK") (codes "text/plain; version=0.0.4") body
    else if starts_with get_healthz req
    then http_response 200 (codes "OK") (codes "text/plain") (codes "ok")
    else http_response 404 (codes "Not Found") (codes "text/plain") (codes "not found\n")

-- One round of `run`: the load of `running_` at its head, what `accept` returns, the load of
-- `running_` after an `accept` that failed, what `recv` returns (no bytes at the end of the stream,
-- `none` for an error), and the text of the metrics.
pub record Round : Type 0 where
  pub running : Bool
  pub accepted : Option ℕ
  pub still_running : Bool
  pub received : Option Bytes
  pub body : Bytes

-- A call that `run` makes on a connection.
pub data Effect : Type 0 where
  sent : (c : ℕ) (response : Bytes) → Effect
  closed : (c : ℕ) → Effect

-- `n > 0 ? std::string(buf, n) : std::string{}`
abbrev pub request_of : Option Bytes → Bytes
request_of none = []
request_of (some bytes) = bytes

unfoldable pub run : List Round → List Effect
run [] = []
run (r ∷ rs) =
    let rest = run rs in
    if not r.running then [] else elim r.accepted [
      | none ↦ if not r.still_running then [] else rest
      | some c ↦ sent c (respond (request_of r.received) r.body) ∷ closed c ∷ rest
    ]

-- `listen_sock` is `none` for `kInvalid`; `joinable` is whether `thread_` has a thread.
pub record HttpServer : Type 0 where
  pub listen_sock : Option ℕ
  pub running : Bool
  pub joinable : Bool

abbrev pub new_server : HttpServer
new_server = record { listen_sock = none; running = false; joinable = false }

-- A server after `start` or `stop`, with the sockets that the call closed.
pub record Switched : Type 0 where
  pub server : HttpServer
  pub done : Bool
  pub closed : List ℕ

-- The assignment to a thread that is joinable ends the program.
abbrev pub launch : ℕ → HttpServer → Result Switched
launch k s =
    if s.joinable
    then err undefined_behaviour
    else ok (record {
      server = record { listen_sock = some k; running = true; joinable = true };
      done = true;
      closed = [];
    })

-- `opened` is what `socket` returns, `bound` and `listens` whether `bind` and `listen` succeed.
unfoldable pub start : (opened : Option ℕ) (bound listens : Bool) → HttpServer → Result Switched
start none bound listens s = ok (record { server = s; done = false; closed = [] })
start (some k) bound listens s =
    if not bound || not listens
    then ok (record { server = s; done = false; closed = k ∷ [] })
    else launch k s

abbrev pub held : Option ℕ → List ℕ
held none = []
held (some k) = k ∷ []

-- The thread is taken to end; see `run`.
unfoldable pub stop : HttpServer → Switched
stop s = if not s.running then record { server = s; done = false; closed = [] } else record {
  server = record { listen_sock = none; running = false; joinable = false };
  done = true;
  closed = held s.listen_sock;
}
