-- ===== src/Telemetry/HttpServer/Answers.antt =====
-- src/telemetry/http_server.cpp: the answer to a request, and the connections of the loop.
use minerby.Base.{
  ℕ, Bytes, List, [], ◌∷◌, ◌++◌, codes, length, All, has-Lacks, true, false, not, Option, none,
  some, ◌≡◌, ◌≢◌, ◌∙◌, refl, sym, subst, ap, ap₂, arith, if◌then◌else◌, if_either, Bool-cases, inl,
  inr,
}
use minerby.Util.Decimal.{to_string, digits}
use minerby.Telemetry.HttpServer.{
  http_response, starts_with, get_metrics, get_healthz, respond, Round, Effect, sent, closed,
  request_of, run,
}
use minerby.Telemetry.HttpServer.Message.{
  read_head, content_length, NoReturn, status_line, http_response-framed,
}

pub starts_with_sound :
    (prefix req : Bytes) → starts_with prefix req ≡ true → (rest : Bytes) × (req ≡ prefix ++ rest)
unfolding starts_with
starts_with_sound [] req h = (req, refl)
starts_with_sound (p ∷ prefix) [] h = cc
starts_with_sound (p ∷ prefix) (c ∷ req) h =
    let same : p ≡ c = ground arith in
    let more : starts_with prefix req ≡ true = ground arith in
    let (rest, split) = starts_with_sound prefix req more in (rest, ap₂ ◌∷◌ (sym same) split)

starts_with-append : (prefix rest : Bytes) → starts_with prefix (prefix ++ rest) ≡ true
unfolding starts_with
starts_with-append [] rest = refl
starts_with-append (p ∷ prefix) rest =
    let more : starts_with prefix (prefix ++ rest) ≡ true = starts_with-append prefix rest in
    ground arith

-- A request that the test refuses does not begin with the prefix.
starts_with_complete :
    (prefix req : Bytes) → starts_with prefix req ≡ false → (rest : Bytes) → req ≢ prefix ++ rest
starts_with_complete prefix req miss rest same =
    let hit : starts_with prefix req ≡ true =
      ap (starts_with prefix) same ∙ starts_with-append prefix rest in
    absurd (ground (arith, miss))

-- What a request asks for.
pub data Route : Type 0 where
  metrics : Route
  healthz : Route
  unknown : Route

abbrev pub IsRoute : Bytes → Route → Type 0
IsRoute req metrics = (rest : Bytes) × (req ≡ codes "GET /metrics" ++ rest)
IsRoute req healthz = (rest : Bytes) × (req ≡ codes "GET /healthz" ++ rest)
IsRoute req unknown =
    ((rest : Bytes) → req ≢ codes "GET /metrics" ++ rest)
    × ((rest : Bytes) → req ≢ codes "GET /healthz" ++ rest)

abbrev pub first_line : Route → Bytes
first_line metrics = codes "HTTP/1.1 200 OK"
first_line healthz = codes "HTTP/1.1 200 OK"
first_line unknown = codes "HTTP/1.1 404 Not Found"

abbrev pub body_of : Route → Bytes → Bytes
body_of metrics text = text
body_of healthz text = codes "ok"
body_of unknown text = codes "not found\n"

-- A response as a client reads it: its first line, a length that is the body's, and the body.
pub record IsResponse (response first body : Bytes) : Type 0 where
  pub lines : List Bytes
  pub read : read_head 5 response ≡ some (first ∷ lines, body)
  pub counted : content_length (first ∷ lines) ≡ some (length body)

framed :
    (code : ℕ) (status content_type body : Bytes)
    → NoReturn status
    → NoReturn content_type
    → IsResponse (http_response code status content_type body) (status_line code status) body
framed code status content_type body h h' =
    let (read, counted) = http_response-framed 0 code status content_type body h h' in
    record { lines = _; read = read; counted = counted }

ok_line : status_line 200 (codes "OK") ≡ codes "HTTP/1.1 200 OK"
unfolding to_string digits
ok_line = refl

not_found_line : status_line 404 (codes "Not Found") ≡ codes "HTTP/1.1 404 Not Found"
unfolding to_string digits
not_found_line = refl

ok-IsResponse :
    (content_type body : Bytes)
    → NoReturn content_type
    → IsResponse (http_response 200 (codes "OK") content_type body) (codes "HTTP/1.1 200 OK") body
ok-IsResponse content_type body h =
    subst (λ line. IsResponse (http_response 200 (codes "OK") content_type body) line body) ok_line
      (framed 200 (codes "OK") content_type body (has-Lacks b'\r' (codes "OK") refl) h)

not_found-IsResponse :
    (content_type body : Bytes)
    → NoReturn content_type
    → IsResponse
        (http_response 404 (codes "Not Found") content_type body)
        (codes "HTTP/1.1 404 Not Found")
        body
not_found-IsResponse content_type body h =
    subst (λ line. IsResponse (http_response 404 (codes "Not Found") content_type body) line body)
      not_found_line
      (framed 404 (codes "Not Found") content_type body (has-Lacks b'\r' (codes "Not Found") refl)
        h)

pub metrics-IsResponse :
    (req text : Bytes)
    → starts_with get_metrics req ≡ true
    → IsResponse (respond req text) (codes "HTTP/1.1 200 OK") text
unfolding respond
metrics-IsResponse req text hit = rw hit (
    ok-IsResponse (codes "text/plain; version=0.0.4") text
      (has-Lacks b'\r' (codes "text/plain; version=0.0.4") refl))

-- Any request and any text of the metrics: the request is sorted by how it begins, and the response
-- that a client reads is 200 with the text, 200 with `ok`, or 404, with the length of its body
-- declared.
pub respond-IsResponse :
    (req text : Bytes)
    → (route : Route) × IsRoute req route
      × IsResponse (respond req text) (first_line route) (body_of route text)
unfolding respond
respond-IsResponse req text = elim (Bool-cases (starts_with get_metrics req)) [
  | inl hit ↦ (metrics, starts_with_sound get_metrics req hit, metrics-IsResponse req text hit)
  | inr miss ↦ elim (Bool-cases (starts_with get_healthz req)) [
    | inl hit ↦
        rw (miss, hit)
          (
            healthz,
            starts_with_sound get_healthz req hit,
            ok-IsResponse (codes "text/plain") (codes "ok")
                (has-Lacks b'\r' (codes "text/plain") refl),
          )
    | inr also ↦
        rw (miss, also)
          (
            unknown,
            (starts_with_complete get_metrics req miss, starts_with_complete get_healthz req also),
            not_found-IsResponse (codes "text/plain") (codes "not found\n")
                (has-Lacks b'\r' (codes "text/plain") refl),
          )
  ]
]

-- The connections that are accepted, those that are sent a response, and those that are closed.
abbrev pub connections : List Round → List ℕ
connections [] = []
connections (r ∷ rs) = elim r.accepted [ none ↦ connections rs | some c ↦ c ∷ connections rs ]

abbrev pub sends : List Effect → List ℕ
sends [] = []
sends (sent c response ∷ es) = c ∷ sends es
sends (closed c ∷ es) = sends es

abbrev pub closes : List Effect → List ℕ
closes [] = []
closes (sent c response ∷ es) = closes es
closes (closed c ∷ es) = c ∷ closes es

-- A connection is closed right after its response, which a client can read.
abbrev pub IsServed : List Effect → Type 0
IsServed [] = Unit
IsServed (sent c response ∷ closed d ∷ es) =
    (c ≡ d) × ((first : Bytes) × (body : Bytes) × IsResponse response first body) × IsServed es
IsServed _ = ⊥

round-IsServed :
    (accepted : Option ℕ) (r : Round) (rest : List Effect)
    → IsServed rest
    → IsServed (elim accepted [
      | none ↦ if not r.still_running then [] else rest
      | some c ↦ sent c (respond (request_of r.received) r.body) ∷ closed c ∷ rest
    ])
round-IsServed none r rest h = if_either IsServed (not r.still_running) tt h
round-IsServed (some c) r rest h =
    let (route, _, reads) = respond-IsResponse (request_of r.received) r.body in
    (refl, (first_line route, body_of route r.body, reads), h)

run-IsServed : (rs : List Round) → IsServed (run rs)
unfolding run
run-IsServed [] = tt
run-IsServed (r ∷ rs) =
    if_either IsServed (not r.running) tt (round-IsServed r.accepted r (run rs) (run-IsServed rs))

-- The server is up in a round: both loads of `running_` give true.
abbrev pub IsUp : Round → Type 0
IsUp r = (r.running ≡ true) × (r.still_running ≡ true)

round-closes :
    (accepted : Option ℕ) (r : Round) (rest : List Effect) (cs : List ℕ)
    → IsUp r
    → closes rest ≡ cs
    → closes (elim accepted [
      | none ↦ if not r.still_running then [] else rest
      | some c ↦ sent c (respond (request_of r.received) r.body) ∷ closed c ∷ rest
    ])
      ≡ elim accepted [ none ↦ cs | some c ↦ c ∷ cs ]
round-closes none r rest cs up h = rw (up.1) h
round-closes (some c) r rest cs up h = ap (◌∷◌ c) h

run-closes : (rs : List Round) → All IsUp rs → closes (run rs) ≡ connections rs
unfolding run
run-closes [] up = refl
run-closes (r ∷ rs) up =
    rw (up.0.0) (round-closes r.accepted r (run rs) (connections rs) up.0 (run-closes rs up.1))

-- In any run of the thread, whatever `accept` and `recv` return: each connection that it takes gets
-- one response, which a client can read, and is closed right after it, before the next; and as
-- long as the server is up, every connection that is accepted is closed, in order.
pub run-serves :
    (rs : List Round) → IsServed (run rs) × (All IsUp rs → closes (run rs) ≡ connections rs)
run-serves rs = (run-IsServed rs, run-closes rs)
