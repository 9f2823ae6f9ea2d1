-- ===== src/App/Endpoint.antt =====
-- src/app/main.cpp: the endpoint for the metrics over a run.
use minerby.Base.{
  ℕ, ◌==◌, List, [], ◌++◌, Bool, Option, none, some, Result, ok, ◌>>=◌, >>=-eq-ok, ok-injective,
  ◌≡◌, refl, sym, ap, ◌∙◌, if◌then◌else◌, Bool-cases, inl, inr,
}
use minerby.Telemetry.HttpServer.{HttpServer, new_server, Switched, start, held, stop}
use minerby.Telemetry.HttpServer.Sockets.{start-stop_closes}

-- What the run has of the endpoint, and the sockets closed so far.
pub record Opened : Type 0 where
  pub server : Option HttpServer
  pub closed : List ℕ

-- `if (!http->start()) http.reset();`: the destructor of a server that did not start stops nothing.
abbrev pub or_reset : Switched → Opened
or_reset r =
    if r.done
    then record { server = some r.server; closed = r.closed }
    else record { server = none; closed = r.closed ++ (stop r.server).closed }

-- `if (cfg.metrics_port != 0)`
unfoldable pub open_endpoint : (port : ℕ) (opened : Option ℕ) (bound listens : Bool) → Result Opened
open_endpoint port opened bound listens =
    if port == 0
    then ok (record { server = none; closed = [] })
    else do r ← start opened bound listens new_server; ok (or_reset r)

-- `if (http) http->stop();`, with all sockets closed then.
abbrev pub close_endpoint : Opened → List ℕ
close_endpoint o = elim o.server [ none ↦ o.closed | some s ↦ o.closed ++ (stop s).closed ]

-- Over a run, whatever `socket`, `bind` and `listen` return: the listening socket that was opened for
-- the endpoint is closed once, and no other, and with port 0 there is none.
pub close-open_endpoint :
    (port : ℕ) (opened : Option ℕ) (bound listens : Bool) (o : Opened)
    → open_endpoint port opened bound listens ≡ ok o
    → close_endpoint o ≡ (if port == 0 then [] else held opened)
unfolding open_endpoint
close-open_endpoint port opened bound listens o h = elim (Bool-cases (port == 0)) [
  | inl off ↦ rw off (ap close_endpoint (sym (ok-injective (rw off at h))))
  | inr on ↦
      let (r, started, h') =
        >>=-eq-ok (start opened bound listens new_server) (λ r. ok (or_reset r)) (rw on at h) in
      rw on (
        ap close_endpoint (sym (ok-injective h'))
        ∙ either r
        ∙ sym (start-stop_closes opened bound listens r started).0)
]
  where
    either : (r : Switched) → close_endpoint (or_reset r) ≡ r.closed ++ (stop r.server).closed
    either r = elim (Bool-cases r.done) [ inl up ↦ rw up refl | inr down ↦ rw down refl ]
