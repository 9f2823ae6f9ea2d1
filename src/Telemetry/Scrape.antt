-- ===== src/Telemetry/Scrape.antt =====
-- src/telemetry/: the metrics through the endpoint, as the program joins them in src/app/main.cpp.
use minerby.Base.{ℕ, Bytes, [], ◌∷◌, ◌++◌, codes, true, some, ◌≡◌, refl, arith}
use minerby.Pow.Doubles.{Doubles}
use minerby.Telemetry.Metrics.{Metrics, prometheus}
use minerby.Telemetry.Metrics.Text.{NoNewline, scraped, prometheus-scraped}
use minerby.Telemetry.HttpServer.{starts_with, respond, get_metrics}
use minerby.Telemetry.HttpServer.Answers.{IsResponse, metrics-IsResponse}

starts_with-append : (prefix rest : Bytes) → starts_with prefix (prefix ++ rest) ≡ true
unfolding starts_with
starts_with-append [] rest = refl
starts_with-append (p ∷ prefix) rest = rw (starts_with-append prefix rest) (ground arith)

-- A scrape of a running program, where the printed text of a `double` is one line: to any request that
-- begins with `GET /metrics`, the client gets a response of status 200 whose declared length is
-- its body's, and the body has the three counts that the metrics have.
pub scrape-counts :
    (D : Doubles) (show : D.Double → Bytes) (now : ℕ) (m : Metrics D.Double) (rest : Bytes)
    → ((x : D.Double) → NoNewline (show x))
    → let text = (prometheus D show now m).1 in
      IsResponse (respond (codes "GET /metrics" ++ rest) text) (codes "HTTP/1.1 200 OK") text
      × (scraped D show (codes "minerby_hashes_total") text ≡ some m.hashes)
      × (scraped D show (codes "minerby_shares_accepted_total") text ≡ some m.accepted)
      × (scraped D show (codes "minerby_shares_rejected_total") text ≡ some m.rejected)
scrape-counts D show now m rest h =
    let found = prometheus-scraped D show now m h in
    (
      metrics-IsResponse (codes "GET /metrics" ++ rest) (prometheus D show now m).1
          (starts_with-append get_metrics rest),
      found.0,
      found.1,
      found.2,
    )
