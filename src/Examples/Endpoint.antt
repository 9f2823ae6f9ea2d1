-- ===== src/Examples/Endpoint.antt =====
-- src/telemetry/http_server.cpp at concrete requests.
use minerby.Base.{ℕ, Bytes, List, [], ◌∷◌, ◌++◌, All, codes, true, none, some, ok, ◌≡◌, refl}
use minerby.Telemetry.HttpServer.{Round, run, respond, new_server, Switched, start}
use minerby.Telemetry.HttpServer.Answers.{
  Route, IsRoute, IsResponse, first_line, body_of, respond-IsResponse, IsServed, IsUp, closes,
  connections, run-serves,
}
use minerby.Telemetry.Metrics.{Metrics, new_metrics, prometheus}
use minerby.Telemetry.Metrics.Text.{NoNewline, scraped}
use minerby.Telemetry.Scrape.{scrape-counts}
use minerby.Examples.Numbers.{whole}

abbrev scrape : Bytes
scrape = codes "GET /metrics HTTP/1.1\r\n\r\n"

respond-IsResponse_example :
    (route : Route) × IsRoute scrape route
    × IsResponse
        (respond scrape (codes "up 1\n"))
        (first_line route)
        (body_of route (codes "up 1\n"))
respond-IsResponse_example = respond-IsResponse scrape (codes "up 1\n")

-- A scrape, an `accept` that fails, and a connection that sends nothing.
abbrev seen : List Round
seen =
    record {
      running = true;
      accepted = some 5;
      still_running = true;
      received = some scrape;
      body = codes "up 1\n";
    }
    ∷ record { running = true; accepted = none; still_running = true; received = none; body = [] }
    ∷ record { running = true; accepted = some 6; still_running = true; received = none; body = [] }
    ∷ []

run-serves_example : IsServed (run seen) × (All IsUp seen → closes (run seen) ≡ connections seen)
run-serves_example = run-serves seen

started : (r : Switched) × (start (some 3) true true new_server ≡ ok r)
unfolding start
started = (_, refl)

abbrev counts : Metrics ℕ
counts = record (new_metrics whole 0) { hashes = 4096; accepted = 3; rejected = 1 }

abbrev show : ℕ → Bytes
show x = codes "0.5"

one_line : (x : ℕ) → NoNewline (show x)
one_line x = (refl, (refl, (refl, tt)))

scrape-counts_example :
    let text = (prometheus whole show 5 counts).1 in
    IsResponse
      (respond (codes "GET /metrics" ++ codes " HTTP/1.1\r\n\r\n") text)
      (codes "HTTP/1.1 200 OK")
      text
    × (scraped whole show (codes "minerby_hashes_total") text ≡ some 4096)
    × (scraped whole show (codes "minerby_shares_accepted_total") text ≡ some 3)
    × (scraped whole show (codes "minerby_shares_rejected_total") text ≡ some 1)
scrape-counts_example = scrape-counts whole show 5 counts (codes " HTTP/1.1\r\n\r\n") one_line
