-- ===== src/Telemetry.antt =====
-- telemetry/: the totals that outlive a run, the metrics, and the endpoint that shows them.
pub mod StatsStore
pub mod HttpServer
pub mod Metrics
pub mod Scrape
