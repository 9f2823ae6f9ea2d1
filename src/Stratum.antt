-- ===== src/Stratum.antt =====
-- stratum/: the payloads of Stratum V1 and the block header that is assembled from one.
pub mod Job
pub mod Parse
pub mod Work
