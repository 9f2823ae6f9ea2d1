-- ===== src/Miner.antt =====
-- miner/: the jobs and the pool of worker threads that scan their nonces.
pub mod Job
pub mod Scan
pub mod Thread
pub mod Pool
