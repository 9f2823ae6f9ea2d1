-- ===== src/App.antt =====
-- app/main.cpp: the parts that join the pool client, the hashing context and the workers.
pub mod JobCallback
pub mod Run
pub mod Totals
pub mod Options
pub mod Shares
pub mod MoneroShares
pub mod Engine
pub mod Bench
pub mod Endpoint
