-- ===== src/Pool.antt =====
-- pool/: the two protocols that a pool may speak.
pub mod Events
pub mod PoolClient
pub mod StratumV1Client
pub mod MoneroClient
