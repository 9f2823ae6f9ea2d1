-- ===== src/Net.antt =====
-- net/: the connection to a pool.
pub mod TcpClient
