-- ===== src/Pow.antt =====
-- pow/: the hashing kernels and the targets that a digest is compared with.
pub mod Doubles
pub mod Sha256
pub mod Sha256dHasher
pub mod Target
pub mod RandomX
