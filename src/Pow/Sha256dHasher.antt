-- ===== src/Pow/Sha256dHasher.antt =====
-- src/pow/sha256d_hasher.hpp and src/pow/sha256d_hasher.cpp: the hasher of Stratum V1, behind the
-- interface of src/pow/hasher.hpp, a function from the bytes to the digest.
use minerby.Base.{Bytes}
use minerby.Pow.Sha256.{sha256d}

-- `junk` is the buffer of a new `Sha256`.
abbrev pub hash : (junk message : Bytes) → Bytes
hash junk message = sha256d junk message
