-- ===== src/Pow/Sha256/Tests.antt =====
-- Known answers of tests/test_sha256.cpp.
use minerby.Base.{◌≡◌, refl, codes, replicate, Bytes}
use minerby.Util.Hex.{to_hex}
use minerby.Pow.Sha256.Rounds.{
  rotr, block_word, schedule_word, expand, schedule, round, rounds, load, add_back, compress,
}
use minerby.Pow.Sha256.{
  reset, fresh, transform, update_byte, update, pad_zeros, length_bytes, word_bytes, digest_bytes,
  finish_state, finish, sha256, sha256d,
}

abbrev junk : Bytes
junk = replicate 64 0xcc

run : Bytes → Bytes
unfolding to_hex rotr block_word schedule_word expand schedule round rounds load add_back compress
    reset fresh transform update_byte update pad_zeros length_bytes word_bytes digest_bytes
    finish_state finish sha256
run msg = to_hex (sha256 junk msg)

sha256_abc :
    run (codes "abc") ≡ codes "ba7816bf8f01cfea414140de5dae2223b00361a396177a9cb410ff61f20015ad"
unfolding run
sha256_abc = refl

sha256_two_blocks :
    run (codes "abcdbcdecdefdefgefghfghighijhijkijkljklmklmnlmnomnopnopq")
    ≡ codes "248d6a61d20638b8e5c026930c3e6039a33ce45964ff2167f6ecedd419db06c1"
unfolding run
sha256_two_blocks = refl

sha256d_empty :
    to_hex (sha256d junk (codes ""))
    ≡ codes "5df6e0e2761359d30a8275058e299fcc0381534545f55cf43e41983f5d4c9456"
unfolding run sha256d
sha256d_empty = refl
