-- ===== src/Pool/MoneroClient/Jobs.antt =====
-- src/pool/monero_client.cpp: the job that a message carries.
use minerby.Base.{
  ◌≤◌, Bytes, codes, length, leb, false, ok, bad_length, require, ◌≡◌, refl, subst, arith, IsBytes,
  >>=-eq-ok, require-eq-ok, ok-injective,
}
use minerby.Json.{JsonLib}
use minerby.Util.Hex.{from_hex}
use minerby.Util.Hex.Laws.{from_hex-IsReading}
use minerby.Pow.Doubles.{Doubles}
use minerby.Pow.Target.{monero_target_from_hex}
use minerby.Pow.Target.Monero.{monero_target_from_hex-IsExpansion}
use minerby.Miner.Job.{MiningJob}
use minerby.Miner.Scan.{too_short}
use minerby.Pool.MoneroClient.{string_at, read_work}

long_enough : (blob : Bytes) → 43 ≤ length blob → too_short blob 39 ≡ false
unfolding too_short
long_enough blob h = ground (arith, h)

module _ (D : Doubles) (J : JsonLib D.Double) where
  -- A job read from the object `j`: the blob and the target are the decoded texts, both of a size
  -- that the workers can use.
  pub record IsMoneroJob (j : J.Json) (mj : MiningJob) : Type 0 where
    pub blob_read :
        (text : Bytes) × (string_at D J j (codes "blob") ≡ ok text) × (from_hex text ≡ ok mj.blob)
    pub blob_bytes : IsBytes mj.blob
    pub offset : mj.nonce_offset ≡ 39
    pub target_read :
        (text : Bytes) × (string_at D J j (codes "target") ≡ ok text)
        × (monero_target_from_hex text ≡ ok mj.target)
    pub target_size : length mj.target ≡ 32
    pub id_read : string_at D J j (codes "job_id") ≡ ok mj.job_id
    pub hashable : too_short mj.blob mj.nonce_offset ≡ false

  pub read_work-IsMoneroJob :
      (j : J.Json) (mj : MiningJob) → read_work D J j ≡ ok mj → IsMoneroJob j mj
  unfolding read_work
  read_work-IsMoneroJob j mj e =
      let (bt, b_read, e) = >>=-eq-ok (string_at D J j (codes "blob")) _ e in
      let (blob, b_hex, e) = >>=-eq-ok (from_hex bt) _ e in
      let (u, sized, e) = >>=-eq-ok (require (leb 43 (length blob)) bad_length) _ e in
      let (tt', t_read, e) = >>=-eq-ok (string_at D J j (codes "target")) _ e in
      let (target, t_hex, e) = >>=-eq-ok (monero_target_from_hex tt') _ e in
      let (id, i_read, e) = >>=-eq-ok (string_at D J j (codes "job_id")) _ e in
      let (tb, tb_read, expansion) = monero_target_from_hex-IsExpansion tt' target t_hex in
      let big : 43 ≤ length blob = ground (arith, require-eq-ok _ bad_length sized) in
      subst (IsMoneroJob j) (ok-injective e) (record {
        blob_read = (bt, b_read, b_hex);
        blob_bytes = (from_hex-IsReading bt blob b_hex).bytes;
        offset = refl;
        target_read = (tt', t_read, t_hex);
        target_size = expansion.size;
        id_read = i_read;
        hashable = long_enough blob big;
      })
