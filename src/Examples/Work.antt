-- ===== src/Examples/Work.antt =====
-- src/stratum/work.cpp at a concrete payload.
use minerby.Base.{◌≡◌, refl, Bytes, [], ◌∷◌, codes, replicate, some, true}
use minerby.Util.Hex.{hex_val, hex_byte, from_hex_pairs, from_hex, be32, be32_from_hex}
use minerby.Miner.Job.{MiningJob, empty_job}
use minerby.Stratum.Job.{StratumJob}
use minerby.Stratum.Work.{build_work}
use minerby.Stratum.Work.Build.{IsBuildable, IsWork, build_work-IsWork, build_work-total}
use minerby.Examples.Numbers.{whole}

abbrev pub stack : Bytes
stack = replicate 64 0

abbrev zero_text : Bytes
zero_text = replicate 64 b'0'

-- A payload with one node in its branch.
abbrev pub payload : StratumJob
payload = record {
  job_id = codes "4f";
  prevhash = zero_text;
  coinb1 = codes "01";
  coinb2 = codes "ff";
  merkle_branch = zero_text ∷ [];
  version = codes "20000000";
  nbits = codes "1d00ffff";
  ntime = codes "65000000";
  clean_jobs = true;
}

payload-IsBuildable : IsBuildable stack refl payload (codes "aa") (codes "0000")
unfolding from_hex from_hex_pairs hex_val hex_byte be32_from_hex be32
payload-IsBuildable = record {
  c1 = 1 ∷ [];
  c1_read = refl;
  c2 = 0xff ∷ [];
  c2_read = refl;
  x1 = 0xaa ∷ [];
  x1_read = refl;
  x2 = 0 ∷ 0 ∷ [];
  x2_read = refl;
  nodes = replicate 32 0 ∷ [];
  decoded = (refl, refl, tt);
  version = 0x20000000;
  version_read = refl;
  nbits = 0x1d00ffff;
  nbits_read = refl;
  ntime = 0x65000000;
  ntime_read = refl;
  prevhash = replicate 32 0;
  prevhash_read = refl;
  prevhash_size = refl;
}

built :
    (mj : MiningJob) × (build_work stack whole payload (codes "aa") (codes "0000") 1 empty_job
      ≡ some mj)
built =
    build_work-total stack refl whole payload (codes "aa") (codes "0000") 1 empty_job
      payload-IsBuildable

build_work-total_example :
    (mj : MiningJob) × (build_work stack whole payload (codes "aa") (codes "0000") 1 empty_job
      ≡ some mj)
build_work-total_example =
    build_work-total stack refl whole payload (codes "aa") (codes "0000") 1 empty_job
      payload-IsBuildable

build_work-IsWork_example :
    IsWork stack refl whole payload (codes "aa") (codes "0000") 1 empty_job built.0
build_work-IsWork_example =
    build_work-IsWork stack refl whole payload (codes "aa") (codes "0000") 1 empty_job built.0
      built.1
