-- ===== src/Stratum/Job.antt =====
-- src/stratum/job.hpp: the payload of a `mining.notify`, its fields as received.
use minerby.Base.{Bytes, List, Bool, [], false}

pub record StratumJob : Type 0 where
  pub job_id : Bytes
  pub prevhash : Bytes
  pub coinb1 : Bytes
  pub coinb2 : Bytes
  pub merkle_branch : List Bytes
  pub version : Bytes
  pub nbits : Bytes
  pub ntime : Bytes
  pub clean_jobs : Bool

abbrev pub no_job : StratumJob
no_job = record {
  job_id = [];
  prevhash = [];
  coinb1 = [];
  coinb2 = [];
  merkle_branch = [];
  version = [];
  nbits = [];
  ntime = [];
  clean_jobs = false;
}
