-- ===== src/Stratum/Work/Build.antt =====
-- src/stratum/work.cpp: what `build_work` hands to the miner, and when it does.
use minerby.Base.{
  ℕ, Bytes, List, ◌++◌, ◌==◌, ==_iff, length, some, Result, ok, err, require, bad_length, true, ◌≡◌,
  refl, sym, ap, ◌∙◌, subst, >>=-eq-ok, require-eq-ok, ok-injective, some-injective,
}
use minerby.Util.Hex.{from_hex, be32_from_hex}
use minerby.Pow.Doubles.{Doubles}
use minerby.Pow.Sha256.{sha256d}
use minerby.Pow.Target.Difficulty.{target_from_difficulty}
use minerby.Miner.Job.{MiningJob}
use minerby.Stratum.Job.{StratumJob}
use minerby.Stratum.Work.{header, fold_branch, fill_job, build_header, build_work}
use minerby.Stratum.Work.Header.{laid_out, header-laid_out, length-laid_out}
use minerby.Stratum.Work.Branch.{
  Decodes, root_of, sha256d-length, fold_branch-root_of, length-root_of, fold_branch-total,
}

module _ (junk : Bytes) (stack : length junk ≡ 64) where
  -- The header `h` for a payload: every field is the decoded field of the payload.
  pub record IsHeader (j : StratumJob) (xn1 xn2 h : Bytes) : Type 0 where
    pub coinbase : Bytes
    pub assembled :
        (c1 : Bytes) × (e1 : Bytes) × (e2 : Bytes) × (c2 : Bytes) × (from_hex j.coinb1 ≡ ok c1)
        × (from_hex xn1 ≡ ok e1)
        × (from_hex xn2 ≡ ok e2)
        × (from_hex j.coinb2 ≡ ok c2)
        × (coinbase ≡ c1 ++ (e1 ++ (e2 ++ c2)))
    pub branch : List Bytes
    pub decoded : Decodes j.merkle_branch branch
    pub version : ℕ
    pub version_read : be32_from_hex j.version ≡ ok version
    pub ntime : ℕ
    pub ntime_read : be32_from_hex j.ntime ≡ ok ntime
    pub nbits : ℕ
    pub nbits_read : be32_from_hex j.nbits ≡ ok nbits
    pub prevhash : Bytes
    pub prevhash_read : from_hex j.prevhash ≡ ok prevhash
    pub prevhash_size : length prevhash ≡ 32
    pub laid :
        h
        ≡ laid_out version prevhash (root_of junk stack (sha256d junk coinbase) branch) ntime nbits
    pub size : length h ≡ 80

  build_header-IsHeader :
      (j : StratumJob) (xn1 xn2 h : Bytes)
      → build_header junk j xn1 xn2 ≡ ok h
      → IsHeader j xn1 xn2 h
  unfolding build_header
  build_header-IsHeader j xn1 xn2 h e =
      let (c1, r1, e) = >>=-eq-ok (from_hex j.coinb1) _ e in
      let (c2, r2, e) = >>=-eq-ok (from_hex j.coinb2) _ e in
      let (x1, r3, e) = >>=-eq-ok (from_hex xn1) _ e in
      let (x2, r4, e) = >>=-eq-ok (from_hex xn2) _ e in
      let coinbase : Bytes = c1 ++ (x1 ++ (x2 ++ c2)) in
      let (root, r5, e) =
        >>=-eq-ok (fold_branch junk (sha256d junk coinbase) j.merkle_branch) _ e in
      let (v, r6, e) = >>=-eq-ok (be32_from_hex j.version) _ e in
      let (b, r7, e) = >>=-eq-ok (be32_from_hex j.nbits) _ e in
      let (t, r8, e) = >>=-eq-ok (be32_from_hex j.ntime) _ e in
      let (p, r9, e) = >>=-eq-ok (from_hex j.prevhash) _ e in
      let (u, r10, e) = >>=-eq-ok (require (length p == 32) bad_length) _ e in
      let (bs, dec, folded) = fold_branch-root_of junk stack j.merkle_branch _ root r5 in
      let root_size : length (root_of junk stack (sha256d junk coinbase) bs) ≡ 32 =
        length-root_of junk stack bs _ (sha256d-length junk stack coinbase) in
      let laid : h ≡ laid_out v p (root_of junk stack (sha256d junk coinbase) bs) t b =
        sym (ok-injective e)
        ∙ ap (λ m. header v p m t b) (sym folded)
        ∙ header-laid_out v p _ t b root_size in
      record {
        coinbase = coinbase;
        assembled = (c1, x1, x2, c2, r1, r3, r4, r2, refl);
        branch = bs;
        decoded = dec;
        version = v;
        version_read = r6;
        ntime = t;
        ntime_read = r8;
        nbits = b;
        nbits_read = r7;
        prevhash = p;
        prevhash_read = r9;
        prevhash_size = (==_iff _ 32).0 (require-eq-ok _ bad_length r10);
        laid = laid;
        size = ap length laid ∙ length-laid_out v p _ t b root_size;
      }

  -- A job that is built: its blob is the header of the payload, with room for the nonce inside.
  pub record IsWork (D : Doubles) (j : StratumJob) (xn1 xn2 : Bytes) (diff : D.Double)
      (out mj : MiningJob) : Type 0 where
    pub built : IsHeader j xn1 xn2 mj.blob
    pub offset : mj.nonce_offset ≡ 76
    pub target : mj.target ≡ target_from_difficulty D diff
    pub id : mj.job_id ≡ j.job_id
    pub extranonce2 : mj.extranonce2_hex ≡ xn2
    pub time : mj.ntime_hex ≡ j.ntime
    pub generation : mj.generation ≡ out.generation

  fill_job-IsWork :
      (D : Doubles) (j : StratumJob) (xn1 xn2 : Bytes) (diff : D.Double) (out mj : MiningJob)
      (r : Result Bytes)
      → build_header junk j xn1 xn2 ≡ r
      → fill_job D j xn2 diff out r ≡ some mj
      → IsWork D j xn1 xn2 diff out mj
  unfolding fill_job
  fill_job-IsWork D j xn1 xn2 diff out mj (err x) b e = cc
  fill_job-IsWork D j xn1 xn2 diff out mj (ok h) b e =
      subst (IsWork D j xn1 xn2 diff out) (some-injective e) (record {
        built = build_header-IsHeader j xn1 xn2 h b;
        offset = refl;
        target = refl;
        id = refl;
        extranonce2 = refl;
        time = refl;
        generation = refl;
      })

  -- A job that `build_work` delivers is the 80-byte header of the payload, every field decoded and
  -- in its place and the merkle branch folded from the coinbase, with the nonce at offset 76 and
  -- what a submission will need.
  pub build_work-IsWork :
      (D : Doubles) (j : StratumJob) (xn1 xn2 : Bytes) (diff : D.Double) (out mj : MiningJob)
      → build_work junk D j xn1 xn2 diff out ≡ some mj
      → IsWork D j xn1 xn2 diff out mj
  unfolding build_work
  build_work-IsWork D j xn1 xn2 diff out mj e =
      fill_job-IsWork D j xn1 xn2 diff out mj (build_header junk j xn1 xn2) refl e

  -- What makes a payload buildable: each field is the text of bytes of the right length.
  pub record IsBuildable (j : StratumJob) (xn1 xn2 : Bytes) : Type 0 where
    pub c1 : Bytes
    pub c1_read : from_hex j.coinb1 ≡ ok c1
    pub c2 : Bytes
    pub c2_read : from_hex j.coinb2 ≡ ok c2
    pub x1 : Bytes
    pub x1_read : from_hex xn1 ≡ ok x1
    pub x2 : Bytes
    pub x2_read : from_hex xn2 ≡ ok x2
    pub nodes : List Bytes
    pub decoded : Decodes j.merkle_branch nodes
    pub version : ℕ
    pub version_read : be32_from_hex j.version ≡ ok version
    pub nbits : ℕ
    pub nbits_read : be32_from_hex j.nbits ≡ ok nbits
    pub ntime : ℕ
    pub ntime_read : be32_from_hex j.ntime ≡ ok ntime
    pub prevhash : Bytes
    pub prevhash_read : from_hex j.prevhash ≡ ok prevhash
    pub prevhash_size : length prevhash ≡ 32

  built_header : {j : StratumJob} {xn1 xn2 : Bytes} → IsBuildable j xn1 xn2 → Bytes
  built_header v =
      header v.version v.prevhash
        (root_of junk stack (sha256d junk (v.c1 ++ (v.x1 ++ (v.x2 ++ v.c2)))) v.nodes) v.ntime
        v.nbits

  build_header-total :
      {j : StratumJob} {xn1 xn2 : Bytes} (v : IsBuildable j xn1 xn2)
      → build_header junk j xn1 xn2 ≡ ok (built_header v)
  unfolding build_header built_header
  build_header-total {j} v =
      rw
        (
          v.c1_read,
          v.c2_read,
          v.x1_read,
          v.x2_read,
          fold_branch-total junk stack j.merkle_branch v.nodes _ v.decoded,
          v.version_read,
          v.nbits_read,
          v.ntime_read,
          v.prevhash_read,
          sized,
        )
        refl
    where
      sized : (length v.prevhash == 32) ≡ true
      sized = (==_iff _ 32).1 v.prevhash_size

  -- A payload whose fields all decode to bytes of the right length is built, whatever the
  -- difficulty and `out` are.
  pub build_work-total :
      (D : Doubles) (j : StratumJob) (xn1 xn2 : Bytes) (diff : D.Double) (out : MiningJob)
      → IsBuildable j xn1 xn2
      → (mj : MiningJob) × (build_work junk D j xn1 xn2 diff out ≡ some mj)
  unfolding build_work fill_job
  build_work-total D j xn1 xn2 diff out v = (
    record out {
      blob = built_header v;
      nonce_offset = 76;
      target = target_from_difficulty D diff;
      job_id = j.job_id;
      extranonce2_hex = xn2;
      ntime_hex = j.ntime;
    },
    ap (fill_job D j xn2 diff out) (build_header-total v),
  )
