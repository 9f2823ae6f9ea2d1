-- ===== src/App/MoneroShares.antt =====
-- src/app/main.cpp with the client for Monero: what is known of a share from the message of the server to
-- the texts that are submitted.
use minerby.Base.{
  ℕ, ◌^◌, ◌<◌, Bytes, List, [], ◌∷◌, codes, All, IsBytes, true, ok, ◌≡◌, refl, sym, subst, ap, ◌∙◌,
}
use minerby.Json.{JsonLib}
use minerby.Util.Hex.{to_hex, from_hex}
use minerby.Util.Hex.Laws.{from_hex-to_hex}
use minerby.Pow.Doubles.{Doubles}
use minerby.Pow.Target.{meets_target, monero_target_from_hex}
use minerby.Miner.Job.{MiningJob}
use minerby.Miner.Scan.{Share, chunk_size, splice, run_chunk}
use minerby.Miner.Scan.Shares.{scan-IsScan}
use minerby.Stratum.Work.{write}
use minerby.Pool.Events.{Event, on_job, on_submit_result, nonce_bytes, Handled}
use minerby.Pool.MoneroClient.{Client, string_at, handle}
use minerby.Pool.MoneroClient.Jobs.{IsMoneroJob}
use minerby.Pool.MoneroClient.Delivery.{ComesFrom, IsGood, handle-IsHandled}
use minerby.App.Shares.{All-hits, nonce_bytes-IsBytes}

-- The four bytes that the worker writes are those of the text that is submitted.
splice-write : (blob : Bytes) (n : ℕ) → splice blob 39 n ≡ write blob 39 (nonce_bytes n)
unfolding splice write
splice-write blob n = refl

module _ (D : Doubles) (J : JsonLib D.Double) (digest_of : Bytes → Bytes) where
  -- A share of a job in the object `j`, from the texts of the server to those of the submission.
  pub record IsMoneroShare (j : J.Json) (s : Share) : Type 0 where
    pub blob : Bytes
    pub blob_read :
        (text : Bytes) × (string_at D J j (codes "blob") ≡ ok text) × (from_hex text ≡ ok blob)
    pub nonce : Bytes
    pub nonce_read : from_hex (to_hex (nonce_bytes s.nonce)) ≡ ok nonce
    pub hashed : s.digest ≡ digest_of (write blob 39 nonce)
    pub result_read : from_hex (to_hex (s.digest)) ≡ ok (s.digest)
    pub target : Bytes
    pub target_read :
        (text : Bytes) × (string_at D J j (codes "target") ≡ ok text)
        × (monero_target_from_hex text ≡ ok target)
    pub low : meets_target s.digest target ≡ true

  -- All shares of a chunk of hashes on a job of the message.
  abbrev pub Mines : J.Json → ℕ → ℕ → Event → Type 0
  Mines msg threads nonce (on_submit_result accepted error) = Unit
  Mines msg threads nonce (on_job mj seed) =
      (j : J.Json) × ComesFrom D J msg j
      × All (IsMoneroShare j)
          (run_chunk digest_of threads mj.nonce_offset mj.target mj.blob nonce).shares

  module _ (threads nonce : ℕ) (pos : 0 < threads) (few : threads < 2 ^ 32) (lt : nonce < 2 ^ 32)
      (bytes : (blob : Bytes) → IsBytes (digest_of blob)) where
    job-Mines :
        (j : J.Json) (mj : MiningJob)
        → IsMoneroJob D J j mj
        → All
            (IsMoneroShare j)
            (run_chunk digest_of threads mj.nonce_offset mj.target mj.blob nonce).shares
    unfolding run_chunk
    job-Mines j mj v =
        let scanned =
          scan-IsScan digest_of threads mj.nonce_offset mj.target chunk_size mj.blob nonce pos few
            lt in
        subst (All (IsMoneroShare j)) (sym scanned.tried) (
          All-hits digest_of threads mj.nonce_offset mj.target (IsMoneroShare j) mj.blob _ (λ n hit.
            record {
              blob = mj.blob;
              blob_read = v.blob_read;
              nonce = nonce_bytes n;
              nonce_read = from_hex-to_hex (nonce_bytes n) (nonce_bytes-IsBytes n);
              hashed =
                  ap (λ off. digest_of (splice mj.blob off n)) v.offset
                  ∙ ap digest_of (splice-write mj.blob n);
              result_read = from_hex-to_hex _ (bytes (splice mj.blob mj.nonce_offset n));
              target = mj.target;
              target_read = v.target_read;
              low = hit;
            }))

    all-Mines :
        (msg : J.Json) (c : Client D J) (es : List Event)
        → All (IsGood D J msg c) es
        → All (Mines msg threads nonce) es
    all-Mines msg c [] good = tt
    all-Mines msg c (on_submit_result accepted error ∷ es) good = (tt, all-Mines msg c es good.1)
    all-Mines msg c (on_job mj seed ∷ es) good =
        let (j, from, v) = good.0.0 in ((j, from, job-Mines j mj v), all-Mines msg c es good.1)

    -- From the server's message to the submission, for any hasher whose digests are bytes: whatever
    -- message brings a job, every share that a worker finds in a chunk on it, with any number of
    -- threads and from any nonce, is one of the job's object. Its blob, with the four bytes that
    -- the submitted nonce denotes at offset 39, hashes to the bytes that the submitted result
    -- denotes, and those meet the target that the object's text stands for.
    pub handle-Mines :
        (msg : J.Json) (c : Client D J) (h : Handled (Client D J))
        → handle D J c msg ≡ ok h
        → All (Mines msg threads nonce) h.events
    handle-Mines msg c h e = all-Mines msg h.client h.events (handle-IsHandled D J msg c h e).events
