-- ===== src/App/Shares.antt =====
-- src/app/main.cpp joins the client, the workers and the hasher: what is known of a share from the line
-- of the server to the nonce that is submitted.
use minerby.Base.{
  ℕ, zero, suc, codes, ◌-◌, get_or, ◌++◌, ◌+◌, ◌*◌, ◌^◌, ◌<◌, u8, ◌>>>◌, Bytes, List, [], ◌∷◌,
  length, All, IsBytes, true, ok, ◌≡◌, refl, sym, subst, ap, ◌∙◌, arith, Bool-cases, inl, inr,
}
use minerby.Json.{JsonLib}
use minerby.Util.Hex.{to_hex, from_hex, be32_from_hex}
use minerby.Util.Hex.Laws.{from_hex-to_hex}
use minerby.Util.Hex.Be32.{be_bytes, be32_as_sum}
use minerby.Pow.Doubles.{Doubles}
use minerby.Pow.Target.{meets_target}
use minerby.Pow.Target.Difficulty.{target_from_difficulty}
use minerby.Pow.Sha256dHasher.{hash}
use minerby.Miner.Job.{MiningJob}
use minerby.Miner.Scan.{Share, chunk_size, splice, run_chunk}
use minerby.Miner.Scan.Shares.{get_or-splice, hits, scan-IsScan}
use minerby.Net.TcpClient.{Sent}
use minerby.Net.TcpClient.Send.{send_all-IsSent}
use minerby.Pool.StratumV1Client.Session.{submit}
use minerby.Stratum.Work.{write, le_bytes}
use minerby.Stratum.Work.Build.{IsHeader}
use minerby.Pool.Events.{Event, on_job, on_submit_result, nonce_bytes, Handled}
use minerby.Pool.StratumV1Client.{Client, handle_line}
use minerby.Pool.StratumV1Client.Rebuild.{IsDelivery, IsGood}
use minerby.Pool.StratumV1Client.Delivery.{handle_line-IsHandled}

pub nonce_bytes-IsBytes : (n : ℕ) → IsBytes (nonce_bytes n)
nonce_bytes-IsBytes n = omega arith

-- What holds of the share of each nonce that hits holds of all shares of a chunk.
pub All-hits :
    (digest_of : Bytes → Bytes) (threads off : ℕ) (target : Bytes) (P : Share → Type 0)
    (blob : Bytes) (ns : List ℕ)
    → ((n : ℕ)
        → meets_target (digest_of (splice blob off n)) target ≡ true
        → P (record { nonce = n; digest = digest_of (splice blob off n) }))
    → All P (hits digest_of threads off target blob ns)
All-hits digest_of threads off target P blob [] h = tt
All-hits digest_of threads off target P blob (n ∷ ns) h =
    let rest = All-hits digest_of threads off target P blob ns h in
    elim (Bool-cases (meets_target (digest_of (splice blob off n)) target)) [
      | inl hit ↦ rw hit (h n hit, rest)
      | inr miss ↦ rw miss rest
    ]

-- The nonce of a share, as the miner sends it: the four bytes that the worker wrote, as a text.
splice-write : (blob : Bytes) (n : ℕ) → splice blob 76 n ≡ write blob 76 (nonce_bytes n)
unfolding splice write
splice-write blob n = refl

module _ (junk : Bytes) (stack : length junk ≡ 64) (D : Doubles) (J : JsonLib D.Double) where
  -- A share of a job: the header of the client's payload, with the bytes that the submitted text
  -- denotes in the place of the nonce, hashes to the digest, and the digest meets the target of the
  -- client's difficulty.
  pub record IsShare (c : Client junk D J) (mj : MiningJob) (s : Share) : Type 0 where
    pub header : Bytes
    pub built : IsHeader junk stack c.job c.extranonce1 mj.extranonce2_hex header
    pub nonce : Bytes
    pub read : from_hex (to_hex (nonce_bytes s.nonce)) ≡ ok nonce
    pub hashed : s.digest ≡ hash junk (write header 76 nonce)
    pub low : meets_target s.digest (target_from_difficulty D c.difficulty) ≡ true

  -- All shares of a chunk of hashes on the job, by the worker that starts at `nonce`.
  abbrev pub Mines : Client junk D J → ℕ → ℕ → Event → Type 0
  Mines c threads nonce (on_submit_result accepted error) = Unit
  Mines c threads nonce (on_job mj seed) =
      All (IsShare c mj)
        (run_chunk (hash junk) threads mj.nonce_offset mj.target mj.blob nonce).shares

  delivery-Mines :
      (k : ℕ) (c : Client junk D J) (mj : MiningJob) (threads nonce : ℕ)
      → IsDelivery junk stack D J k c mj
      → 0 < threads
      → threads < 2 ^ 32
      → nonce < 2 ^ 32
      → All
          (IsShare c mj)
          (run_chunk (hash junk) threads mj.nonce_offset mj.target mj.blob nonce).shares
  unfolding run_chunk
  delivery-Mines k c mj threads nonce v pos few lt =
      let scanned =
        scan-IsScan (hash junk) threads mj.nonce_offset mj.target chunk_size mj.blob nonce pos few
          lt in
      subst (All (IsShare c mj)) (sym scanned.tried) (
        All-hits (hash junk) threads mj.nonce_offset mj.target (IsShare c mj) mj.blob _ (λ n hit.
          record {
            header = mj.blob;
            built = v.work.built;
            nonce = nonce_bytes n;
            read = from_hex-to_hex (nonce_bytes n) (nonce_bytes-IsBytes n);
            hashed =
                ap (λ off. hash junk (splice mj.blob off n)) v.work.offset
                ∙ ap (hash junk) (splice-write mj.blob n);
            low =
                subst (λ t. meets_target (hash junk (splice mj.blob mj.nonce_offset n)) t ≡ true)
                  v.work.target hit;
          }))

  -- From the server's line to the share: whatever line brings a job, every share that a worker finds
  -- in a chunk on it, with any number of threads and from any nonce, is one of the payload that
  -- the client then holds. The header of that payload, with the four bytes that the submitted
  -- text denotes at its end, hashes to the digest that is reported, and that digest meets the
  -- target of the client's difficulty.
  pub handle_line-Mines :
      (c : Client junk D J) (line : Bytes) (h : Handled (Client junk D J)) (threads nonce : ℕ)
      → handle_line junk D J c line ≡ ok h
      → 0 < threads
      → threads < 2 ^ 32
      → nonce < 2 ^ 32
      → All (Mines h.client threads nonce) h.events
  handle_line-Mines c line h threads nonce e pos few lt =
      all_mine h.events (handle_line-IsHandled junk stack D J c line h e).events
    where
      all_mine :
          (es : List Event)
          → All (IsGood junk stack D J c.xn2_counter h.client) es
          → All (Mines h.client threads nonce) es
      all_mine [] good = tt
      all_mine (on_submit_result accepted error ∷ es) good = (tt, all_mine es good.1)
      all_mine (on_job mj seed ∷ es) good = (
        delivery-Mines c.xn2_counter h.client mj threads nonce good.0.1 pos few lt,
        all_mine es good.1,
      )

-- The text of a nonce, read as a big-endian word.
nonce_bytes-reversed :
    (n : ℕ)
    → n < 2 ^ 32
    → (m : ℕ) × (be32_from_hex (to_hex (nonce_bytes n)) ≡ ok m) × (le_bytes m ≡ be_bytes n)
unfolding be32_from_hex
nonce_bytes-reversed n lt =
    let m = u8 n * 2 ^ 24 + u8 (n >>> 8) * 2 ^ 16 + u8 (n >>> 16) * 2 ^ 8 + u8 (n >>> 24) in
    (
      m,
      rw (from_hex-to_hex (nonce_bytes n) (nonce_bytes-IsBytes n))
          (be32_as_sum _ _ _ _ (nonce_bytes-IsBytes n)),
      ground arith,
    )

-- The four bytes of a nonce in a header, from the last back.
be_bytes-splice :
    (blob : Bytes) (n i : ℕ)
    → n < 2 ^ 32
    → length blob ≡ 80
    → i < 4
    → get_or (be_bytes n) i 0 ≡ get_or (splice blob 76 n) (79 - i) 0
be_bytes-splice blob n zero fits size lt =
    omega (arith, get_or-splice blob 76 n 79 (omega (arith, size)))
be_bytes-splice blob n (suc zero) fits size lt =
    omega (arith, get_or-splice blob 76 n 78 (omega (arith, size)))
be_bytes-splice blob n (suc (suc zero)) fits size lt =
    omega (arith, get_or-splice blob 76 n 77 (omega (arith, size)))
be_bytes-splice blob n (suc (suc (suc zero))) fits size lt =
    omega (arith, get_or-splice blob 76 n 76 (omega (arith, size)))
be_bytes-splice blob n (suc (suc (suc (suc i)))) fits size lt = absurd (omega arith)

module _ (junk : Bytes) (D : Doubles) (J : JsonLib D.Double) where
  -- The line of a share, with a text for the nonce.
  abbrev pub share_line : Client junk D J → MiningJob → Bytes → Bytes
  share_line c job nonce =
      J.dump (
        J.object (
          (codes "id", J.number c.next_id)
          ∷ (codes "method", J.string (codes "mining.submit"))
          ∷ (
            codes "params",
            J.array (
                J.string c.user
                ∷ J.string job.job_id
                ∷ J.string job.extranonce2_hex
                ∷ J.string job.ntime_hex
                ∷ J.string nonce
                ∷ []),
          )
          ∷ []))
      ++ b'\n' ∷ []

  -- A share of an 80-byte header that `submit` says it has sent: the line on the wire has a text for
  -- the nonce that the client itself, where it reads the words of a payload, takes for a
  -- big-endian word; and that word, written into a header as those words are, the least
  -- significant byte first, is the four bytes from offset 76 that the worker hashed in the reverse
  -- of their order.
  pub submit_reversed :
      (c : Client junk D J) (job : MiningJob) (n : ℕ) (sends : List Sent)
      → n < 2 ^ 32
      → length job.blob ≡ 80
      → (submit junk D J c job n sends).done ≡ true
      → (text : Bytes) × (m : ℕ) × ((submit junk D J c job n sends).wire ≡ share_line c job text)
        × (be32_from_hex text ≡ ok m)
        × ((i : ℕ) → i < 4 → get_or (le_bytes m) i 0 ≡ get_or (splice job.blob 76 n) (79 - i) 0)
  unfolding submit
  submit_reversed c job n sends lt size done =
      let (m, read, reversed) = nonce_bytes-reversed n lt in
      let sent = send_all-IsSent c.conn (share_line c job (to_hex (nonce_bytes n))) sends in
      (
        to_hex (nonce_bytes n),
        m,
        sent.complete done,
        read,
        λ i h. ap (λ (bs : Bytes). get_or bs i 0) reversed ∙ be_bytes-splice job.blob n i lt size h,
      )
