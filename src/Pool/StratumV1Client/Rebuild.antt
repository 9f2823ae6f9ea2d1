-- ===== src/Pool/StratumV1Client/Rebuild.antt =====
-- src/pool/stratum_v1_client.cpp: what one message does to the client, and the job that `rebuild_job`
-- hands on.
use minerby.Base.{
  ℕ, ◌+◌, ◌≤◌, Bytes, List, [], ◌∷◌, true, false, Option, none, some, Result, ok, ◌≡◌, refl, sym,
  ap, ◌∙◌, subst, arith, ◌⊎◌, inl, inr, All, >>=-eq-ok, ok-injective, if_cases, u64, length, not,
  ◌||◌,
}
use minerby.Json.{JsonLib}
use minerby.Pow.Doubles.{Doubles}
use minerby.Miner.Job.{MiningJob, empty_job}
use minerby.Miner.Scan.{too_short}
use minerby.Net.TcpClient.{close}
use minerby.Stratum.Work.{encode_extranonce2, build_work}
use minerby.Stratum.Work.Build.{IsWork, build_work-IsWork}
use minerby.Pool.Events.{Event, on_job, on_submit_result, Handled}
use minerby.Pool.StratumV1Client.{Client, quietly, delivered, rebuild_job}

header_fits :
    (mj : MiningJob)
    → length mj.blob ≡ 80
    → mj.nonce_offset ≡ 76
    → too_short mj.blob mj.nonce_offset ≡ false
unfolding too_short
header_fits mj size offset = ground (arith, size, offset)

module _ (junk : Bytes) (stack : length junk ≡ 64) (D : Doubles) (J : JsonLib D.Double) where
  -- A job that is handed on, with `k` the counter before and `c` the client after: it is built from
  -- the client's payload, extranonce and difficulty, at an extranonce2 that is used up with it, and
  -- the worker will hash it.
  pub record IsDelivery (k : ℕ) (c : Client junk D J) (mj : MiningJob) : Type 0 where
    pub work : IsWork junk stack D c.job c.extranonce1 mj.extranonce2_hex c.difficulty empty_job mj
    pub encoded : encode_extranonce2 k c.extranonce2_size ≡ ok mj.extranonce2_hex
    pub used_up : c.xn2_counter ≡ u64 (k + 1)
    pub hashable : too_short mj.blob mj.nonce_offset ≡ false

  abbrev pub IsGood : ℕ → Client junk D J → Event → Type 0
  IsGood k c (on_job mj seed) = (seed ≡ []) × IsDelivery k c mj
  IsGood k c (on_submit_result accepted error) = c.has_on_submit_result ≡ true

  pub record IsHandled (c : Client junk D J) (h : Handled (Client junk D J)) : Type 0 where
    pub events : All (IsGood c.xn2_counter h.client) h.events
    pub single : length h.events ≤ 1
    pub counter :
        (h.client.xn2_counter ≡ c.xn2_counter) ⊎ (h.client.xn2_counter ≡ u64 (c.xn2_counter + 1))
    pub next_id : h.client.next_id ≡ c.next_id
    pub last_submit_id : h.client.last_submit_id ≡ c.last_submit_id
    pub have_job : c.have_job ≡ true → h.client.have_job ≡ true
    pub conn : (h.client.conn ≡ c.conn) ⊎ (h.client.conn ≡ close c.conn)

  pub quietly-IsHandled : (c : Client junk D J) → IsHandled c (quietly junk D J c)
  quietly-IsHandled c = record {
    events = tt;
    single = omega arith;
    counter = inl refl;
    next_id = refl;
    last_submit_id = refl;
    have_job = λ h. h;
    conn = inl refl;
  }

  -- A handler that leaves the client as it is.
  pub skip :
      (c : Client junk D J) {h : Handled (Client junk D J)}
      → ◌≡◌ {A = Result (Handled (Client junk D J))} (ok (quietly junk D J c)) (ok h)
      → IsHandled c h
  skip c e = subst (IsHandled c) (ok-injective e) (quietly-IsHandled c)

  -- An extranonce2 is used up.
  counted :
      (c : Client junk D J) (es : List Event)
      → length es ≤ 1
      → All (IsGood c.xn2_counter (record c { xn2_counter = u64 (c.xn2_counter + 1) })) es
      → IsHandled c
          (record { client = record c { xn2_counter = u64 (c.xn2_counter + 1) }; events = es })
  counted c es one good = record {
    events = good;
    single = one;
    counter = inr refl;
    next_id = refl;
    last_submit_id = refl;
    have_job = λ h. h;
    conn = inl refl;
  }

  delivered-IsHandled :
      (c : Client junk D J) (xn2 : Bytes) (o : Option MiningJob)
      → encode_extranonce2 c.xn2_counter c.extranonce2_size ≡ ok xn2
      → build_work junk D c.job c.extranonce1 xn2 c.difficulty empty_job ≡ o
      → IsHandled c (delivered junk D J (record c { xn2_counter = u64 (c.xn2_counter + 1) }) o)
  delivered-IsHandled c xn2 none enc e = counted c [] (omega arith) tt
  delivered-IsHandled c xn2 (some mj) enc e =
      let w = build_work-IsWork junk stack D c.job c.extranonce1 xn2 c.difficulty empty_job mj e in
      counted c (on_job mj [] ∷ []) (omega arith) (
        (
          refl,
          record {
            work =
                subst (λ x. IsWork junk stack D c.job c.extranonce1 x c.difficulty empty_job mj)
                  (sym w.extranonce2) w;
            encoded = enc ∙ ap ok (sym w.extranonce2);
            used_up = refl;
            hashable = header_fits mj w.built.size w.offset;
          },
        ),
        tt,
      )

  pub rebuild_job-IsHandled :
      (c : Client junk D J) (h : Handled (Client junk D J))
      → rebuild_job junk D J c ≡ ok h
      → IsHandled c h
  unfolding rebuild_job
  rebuild_job-IsHandled c h = if_cases (not c.have_job || not c.has_on_job) (skip c) (λ e.
      let (xn2, enc, done) = >>=-eq-ok (encode_extranonce2 c.xn2_counter c.extranonce2_size) _ e in
      subst (IsHandled c) (ok-injective done) (delivered-IsHandled c xn2 _ enc refl))
