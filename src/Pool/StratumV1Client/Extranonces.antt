-- ===== src/Pool/StratumV1Client/Extranonces.antt =====
-- src/pool/stratum_v1_client.cpp: the extranonce2 of the jobs that the polls hand on.
use minerby.Base.{
  ℕ, suc, Bool, ◌+◌, ◌^◌, ◌<◌, ◌≤◌, pos, Bytes, List, [], ◌∷◌, ◌++◌, length, Option, none, some,
  subst, ok-injective, >>=-eq-ok, ok, ◌≡◌, ◌≢◌, sym, ap, ◌∙◌, arith, All,
}
use minerby.Json.{JsonLib}
use minerby.Pow.Doubles.{Doubles}
use minerby.Miner.Job.{MiningJob}
use minerby.Stratum.Work.{encode_extranonce2}
use minerby.Stratum.Work.Extranonce.{encode_extranonce2-injective}
use minerby.Pool.Events.{Event, on_job, on_submit_result, Polled, Handled}
use minerby.Net.TcpClient.{TcpClient, Sent, Received, read_line}
use minerby.Pool.StratumV1Client.{Client, handle_line}
use minerby.Pool.StratumV1Client.Session.{poll, polled, submit}
use minerby.Pool.StratumV1Client.Rebuild.{IsDelivery, IsGood, IsHandled, quietly-IsHandled}
use minerby.Pool.StratumV1Client.Delivery.{handle_line-IsHandled}

-- Two events do not hand on jobs with the same extranonce2.
abbrev pub Differ : Event → Event → Type 0
Differ (on_job a s) (on_job b t) = a.extranonce2_hex ≢ b.extranonce2_hex
Differ _ _ = Unit

abbrev pub Distinct : List Event → Type 0
Distinct [] = Unit
Distinct (e ∷ es) = All (Differ e) es × Distinct es

-- An event whose job, if it is one, has the extranonce2 of a counter below `k`.
abbrev pub IsBelow : ℕ → ℕ → Event → Type 0
IsBelow size k (on_job mj seed) =
    (i : ℕ) × (i < k) × (encode_extranonce2 i (pos size) ≡ ok mj.extranonce2_hex)
IsBelow size k (on_submit_result accepted error) = Unit

IsBelow-mono :
    (size k l : ℕ) → k ≤ l → (es : List Event) → All (IsBelow size k) es → All (IsBelow size l) es
IsBelow-mono size k l le [] h = tt
IsBelow-mono size k l le (on_job mj seed ∷ es) h =
    ((h.0.0, omega (arith, h.0.1), h.0.2), IsBelow-mono size k l le es h.1)
IsBelow-mono size k l le (on_submit_result a e ∷ es) h = (tt, IsBelow-mono size k l le es h.1)

-- A job at the counter `k` differs from those below.
Differ-IsBelow :
    (size k : ℕ) (mj : MiningJob) (seed : Bytes)
    → size ≤ 8
    → k < 256 ^ size
    → encode_extranonce2 k (pos size) ≡ ok mj.extranonce2_hex
    → (es : List Event) → All (IsBelow size k) es
    → All (Differ (on_job mj seed)) es
Differ-IsBelow size k mj seed few fits e [] h = tt
Differ-IsBelow size k mj seed few fits e (on_submit_result a x ∷ es) h =
    (tt, Differ-IsBelow size k mj seed few fits e es h.1)
Differ-IsBelow size k mj seed few fits e (on_job other t ∷ es) h = (
  λ same. absurd (
      let below : h.0.0 ≡ k =
        encode_extranonce2-injective h.0.0 k size few (omega (arith, h.0.1, fits)) fits
          (h.0.2 ∙ ap ok (sym same) ∙ sym e) in
      omega (arith, below, h.0.1)),
  Differ-IsBelow size k mj seed few fits e es h.1,
)

Differ-quiet :
    (accepted : Bool) (error : Bytes) (es : List Event)
    → All (Differ (on_submit_result accepted error)) es
Differ-quiet accepted error [] = tt
Differ-quiet accepted error (e ∷ es) = (tt, Differ-quiet accepted error es)

module _ (junk : Bytes) (stack : length junk ≡ 64) (D : Doubles) (J : JsonLib D.Double) where
  -- Polls and submissions in any order, from a counter at `k`, `m` polls of them, while the server
  -- keeps the size of the extranonce2; the events, the newest first.
  pub data Session (size k : ℕ) : ℕ → Client junk D J → List Event → Type 0 where
    begun : (c : Client junk D J) → c.xn2_counter ≡ k → Session size k 0 c []
    polled_once :
        {m : ℕ} {c : Client junk D J} {es : List Event}
        → Session size k m c es
        → (rs : List Received) (p : Polled (Client junk D J)) → poll junk D J c rs ≡ ok p
        → p.client.extranonce2_size ≡ pos size
        → Session size k (suc m) p.client (p.events ++ es)
    submitted :
        {m : ℕ} {c : Client junk D J} {es : List Event}
        → Session size k m c es
        → (job : MiningJob) (nonce : ℕ) (sends : List Sent)
        → Session size k m (submit junk D J c job nonce sends).client es

  -- The client and the events alone.
  abbrev in_poll : Polled (Client junk D J) → Handled (Client junk D J)
  in_poll p = record { client = p.client; events = p.events }

  -- A poll handles one line at most, on a client that differs in its buffer.
  poll-IsHandled :
      (c : Client junk D J) (rs : List Received) (p : Polled (Client junk D J))
      → poll junk D J c rs ≡ ok p
      → (conn : TcpClient) × IsHandled junk stack D J (record c { conn = conn }) (in_poll p)
  unfolding poll polled
  poll-IsHandled c rs p e =
      let r = read_line c.conn rs in
      let buffered : TcpClient = record (c.conn) { rx = r.rx } in
      (buffered, of_line (record c { conn = buffered }) r.line r.left e)
    where
      of_line :
          (d : Client junk D J) (line : Option Bytes) (left : List Received)
          → polled junk D J d line left ≡ ok p
          → IsHandled junk stack D J d (in_poll p)
      of_line d none left e =
          subst (λ q. IsHandled junk stack D J d (in_poll q)) (ok-injective e)
            (quietly-IsHandled junk stack D J d)
      of_line d (some []) left e =
          subst (λ q. IsHandled junk stack D J d (in_poll q)) (ok-injective e)
            (quietly-IsHandled junk stack D J d)
      of_line d (some (b ∷ bs)) left e =
          let (h, handled, e) = >>=-eq-ok (handle_line junk D J d (b ∷ bs)) _ e in
          subst (λ q. IsHandled junk stack D J d (in_poll q)) (ok-injective e)
            (handle_line-IsHandled junk stack D J d (b ∷ bs) h handled)

  record IsFresh (size top : ℕ) (c : Client junk D J) (es : List Event) : Type 0 where
    counted : c.xn2_counter ≤ top
    below : All (IsBelow size c.xn2_counter) es
    distinct : Distinct es

  -- What the events of one line add.
  add_events :
      (size k : ℕ) (c : Client junk D J) (new es : List Event)
      → length new ≤ 1
      → All (IsGood junk stack D J k c) new
      → c.extranonce2_size ≡ pos size
      → size ≤ 8
      → k < 256 ^ size
      → k + 1 < 2 ^ 64
      → k ≤ c.xn2_counter
      → All (IsBelow size k) es
      → Distinct es
      → All (IsBelow size c.xn2_counter) (new ++ es) × Distinct (new ++ es)
  add_events size k c [] es one good same few fits word le below distinct =
      (IsBelow-mono size k c.xn2_counter le es below, distinct)
  add_events size k c (on_submit_result a e ∷ []) es one good same few fits word le below distinct =
      ((tt, IsBelow-mono size k c.xn2_counter le es below), (Differ-quiet a e es, distinct))
  add_events size k c (on_job mj seed ∷ []) es one good same few fits word le below distinct =
      let d : IsDelivery junk stack D J k c mj = good.0.1 in
      let enc : encode_extranonce2 k (pos size) ≡ ok mj.extranonce2_hex =
        ap (encode_extranonce2 k) (sym same) ∙ d.encoded in
      (
        ((k, omega (arith, d.used_up, word), enc), IsBelow-mono size k c.xn2_counter le es below),
        (Differ-IsBelow size k mj seed few fits enc es below, distinct),
      )
  add_events size k c (x ∷ y ∷ more) es one good same few fits word le below distinct =
      absurd (omega (arith, one))

  -- A submission uses up no extranonce2.
  submit-IsFresh :
      (size top : ℕ) (c : Client junk D J) (es : List Event) (job : MiningJob) (nonce : ℕ)
      (sends : List Sent)
      → IsFresh size top c es
      → IsFresh size top (submit junk D J c job nonce sends).client es
  unfolding submit
  submit-IsFresh size top c es job nonce sends v = record {
    counted = v.counted;
    below = v.below;
    distinct = v.distinct;
  }

  Session-IsFresh :
      (size k m : ℕ) (c : Client junk D J) (es : List Event)
      → size ≤ 8
      → k + m < 256 ^ size
      → k + m < 2 ^ 64
      → Session size k m c es
      → IsFresh size (k + m) c es
  Session-IsFresh size k m _ _ few fits word (begun c at_start) = record {
    counted = omega (arith, at_start);
    below = tt;
    distinct = tt;
  }
  Session-IsFresh size k (suc m) _ _ few fits word (polled_once {c = d} {es = old} s rs p e same) =
      let ih = Session-IsFresh size k m d old few (omega (arith, fits)) (omega (arith, word)) s in
      let (conn, v) = poll-IsHandled d rs p e in
      let moved : (d.xn2_counter ≤ p.client.xn2_counter) × (p.client.xn2_counter ≤ k + suc m) =
        ground (arith, v.counter, ih.counted, word) in
      let (below, distinct) =
        add_events size d.xn2_counter p.client p.events old v.single v.events same few
          (omega (arith, ih.counted, fits)) (omega (arith, ih.counted, word)) moved.0 ih.below
          ih.distinct in
      record { counted = moved.1; below = below; distinct = distinct }
  Session-IsFresh size k m _ _ few fits word (submitted {c = d} {es = old} s job nonce sends) =
      submit-IsFresh size (k + m) d old job nonce sends
        (Session-IsFresh size k m d old few fits word s)

  -- From a client at any counter, over any polls and submissions, while the server keeps the size
  -- of the extranonce2, at most 8: as long as the counter and the number of polls together stay below
  -- the number of values of that size, and below 2 ^ 64, no two jobs that the polls hand on have
  -- the same extranonce2. The jobs that `connect` itself hands on are not among them.
  pub Session-Distinct :
      (size k m : ℕ) (c : Client junk D J) (es : List Event)
      → size ≤ 8
      → k + m < 256 ^ size
      → k + m < 2 ^ 64
      → Session size k m c es
      → Distinct es
  Session-Distinct size k m c es few fits word s =
      (Session-IsFresh size k m c es few fits word s).distinct
