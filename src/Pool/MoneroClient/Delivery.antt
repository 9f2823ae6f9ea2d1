-- ===== src/Pool/MoneroClient/Delivery.antt =====
-- src/pool/monero_client.cpp: what any message from the server does to the client, and the jobs that
-- it hands on.
use minerby.Base.{
  int_eq, Bytes, List, [], codes, Bool, true, false, not, Result, ok, err, undefined_behaviour,
  require, ◌≡◌, ◌⊎◌, inl, inr, refl, subst, All, >>=-eq-ok, ok-injective, if_cases, same_bytes,
}
use minerby.Json.{JsonLib}
use minerby.Pow.Doubles.{Doubles}
use minerby.Pow.Target.Difficulty.{target_to_difficulty}
use minerby.Miner.Job.{MiningJob}
use minerby.Pool.Events.{Event, on_job, on_submit_result, call_if, Handled, is_nil}
use minerby.Pool.MoneroClient.{
  Client, quietly, read_work, announce, read_announced, apply_read, apply_job, error_text,
  first_job, log_in, is_accepted, take_submit, answered, take_reply, reply, new_job, handle,
}
use minerby.Pool.MoneroClient.Jobs.{IsMoneroJob, read_work-IsMoneroJob}

module _ (D : Doubles) (J : JsonLib D.Double) where
  -- Where a message carries a job: its parameters, or the result of a login.
  abbrev pub ComesFrom : J.Json → J.Json → Type 0
  ComesFrom msg j =
      (J.value_json msg (codes "params") (J.object []) ≡ ok j)
      ⊎ ((r : J.Json) × (J.member msg (codes "result") ≡ ok r) × (J.member r (codes "job") ≡ ok j))

  abbrev pub IsGood : J.Json → Client D J → Event → Type 0
  IsGood msg c (on_job mj seed) =
      ((j : J.Json) × ComesFrom msg j × IsMoneroJob D J j mj)
      × (c.difficulty ≡ target_to_difficulty D mj.target)
      × (c.has_on_job ≡ true)
  IsGood msg c (on_submit_result accepted error) = c.has_on_submit_result ≡ true

  abbrev pub HasSession : Client D J → Type 0
  HasSession c = c.logged_in ≡ not (is_nil c.rpc_id)

  pub record IsHandled (msg : J.Json) (c : Client D J) (h : Handled (Client D J)) : Type 0 where
    pub events : All (IsGood msg h.client) h.events
    pub conn : h.client.conn ≡ c.conn
    pub next_id : h.client.next_id ≡ c.next_id
    pub last_submit_id : h.client.last_submit_id ≡ c.last_submit_id
    pub session : HasSession c → HasSession h.client

  module _ (msg : J.Json) where
    quietly-IsHandled : (c : Client D J) → IsHandled msg c (quietly D J c)
    quietly-IsHandled c = record {
      events = tt;
      conn = refl;
      next_id = refl;
      last_submit_id = refl;
      session = λ e. e;
    }

    skip :
        (c : Client D J) {h : Handled (Client D J)}
        → ◌≡◌ {A = Result (Handled (Client D J))} (ok (quietly D J c)) (ok h)
        → IsHandled msg c h
    skip c e = subst (IsHandled msg c) (ok-injective e) (quietly-IsHandled c)

    -- Events that are good at a client that is as it was.
    with_events :
        (c : Client D J) (es : List Event)
        → All (IsGood msg c) es
        → IsHandled msg c (record { client = c; events = es })
    with_events c es good = record {
      events = good;
      conn = refl;
      next_id = refl;
      last_submit_id = refl;
      session = λ e. e;
    }

    job-IsGood :
        (c : Client D J) (j : J.Json) (mj : MiningJob) (seed : Bytes) (b : Bool)
        → c.has_on_job ≡ b
        → ComesFrom msg j
        → IsMoneroJob D J j mj
        → c.difficulty ≡ target_to_difficulty D mj.target
        → All (IsGood msg c) (call_if b (on_job mj seed))
    job-IsGood c j mj seed false e from v d = tt
    job-IsGood c j mj seed true e from v d = (((j, from, v), d, e), tt)

    announce-IsHandled :
        (c : Client D J) (j : J.Json) (mj : MiningJob) (o : Result Bytes)
        → ComesFrom msg j
        → IsMoneroJob D J j mj
        → c.difficulty ≡ target_to_difficulty D mj.target
        → IsHandled msg c (announce D J c mj o)
    unfolding announce
    announce-IsHandled c j mj (err e) from v d = quietly-IsHandled c
    announce-IsHandled c j mj (ok seed) from v d =
        with_events c _ (job-IsGood c j mj seed c.has_on_job refl from v d)

    apply_read-IsHandled :
        (c : Client D J) (j : J.Json) (o : Result MiningJob)
        → ComesFrom msg j
        → read_work D J j ≡ o
        → IsHandled msg c (apply_read D J c j o)
    unfolding apply_read
    apply_read-IsHandled c j (err e) from r = quietly-IsHandled c
    apply_read-IsHandled c j (ok mj) from r =
        let v =
          announce-IsHandled (record c { difficulty = target_to_difficulty D mj.target }) j mj
            (read_announced D J j) from (read_work-IsMoneroJob D J j mj r) refl in
        record {
          events = v.events;
          conn = v.conn;
          next_id = v.next_id;
          last_submit_id = v.last_submit_id;
          session = v.session;
        }

    apply_job-IsHandled :
        (c : Client D J) (j : J.Json) → ComesFrom msg j → IsHandled msg c (apply_job D J c j)
    unfolding apply_job
    apply_job-IsHandled c j from = apply_read-IsHandled c j (read_work D J j) from refl

    first_job-IsHandled :
        (c : Client D J) (r : J.Json) (h : Handled (Client D J))
        → J.member msg (codes "result") ≡ ok r
        → first_job D J c r ≡ ok h
        → IsHandled msg c h
    unfolding first_job
    first_job-IsHandled c r h here = if_cases (not (J.contains r (codes "job"))) (skip c) (λ e.
        let (j, read, e) = >>=-eq-ok (J.member r (codes "job")) _ e in
        subst (IsHandled msg c) (ok-injective e) (apply_job-IsHandled c j (inr (r, here, read))))

    log_in-IsHandled :
        (c : Client D J) (error : Bytes) (h : Handled (Client D J))
        → log_in D J c msg error ≡ ok h
        → IsHandled msg c h
    unfolding log_in
    log_in-IsHandled c error h = if_cases (not (is_nil error)) (skip c) (λ e.
        let (u, there, e) =
          >>=-eq-ok (require (J.contains msg (codes "result")) undefined_behaviour) _ e in
        let (r, here, e) = >>=-eq-ok (J.member msg (codes "result")) _ e in
        let (id, read, e) = >>=-eq-ok (J.value_string r (codes "id") []) _ e in
        let v =
          first_job-IsHandled (record c { rpc_id = id; logged_in = not (is_nil id) }) r h here e in
        record {
          events = v.events;
          conn = v.conn;
          next_id = v.next_id;
          last_submit_id = v.last_submit_id;
          session = λ _. v.session refl;
        })

    submit_result-IsGood :
        (c : Client D J) (accepted : Bool) (error : Bytes) (b : Bool)
        → c.has_on_submit_result ≡ b
        → All (IsGood msg c) (call_if b (on_submit_result accepted error))
    submit_result-IsGood c accepted error false e = tt
    submit_result-IsGood c accepted error true e = (e, tt)

    take_submit-IsHandled :
        (c : Client D J) (error : Bytes) (h : Handled (Client D J))
        → take_submit D J c msg error ≡ ok h
        → IsHandled msg c h
    unfolding take_submit
    take_submit-IsHandled c error h e =
        let (accepted, read, e) = >>=-eq-ok (is_accepted D J msg error) _ e in
        subst (IsHandled msg c) (ok-injective e)
          (with_events c _ (submit_result-IsGood c accepted error c.has_on_submit_result refl))

    reply-IsHandled :
        (c : Client D J) (h : Handled (Client D J)) → reply D J c msg ≡ ok h → IsHandled msg c h
    unfolding reply take_reply answered
    reply-IsHandled c h = if_cases (not (J.contains msg (codes "id"))) (skip c) (λ e.
        let (idj, read, e) = >>=-eq-ok (J.member msg (codes "id")) _ e in
        if_cases (J.is_null idj) (skip c)
          (λ e.
            let (id, read, e) = >>=-eq-ok (J.get_int idj) _ e in
            let (error, read, e) = >>=-eq-ok (error_text D J msg) _ e in
            if_cases (int_eq id c.login_id) (log_in-IsHandled c error h)
              (if_cases (int_eq id c.last_submit_id) (take_submit-IsHandled c error h) (skip c)) e)
          e)

    new_job-IsHandled :
        (c : Client D J) (h : Handled (Client D J)) → new_job D J c msg ≡ ok h → IsHandled msg c h
    unfolding new_job
    new_job-IsHandled c h e =
        let (ps, read, e) = >>=-eq-ok (J.value_json msg (codes "params") (J.object [])) _ e in
        subst (IsHandled msg c) (ok-injective e) (apply_job-IsHandled c ps (inl read))

    -- Whatever message the server sends: a job that is handed on is the one that the message carries,
    -- its blob and target decoded, the nonce at offset 39 inside the blob, the target of 32 bytes,
    -- and the difficulty shown is that target's; the connection and the request ids stay, and the
    -- client counts as logged in exactly while it holds a session id.
    pub handle-IsHandled :
        (c : Client D J) (h : Handled (Client D J)) → handle D J c msg ≡ ok h → IsHandled msg c h
    unfolding handle
    handle-IsHandled c h e =
        let (method, read, e) = >>=-eq-ok (J.value_string msg (codes "method") []) _ e in
        if_cases (same_bytes method (codes "job")) (new_job-IsHandled c h) (reply-IsHandled c h) e
