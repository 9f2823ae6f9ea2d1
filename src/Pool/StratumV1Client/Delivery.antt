-- ===== src/Pool/StratumV1Client/Delivery.antt =====
-- src/pool/stratum_v1_client.cpp: what any line from the server does to the client, and the jobs that
-- it hands on.
use minerby.Base.{
  ℕ, ◌≤◌, ℤ, Bytes, List, [], ◌∷◌, Bool, true, false, Option, none, some, ok, ◌≡◌, refl, subst,
  arith, inl, inr, All, >>=-eq-ok, ok-injective, if_cases, codes, length, not, int_eq, same_bytes,
}
use minerby.Json.{JsonLib}
use minerby.Pow.Doubles.{Doubles}
use minerby.Net.TcpClient.{close}
use minerby.Stratum.Job.{StratumJob}
use minerby.Stratum.Parse.{parse_notify}
use minerby.Pool.Events.{Event, on_submit_result, call_if, Handled}
use minerby.Pool.StratumV1Client.{
  Client, quietly, take_difficulty, set_difficulty, take_job, notify, take_subscribe, subscribed,
  answered, take_reply, reply, dispatch, handle_message, handle_line, is_accepted, error_text,
}
use minerby.Pool.StratumV1Client.Rebuild.{
  IsGood, IsHandled, quietly-IsHandled, skip, rebuild_job-IsHandled,
}

call_if-single : (b : Bool) (e : Event) → length (call_if b e) ≤ 1
call_if-single false e = omega arith
call_if-single true e = omega arith

module _ (junk : Bytes) (stack : length junk ≡ 64) (D : Doubles) (J : JsonLib D.Double) where
  -- A handler that has changed the client before it rebuilds the job.
  take_difficulty-IsHandled :
      (c : Client junk D J) (ps : List J.Json) (h : Handled (Client junk D J))
      → take_difficulty junk D J c ps ≡ ok h
      → IsHandled junk stack D J c h
  unfolding take_difficulty
  take_difficulty-IsHandled c [] h e = skip junk stack D J c e
  take_difficulty-IsHandled c (p ∷ more) h e =
      let (d, read, e) = >>=-eq-ok (J.get_double p) _ e in
      let v = rebuild_job-IsHandled junk stack D J (record c { difficulty = d }) h e in
      record {
        events = v.events;
        single = v.single;
        counter = v.counter;
        next_id = v.next_id;
        last_submit_id = v.last_submit_id;
        have_job = v.have_job;
        conn = v.conn;
      }

  set_difficulty-IsHandled :
      (c : Client junk D J) (msg : J.Json) (h : Handled (Client junk D J))
      → set_difficulty junk D J c msg ≡ ok h
      → IsHandled junk stack D J c h
  unfolding set_difficulty
  set_difficulty-IsHandled c msg h =
      if_cases (not (J.contains msg (codes "params"))) (skip junk stack D J c) (λ e.
        let (ps, read, e) = >>=-eq-ok (J.member msg (codes "params")) _ e in
        if_cases (J.is_array ps) (take_difficulty-IsHandled c (J.elements ps) h)
          (skip junk stack D J c) e)

  take_job-IsHandled :
      (c : Client junk D J) (o : Option StratumJob) (h : Handled (Client junk D J))
      → take_job junk D J c o ≡ ok h
      → IsHandled junk stack D J c h
  unfolding take_job
  take_job-IsHandled c none h e = skip junk stack D J c e
  take_job-IsHandled c (some j) h e =
      let v = rebuild_job-IsHandled junk stack D J (record c { job = j; have_job = true }) h e in
      record {
        events = v.events;
        single = v.single;
        counter = v.counter;
        next_id = v.next_id;
        last_submit_id = v.last_submit_id;
        have_job = λ _. v.have_job refl;
        conn = v.conn;
      }

  notify-IsHandled :
      (c : Client junk D J) (msg : J.Json) (h : Handled (Client junk D J))
      → notify junk D J c msg ≡ ok h
      → IsHandled junk stack D J c h
  unfolding notify
  notify-IsHandled c msg h e =
      let (ps, read, e) = >>=-eq-ok (J.value_json msg (codes "params") (J.array [])) _ e in
      take_job-IsHandled c (parse_notify J ps) h e

  -- A reply changes nothing but what a subscription sets.
  take_subscribe-IsHandled :
      (c : Client junk D J) (msg : J.Json) (h : Handled (Client junk D J))
      → take_subscribe junk D J c msg ≡ ok h
      → IsHandled junk stack D J c h
  unfolding take_subscribe subscribed
  take_subscribe-IsHandled c msg h e =
      let (r, read, e) = >>=-eq-ok (J.value_json msg (codes "result") J.null) _ e in
      subst (IsHandled junk stack D J c) (ok-injective e) (record {
        events = tt;
        single = omega arith;
        counter = inl refl;
        next_id = refl;
        last_submit_id = refl;
        have_job = λ h. h;
        conn = inl refl;
      })

  submit_result-IsGood :
      (c : Client junk D J) (k : ℕ) (accepted : Bool) (error : Bytes) (b : Bool)
      → c.has_on_submit_result ≡ b
      → All (IsGood junk stack D J k c) (call_if b (on_submit_result accepted error))
  submit_result-IsGood c k accepted error false e = tt
  submit_result-IsGood c k accepted error true e = (e, tt)

  submit_result-IsHandled :
      (c : Client junk D J) (accepted : Bool) (error : Bytes)
      → IsHandled junk stack D J c (record {
        client = c;
        events = call_if c.has_on_submit_result (on_submit_result accepted error);
      })
  submit_result-IsHandled c accepted error = record {
    single = call_if-single c.has_on_submit_result (on_submit_result accepted error);
    events = submit_result-IsGood c c.xn2_counter accepted error c.has_on_submit_result refl;
    counter = inl refl;
    next_id = refl;
    last_submit_id = refl;
    have_job = λ h. h;
    conn = inl refl;
  }

  answered-IsHandled :
      (c : Client junk D J) (msg : J.Json) (id : ℤ) (accepted : Bool) (error : Bytes)
      (h : Handled (Client junk D J))
      → answered junk D J c msg id accepted error ≡ ok h
      → IsHandled junk stack D J c h
  unfolding answered
  answered-IsHandled c msg id accepted error h =
      if_cases (int_eq id c.subscribe_id) (take_subscribe-IsHandled c msg h) (
        if_cases (int_eq id c.authorize_id) (skip junk stack D J c) (λ e.
          if_cases (int_eq id c.last_submit_id)
            (λ same.
              subst (IsHandled junk stack D J c) same (submit_result-IsHandled c accepted error))
            (λ same. subst (IsHandled junk stack D J c) same (quietly-IsHandled junk stack D J c))
            (ok-injective e)))

  reply-IsHandled :
      (c : Client junk D J) (msg : J.Json) (h : Handled (Client junk D J))
      → reply junk D J c msg ≡ ok h
      → IsHandled junk stack D J c h
  unfolding reply take_reply
  reply-IsHandled c msg h =
      if_cases (not (J.contains msg (codes "id"))) (skip junk stack D J c) (λ e.
        let (idj, read, e) = >>=-eq-ok (J.member msg (codes "id")) _ e in
        if_cases (J.is_null idj) (skip junk stack D J c)
          (λ e.
            let (id, read, e) = >>=-eq-ok (J.get_int idj) _ e in
            let (accepted, read, e) = >>=-eq-ok (is_accepted junk D J msg) _ e in
            let (error, read, e) = >>=-eq-ok (error_text junk D J msg) _ e in
            answered-IsHandled c msg id accepted error h e)
          e)

  closed-IsHandled :
      (c : Client junk D J)
      → IsHandled junk stack D J c (quietly junk D J (record c { conn = close c.conn }))
  closed-IsHandled c = record {
    events = tt;
    single = omega arith;
    counter = inl refl;
    next_id = refl;
    last_submit_id = refl;
    have_job = λ h. h;
    conn = inr refl;
  }

  dispatch-IsHandled :
      (c : Client junk D J) (method : Bytes) (msg : J.Json) (h : Handled (Client junk D J))
      → dispatch junk D J c method msg ≡ ok h
      → IsHandled junk stack D J c h
  unfolding dispatch
  dispatch-IsHandled c method msg h =
      if_cases (same_bytes method (codes "mining.set_difficulty"))
        (set_difficulty-IsHandled c msg h)
        (if_cases (same_bytes method (codes "mining.notify")) (notify-IsHandled c msg h) (
          if_cases (same_bytes method (codes "client.reconnect"))
            (λ e. subst (IsHandled junk stack D J c) (ok-injective e) (closed-IsHandled c))
            (reply-IsHandled c msg h)))

  -- Whatever line the server sends: a job that is handed on is the work of the payload, extranonce
  -- and difficulty that the client then holds, at the counter's extranonce2, which is used up with
  -- it, and is long enough for the workers to hash; the counter goes up by one at most, the
  -- request ids stay, a payload once there is kept, and the connection is at most closed.
  pub handle_line-IsHandled :
      (c : Client junk D J) (line : Bytes) (h : Handled (Client junk D J))
      → handle_line junk D J c line ≡ ok h
      → IsHandled junk stack D J c h
  unfolding handle_line handle_message
  handle_line-IsHandled c line h = go (J.parse line)
    where
      go : (o : Option J.Json) → handle_message junk D J c o ≡ ok h → IsHandled junk stack D J c h
      go none e = skip junk stack D J c e
      go (some msg) e =
          let (method, read, e) = >>=-eq-ok (J.value_string msg (codes "method") []) _ e in
          dispatch-IsHandled c method msg h e
