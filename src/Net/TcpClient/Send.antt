-- ===== src/Net/TcpClient/Send.antt =====
-- src/net/tcp_client.cpp: `send_all` over a socket that takes a part at a time.
use minerby.Base.{
  ℕ, zero, suc, ◌≤◌, ◌<◌, Bytes, List, [], ◌∷◌, ◌++◌, ◌==◌, length, take, drop, true, false, ◌≡◌,
  refl, ap, ◌∙◌, arith, All, Bool-cases, inl, inr, append_assoc,
}
use minerby.Net.TcpClient.{TcpClient, is_open, Sent, took, failed, SendResult, send_loop, send_all}

take-append-drop : (n : ℕ) (xs : Bytes) → take n xs ++ drop n xs ≡ xs
take-append-drop zero xs = refl
take-append-drop (suc n) [] = refl
take-append-drop (suc n) (x ∷ xs) = ap (◌∷◌ x) (take-append-drop n xs)

-- What the system has taken, and what it has not.
pub record IsSent (bytes : Bytes) (r : SendResult) : Type 0 where
  pub unsent : Bytes
  pub split : r.wire ++ unsent ≡ bytes
  pub complete : r.done ≡ true → r.wire ≡ bytes

none-IsSent : (bytes : Bytes) → IsSent bytes (record { done = false; wire = [] })
none-IsSent bytes = record { unsent = bytes; split = refl; complete = λ e. cc }

send_loop-IsSent : (rs : List Sent) (bytes : Bytes) → IsSent bytes (send_loop bytes rs)
unfolding send_loop
send_loop-IsSent rs [] = record { unsent = []; split = refl; complete = λ _. refl }
send_loop-IsSent [] (b ∷ bs) = none-IsSent (b ∷ bs)
send_loop-IsSent (failed ∷ rs) (b ∷ bs) = none-IsSent (b ∷ bs)
send_loop-IsSent (took n ∷ rs) (b ∷ bs) = elim (Bool-cases (n == 0)) [
  | inl nothing ↦ rw nothing (none-IsSent (b ∷ bs))
  | inr some_taken ↦
      let v = send_loop-IsSent rs (drop n (b ∷ bs)) in
      rw some_taken (record {
        unsent = v.unsent;
        split =
            append_assoc (take n (b ∷ bs)) _ v.unsent
            ∙ ap (◌++◌ (take n (b ∷ bs))) v.split
            ∙ take-append-drop n (b ∷ bs);
        complete = λ e. ap (◌++◌ (take n (b ∷ bs))) (v.complete e) ∙ take-append-drop n (b ∷ bs);
      })
]

-- Whatever `send` returns, what goes out is a prefix of the message, and all of it where the
-- result is true.
pub send_all-IsSent :
    (c : TcpClient) (bytes : Bytes) (rs : List Sent) → IsSent bytes (send_all c bytes rs)
unfolding send_all
send_all-IsSent c bytes rs = elim (Bool-cases (is_open c)) [
  | inl here ↦ rw here (send_loop-IsSent rs bytes)
  | inr gone ↦ rw gone (none-IsSent bytes)
]

abbrev pub Takes : Sent → Type 0
Takes (took n) = 0 < n
Takes failed = ⊥

length-drop-le : (n : ℕ) (xs : Bytes) → length (drop n xs) ≤ length xs
length-drop-le zero xs = omega arith
length-drop-le (suc n) [] = omega arith
length-drop-le (suc n) (x ∷ xs) = omega (arith, length-drop-le n xs)

send_loop-done :
    (rs : List Sent) (bytes : Bytes)
    → All Takes rs
    → length bytes ≤ length rs
    → (send_loop bytes rs).done ≡ true
unfolding send_loop
send_loop-done rs [] h e = refl
send_loop-done [] (b ∷ bs) h e = absurd (omega arith)
send_loop-done (failed ∷ rs) (b ∷ bs) h e = absurd h.0
send_loop-done (took zero ∷ rs) (b ∷ bs) h e = absurd (omega (arith, h.0))
send_loop-done (took (suc n) ∷ rs) (b ∷ bs) h e =
    ground (arith, send_loop-done rs (drop n bs) h.1 (omega (arith, length-drop-le n bs)))

-- On an open socket a message goes out whole, where each call takes some bytes and the calls are
-- as many as the bytes at least.
pub send_all-done :
    (c : TcpClient) (bytes : Bytes) (rs : List Sent)
    → is_open c ≡ true
    → All Takes rs
    → length bytes ≤ length rs
    → ((send_all c bytes rs).done ≡ true) × ((send_all c bytes rs).wire ≡ bytes)
send_all-done c bytes rs here h e =
    let done : (send_all c bytes rs).done ≡ true =
      unfold send_all in rw here (send_loop-done rs bytes h e) in
    (done, (send_all-IsSent c bytes rs).complete done)
