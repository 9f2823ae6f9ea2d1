-- ===== src/Net/TcpClient/Connect.antt =====
-- src/net/tcp_client.cpp: `connect` and the sockets that it opens.
use minerby.Base.{ℕ, List, [], ◌∷◌, ◌++◌, Option, none, some, ◌≡◌, refl, sym, ap, ◌∙◌, append_assoc}
use minerby.Net.TcpClient.{
  TcpClient, is_open, to_close, adopt, Attempt, no_socket, refused, connected, try_all, connect,
}

-- The sockets that the loop opens: it stops at the first that connects.
abbrev pub opened : List Attempt → List ℕ
opened [] = []
opened (no_socket ∷ more) = opened more
opened (refused s ∷ more) = s ∷ opened more
opened (connected s ∷ more) = s ∷ []

try_all-opened :
    (addrs : List Attempt) → opened addrs ≡ (try_all addrs).closed ++ to_close (try_all addrs).s
unfolding try_all
try_all-opened [] = refl
try_all-opened (no_socket ∷ more) = try_all-opened more
try_all-opened (refused s ∷ more) = ap (◌∷◌ s) (try_all-opened more)
try_all-opened (connected s ∷ more) = refl

adopt-keeps :
    (s : Option ℕ) (shut : List ℕ)
    → (shut ++ to_close s ≡ (adopt s shut).closed ++ to_close (adopt s shut).client.sock)
      × ((adopt s shut).client.rx ≡ [])
      × ((adopt s shut).done ≡ is_open (adopt s shut).client)
unfolding adopt
adopt-keeps none shut = (refl, refl, refl)
adopt-keeps (some s) shut = (refl, refl, refl)

-- No socket leaks: what the client held before and what the loop opens is closed in that order, up
-- to the one socket that the client holds afterwards. The buffer starts empty, and the result says
-- whether there is a connection.
pub connect-opened :
    (c : TcpClient) (addrs : List Attempt)
    → let r = connect c (some addrs) in
      (to_close c.sock ++ opened addrs ≡ r.closed ++ to_close r.client.sock)
      × (r.client.rx ≡ [])
      × (r.done ≡ is_open r.client)
unfolding connect
connect-opened c addrs =
    let r = try_all addrs in
    let (kept, empty, says) = adopt-keeps r.s (to_close c.sock ++ r.closed) in
    (
      ap (◌++◌ (to_close c.sock)) (try_all-opened addrs)
          ∙ sym (append_assoc (to_close c.sock) r.closed (to_close r.s))
          ∙ kept,
      empty,
      says,
    )
