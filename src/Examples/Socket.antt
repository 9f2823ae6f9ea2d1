-- ===== src/Examples/Socket.antt =====
-- src/net/tcp_client.cpp at concrete results of the socket calls.
use minerby.Base.{◌≡◌, refl, arith, List, [], ◌∷◌, ◌++◌, codes, some, true, replicate}
use minerby.Net.TcpClient.{
  TcpClient, is_open, to_close, Attempt, no_socket, refused, connected, connect, took, send_all,
  Received, got,
}
use minerby.Net.TcpClient.Connect.{opened, connect-opened}
use minerby.Net.TcpClient.Send.{send_all-done}

-- A connection with a part of a line in its buffer.
abbrev client : TcpClient
client = record { sock = some 5; rx = codes "{\"id\"" }

abbrev arrivals : List Received
arrivals = got (codes ":1") ∷ got (codes "}\r\n{") ∷ []

abbrev addresses : List Attempt
addresses = no_socket ∷ refused 6 ∷ connected 7 ∷ connected 8 ∷ []

connect-opened_example :
    let r = connect client (some addresses) in
    (to_close client.sock ++ opened addresses ≡ r.closed ++ to_close r.client.sock)
    × (r.client.rx ≡ [])
    × (r.done ≡ is_open r.client)
connect-opened_example = connect-opened client addresses

send_all-done_example :
    ((send_all client (codes "ping") (replicate 4 (took 2))).done ≡ true)
    × ((send_all client (codes "ping") (replicate 4 (took 2))).wire ≡ codes "ping")
send_all-done_example =
    send_all-done client (codes "ping") (replicate 4 (took 2)) refl (omega arith) (omega arith)
