-- ===== src/Net/TcpClient.antt =====
-- src/net/tcp_client.hpp and src/net/tcp_client.cpp. The socket calls of the operating system are
-- not the program's: what they return is an argument, a list with one entry for each call.
pub mod Lines
pub mod Connect
pub mod Send
use minerby.Base.{
  ℕ, zero, suc, ◌+◌, ◌-◌, ◌^◌, Bytes, List, [], ◌∷◌, ◌++◌, ◌==◌, length, take, drop, ltb, Bool,
  true, false, Option, none, some, if◌then◌else◌,
}

-- `sock` is `none` for `kInvalid`.
pub record TcpClient : Type 0 where
  pub sock : Option ℕ
  pub rx : Bytes

abbrev pub new_client : TcpClient
new_client = record { sock = none; rx = [] }

abbrev pub is_open : TcpClient → Bool
is_open c = elim c.sock [ none ↦ false | some s ↦ true ]

-- The sockets that a call closes.
abbrev pub to_close : Option ℕ → List ℕ
to_close none = []
to_close (some s) = s ∷ []

unfoldable pub close : TcpClient → TcpClient
close c = record { sock = none; rx = [] }

-- One address of `getaddrinfo`: no socket, a socket that does not connect, one that does.
pub data Attempt : Type 0 where
  no_socket : Attempt
  refused : ℕ → Attempt
  connected : ℕ → Attempt

-- The loop over the addresses, with what it closes on the way.
unfoldable pub try_all : List Attempt → record { s : Option ℕ; closed : List ℕ }
try_all [] = record { s = none; closed = [] }
try_all (no_socket ∷ more) = try_all more
try_all (refused s ∷ more) =
    let rest = try_all more in record { s = rest.s; closed = s ∷ rest.closed }
try_all (connected s ∷ more) = record { s = some s; closed = [] }

pub record Connected : Type 0 where
  pub client : TcpClient
  pub done : Bool
  pub closed : List ℕ

-- The end of `connect`: the member is invalid from the `close()` at its head.
unfoldable pub adopt : Option ℕ → List ℕ → Connected
adopt none shut = record { client = record { sock = none; rx = [] }; done = false; closed = shut }
adopt (some s) shut = record {
  client = record { sock = some s; rx = [] };
  done = true;
  closed = shut;
}

-- `none` for addresses is a failed lookup.
unfoldable pub connect : TcpClient → Option (List Attempt) → Connected
connect c none = adopt none (to_close c.sock)
connect c (some addrs) = let r = try_all addrs in adopt r.s (to_close c.sock ++ r.closed)

-- What `send` returns: a count of bytes taken, or an error.
pub data Sent : Type 0 where
  took : ℕ → Sent
  failed : Sent

pub record SendResult : Type 0 where
  pub done : Bool
  pub wire : Bytes  -- what the system has taken, in order

-- The loop of `send_all` over the bytes that are left. A list of results that ends early is a
-- socket that fails from there on.
unfoldable pub send_loop : Bytes → List Sent → SendResult
send_loop [] rs = record { done = true; wire = [] }
send_loop (b ∷ bs) [] = record { done = false; wire = [] }
send_loop (b ∷ bs) (failed ∷ rs) = record { done = false; wire = [] }
send_loop (b ∷ bs) (took n ∷ rs) =
    let rest = send_loop (drop n (b ∷ bs)) rs in
    if n == 0
    then record { done = false; wire = [] }
    else record { done = rest.done; wire = take n (b ∷ bs) ++ rest.wire }

unfoldable pub send_all : TcpClient → Bytes → List Sent → SendResult
send_all c bytes rs = if is_open c then send_loop bytes rs else record { done = false; wire = [] }

-- What `recv` returns: bytes, the end of the stream, or an error or timeout.
pub data Received : Type 0 where
  got : Bytes → Received
  ended : Received
  lost : Received

-- `rx_.find('\n')`, and the bytes before and after it.
abbrev pub prepend : ℕ → Option (Bytes × Bytes) → Option (Bytes × Bytes)
prepend b none = none
prepend b (some (raw, post)) = some (b ∷ raw, post)

unfoldable pub split_line : Bytes → Option (Bytes × Bytes)
split_line [] = none
split_line (b ∷ bs) = if b == b'\n' then some ([], bs) else prepend b (split_line bs)

-- `if (!out.empty() && out.back() == '\r') out.pop_back();`
unfoldable pub strip_cr : Bytes → Bytes
strip_cr [] = []
strip_cr (b ∷ []) = if b == b'\r' then [] else b ∷ []
strip_cr (b ∷ c ∷ bs) = b ∷ strip_cr (c ∷ bs)

abbrev pub max_line : ℕ
max_line = 2 ^ 20

pub record ReadResult : Type 0 where
  pub line : Option Bytes  -- `none` is `return false`
  pub rx : Bytes
  pub left : List Received  -- the calls of `recv` that were not made

-- The line that is in the buffer, or else what comes of the call of `recv`.
unfoldable pub or_line : Option (Bytes × Bytes) → List Received → ReadResult → ReadResult
or_line none rs other = other
or_line (some (raw, post)) rs other = record { line = some (strip_cr raw); rx = post; left = rs }

abbrev pub no_line : Bytes → List Received → ReadResult
no_line rx rs = record { line = none; rx = rx; left = rs }

-- The loop of `read_line`. Where the list ends, `recv` times out.
unfoldable pub read_loop : Bytes → List Received → ReadResult
read_loop rx [] = or_line (split_line rx) [] (no_line rx [])
read_loop rx (ended ∷ rs) = or_line (split_line rx) (ended ∷ rs) (no_line rx rs)
read_loop rx (lost ∷ rs) = or_line (split_line rx) (lost ∷ rs) (no_line rx rs)
read_loop rx (got [] ∷ rs) = or_line (split_line rx) (got [] ∷ rs) (no_line rx rs)
read_loop rx (got (b ∷ bs) ∷ rs) =
    let longer = rx ++ b ∷ bs in
    let more = read_loop longer rs in
    let other = if ltb max_line (length longer) then no_line longer rs else more in
    or_line (split_line rx) (got (b ∷ bs) ∷ rs) other

unfoldable pub read_line : TcpClient → List Received → ReadResult
read_line c rs = if is_open c then read_loop c.rx rs else no_line c.rx rs
