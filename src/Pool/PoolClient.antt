-- ===== src/Pool/PoolClient.antt =====
-- src/pool/pool_client.hpp: the class `PoolClient` as app/main.cpp uses it, and its two
-- implementations. What the system returns to the calls that a method makes is its argument.
use minerby.Base.{ℕ, Bytes, List, Bool, false, Option, Result, ok, ◌>>=◌, ◌≡◌, refl}
use minerby.Json.{JsonLib}
use minerby.Pow.Doubles.{Doubles}
use minerby.Net.TcpClient.{is_open, Attempt, Sent, Received, close}
use minerby.Pool.Events.{Event, Polled, Joined}
use minerby.Pool.StratumV1Client
use minerby.Pool.StratumV1Client.{StratumV1Client, disconnect}
use minerby.Pool.StratumV1Client.Session.{connect_stratum}
use minerby.Pool.MoneroClient
use minerby.Pool.MoneroClient.{MoneroClient, log_out}
use minerby.Pool.MoneroClient.Session.{connect_monero}

-- A client after `connect` or `poll`, with the callbacks that it made and its result.
pub record Answer (Client : Type 0) : Type 0 where
  pub client : Client
  pub events : List Event
  pub done : Bool

pub record PoolClient : Type 1 where
  pub Client : Type 0
  pub Outside : Type 0  -- what the system returns during one call
  pub connected : Client → Bool
  pub connect : Client → Outside → Result (Answer Client)
  pub poll : Client → Outside → Result (Answer Client)
  pub disconnect : Client → Client

-- What the loop relies on: a disconnected client is not connected.
pub record IsPoolClient (P : PoolClient) : Type 0 where
  pub disconnect-connected : (c : P.Client) → P.connected (P.disconnect c) ≡ false

-- What one call sees of the system: the addresses, the clock, the sends and the receives.
pub record Network : Type 0 where
  pub addrs : Option (List Attempt)
  pub now : ℕ
  pub sends : List Sent
  pub more_sends : List Sent
  pub received : List Received

abbrev pub polled_answer : {Client : Type 0} → Polled Client → Answer Client
polled_answer p = record { client = p.client; events = p.events; done = p.done }

abbrev pub joined_answer : {Client : Type 0} → Joined Client → Answer Client
joined_answer p = record { client = p.client; events = p.events; done = p.done }

module _ (D : Doubles) (J : JsonLib D.Double) where
  abbrev pub stratum_pool : Bytes → PoolClient
  stratum_pool junk = record {
    Client = StratumV1Client D.Double;
    Outside = Network;
    connected = λ c. is_open c.conn;
    connect = λ c o. connect_stratum junk D J c o.addrs o.sends o.more_sends o.received >>= λ j.
        ok (joined_answer j);
    poll = λ c o. StratumV1Client.Session.poll junk D J c o.received >>= λ p. ok (polled_answer p);
    disconnect = disconnect junk D J;
  }

  abbrev pub monero_pool : PoolClient
  monero_pool = record {
    Client = MoneroClient D.Double;
    Outside = Network;
    connected = λ c. is_open c.conn;
    connect =
        λ c o. connect_monero D J c o.addrs o.now o.sends o.received >>= λ j. ok (joined_answer j);
    poll = λ c o.
        MoneroClient.Session.poll D J c o.now o.sends o.received >>= λ p. ok (polled_answer p);
    disconnect = log_out D J;
  }

  pub stratum_pool-IsPoolClient : (junk : Bytes) → IsPoolClient (stratum_pool junk)
  unfolding disconnect close
  stratum_pool-IsPoolClient junk = record { disconnect-connected = λ c. refl }

  pub monero_pool-IsPoolClient : IsPoolClient monero_pool
  unfolding log_out close
  monero_pool-IsPoolClient = record { disconnect-connected = λ c. refl }
