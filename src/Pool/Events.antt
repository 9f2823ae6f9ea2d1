-- ===== src/Pool/Events.antt =====
-- src/pool/pool_client.hpp: the callbacks of a `PoolClient`. A call is an event of the model, in the
-- order of the calls; what the callback does is the caller's, and it is taken to return.
use minerby.Base.{ℕ, u8, ◌>>>◌, Bytes, List, [], ◌∷◌, ◌++◌, Bool, true, false}
use minerby.Miner.Job.{MiningJob}
use minerby.Net.TcpClient.{Received}

pub data Event : Type 0 where
  on_job : (job : MiningJob) (seed_hash : Bytes) → Event
  on_submit_result : (accepted : Bool) (error : Bytes) → Event

-- `if (cb) cb(…);`
abbrev pub call_if : Bool → Event → List Event
call_if false e = []
call_if true e = e ∷ []

-- A client after a call that returned, with the events.
pub record Handled (Client : Type 0) : Type 0 where
  pub client : Client
  pub events : List Event

-- The same of `poll` and `connect`, with their result and the calls of `recv` not made.
pub record Polled (Client : Type 0) : Type 0 where
  pub client : Client
  pub events : List Event
  pub done : Bool
  pub left : List Received

-- The same of a method that sends a line.
pub record Submitted (Client : Type 0) : Type 0 where
  pub client : Client
  pub done : Bool
  pub wire : Bytes

-- The same of `connect`, which does both.
pub record Joined (Client : Type 0) : Type 0 where
  pub client : Client
  pub events : List Event
  pub done : Bool
  pub left : List Received
  pub wire : Bytes

-- What follows a step keeps the step's events in front.
abbrev pub after_events : {Client : Type 0} → List Event → Polled Client → Polled Client
after_events es p = record p { events = es ++ p.events }

-- `uint8_t nb[4]`
abbrev pub nonce_bytes : ℕ → Bytes
nonce_bytes nonce = u8 nonce ∷ u8 (nonce >>> 8) ∷ u8 (nonce >>> 16) ∷ u8 (nonce >>> 24) ∷ []

abbrev pub is_nil : Bytes → Bool
is_nil [] = true
is_nil (b ∷ bs) = false
