-- ===== src/Config.antt =====
-- src/config/config.hpp and src/config/config.cpp, and the overrides of app/main.cpp. Reading the
-- file is an argument: its text as a JSON value, or none where it cannot be opened or parsed.
pub mod Valid
use minerby.Base.{
  ℕ, ℤ, pos, negsuc, Bytes, List, [], ◌∷◌, codes, ◌==◌, Bool, true, false, not, ◌&&◌, ◌||◌, Option,
  none, some, Result, ok, err, bad_config, require, ◌>>=◌, ◌>>◌, if◌then◌else◌, same_bytes,
}
use minerby.Json.{JsonLib}

pub record RandomXConfig : Type 0 where
  pub mode : Bytes
  pub init_threads : ℤ
  pub large_pages : Bool
  pub secure : Bool

pub record Config (Double : Type 0) : Type 0 where
  pub protocol : Bytes
  pub engine : Bytes
  pub pool_host : Bytes
  pub pool_port : ℕ  -- uint16_t
  pub user : Bytes
  pub pass : Bytes
  pub threads : ℤ
  pub metrics_port : ℕ  -- uint16_t
  pub cpu_priority : Bytes
  pub stats_file : Bytes
  pub randomx : RandomXConfig
  pub net_difficulty : Double
  pub block_reward : Double
  pub coin_price_usd : Double

-- The members' initial values. `reward` is the literal 0.6 and `zero` is 0.
abbrev pub default_config : {Double : Type 0} → Double → Double → Config Double
default_config zero reward = record {
  protocol = codes "bitcoin";
  engine = codes "sha256d";
  pool_host = [];
  pool_port = 0;
  user = [];
  pass = codes "x";
  threads = pos 0;
  metrics_port = 0;
  cpu_priority = codes "low";
  stats_file = [];
  randomx = record {
    mode = codes "light";
    init_threads = pos 0;
    large_pages = false;
    secure = false;
  };
  net_difficulty = zero;
  block_reward = reward;
  coin_price_usd = zero;
}

abbrev pub is_empty : Bytes → Bool
is_empty [] = true
is_empty (b ∷ bs) = false

abbrev pub is_negative : ℤ → Bool
is_negative (pos n) = false
is_negative (negsuc n) = true

-- The branches on the protocol. `with_randomx` is whether the build has RandomX.
unfoldable pub validate_engine : {Double : Type 0} → Bool → Config Double → Result (Unit {0})
validate_engine with_randomx c =
    if same_bytes c.protocol (codes "bitcoin")
    then require (same_bytes c.engine (codes "sha256d")) bad_config
    else if same_bytes c.protocol (codes "monero")
    then require (same_bytes c.engine (codes "randomx")) bad_config
      >> (require with_randomx bad_config
          >> require
              (same_bytes c.randomx.mode (codes "light")
                || same_bytes c.randomx.mode (codes "fast"))
              bad_config)
    else err bad_config

-- Each `throw` is an error.
unfoldable pub validate : {Double : Type 0} → Bool → Config Double → Result (Unit {0})
validate with_randomx c = do
  require (not (is_empty c.pool_host)) bad_config
  require (not (c.pool_port == 0)) bad_config
  require (not (is_empty c.user)) bad_config
  require (not (is_negative c.threads)) bad_config
  require (same_bytes c.cpu_priority (codes "low") || same_bytes c.cpu_priority (codes "normal"))
      bad_config
  validate_engine with_randomx c

abbrev pub or_one : ℕ → ℕ
or_one n = if n == 0 then 1 else n

-- `hardware` is what hardware_concurrency returns.
unfoldable pub effective_threads : {Double : Type 0} → Config Double → ℕ → ℕ
effective_threads c hardware = elim c.threads [
  | pos n ↦ if n == 0 then or_one hardware else n
  | negsuc n ↦ or_one hardware
]

module _ {Double : Type 0} (J : JsonLib Double) where
  unfoldable pub read_randomx : J.Json → RandomXConfig → Result RandomXConfig
  read_randomx r d = do
    mode ← J.value_string r (codes "mode") d.mode
    init_threads ← J.value_int r (codes "init_threads") d.init_threads
    large_pages ← J.value_bool r (codes "large_pages") d.large_pages
    secure ← J.value_bool r (codes "secure") d.secure
    ok (record {
      mode = mode;
      init_threads = init_threads;
      large_pages = large_pages;
      secure = secure;
    })

  unfoldable pub randomx_of : J.Json → RandomXConfig → Result RandomXConfig
  randomx_of j d =
      if not (J.contains j (codes "randomx"))
      then ok d
      else do r ← J.member j (codes "randomx"); if J.is_object r then read_randomx r d else ok d

  -- The assignments to the members.
  unfoldable pub read_config : J.Json → Config Double → Result (Config Double)
  read_config j d = do
    protocol ← J.value_string j (codes "protocol") d.protocol
    engine ← J.value_string j (codes "engine") d.engine
    pool_host ← J.value_string j (codes "pool_host") d.pool_host
    pool_port ← J.value_u16 j (codes "pool_port") d.pool_port
    user ← J.value_string j (codes "user") d.user
    pass ← J.value_string j (codes "pass") d.pass
    threads ← J.value_int j (codes "threads") d.threads
    metrics_port ← J.value_u16 j (codes "metrics_port") d.metrics_port
    cpu_priority ← J.value_string j (codes "cpu_priority") d.cpu_priority
    stats_file ← J.value_string j (codes "stats_file") d.stats_file
    net_difficulty ← J.value_double j (codes "net_difficulty") d.net_difficulty
    block_reward ← J.value_double j (codes "block_reward") d.block_reward
    coin_price_usd ← J.value_double j (codes "coin_price_usd") d.coin_price_usd
    randomx ← randomx_of j d.randomx
    ok (record {
      protocol = protocol;
      engine = engine;
      pool_host = pool_host;
      pool_port = pool_port;
      user = user;
      pass = pass;
      threads = threads;
      metrics_port = metrics_port;
      cpu_priority = cpu_priority;
      stats_file = stats_file;
      randomx = randomx;
      net_difficulty = net_difficulty;
      block_reward = block_reward;
      coin_price_usd = coin_price_usd;
    })

  unfoldable pub from_json : Bool → Config Double → Option J.Json → Result (Config Double)
  from_json with_randomx d none = err bad_config
  from_json with_randomx d (some j) = do c ← read_config j d; validate with_randomx c; ok c
