-- ===== src/Lib.antt =====
-- A verification library for minerby, a CPU miner for sha256d over Stratum V1 and for RandomX over
-- the Monero protocol.
--
-- How the program works, and the files that model its parts (paths of the source from the
-- repository's root; a definition has the name of the function that it models, and a part of one
-- that is too long for one definition stands before it):
--
--   * src/util/hex.hpp -> Util/Hex. Every text of the protocols is hexadecimal.
--   * src/pow/sha256.cpp -> Pow/Sha256 (the class and its operations) and Pow/Sha256/Rounds (the
--     compression); Pow/Sha256/Standard is the text of FIPS 180-4 to compare it with. `Sha256` has the class's members; the buffer of a new object is indeterminate
--     and an argument. The loop of zeros in `finish` runs on fuel 64: a block has 64 places, so
--     fewer than 64 zeros reach 56, and the theorems on `finish` hold with that fuel.
--   * src/pow/target.cpp -> Pow/Target, and Pow/Target/Difficulty for the functions on `double`. The
--     type `double` and its operations are a parameter (Pow/Doubles), its laws a hypothesis.
--   * src/pow/randomx_context.cpp, src/pow/randomx_hasher.cpp -> Pow/RandomX. What the allocations of
--     the RandomX library return is an argument; the calls that fill its memory are a list.
--   * src/stratum/job.hpp, parse.cpp, work.cpp -> Stratum/Job, Stratum/Parse, Stratum/Work. A server's
--     notification becomes a `StratumJob`, and that a block header to hash. nlohmann::json is a
--     parameter (Json), its documented laws a hypothesis.
--   * src/net/tcp_client.cpp -> Net/TcpClient. What the socket calls return is an argument, a list with
--     one entry for each call; a list that ends stands for a timeout or an error from there on.
--   * src/pool/pool_client.hpp -> Pool/Events: the callbacks, as events in the order of the calls.
--   * src/pool/stratum_v1_client.cpp -> Pool/StratumV1Client (messages), Pool/StratumV1Client/Session
--     (connect, poll, submit). An exception that leaves a handler is an error of its result.
--   * src/pool/monero_client.cpp -> Pool/MoneroClient and Pool/MoneroClient/Session, likewise.
--   * src/miner/job.hpp -> Miner/Job; src/miner/worker.cpp -> Miner/Scan (one chunk of hashes) and
--     Miner/Thread and Miner/Pool (the threads). `Move` is one step of a worker in `run`, `Step` one of a worker or of
--     the thread that owns the pool, `Reach` a run from the constructed pool. Each access to an atomic
--     member and each critical section is one step, under sequential consistency.
--   * src/config/config.cpp -> Config.
--   * src/app/main.cpp -> App: JobCallback (the callback for a new job, as the calls that it makes), Run
--     (the connection loop: `round` is one round, `loop` a list of them), Totals (the lifetime
--     statistics over runs), Options (the command line's options over the file's), Engine (the
--     hasher and the client for a configuration), Endpoint, Bench. The loop takes the client as
--     `PoolClient` (Pool/PoolClient), a record of operations that both clients fill. App/Shares
--     and App/MoneroShares follow a share from the server's message to what is submitted.
--   * src/telemetry/stats_store.cpp -> Telemetry/StatsStore: the two files that it writes, and the disk
--     after each call of the system. metrics.cpp -> Telemetry/Metrics, http_server.cpp ->
--     Telemetry/HttpServer: the counts, their text, and the responses and sockets of the endpoint;
--     Telemetry/Scrape joins them.
--
-- A client hands a job on by `on_job`; the program gives it to the pool by `set_work`; a worker
-- copies it, splices nonces into its blob, and reports those whose hash meets the target.
--
-- Numbers: a value of a w-bit type is a natural number with the wrap-around written out (u8, u32,
-- u64 in Base/Words), `int` is ℤ where it may be negative. The request ids of the clients are taken
-- to stay below the bound of `int`. Base has the shared lists, tests, results and bit operations;
-- Examples has runs at concrete inputs.
--
-- The decimal texts of the standard library (`std::to_string`, `std::stoi`) are in Util/Decimal;
-- `to_string` runs on fuel n + 1, and a number that is not zero loses a digit in a round.
--
-- Not modelled: of src/app/main.cpp the parsing of the command line, the signal handlers (their flag is an
-- argument of the loop) and what is only shown; src/util/platform.cpp, the log, the thread
-- priority, the sleeps and the Windows branches. The threads of the workers and of the endpoint are taken to see one snapshot of the
-- metrics at a time, and the main thread and the workers to call the client one at a time.
pub mod Base
pub mod Util
pub mod Pow
pub mod Net
pub mod Stratum
pub mod Miner
pub mod Pool
pub mod Json
pub mod Telemetry
pub mod Config
pub mod App
pub mod Examples
