-- ===== src/Telemetry/StatsStore.antt =====
-- src/telemetry/stats_store.hpp and src/telemetry/stats_store.cpp: the totals as a JSON file. The disk
-- is the two files that the code names; what comes of each call of the system is an argument.
pub mod Crash
use minerby.Base.{
  ℕ, Bytes, List, [], ◌∷◌, ◌++◌, codes, Bool, true, false, Option, none, some, Result, ok, err,
  ◌>>=◌, take, if◌then◌else◌,
}
use minerby.Json.{JsonLib}

pub record LifetimeStats (Double : Type 0) : Type 0 where
  pub accepted : ℕ  -- uint64_t
  pub rejected : ℕ
  pub hashes : ℕ
  pub uptime_s : Double
  pub sessions : ℕ

-- The text of `path_` and of `path_ + ".tmp"`, where the files are there.
pub record Disk : Type 0 where
  pub file : Option Bytes
  pub tmp : Option Bytes

-- How much of a text the stream stores: all of it, or its first bytes.
pub data Written : Type 0 where
  full : Written
  cut : (n : ℕ) → Written

abbrev pub stored : Written → Bytes → Bytes
stored full text = text
stored (cut n) text = take n text

-- What comes of the calls that `save` makes.
pub record Calls : Type 0 where
  pub opens : Bool
  pub written : Written
  pub removes : Bool
  pub renames : Bool

abbrev pub all_succeed : Calls
all_succeed = record { opens = true; written = full; removes = true; renames = true }

module _ {Double : Type 0} (J : JsonLib Double) (zero : Double) where
  open J use {Json}

  -- `LifetimeStats{}`; `zero` is 0.0.
  abbrev pub no_stats : LifetimeStats Double
  no_stats = record { accepted = 0; rejected = 0; hashes = 0; uptime_s = zero; sessions = 0 }

  unfoldable pub read_stats : Json → Result (LifetimeStats Double)
  read_stats j = do
    accepted ← J.value_u64 j (codes "accepted") 0
    rejected ← J.value_u64 j (codes "rejected") 0
    hashes ← J.value_u64 j (codes "hashes") 0
    uptime_s ← J.value_double j (codes "uptime_s") zero
    sessions ← J.value_u64 j (codes "sessions") 0
    ok (record {
      accepted = accepted;
      rejected = rejected;
      hashes = hashes;
      uptime_s = uptime_s;
      sessions = sessions;
    })

  -- The handler returns the totals of a new store.
  abbrev pub or_no_stats : Result (LifetimeStats Double) → LifetimeStats Double
  or_no_stats (ok s) = s
  or_no_stats (err e) = no_stats

  abbrev pub stats_of : Option Json → LifetimeStats Double
  stats_of none = no_stats
  stats_of (some j) = or_no_stats (read_stats j)

  abbrev pub stats_in : Option Bytes → LifetimeStats Double
  stats_in none = no_stats
  stats_in (some text) = stats_of (J.read text)

  unfoldable pub load : Disk → LifetimeStats Double
  load d = stats_in d.file

  abbrev pub stats_json : LifetimeStats Double → Json
  stats_json s = J.object (
      (codes "accepted", J.number s.accepted)
      ∷ (codes "rejected", J.number s.rejected)
      ∷ (codes "hashes", J.number s.hashes)
      ∷ (codes "uptime_s", J.real s.uptime_s)
      ∷ (codes "sessions", J.number s.sessions)
      ∷ [])

  abbrev pub stats_text : LifetimeStats Double → Bytes
  stats_text s = J.dump_indented (stats_json s) ++ b'\n' ∷ []

  -- The disk after each call of the system that `save` makes, in order. Only the open is checked
  -- before the next calls: a write that is cut short and a `remove` that fails are not noticed.
  unfoldable pub save_steps : Calls → LifetimeStats Double → Disk → List Disk
  save_steps calls s d =
      let text = stored calls.written (stats_text s) in
      let removed : Disk = record {
        file = if calls.removes then none else d.file;
        tmp = some text;
      } in
      if calls.opens
      then record d { tmp = some [] }
        ∷ record d { tmp = some text }
        ∷ removed
        ∷ (if calls.renames then record { file = some text; tmp = none } else removed)
        ∷ []
      else []

  abbrev pub last_of : Disk → List Disk → Disk
  last_of d [] = d
  last_of d (e ∷ es) = last_of e es

  unfoldable pub save : Calls → LifetimeStats Double → Disk → Disk
  save calls s d = last_of d (save_steps calls s d)
