-- ===== src/Examples/Totals.antt =====
-- src/telemetry/stats_store.cpp at concrete totals.
use minerby.Base.{
  ℕ, ◌≡◌, refl, arith, Bytes, List, [], ◌∷◌, codes, All, take, false, none, some, true, same_bytes,
}
use minerby.Telemetry.StatsStore.{
  LifetimeStats, Disk, stats_json, stats_text, load, save_steps, save, Calls, full, cut,
  all_succeed,
}
use minerby.Telemetry.StatsStore.Crash.{IsCounted, IsRecoverable, save_steps-IsRecoverable}
use minerby.App.Totals.{Counted, added}
use minerby.App.Totals.Sessions.{ReadsBack, totals_after, summed, sessions, sessions-summed}
use minerby.Examples.Numbers.{whole}
use minerby.Examples.Documents.{Document, documents, documents-IsObjectLib}

abbrev totals : LifetimeStats ℕ
totals = record { accepted = 3; rejected = 1; hashes = 4096; uptime_s = 60; sessions = 2 }

abbrev disk : Disk
disk = record { file = some (codes "{}"); tmp = none }

-- The text that is printed is a line that is known.
abbrev lines : List (Bytes × Document)
lines = (stats_text (documents []) 0 totals, stats_json (documents []) 0 totals) ∷ []

totals-IsCounted : IsCounted totals
totals-IsCounted = record {
  accepted = omega arith;
  rejected = omega arith;
  hashes = omega arith;
  sessions = omega arith;
}

-- The remove and the rename fail.
abbrev stuck : Calls
stuck = record { opens = true; written = full; removes = false; renames = false }

save_steps-IsRecoverable_example :
    All
      (IsRecoverable (documents []) 0 (codes "{}") (stats_text (documents []) 0 totals))
      (save_steps (documents []) 0 stuck totals disk)
save_steps-IsRecoverable_example =
    save_steps-IsRecoverable (documents []) 0 stuck totals disk (codes "{}") refl refl

-- Three bytes are stored, and nobody notices: they are all that is left.
truncated_run :
    save (documents []) 0 (record all_succeed { written = cut 3 }) totals disk
    ≡ record { file = some (take 3 (stats_text (documents []) 0 totals)); tmp = none }
unfolding save save_steps
truncated_run = refl

printed :
    (documents lines).read (stats_text (documents lines) 0 totals)
    ≡ some (stats_json (documents lines) 0 totals)
unfolding same_bytes
printed = refl

abbrev short : Counted ℕ
short = record { accepted = 1; rejected = 0; hashes = 100; elapsed = 30 }

abbrev long : Counted ℕ
long = record { accepted = 4; rejected = 2; hashes = 9000; elapsed = 600 }

abbrev after_one : LifetimeStats ℕ
after_one = record { accepted = 4; rejected = 2; hashes = 9000; uptime_s = 600; sessions = 1 }

abbrev after_two : LifetimeStats ℕ
after_two = record { accepted = 5; rejected = 2; hashes = 9100; uptime_s = 630; sessions = 2 }

abbrev record_lines : List (Bytes × Document)
record_lines =
    (stats_text (documents []) 0 after_one, stats_json (documents []) 0 after_one)
    ∷ (stats_text (documents []) 0 after_two, stats_json (documents []) 0 after_two)
    ∷ []

-- A run that saves twice, and one that saves once.
abbrev runs : List (List (Counted ℕ) × Counted ℕ)
runs = (short ∷ [], long) ∷ ([], short) ∷ []

abbrev no_file : Disk
no_file = record { file = none; tmp = none }

both_read :
    All
      (ReadsBack whole (documents record_lines))
      (totals_after whole (documents record_lines) (load (documents record_lines) 0 no_file) runs)
unfolding same_bytes load added
both_read = (refl, (refl, tt))

sessions-summed_example :
    load (documents record_lines) 0 (sessions whole (documents record_lines) no_file runs)
    ≡ summed whole (documents record_lines) (load (documents record_lines) 0 no_file) runs
sessions-summed_example =
    sessions-summed whole (documents record_lines) no_file (short ∷ [], long) (([], short) ∷ [])
      (documents-IsObjectLib record_lines) both_read
