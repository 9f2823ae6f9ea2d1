-- ===== src/Telemetry/StatsStore/Crash.antt =====
-- src/telemetry/stats_store.cpp: what is on the disk after `save`, and wherever it is cut off.
use minerby.Base.{
  ◌<◌, ◌^◌, Bytes, codes, Bool, true, false, none, some, ok, ◌≡◌, refl, ◌⊎◌, inl, inr, All,
  same_bytes,
}
use minerby.Json.{JsonLib, IsObjectLib}
use minerby.Telemetry.StatsStore.{
  LifetimeStats, Disk, Calls, full, all_succeed, read_stats, stats_json, stats_text, load,
  save_steps, save,
}

-- The four counters are words of 64 bits.
pub record IsCounted {Double : Type 0} (s : LifetimeStats Double) : Type 0 where
  pub accepted : s.accepted < 2 ^ 64
  pub rejected : s.rejected < 2 ^ 64
  pub hashes : s.hashes < 2 ^ 64
  pub sessions : s.sessions < 2 ^ 64

module _ {Double : Type 0} (J : JsonLib Double) (zero : Double) where
  -- A disk from which the old text or the new can be had.
  abbrev pub IsRecoverable : Bytes → Bytes → Disk → Type 0
  IsRecoverable old new d =
      (d.file ≡ some old) ⊎ (d.file ≡ some new) ⊎ ((d.file ≡ none) × (d.tmp ≡ some new))

  -- Where the text that `save` writes is stored whole: wherever `save` is cut off between two of its
  -- calls, and whichever of the open, the remove and the rename fail, the old text is still in the
  -- file, or the new text is in it, or the file is gone and the new text is whole in the temporary
  -- file.
  pub save_steps-IsRecoverable :
      (calls : Calls) (s : LifetimeStats Double) (d : Disk) (old : Bytes)
      → d.file ≡ some old
      → calls.written ≡ full
      → All (IsRecoverable old (stats_text J zero s)) (save_steps J zero calls s d)
  unfolding save_steps
  save_steps-IsRecoverable calls s d old e all = rw all (go calls.opens calls.removes calls.renames)
    where
      go :
          (opens removes renames : Bool)
          → All (IsRecoverable old (stats_text J zero s)) (
              save_steps J zero
                (record { opens = opens; written = full; removes = removes; renames = renames })
                s
                d)
      go false removes renames = tt
      go true false false = (inl e, (inl e, (inl e, (inl e, tt))))
      go true false true = (inl e, (inl e, (inl e, (inr (inl refl), tt))))
      go true true false = (inl e, (inl e, (inr (inr (refl, refl)), (inr (inr (refl, refl)), tt))))
      go true true true = (inl e, (inl e, (inr (inr (refl, refl)), (inr (inl refl), tt))))

  module _ (laws : IsObjectLib J) where
    read_stats-json :
        (s : LifetimeStats Double) → IsCounted s → read_stats J zero (stats_json J zero s) ≡ ok s
    unfolding read_stats same_bytes
    read_stats-json s c =
        rw
          (
            laws.value_u64-object _ (codes "accepted") s.accepted 0 c.accepted refl,
            laws.value_u64-object _ (codes "rejected") s.rejected 0 c.rejected refl,
            laws.value_u64-object _ (codes "hashes") s.hashes 0 c.hashes refl,
            laws.value_double-object _ (codes "uptime_s") s.uptime_s zero refl,
            laws.value_u64-object _ (codes "sessions") s.sessions 0 c.sessions refl,
          )
          refl

    -- Where the calls succeed and the printed text is read back as the value that was printed, the
    -- totals that are saved are those that the next run loads, whatever was on the disk.
    pub load-save :
        (s : LifetimeStats Double) (d : Disk)
        → IsCounted s
        → J.read (stats_text J zero s) ≡ some (stats_json J zero s)
        → load J zero (save J zero all_succeed s d) ≡ s
    unfolding load save save_steps
    load-save s d c printed = rw (printed, read_stats-json s c) refl
