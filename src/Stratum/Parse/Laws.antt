-- ===== src/Stratum/Parse/Laws.antt =====
-- src/stratum/parse.cpp: what the two parsers accept.
use minerby.Base.{
  ℕ, ℤ, pos, Bytes, List, [], ◌∷◌, map, true, ◌≤◌, ◌<◌, some, ok, ◌≡◌, refl, arith, ◌↔◌,
}
use minerby.Json.{JsonLib, IsJsonLib}
use minerby.Stratum.Job.{StratumJob}
use minerby.Stratum.Parse.{
  read_strings, read_clean, read_job, parse_notify, parse_subscribe, take_subscription,
  read_subscription,
}

module _ {Double : Type 0} (J : JsonLib Double) (laws : IsJsonLib J) where
  read_strings-map : (xs : List Bytes) → read_strings J (map J.string xs) ≡ ok xs
  unfolding read_strings
  read_strings-map [] = refl
  read_strings-map (x ∷ xs) = rw (laws.get_string-string x, read_strings-map xs) refl

  -- The parameters of a `mining.notify` for a job, and whatever the server adds behind them.
  abbrev pub notify_params : StratumJob → List J.Json → J.Json
  notify_params j more = J.array (
      J.string j.job_id
      ∷ J.string j.prevhash
      ∷ J.string j.coinb1
      ∷ J.string j.coinb2
      ∷ J.array (map J.string j.merkle_branch)
      ∷ J.string j.version
      ∷ J.string j.nbits
      ∷ J.string j.ntime
      ∷ J.boolean j.clean_jobs
      ∷ more)

  -- Every job that a server sends in the nine places of a notification is read back field by field,
  -- whatever entries follow.
  pub parse_notify-notify_params :
      (j : StratumJob) (more : List J.Json) → parse_notify J (notify_params j more) ≡ some j
  unfolding parse_notify read_job read_clean
  parse_notify-notify_params j more =
      rw
        (
          laws.is_array-array _,
          laws.elements-array _,
          laws.get_string-string j.job_id,
          laws.get_string-string j.prevhash,
          laws.get_string-string j.coinb1,
          laws.get_string-string j.coinb2,
          laws.is_array-array (map J.string j.merkle_branch),
          laws.elements-array (map J.string j.merkle_branch),
          read_strings-map j.merkle_branch,
          laws.get_string-string j.version,
          laws.get_string-string j.nbits,
          laws.get_string-string j.ntime,
          laws.is_boolean-boolean j.clean_jobs,
          laws.get_bool-boolean j.clean_jobs,
        )
        refl

  -- Any subscription result with three entries overwrites both outputs, and the answer only says
  -- whether the size is from 1 to 8: a result that is refused is stored all the same.
  parse_subscribe-array :
      (s : J.Json) (xn1 old_xn1 : Bytes) (n : ℕ) (old : ℤ)
      → let r = parse_subscribe J (J.array (s ∷ J.string xn1 ∷ J.number n ∷ [])) old_xn1 old in
        (r.extranonce1 ≡ xn1)
        × (r.extranonce2_size ≡ pos n)
        × ((r.done ≡ true) ↔ ((0 < n) × (n ≤ 8)))
  unfolding parse_subscribe read_subscription take_subscription
  parse_subscribe-array s xn1 old_xn1 n old =
      rw
        (
          laws.is_array-array (s ∷ J.string xn1 ∷ J.number n ∷ []),
          laws.elements-array (s ∷ J.string xn1 ∷ J.number n ∷ []),
          laws.get_string-string xn1,
          laws.get_int-number n,
        )
        (refl, refl, ground arith)
