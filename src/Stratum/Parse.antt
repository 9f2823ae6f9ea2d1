-- ===== src/Stratum/Parse.antt =====
-- src/stratum/parse.hpp and src/stratum/parse.cpp: the payloads of the server's messages.
pub mod Laws
use minerby.Base.{
  ℕ, ℤ, pos, negsuc, Bytes, List, [], ◌∷◌, Bool, true, false, ◌&&◌, ltb, leb, Option, none, some,
  Result, ok, err, require, bad_length, type_error, ◌>>=◌, ◌>>◌, if◌then◌else◌,
}
use minerby.Json.{JsonLib}
use minerby.Stratum.Job.{StratumJob}

-- The handler catches every exception, and `out` is written last: `none` leaves it untouched.
abbrev pub caught {ℓ} : {A : Type ℓ} → Result A → Option A
caught (ok a) = some a
caught (err e) = none

-- The outputs of `parse_subscribe` are written one by one.
pub record Subscribed : Type 0 where
  pub done : Bool
  pub extranonce1 : Bytes
  pub extranonce2_size : ℤ

abbrev pub size_is_valid : ℤ → Bool
size_is_valid (pos n) = ltb 0 n && leb n 8
size_is_valid (negsuc n) = false

unfoldable pub take_subscription : Result Bytes → Result ℤ → Bytes → ℤ → Subscribed
take_subscription (err e) size xn1 old = record {
  done = false;
  extranonce1 = xn1;
  extranonce2_size = old;
}
take_subscription (ok x) (err e) xn1 old = record {
  done = false;
  extranonce1 = x;
  extranonce2_size = old;
}
take_subscription (ok x) (ok n) xn1 old = record {
  done = size_is_valid n;
  extranonce1 = x;
  extranonce2_size = n;
}

module _ {Double : Type 0} (J : JsonLib Double) where
  open J use {Json, is_array, is_boolean, elements, get_string, get_int, get_bool}

  unfoldable pub read_strings : List Json → Result (List Bytes)
  read_strings [] = ok []
  read_strings (x ∷ xs) = do s ← get_string x; ss ← read_strings xs; ok (s ∷ ss)

  unfoldable pub read_clean : Json → Result Bool
  read_clean p = if is_boolean p then get_bool p else ok false

  -- The body of the `try` block of `parse_notify`; a `return false` is an error here too.
  unfoldable pub read_job : List Json → Result StratumJob
  read_job (p0 ∷ p1 ∷ p2 ∷ p3 ∷ p4 ∷ p5 ∷ p6 ∷ p7 ∷ p8 ∷ more) = do
    job_id ← get_string p0
    prevhash ← get_string p1
    coinb1 ← get_string p2
    coinb2 ← get_string p3
    require (is_array p4) type_error
    merkle_branch ← read_strings (elements p4)
    version ← get_string p5
    nbits ← get_string p6
    ntime ← get_string p7
    clean_jobs ← read_clean p8
    ok (record {
      job_id = job_id;
      prevhash = prevhash;
      coinb1 = coinb1;
      coinb2 = coinb2;
      merkle_branch = merkle_branch;
      version = version;
      nbits = nbits;
      ntime = ntime;
      clean_jobs = clean_jobs;
    })
  read_job _ = err bad_length

  unfoldable pub parse_notify : Json → Option StratumJob
  parse_notify p = if is_array p then caught (read_job (elements p)) else none

  -- `r[1]` and `r[2]`, where there are three entries.
  unfoldable pub read_subscription : List Json → Bytes → ℤ → Subscribed
  read_subscription (r0 ∷ r1 ∷ r2 ∷ more) xn1 old =
      take_subscription (get_string r1) (get_int r2) xn1 old
  read_subscription _ xn1 old = record { done = false; extranonce1 = xn1; extranonce2_size = old }

  unfoldable pub parse_subscribe : Json → Bytes → ℤ → Subscribed
  parse_subscribe r xn1 old =
      if is_array r
      then read_subscription (elements r) xn1 old
      else record { done = false; extranonce1 = xn1; extranonce2_size = old }
