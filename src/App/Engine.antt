-- ===== src/App/Engine.antt =====
-- src/app/main.cpp: the engine and the client that `cmd_run` makes for a configuration. The test of the
-- free memory is a warning and left out.
pub mod Choice
use minerby.Base.{
  ℕ, ◌-◌, ◌%◌, ◌^◌, ℤ, pos, negsuc, Bytes, codes, Bool, true, false, Option, none, some, not,
  if◌then◌else◌, same_bytes,
}
use minerby.Pow.RandomX.{Options}
use minerby.Config.{Config}

-- The conversion of an `int` to `unsigned`.
abbrev pub u32_of_int : ℤ → ℕ
u32_of_int (pos n) = n % 2 ^ 32
u32_of_int (negsuc n) = 2 ^ 32 - 1 - n % 2 ^ 32

-- The hashers that the factory makes, with the client that goes with them.
pub data Engine : Type 0 where
  sha256d_stratum : Engine
  randomx_monero : (opt : Options) → Engine

module _ {Double : Type 0} where
  abbrev pub randomx_fast : Config Double → Bool
  randomx_fast c = same_bytes c.randomx.mode (codes "fast")

  abbrev pub low_priority : Config Double → Bool
  low_priority c = not (same_bytes c.cpu_priority (codes "normal"))

  abbrev pub options_of : Config Double → Options
  options_of c = record {
    fast_mode = randomx_fast c;
    init_threads = u32_of_int c.randomx.init_threads;
    large_pages = c.randomx.large_pages;
    secure_jit = c.randomx.secure;
  }

  -- `none` is `return 1`, in a build without RandomX.
  unfoldable pub choose : Bool → Config Double → Option Engine
  choose with_randomx c =
      if same_bytes c.protocol (codes "monero")
      then (if with_randomx then some (randomx_monero (options_of c)) else none)
      else some sha256d_stratum
