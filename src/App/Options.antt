-- ===== src/App/Options.antt =====
-- src/app/main.cpp: the options of `run` on the command line, over the configuration from the file,
-- and the place of the statistics file.
pub mod HostPort
use minerby.Base.{
  ℕ, ◌+◌, ◌-◌, ◌%◌, ◌^◌, ◌==◌, ℤ, pos, negsuc, Bytes, List, [], ◌∷◌, ◌++◌, codes, length, take,
  Bool, true, false, not, ◌||◌, Option, none, some, Result, ok, err, bad_config, ◌>>=◌, ◌>>◌,
  if◌then◌else◌,
}
use minerby.Util.Decimal.{stoi}
use minerby.Config.{Config, is_empty, is_negative, validate}

-- A text before and behind a character that is found.
abbrev pub found_in : ℕ → Bytes → Bool → Option (Bytes × Bytes) → Option (Bytes × Bytes)
found_in c s here (some (pre, post)) = some (c ∷ pre, post)
found_in c s true none = some ([], s)
found_in c s false none = none

-- `rfind` and `find_last_of`: the text before and behind the last character that passes the test.
unfoldable pub split_last : (ℕ → Bool) → Bytes → Option (Bytes × Bytes)
split_last test [] = none
split_last test (c ∷ s) = found_in c s (test c) (split_last test s)

-- `static_cast<uint16_t>` of an `int`.
abbrev pub u16_of_int : ℤ → ℕ
u16_of_int (pos n) = n % 2 ^ 16
u16_of_int (negsuc n) = 2 ^ 16 - 1 - n % 2 ^ 16

-- The options; `int` options that are not given are -1.
pub record Overrides : Type 0 where
  pub pool : Bytes
  pub user : Bytes
  pub threads : ℤ
  pub metrics_port : ℤ

module _ {Double : Type 0} where
  abbrev pub point_at : Config Double → Option (Bytes × Bytes) → Result (Config Double)
  point_at c none = err bad_config
  point_at c (some (host, port)) = do
    n ← stoi port
    ok (record c { pool_host = host; pool_port = u16_of_int n })

  unfoldable pub override_pool : Bytes → Config Double → Result (Config Double)
  override_pool pool c =
      if is_empty pool then ok c else point_at c (split_last (λ b. b == b':') pool)

  abbrev pub override_user : Bytes → Config Double → Config Double
  override_user user c = if is_empty user then c else record c { user = user }

  abbrev pub override_threads : ℤ → Config Double → Config Double
  override_threads n c = if is_negative n then c else record c { threads = n }

  abbrev pub override_metrics : ℤ → Config Double → Config Double
  override_metrics n c = if is_negative n then c else record c { metrics_port = u16_of_int n }

  unfoldable pub apply_overrides : Bool → Overrides → Config Double → Result (Config Double)
  apply_overrides with_randomx o c = do
    pointed ← override_pool o.pool c
    let chosen =
        override_metrics o.metrics_port (override_threads o.threads (override_user o.user pointed))
    validate with_randomx chosen
    ok chosen

-- The separators of a path.
abbrev pub is_slash : ℕ → Bool
is_slash b = b == b'/' || b == b'\\'

-- `config_path.substr(0, slash + 1)`, where there is a separator.
abbrev pub up_to : Bytes → Option (Bytes × Bytes) → Bytes
up_to path none = []
up_to path (some (pre, post)) = take (length pre + 1) path

unfoldable pub default_stats_path : Bytes → Bytes
default_stats_path config_path =
    up_to config_path (split_last is_slash config_path) ++ codes "minerby-stats.json"

abbrev pub stats_path : {Double : Type 0} → Config Double → Bytes → Bytes
stats_path c config_path =
    if is_empty c.stats_file then default_stats_path config_path else c.stats_file
