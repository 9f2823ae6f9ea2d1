-- ===== src/Examples/Setup.antt =====
-- src/config/config.cpp and src/pow/randomx_context.cpp at concrete settings.
use minerby.Base.{
  ℕ, inl, inr, ◌<◌, ◌≡◌, pos, negsuc, arith, refl, [], codes, true, false, Option, none, some, ok,
  same_bytes,
}
use minerby.Pow.RandomX.{
  Flags, Options, RandomXContext, new_context, or_small_pages, with_dataset, threads_for,
  dataset_ranges,
}
use minerby.Pow.RandomX.Setup.{IsUsable, new_context-IsUsable}
use minerby.Pow.RandomX.Keying.{Tiles, dataset_ranges-Tiles}
use minerby.Config.{
  Config, default_config, from_json, read_config, randomx_of, validate, validate_engine,
  effective_threads,
}
use minerby.Util.Decimal.{stoi, skip_spaces, signed_number, unsigned_number, number_from}
use minerby.App.Options.{Overrides, override_pool, apply_overrides, split_last}
use minerby.App.Engine.{Engine, choose}
use minerby.App.Engine.Choice.{Runs, choose-IsValid}
use minerby.Config.Valid.{IsValid, from_json-IsValid}
use minerby.Examples.Documents.{Document, text, whole_number, table, keyed, no_key, documents}

-- Large pages are asked for and not to be had.
abbrev options : Options
options = record { fast_mode = true; init_threads = 0; large_pages = true; secure_jit = false }

abbrev plain_flags : Flags
plain_flags = record { others = 10; large_pages = false; secure = false; full_mem = false }

abbrev small_only : Flags → Option ℕ
small_only f = elim f.large_pages [ true ↦ none | false ↦ some 1 ]

context : (c : RandomXContext) × (new_context options 0 plain_flags small_only small_only ≡ ok c)
unfolding new_context or_small_pages with_dataset threads_for
context = (_, refl)

new_context-IsUsable_example : IsUsable options context.0
new_context-IsUsable_example =
    new_context-IsUsable options 0 plain_flags small_only small_only context.0 refl refl context.1

dataset_ranges-Tiles_example : Tiles 0 34078719 (dataset_ranges 34078719 12)
dataset_ranges-Tiles_example = dataset_ranges-Tiles 34078719 12

abbrev file : Document
file = table (
    keyed (codes "pool_host") (text (codes "pool")) (
      keyed (codes "pool_port") (whole_number 3333)
        (keyed (codes "user") (text (codes "me")) no_key)))

config : (c : Config ℕ) × (from_json (documents []) false (default_config 0 6) (some file) ≡ ok c)
unfolding from_json read_config randomx_of validate validate_engine same_bytes
config = (_, refl)

from_json-IsValid_example : IsValid false config.0 × (0 < effective_threads config.0 8)
from_json-IsValid_example =
    from_json-IsValid (documents []) false (default_config 0 6) (some file) config.0 8 config.1

abbrev written : Config ℕ
written = record (default_config 0 6) {
  pool_host = codes "pool.example";
  pool_port = 3333;
  user = codes "user";
}

abbrev given : Overrides
given = record { pool = codes "other:80"; user = []; threads = pos 2; metrics_port = negsuc 0 }

overridden : (r : Config ℕ) × (apply_overrides false given written ≡ ok r)
unfolding apply_overrides override_pool split_last validate validate_engine same_bytes stoi
    skip_spaces signed_number unsigned_number number_from
overridden = (_, refl)

abbrev monero_written : Config ℕ
monero_written = record written { protocol = codes "monero"; engine = codes "randomx" }

monero_written-IsValid : IsValid true monero_written
monero_written-IsValid = record {
  host = cc;
  port = omega arith;
  user = cc;
  threads = refl;
  priority = inl refl;
  pair = inr (refl, refl, refl, inl refl);
}

choose-IsValid_example :
    (e : Engine) × (choose true monero_written ≡ some e) × Runs monero_written e
choose-IsValid_example = choose-IsValid true monero_written monero_written-IsValid
