-- ===== src/Pow/RandomX.antt =====
-- src/pow/randomx_context.hpp, src/pow/randomx_context.cpp and src/pow/randomx_hasher.cpp. The
-- RandomX library is not the program's: what its allocations return is an argument, and the calls
-- that fill its memory are a list of the result. The log is left out.
pub mod Setup
pub mod Keying
use minerby.Base.{
  ℕ, zero, suc, ◌+◌, ◌*◌, ◌-◌, ◌/◌, Bytes, List, [], ◌∷◌, ◌==◌, Bool, true, false, not, ◌&&◌,
  Option, none, some, Result, ok, err, no_memory, not_seeded, require, ◌>>=◌, ◌>>◌, if◌then◌else◌,
  same_bytes, tabulate, map,
}

-- `randomx_flags`: the bits that this code sets and clears, and the others as the library gave them.
pub record Flags : Type 0 where
  pub others : ℕ
  pub large_pages : Bool
  pub secure : Bool
  pub full_mem : Bool

pub record Options : Type 0 where
  pub fast_mode : Bool
  pub init_threads : ℕ
  pub large_pages : Bool
  pub secure_jit : Bool

-- A pointer into the library is a number.
pub record RandomXContext : Type 0 where
  pub seed : Bytes
  pub seeded : Bool
  pub fast : Bool
  pub init_threads : ℕ
  pub flags : Flags
  pub cache : ℕ
  pub dataset : Option ℕ

-- `opt.init_threads != 0 ? … : std::max(1u, hardware_concurrency())`
unfoldable pub threads_for : ℕ → ℕ → ℕ
threads_for asked hardware = if asked == 0 then (if hardware == 0 then 1 else hardware) else asked

-- `flags_ | bit`, where the option asks for it.
abbrev pub chosen : Options → Flags → Flags
chosen opt base = record base {
  large_pages = if opt.large_pages then true else base.large_pages;
  secure = if opt.secure_jit then true else base.secure;
  full_mem = if opt.fast_mode then true else base.full_mem;
}

-- The cache, and the flags that it was allocated with.
pub record Allocated : Type 0 where
  pub cache : ℕ
  pub flags : Flags

abbrev pub or_no_memory : Option ℕ → Flags → Result Allocated
or_no_memory none f = err no_memory
or_no_memory (some p) f = ok (record { cache = p; flags = f })

-- `if (!cache_ && opt.large_pages)`, and the second attempt.
unfoldable pub or_small_pages : (Flags → Option ℕ) → Bool → Option ℕ → Flags → Result Allocated
or_small_pages alloc_cache large (some p) f = ok (record { cache = p; flags = f })
or_small_pages alloc_cache false none f = err no_memory
or_small_pages alloc_cache true none f =
    let small = record f { large_pages = false } in or_no_memory (alloc_cache small) small

-- `if (fast_)`, with what the allocation of the dataset returns.
unfoldable pub with_dataset : ℕ → Bool → Option ℕ → Allocated → RandomXContext
with_dataset threads false dataset a = record {
  seed = [];
  seeded = false;
  fast = false;
  init_threads = threads;
  flags = a.flags;
  cache = a.cache;
  dataset = none;
}
with_dataset threads true none a = record {
  seed = [];
  seeded = false;
  fast = false;
  init_threads = threads;
  flags = record (a.flags) { full_mem = false };
  cache = a.cache;
  dataset = none;
}
with_dataset threads true (some p) a = record {
  seed = [];
  seeded = false;
  fast = true;
  init_threads = threads;
  flags = a.flags;
  cache = a.cache;
  dataset = some p;
}

-- The constructor. `base` is what randomx_get_flags returns.
unfoldable pub new_context :
    Options → ℕ → Flags → (Flags → Option ℕ) → (Flags → Option ℕ) → Result RandomXContext
new_context opt hardware base alloc_cache alloc_dataset = do
  a ← or_small_pages alloc_cache opt.large_pages (alloc_cache (chosen opt base)) (chosen opt base)
  ok (with_dataset (threads_for opt.init_threads hardware) opt.fast_mode (alloc_dataset a.flags) a)

abbrev pub cache_for_vm : RandomXContext → Option ℕ
cache_for_vm c = if c.fast then none else some c.cache

abbrev pub dataset_for_vm : RandomXContext → Option ℕ
dataset_for_vm c = if c.fast then c.dataset else none

-- A call of the library that fills its memory.
pub data Fill : Type 0 where
  init_cache : (seed : Bytes) → Fill
  init_dataset : (start count : ℕ) → Fill

-- `std::max(1u, n)`
abbrev pub at_least_one : ℕ → ℕ
at_least_one zero = 1
at_least_one (suc n) = suc n

-- The range of the thread `i` of `n`.
abbrev pub share_of : ℕ → ℕ → ℕ → ℕ × ℕ
share_of total n i =
    let first = i * (total / n) in (first, if i == n - 1 then total - first else total / n)

unfoldable pub dataset_ranges : ℕ → ℕ → List (ℕ × ℕ)
dataset_ranges total init_threads =
    let n = at_least_one init_threads in tabulate n 0 (share_of total n)

-- The threads run side by side; the list has their calls in the order of their creation.
unfoldable pub build_dataset_parallel : ℕ → RandomXContext → List Fill
build_dataset_parallel total c =
    map (λ (r : ℕ × ℕ). init_dataset r.0 r.1) (dataset_ranges total c.init_threads)

pub record Keyed : Type 0 where
  pub context : RandomXContext
  pub fills : List Fill

-- `total` is what randomx_dataset_item_count returns.
unfoldable pub ensure_seed : ℕ → RandomXContext → Bytes → Keyed
ensure_seed total c seed =
    if c.seeded && same_bytes seed c.seed then record { context = c; fills = [] } else record {
      context = record c { seed = seed; seeded = true };
      fills = init_cache seed ∷ (if c.fast then build_dataset_parallel total c else []);
    }

abbrev pub or_no_vm : Option ℕ → Result ℕ
or_no_vm none = err no_memory
or_no_vm (some vm) = ok vm

-- The constructor of `RandomXHasher`.
unfoldable pub new_randomx_hasher :
    (Flags → Option ℕ → Option ℕ → Option ℕ) → RandomXContext → Result ℕ
new_randomx_hasher create_vm c = do
  require c.seeded not_seeded
  or_no_vm (create_vm c.flags (cache_for_vm c) (dataset_for_vm c))
