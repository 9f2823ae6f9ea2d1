-- ===== src/Pow/RandomX/Setup.antt =====
-- src/pow/randomx_context.cpp: what a constructed context guarantees the workers.
use minerby.Base.{
  ℕ, Bool, true, false, Option, none, some, ok, not, sym, ◌∙◌, ◌≡◌, refl, subst, arith, >>=-eq-ok,
  ok-injective, ◌<◌,
}
use minerby.Pow.RandomX.{
  Flags, Options, RandomXContext, threads_for, chosen, Allocated, or_no_memory, or_small_pages,
  with_dataset, new_context, cache_for_vm, dataset_for_vm,
}

abbrev pub is_given : Option ℕ → Bool
is_given none = false
is_given (some p) = true

-- A virtual machine gets the dataset in fast mode and the cache else, and the flags say which.
pub record IsUsable (opt : Options) (c : RandomXContext) : Type 0 where
  pub mode : c.flags.full_mem ≡ c.fast
  pub dataset : is_given (dataset_for_vm c) ≡ c.fast
  pub cache : is_given (cache_for_vm c) ≡ not c.fast
  pub asked : c.fast ≡ true → opt.fast_mode ≡ true
  pub pages : c.flags.large_pages ≡ true → opt.large_pages ≡ true
  pub threads : 0 < c.init_threads
  pub unkeyed : c.seeded ≡ false

record IsAllocated (opt : Options) (a : Allocated) : Type 0 where
  mode : a.flags.full_mem ≡ opt.fast_mode
  pages : a.flags.large_pages ≡ true → opt.large_pages ≡ true

threads_for-pos : (asked hardware : ℕ) → 0 < threads_for asked hardware
unfolding threads_for
threads_for-pos asked hardware = ground arith

module _ (opt : Options) (base : Flags) (plain : base.full_mem ≡ false)
    (small : base.large_pages ≡ false) where
  chosen-IsAllocated : (p : ℕ) → IsAllocated opt (record { cache = p; flags = chosen opt base })
  chosen-IsAllocated p = record { mode = ground (arith, plain); pages = λ h. ground (arith, small) }

  or_small_pages-IsAllocated :
      (alloc : Flags → Option ℕ) (large : Bool) (o : Option ℕ) (a : Allocated)
      → or_small_pages alloc large o (chosen opt base) ≡ ok a
      → IsAllocated opt a
  unfolding or_small_pages
  or_small_pages-IsAllocated alloc large (some p) a e =
      subst (IsAllocated opt) (ok-injective e) (chosen-IsAllocated p)
  or_small_pages-IsAllocated alloc false none a e = cc
  or_small_pages-IsAllocated alloc true none a e =
      retried (alloc (record (chosen opt base) { large_pages = false })) e
    where
      retried :
          (o : Option ℕ)
          → or_no_memory o (record (chosen opt base) { large_pages = false }) ≡ ok a
          → IsAllocated opt a
      retried none e = cc
      retried (some p) e =
          subst (IsAllocated opt) (ok-injective e)
            (record { mode = (chosen-IsAllocated p).mode; pages = λ h. cc })

with_dataset-IsUsable :
    (opt : Options) (threads : ℕ) (fast : Bool) (o : Option ℕ) (a : Allocated)
    → fast ≡ opt.fast_mode
    → 0 < threads
    → IsAllocated opt a
    → IsUsable opt (with_dataset threads fast o a)
unfolding with_dataset
with_dataset-IsUsable opt threads false o a e pos v = record {
  mode = v.mode ∙ sym e;
  dataset = refl;
  cache = refl;
  asked = λ h. cc;
  pages = v.pages;
  threads = pos;
  unkeyed = refl;
}
with_dataset-IsUsable opt threads true none a e pos v = record {
  mode = refl;
  dataset = refl;
  cache = refl;
  asked = λ h. cc;
  pages = v.pages;
  threads = pos;
  unkeyed = refl;
}
with_dataset-IsUsable opt threads true (some p) a e pos v = record {
  mode = v.mode ∙ sym e;
  dataset = refl;
  cache = refl;
  asked = λ h. sym e;
  pages = v.pages;
  threads = pos;
  unkeyed = refl;
}

-- Where randomx_get_flags leaves the full-memory and large-page bits clear, as documented: whatever
-- the allocations return, a context that is constructed hands a virtual machine the dataset in fast
-- mode and the cache else, never neither, with the mode's flag to match; fast mode and large pages
-- are in force only if they were asked for, and it starts without a key.
pub new_context-IsUsable :
    (opt : Options) (hardware : ℕ) (base : Flags) (alloc_cache alloc_dataset : Flags → Option ℕ)
    (c : RandomXContext)
    → base.full_mem ≡ false
    → base.large_pages ≡ false
    → new_context opt hardware base alloc_cache alloc_dataset ≡ ok c
    → IsUsable opt c
unfolding new_context
new_context-IsUsable opt hardware base alloc_cache alloc_dataset c plain small e =
    let (a, got, e) =
      >>=-eq-ok
        (or_small_pages alloc_cache opt.large_pages (alloc_cache (chosen opt base))
          (chosen opt base))
        _ e in
    subst (IsUsable opt) (ok-injective e) (
      with_dataset-IsUsable opt (threads_for opt.init_threads hardware) opt.fast_mode
        (alloc_dataset a.flags) a refl (threads_for-pos opt.init_threads hardware)
        (or_small_pages-IsAllocated opt base plain small alloc_cache opt.large_pages _ a got))
