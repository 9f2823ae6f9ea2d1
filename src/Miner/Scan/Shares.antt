-- ===== src/Miner/Scan/Shares.antt =====
-- src/miner/worker.cpp: the shares that a chunk reports.
use minerby.Base.{
  ℕ, zero, suc, ◌+◌, ◌*◌, ◌%◌, ◌^◌, ◌≤◌, ◌<◌, Bytes, List, [], ◌∷◌, ◌++◌, length, ◌==◌, set, get_or,
  u8, u32, ltb, false, ◌≡◌, ◌≢◌, refl, sym, ap, append-nil, ◌∙◌, arith, Bool-cases, inl, inr,
  if◌then◌else◌, get_or_ext, get_or-set_self, get_or-set_ne, length-set, ◌>>>◌,
}
use minerby.Pow.Target.{meets_target}
use minerby.Miner.Scan.{Chunk, Share, scan, splice, report}
use minerby.Miner.Scan.Nonces.{progression, wrap_iff}

pub length-splice : (blob : Bytes) (off nonce : ℕ) → length (splice blob off nonce) ≡ length blob
unfolding splice
length-splice blob off nonce =
    length-set _ (off + 3) _
    ∙ length-set _ (off + 2) _
    ∙ length-set _ (off + 1) _
    ∙ length-set blob (off + 0) _

set-set : (xs : Bytes) (i v w : ℕ) → set (set xs i v) i w ≡ set xs i w
set-set [] i v w = refl
set-set (x ∷ xs) zero v w = refl
set-set (x ∷ xs) (suc i) v w = ap (◌∷◌ x) (set-set xs i v w)

set_comm : (xs : Bytes) (i j v w : ℕ) → i ≢ j → set (set xs i v) j w ≡ set (set xs j w) i v
set_comm [] i j v w ne = refl
set_comm (x ∷ xs) zero zero v w ne = absurd (ne refl)
set_comm (x ∷ xs) zero (suc j) v w ne = refl
set_comm (x ∷ xs) (suc i) zero v w ne = refl
set_comm (x ∷ xs) (suc i) (suc j) v w ne = ap (◌∷◌ x) (set_comm xs i j v w (λ e. ne (ap suc e)))

abbrev pub spliced_at : Bytes → ℕ → ℕ → ℕ → ℕ
spliced_at blob off nonce j =
    if j == off + 0
    then u8 nonce
    else if j == off + 1
    then u8 (nonce >>> 8)
    else if j == off + 2
    then u8 (nonce >>> 16)
    else if j == off + 3
    then u8 (nonce >>> 24)
    else get_or blob j 0

get_or-set :
    (xs : Bytes) (i j v : ℕ)
    → j < length xs
    → get_or (set xs i v) j 0 ≡ (if j == i then v else get_or xs j 0)
get_or-set xs i j v h = ground (arith, get_or-set_self xs i v 0, get_or-set_ne xs i j v 0)

-- The array after the four writes, index by index.
pub get_or-splice :
    (blob : Bytes) (off nonce j : ℕ)
    → j < length blob
    → get_or (splice blob off nonce) j 0 ≡ spliced_at blob off nonce j
unfolding splice
get_or-splice blob off nonce j h = ground (
  arith,
  get_or-set c (off + 3) j (u8 (nonce >>> 24)),
  get_or-set b (off + 2) j (u8 (nonce >>> 16)),
  get_or-set a (off + 1) j (u8 (nonce >>> 8)),
  get_or-set blob (off + 0) j (u8 nonce),
  length-set b (off + 2) (u8 (nonce >>> 16)),
  length-set a (off + 1) (u8 (nonce >>> 8)),
  length-set blob (off + 0) (u8 nonce),
)
  where
    a : Bytes
    a = set blob (off + 0) (u8 nonce)

    b : Bytes
    b = set a (off + 1) (u8 (nonce >>> 8))

    c : Bytes
    c = set b (off + 2) (u8 (nonce >>> 16))

-- A nonce overwrites the one before, so the array always is the job's with one nonce in it.
pub splice-splice :
    (blob : Bytes) (off m n : ℕ) → splice (splice blob off m) off n ≡ splice blob off n
splice-splice blob off m n =
    get_or_ext 0 _ _
      (length-splice (splice blob off m) off n
        ∙ length-splice blob off m
        ∙ sym (length-splice blob off n))
      (λ j lt. ground (
        arith,
        get_or-splice (splice blob off m) off n j,
        get_or-splice blob off m j,
        get_or-splice blob off n j,
        length-splice (splice blob off m) off n,
        length-splice blob off m,
      ))

module _ (hash : Bytes → Bytes) (threads off : ℕ) (target : Bytes) where
  -- The shares among some nonces of a job, in their order.
  abbrev pub hits : Bytes → List ℕ → List Share
  hits blob [] = []
  hits blob (n ∷ ns) =
      if meets_target (hash (splice blob off n)) target
      then record { nonce = n; digest = hash (splice blob off n) } ∷ hits blob ns
      else hits blob ns

  report-hits :
      (blob : Bytes) (n : ℕ) (ns : List ℕ)
      → report hash threads off target n (hash (splice blob off n)) ++ hits blob ns
        ≡ hits blob (n ∷ ns)
  unfolding report
  report-hits blob n ns = elim (Bool-cases (meets_target (hash (splice blob off n)) target)) [
    | inl hit ↦ rw hit refl
    | inr miss ↦ rw miss refl
  ]

  hits-splice : (blob : Bytes) (m : ℕ) (ns : List ℕ) → hits (splice blob off m) ns ≡ hits blob ns
  hits-splice blob m [] = refl
  hits-splice blob m (n ∷ ns) = rw (splice-splice blob off m n, hits-splice blob m ns) refl

  -- What a chunk of `left` rounds from `nonce` does.
  pub record IsScan (left : ℕ) (blob : Bytes) (nonce : ℕ) (r : Chunk) : Type 0 where
    pub tried : r.shares ≡ hits blob (progression r.done threads nonce)
    pub rounds : r.done ≤ left
    pub moved : 0 < left → 0 < r.done
    pub fits : nonce + r.done * threads < 2 ^ 32 + threads
    pub early : r.done < left → 2 ^ 32 ≤ nonce + r.done * threads
    pub next : r.nonce ≡ (nonce + r.done * threads) % 2 ^ 32
    pub same_job : (n : ℕ) → splice r.blob off n ≡ splice blob off n
    pub same_size : length r.blob ≡ length blob

  -- A round that does not wrap, before the rest of the chunk.
  further-IsScan :
      (left : ℕ) (blob : Bytes) (nonce : ℕ)
      → nonce + threads < 2 ^ 32
      → (r : Chunk) → IsScan left (splice blob off nonce) (u32 (nonce + threads)) r
      → IsScan (suc left) blob nonce (record {
        blob = r.blob;
        nonce = r.nonce;
        done = suc r.done;
        shares = report hash threads off target nonce (hash (splice blob off nonce)) ++ r.shares;
      })
  further-IsScan left blob nonce under r v = record {
    tried =
        ap (◌++◌ (report hash threads off target nonce (hash (splice blob off nonce)))) (
          v.tried
          ∙ hits-splice blob nonce (progression r.done threads (u32 (nonce + threads)))
          ∙ ap (λ n. hits blob (progression r.done threads n)) exact)
        ∙ report-hits blob nonce (progression r.done threads (nonce + threads));
    rounds = omega (arith, v.rounds);
    moved = λ h. omega arith;
    fits = omega (arith, v.fits, exact);
    early = λ h. omega (arith, v.early (omega arith), exact);
    next = v.next ∙ ap (λ n. n % 2 ^ 32) (omega (arith, exact));
    same_job = λ n. v.same_job n ∙ splice-splice blob off nonce n;
    same_size = v.same_size ∙ length-splice blob off nonce;
  }
    where
      exact : u32 (nonce + threads) ≡ nonce + threads
      exact = omega arith

  -- For a number of threads that is positive and, like the nonce, of 32 bits: every nonce of the chunk
  -- is tried and no other, the shares are those whose hash meets the
  -- target, and the chunk ends early exactly where the nonce space does.
  pub scan-IsScan :
      (left : ℕ) (blob : Bytes) (nonce : ℕ)
      → 0 < threads
      → threads < 2 ^ 32
      → nonce < 2 ^ 32
      → IsScan left blob nonce (scan hash threads off target left blob nonce)
  unfolding scan
  scan-IsScan zero blob nonce pos few lt = record {
    tried = refl;
    rounds = omega arith;
    moved = λ h. absurd (omega arith);
    fits = omega arith;
    early = λ h. absurd (omega arith);
    next = omega arith;
    same_job = λ n. refl;
    same_size = refl;
  }
  scan-IsScan (suc left) blob nonce pos few lt =
      elim (Bool-cases (ltb (u32 (nonce + threads)) threads)) [
        | inl wrapped ↦
            let over : 2 ^ 32 ≤ nonce + threads = (wrap_iff nonce threads lt few).0 wrapped in
            rw wrapped (record {
              tried = sym (append-nil _) ∙ report-hits blob nonce [];
              rounds = omega arith;
              moved = λ h. omega arith;
              fits = omega arith;
              early = λ h. omega (arith, over);
              next = omega arith;
              same_job = λ n. splice-splice blob off nonce n;
              same_size = length-splice blob off nonce;
            })
        | inr more ↦ rw more (
            further-IsScan left blob nonce (under more) _ (
              scan-IsScan left (splice blob off nonce) (u32 (nonce + threads)) pos few
                (omega arith)))
      ]
    where
      under : ltb (u32 (nonce + threads)) threads ≡ false → nonce + threads < 2 ^ 32
      under more = ground (arith, wrap_iff nonce threads lt few)
