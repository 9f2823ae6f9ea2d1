-- ===== src/Pow/Sha256/Compression/Schedule.antt =====
-- src/pow/sha256.cpp: the message schedule is that of FIPS 180-4.
use minerby.Base.{
  ℕ, zero, suc, ◌+◌, ◌-◌, ◌*◌, ◌%◌, ◌^◌, ◌≤◌, ◌<◌, bit_or_word, u32, Bytes, List, [], ◌∷◌, ◌++◌,
  get_or, length, tabulate, IsBytes, ◌≡◌, refl, sym, ap, ◌∙◌, arith, ◌==◌, Bool-cases, inl, inr,
  ==_iff, get_or-tabulate, length-tabulate, length-append,
}
use minerby.Pow.Target.Compare.{get_or-lt}
use minerby.Pow.Sha256.Rounds.{block_word, schedule_word, expand, schedule}
use minerby.Pow.Sha256.Standard.{small_sigma0, small_sigma1, IsSchedule}
use minerby.Pow.Sha256.Compression.{small_sigma0-rotr, small_sigma1-rotr}

get_or-append : (m ys : List ℕ) (t : ℕ) → t < length m → get_or (m ++ ys) t 0 ≡ get_or m t 0
get_or-append [] ys t h = absurd (omega arith)
get_or-append (x ∷ m) ys zero h = refl
get_or-append (x ∷ m) ys (suc t) h = get_or-append m ys t (omega arith)

get_or-last : (m : List ℕ) (x : ℕ) → get_or (m ++ x ∷ []) (length m) 0 ≡ x
get_or-last [] x = refl
get_or-last (y ∷ m) x = get_or-last m x

expand-keeps :
    (left i : ℕ) (m : List ℕ) (t : ℕ) → t < length m → get_or (expand left i m) t 0 ≡ get_or m t 0
unfolding expand
expand-keeps zero i m t h = refl
expand-keeps (suc left) i m t h =
    expand-keeps left (suc i) (m ++ schedule_word m i ∷ []) t
      (omega (arith, length-append m (schedule_word m i ∷ [])))
    ∙ get_or-append m (schedule_word m i ∷ []) t h

-- All entries are words.
abbrev AreWords : List ℕ → Type 0
AreWords m = (t : ℕ) → get_or m t 0 < 2 ^ 32

-- The recurrence at place `t`, reading `w`.
abbrev recurrence : (ℕ → ℕ) → ℕ → ℕ
recurrence w t =
    (small_sigma1 (w (t - 2)) + w (t - 7) + small_sigma0 (w (t - 15)) + w (t - 16)) % 2 ^ 32

schedule_word-recurrence :
    (m : List ℕ) (i : ℕ) → AreWords m → schedule_word m i ≡ recurrence (λ k. get_or m k 0) i
unfolding schedule_word
schedule_word-recurrence m i h =
    rw
      (
        small_sigma0-rotr (get_or m (i - 15) 0) (h (i - 15)),
        small_sigma1-rotr (get_or m (i - 2) 0) (h (i - 2)),
      )
      (sum4 (get_or m (i - 16) 0) (small_sigma0 (get_or m (i - 15) 0)) (get_or m (i - 7) 0)
        (small_sigma1 (get_or m (i - 2) 0)))
  where
    sum4 : (a b c d : ℕ) → u32 (u32 (u32 (a + b) + c) + d) ≡ (d + c + b + a) % 2 ^ 32
    sum4 a b c d = omega arith

recurrence-same :
    (w w' : ℕ → ℕ) (t : ℕ)
    → 16 ≤ t
    → ((k : ℕ) → k < t → w k ≡ w' k)
    → recurrence w t ≡ recurrence w' t
recurrence-same w w' t h same =
    rw
      (
        same (t - 2) (omega arith),
        same (t - 7) (omega arith),
        same (t - 15) (omega arith),
        same (t - 16) (omega arith),
      )
      refl

longer-AreWords : (m : List ℕ) (x : ℕ) → AreWords m → x < 2 ^ 32 → AreWords (m ++ x ∷ [])
longer-AreWords [] x h fits zero = fits
longer-AreWords [] x h fits (suc t) = omega arith
longer-AreWords (y ∷ m) x h fits zero = h 0
longer-AreWords (y ∷ m) x h fits (suc t) = longer-AreWords m x (λ k. h (suc k)) fits t

schedule_word-lt : (m : List ℕ) (i : ℕ) → schedule_word m i < 2 ^ 32
unfolding schedule_word
schedule_word-lt m i = omega arith

expand-recurrence :
    (left i : ℕ) (m : List ℕ) (t : ℕ)
    → length m ≡ i
    → 16 ≤ i
    → AreWords m
    → i ≤ t
    → t < i + left
    → get_or (expand left i m) t 0 ≡ recurrence (λ k. get_or (expand left i m) k 0) t
unfolding expand
expand-recurrence zero i m t size big words low high = absurd (omega arith)
expand-recurrence (suc left) i m t size big words low high =
    let longer = m ++ schedule_word m i ∷ [] in
    let long : length longer ≡ suc i =
      omega (arith, size, length-append m (schedule_word m i ∷ [])) in
    elim (Bool-cases (t == i)) [
      | inl here ↦
          let at : t ≡ i = (==_iff t i).0 here in
          ap (λ (k : ℕ). get_or (expand left (suc i) longer) k 0) at
          ∙ expand-keeps left (suc i) longer i (omega (arith, long))
          ∙ ap (λ (k : ℕ). get_or longer k 0) (sym size)
          ∙ get_or-last m (schedule_word m i)
          ∙ schedule_word-recurrence m i words
          ∙ recurrence-same (λ k. get_or m k 0) (λ k. get_or (expand (suc left) i m) k 0) i big
              (λ k lt. sym (expand-keeps (suc left) i m k (omega (arith, lt, size))))
          ∙ ap (recurrence (λ k. get_or (expand (suc left) i m) k 0)) (sym at)
      | inr above ↦
          expand-recurrence left (suc i) longer t long (omega arith)
            (longer-AreWords m (schedule_word m i) words (schedule_word-lt m i))
            (ground (arith, above)) (omega arith)
    ]

-- Four bytes of the block, with shifts and with products.
block_word-as_sum :
    (block : Bytes) (t : ℕ)
    → IsBytes block
    → block_word block t
      ≡ get_or block (t * 4 + 0) 0 * 2 ^ 24
        + get_or block (t * 4 + 1) 0 * 2 ^ 16
        + get_or block (t * 4 + 2) 0 * 2 ^ 8
        + get_or block (t * 4 + 3) 0
unfolding block_word
block_word-as_sum block t h =
    bit_or_word (get_or block (t * 4 + 0) 0) (get_or block (t * 4 + 1) 0)
      (get_or block (t * 4 + 2) 0) (get_or block (t * 4 + 3) 0) (get_or-lt block (t * 4 + 1) h)
      (get_or-lt block (t * 4 + 2) h) (get_or-lt block (t * 4 + 3) h)

block_word-lt : (block : Bytes) (t : ℕ) → IsBytes block → block_word block t < 2 ^ 32
block_word-lt block t h = omega (
  arith,
  block_word-as_sum block t h,
  get_or-lt block (t * 4 + 0) h,
  get_or-lt block (t * 4 + 1) h,
  get_or-lt block (t * 4 + 2) h,
  get_or-lt block (t * 4 + 3) h,
)

tabulate-AreWords : (n k : ℕ) (f : ℕ → ℕ) → ((i : ℕ) → f i < 2 ^ 32) → AreWords (tabulate n k f)
tabulate-AreWords zero k f h t = omega arith
tabulate-AreWords (suc n) k f h zero = h k
tabulate-AreWords (suc n) k f h (suc t) = tabulate-AreWords n (suc k) f h t

pub schedule-IsSchedule :
    (block : Bytes) → IsBytes block → IsSchedule block (λ t. get_or (schedule block) t 0)
unfolding schedule
schedule-IsSchedule block h = record {
  first = λ t lt.
      expand-keeps 48 16 words t (omega (arith, size))
      ∙ get_or-tabulate 16 0 (block_word block) t 0 lt
      ∙ ap (block_word block) (from_zero t)
      ∙ block_word-as_sum block t h;
  next = λ t low high.
      expand-recurrence 48 16 words t size (omega arith)
        (tabulate-AreWords 16 0 (block_word block) (λ i. block_word-lt block i h)) low
        (omega arith);
}
  where
    words : List ℕ
    words = tabulate 16 0 (block_word block)

    size : length words ≡ 16
    size = length-tabulate 16 0 (block_word block)

    from_zero : (t : ℕ) → 0 + t ≡ t
    from_zero t = omega arith
