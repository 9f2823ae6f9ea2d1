-- ===== src/Stratum/Work/Header.antt =====
-- src/stratum/work.cpp: the layout of the header, and when `build_work` succeeds.
use minerby.Base.{
  ℕ, zero, suc, ◌+◌, ◌*◌, Bytes, [], ◌∷◌, ◌++◌, set, replicate, flatten, tabulate, length, ◌≡◌,
  refl, sym, ap, ap₂, ◌∙◌, arith, append_assoc, length-append,
}
use minerby.Stratum.Work.{write, le_bytes, swapped_word, write_words, header}

set-middle :
    (pre : Bytes) (m x : ℕ) (post : Bytes) → set (pre ++ m ∷ post) (length pre) x ≡ pre ++ x ∷ post
set-middle [] m x post = refl
set-middle (p ∷ pre) m x post = ap (◌∷◌ p) (set-middle pre m x post)

-- A write replaces the middle of an array.
write-middle :
    (xs mid post : Bytes) (pre : Bytes)
    → length mid ≡ length xs
    → write (pre ++ (mid ++ post)) (length pre) xs ≡ pre ++ (xs ++ post)
unfolding write
write-middle [] [] post pre e = refl
write-middle [] (m ∷ mid) post pre e = absurd (omega arith)
write-middle (x ∷ xs) [] post pre e = absurd (omega arith)
write-middle (x ∷ xs) (m ∷ mid) post pre e =
    ap (λ h. write h (suc (length pre)) xs) (set-middle pre m x (mid ++ post))
    ∙ ap₂ (λ h at. write h at xs) (sym (append_assoc pre (x ∷ []) (mid ++ post))) (sym longer)
    ∙ write-middle xs mid post (pre ++ x ∷ []) (omega arith)
    ∙ append_assoc pre (x ∷ []) (xs ++ post)
  where
    longer : length (pre ++ x ∷ []) ≡ suc (length pre)
    longer = omega (arith, length-append pre (x ∷ []))

-- `left` words of `prevhash` from word `w`, each with its bytes reversed.
abbrev pub swapped_words : ℕ → ℕ → Bytes → Bytes
swapped_words left w prevhash = flatten (tabulate left w (swapped_word prevhash))

abbrev pub four_times : ℕ → ℕ
four_times zero = 0
four_times (suc n) = suc (suc (suc (suc (four_times n))))

four_times_lem : (n : ℕ) → four_times n ≡ 4 * n
four_times_lem zero = refl
four_times_lem (suc n) = omega (arith, four_times_lem n)

-- The loop over `prevhash` fills the space for it.
write_words-middle :
    (left w : ℕ) (prevhash pre post : Bytes)
    → length pre ≡ 4 + w * 4
    → write_words left w prevhash (pre ++ (replicate (four_times left) 0 ++ post))
      ≡ pre ++ (swapped_words left w prevhash ++ post)
unfolding write_words
write_words-middle zero w prevhash pre post e = refl
write_words-middle (suc left) w prevhash pre post e =
    ap (write_words left (suc w) prevhash) here
    ∙ write_words-middle left (suc w) prevhash (pre ++ word) post
        (omega (arith, e, length-append pre word))
    ∙ append_assoc pre word (swapped_words left (suc w) prevhash ++ post)
  where
    word : Bytes
    word = swapped_word prevhash w

    rest : Bytes
    rest = replicate (four_times left) 0 ++ post

    here : write (pre ++ 0 ∷ 0 ∷ 0 ∷ 0 ∷ rest) (4 + w * 4) word ≡ (pre ++ word) ++ rest
    here =
        ap (λ at. write (pre ++ 0 ∷ 0 ∷ 0 ∷ 0 ∷ rest) at word) (sym e)
        ∙ write-middle word (0 ∷ 0 ∷ 0 ∷ 0 ∷ []) rest pre refl
        ∙ sym (append_assoc pre word rest)

-- The fields of a header in their order: version, previous hash with the bytes of each word
-- reversed, merkle root, time, target bits, and room for the nonce.
abbrev pub laid_out : ℕ → Bytes → Bytes → ℕ → ℕ → Bytes
laid_out version prevhash merkle ntime nbits =
    le_bytes version
    ++ (swapped_words 8 0 prevhash
        ++ (merkle ++ (le_bytes ntime ++ (le_bytes nbits ++ replicate 4 0))))

module _ (version : ℕ) (prevhash merkle : Bytes) (ntime nbits : ℕ) (root : length merkle ≡ 32) where
  abbrev words : Bytes
  words = swapped_words 8 0 prevhash

  abbrev before_root : Bytes
  before_root = le_bytes version ++ words

  abbrev before_time : Bytes
  before_time = before_root ++ merkle

  length-before_time : length before_time ≡ 68
  length-before_time = omega (arith, length-append before_root merkle)

  -- The writes at fixed offsets lay the fields out one after the other.
  pub header-laid_out :
      header version prevhash merkle ntime nbits ≡ laid_out version prevhash merkle ntime nbits
  unfolding header
  header-laid_out =
      ap finish_from (ap (write_words 8 0 prevhash) versioned ∙ filled)
      ∙ ap times rooted
      ∙ ap (λ h. write h 72 (le_bytes nbits)) timed
      ∙ bits
      ∙ append_assoc before_time (le_bytes ntime) (le_bytes nbits ++ replicate 4 0)
      ∙ append_assoc before_root merkle (le_bytes ntime ++ (le_bytes nbits ++ replicate 4 0))
    where
      times : Bytes → Bytes
      times h = write (write h 68 (le_bytes ntime)) 72 (le_bytes nbits)

      finish_from : Bytes → Bytes
      finish_from h = times (write h 36 merkle)

      versioned : write (replicate 80 0) 0 (le_bytes version) ≡ le_bytes version ++ replicate 76 0
      versioned = write-middle (le_bytes version) (replicate 4 0) (replicate 76 0) [] refl

      filled :
          write_words 8 0 prevhash (le_bytes version ++ replicate 76 0)
          ≡ before_root ++ replicate 44 0
      filled = write_words-middle 8 0 prevhash (le_bytes version) (replicate 44 0) refl

      rooted : write (before_root ++ replicate 44 0) 36 merkle ≡ before_time ++ replicate 12 0
      rooted =
          write-middle merkle (replicate 32 0) (replicate 12 0) before_root (sym root)
          ∙ sym (append_assoc before_root merkle (replicate 12 0))

      timed :
          write (before_time ++ replicate 12 0) 68 (le_bytes ntime)
          ≡ (before_time ++ le_bytes ntime) ++ replicate 8 0
      timed =
          ap (λ at. write (before_time ++ replicate 12 0) at (le_bytes ntime))
            (sym length-before_time)
          ∙ write-middle (le_bytes ntime) (replicate 4 0) (replicate 8 0) before_time refl
          ∙ sym (append_assoc before_time (le_bytes ntime) (replicate 8 0))

      bits :
          write ((before_time ++ le_bytes ntime) ++ replicate 8 0) 72 (le_bytes nbits)
          ≡ (before_time ++ le_bytes ntime) ++ (le_bytes nbits ++ replicate 4 0)
      bits =
          ap (λ at. write ((before_time ++ le_bytes ntime) ++ replicate 8 0) at (le_bytes nbits))
            (omega (arith, length-append before_time (le_bytes ntime), length-before_time))
          ∙ write-middle (le_bytes nbits) (replicate 4 0) (replicate 4 0)
              (before_time ++ le_bytes ntime) refl

  pub length-laid_out : length (laid_out version prevhash merkle ntime nbits) ≡ 80
  length-laid_out =
      omega
        (arith, root, length-append merkle (le_bytes ntime ++ (le_bytes nbits ++ replicate 4 0)))
