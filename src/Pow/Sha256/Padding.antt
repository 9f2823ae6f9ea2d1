-- ===== src/Pow/Sha256/Padding.antt =====
-- src/pow/sha256.cpp: `finish` pads as FIPS 180-4 says, so the class computes the standard's
-- iterated compression over the padded message.
use minerby.Base.{
  ℕ, zero, suc, ◌+◌, ◌*◌, ◌-◌, ◌%◌, ◌<◌, Bytes, List, [], ◌∷◌, ◌++◌, ◌==◌, ==_iff, length, flatten,
  All, replicate, foldl, u64, ◌≡◌, refl, sym, ap, ◌∙◌, subst, arith, true, false, length-append,
  append_assoc, append-nil, length-replicate, IsBytes,
}
use minerby.Pow.Sha256.Rounds.{compress, add_back}
use minerby.Pow.Sha256.{
  Sha256, initial_state, fresh, update, pad_zeros, length_bytes, digest_bytes, finish_state, finish,
  sha256, word_bytes,
}
use minerby.Pow.Sha256.Absorb.{
  IsBlock, Absorbed, fresh-Absorbed, update-Absorbed, buflen-Absorbed, bits-Absorbed,
}

nil_of_length : (xs : Bytes) → length xs ≡ 0 → xs ≡ []
nil_of_length [] h = refl
nil_of_length (x ∷ xs) h = absurd (omega arith)

-- The zeros that bring a length to 56 modulo 64.
abbrev pub gap : ℕ → ℕ
gap n = (120 - n % 64) % 64

-- The loop ends by its test within its fuel, having fed exactly `gap` zeros.
pad_zeros-Absorbed :
    (fuel : ℕ) {s : Sha256} {msg : Bytes}
    → Absorbed s msg
    → (k : ℕ) → gap (length msg) ≡ k
    → k < fuel
    → Absorbed (pad_zeros fuel s) (msg ++ replicate k 0)
unfolding pad_zeros
pad_zeros-Absorbed zero v k e h = absurd (omega arith)
pad_zeros-Absorbed (suc fuel) {s} {msg} v zero e h =
    let here : (s.buflen == 56) ≡ true = (==_iff _ 56).1 (omega (arith, buflen-Absorbed v)) in
    rw here (subst (Absorbed s) (sym (append-nil msg)) v)
pad_zeros-Absorbed (suc fuel) {s} {msg} v (suc k) e h =
    let more : (s.buflen == 56) ≡ false = ground (arith, buflen-Absorbed v) in
    rw more (
      subst (Absorbed _) (append_assoc msg (0 ∷ []) (replicate k 0)) (
        pad_zeros-Absorbed fuel (update-Absorbed (0 ∷ []) v) k
          (omega (arith, length-append msg (0 ∷ []))) (omega arith)))

-- The padding of FIPS 180-4, section 5.1.1: a one bit, zeros, and the length in bits.
abbrev pub padded : Bytes → Bytes
padded msg =
    msg ++ 0x80 ∷ (replicate (gap (length msg + 1)) 0 ++ length_bytes (u64 (8 * length msg)))

finish_state-Absorbed :
    {s : Sha256} {msg : Bytes} → Absorbed s msg → Absorbed (finish_state s) (padded msg)
unfolding finish_state
finish_state-Absorbed {s} {msg} v =
    rw (bits-Absorbed v) (subst (Absorbed _) regroup (update-Absorbed size zeros))
  where
    size : Bytes
    size = length_bytes (u64 (8 * length msg))

    zeros :
        Absorbed
          (pad_zeros 64 (update s (0x80 ∷ [])))
          ((msg ++ 0x80 ∷ []) ++ replicate (gap (length msg + 1)) 0)
    zeros =
        pad_zeros-Absorbed 64 (update-Absorbed (0x80 ∷ []) v) (gap (length msg + 1))
          (omega (arith, length-append msg (0x80 ∷ []))) (omega arith)

    regroup : ((msg ++ 0x80 ∷ []) ++ replicate (gap (length msg + 1)) 0) ++ size ≡ padded msg
    regroup =
        append_assoc (msg ++ 0x80 ∷ []) (replicate (gap (length msg + 1)) 0) size
        ∙ append_assoc msg (0x80 ∷ []) (replicate (gap (length msg + 1)) 0 ++ size)

pub length-length_bytes : (n : ℕ) → length (length_bytes n) ≡ 8
unfolding length_bytes
length-length_bytes n = refl

pub length-padded : (msg : Bytes) → length (padded msg) % 64 ≡ 0
length-padded msg = omega (
  arith,
  length-append msg
      (0x80 ∷ (replicate (gap (length msg + 1)) 0 ++ length_bytes (u64 (8 * length msg)))),
  length-append (replicate (gap (length msg + 1)) 0) (length_bytes (u64 (8 * length msg))),
  length-replicate {A = ℕ} (gap (length msg + 1)) 0,
  length-length_bytes (u64 (8 * length msg)),
)

-- A digest by the standard: the padded message is cut into blocks of 64 bytes, and the digest is
-- that of the state after the compression of each.
pub record IsDigest (msg out : Bytes) : Type 0 where
  pub blocks : List Bytes
  pub whole : All IsBlock blocks
  pub cut : flatten blocks ≡ padded msg
  pub chained : out ≡ digest_bytes (foldl compress initial_state blocks)

finish-IsDigest : {s : Sha256} {msg : Bytes} → Absorbed s msg → IsDigest msg (finish s)
unfolding finish
finish-IsDigest {s} {msg} v = record {
  blocks = done.blocks;
  whole = done.whole;
  cut = sym (append-nil _) ∙ ap (◌++◌ (flatten done.blocks)) (sym none_left) ∙ done.split;
  chained = ap digest_bytes done.hashed;
}
  where
    done : Absorbed (finish_state s) (padded msg)
    done = finish_state-Absorbed v

    none_left : done.tail ≡ []
    none_left =
        nil_of_length done.tail
          (omega (arith, done.filled, done.short, buflen-Absorbed done, length-padded msg))

-- However a message is split into two calls of `update`, and whatever the buffer held before, the
-- object returns the digest of the iterated compression over the whole message, padded.
pub finish-update-update :
    (junk xs ys : Bytes)
    → length junk ≡ 64
    → IsDigest (xs ++ ys) (finish (update (update (fresh junk) xs) ys))
finish-update-update junk xs ys h =
    finish-IsDigest (update-Absorbed ys (update-Absorbed xs (fresh-Absorbed junk h)))

-- For a message of any length, `sha256` returns the digest of the iterated compression over the
-- message, padded as FIPS 180-4 says (its length in bits is taken modulo 2 ^ 64) and cut into
-- blocks of 64 bytes.
pub sha256-IsDigest : (junk msg : Bytes) → length junk ≡ 64 → IsDigest msg (sha256 junk msg)
unfolding sha256
sha256-IsDigest junk msg h = finish-IsDigest (update-Absorbed msg (fresh-Absorbed junk h))

length-foldl : (h : List ℕ) (bs : List Bytes) → length h ≡ 8 → length (foldl compress h bs) ≡ 8
unfolding compress add_back
length-foldl h [] e = e
length-foldl h (b ∷ bs) e = length-foldl (compress h b) bs refl

digest_bytes-size :
    (ws : List ℕ) → (length (digest_bytes ws) ≡ 4 * length ws) × IsBytes (digest_bytes ws)
unfolding digest_bytes word_bytes
digest_bytes-size [] = (refl, tt)
digest_bytes-size (w ∷ ws) =
    let (n, bytes) = digest_bytes-size ws in
    (omega arith, (omega arith, (omega arith, (omega arith, (omega arith, bytes)))))

-- A digest has 32 bytes.
pub sha256-size :
    (junk msg : Bytes)
    → length junk ≡ 64
    → (length (sha256 junk msg) ≡ 32) × IsBytes (sha256 junk msg)
sha256-size junk msg h =
    let d = sha256-IsDigest junk msg h in
    let (n, bytes) = digest_bytes-size (foldl compress initial_state d.blocks) in
    (
      omega (arith, ap length d.chained, length-foldl initial_state d.blocks refl),
      subst IsBytes (sym d.chained) bytes,
    )
