-- ===== src/Pow/Sha256/Absorb.antt =====
-- src/pow/sha256.cpp: what the members hold after any number of bytes has been fed to `update`.
use minerby.Base.{
  ℕ, suc, ◌+◌, ◌*◌, ◌%◌, ◌^◌, ◌<◌, Bytes, List, [], ◌∷◌, ◌++◌, ◌==◌, ==_iff, length, take, set,
  flatten, All, All-append, foldl, u64, ◌≡◌, refl, sym, ap, ap₂, ◌∙◌, subst, arith, Bool-cases, inl,
  inr, length-append, length-set, take-set-suc, take_all, append_assoc, append-nil,
}
use minerby.Pow.Sha256.Rounds.{compress}
use minerby.Pow.Sha256.{Sha256, initial_state, reset, fresh, transform, update_byte, update}

abbrev pub IsBlock : Bytes → Type 0
IsBlock b = length b ≡ 64

-- `s` has been fed `msg` since its reset: whole blocks are compressed, the rest is in the buffer.
pub record Absorbed (s : Sha256) (msg : Bytes) : Type 0 where
  pub blocks : List Bytes
  pub tail : Bytes
  pub split : flatten blocks ++ tail ≡ msg
  pub whole : All IsBlock blocks
  pub short : length tail < 64
  pub hashed : s.state ≡ foldl compress initial_state blocks
  pub counted : s.bitlen ≡ 512 * length blocks % 2 ^ 64
  pub filled : s.buflen ≡ length tail
  pub room : length s.buf ≡ 64
  pub held : take s.buflen s.buf ≡ tail

pub length-flatten : (bs : List Bytes) → All IsBlock bs → length (flatten bs) ≡ 64 * length bs
length-flatten [] h = refl
length-flatten (b ∷ bs) h = omega (arith, length-append b (flatten bs), length-flatten bs h.1, h.0)

flatten-append : (bs : List Bytes) (b : Bytes) → flatten (bs ++ b ∷ []) ≡ flatten bs ++ b
flatten-append [] b = append-nil b
flatten-append (x ∷ bs) b = ap (◌++◌ x) (flatten-append bs b) ∙ sym (append_assoc x (flatten bs) b)

foldl-append :
    (h : List ℕ) (bs : List Bytes) (b : Bytes)
    → foldl compress h (bs ++ b ∷ []) ≡ compress (foldl compress h bs) b
foldl-append h [] b = refl
foldl-append h (x ∷ bs) b = foldl-append (compress h x) bs b

pub fresh-Absorbed : (junk : Bytes) → length junk ≡ 64 → Absorbed (fresh junk) []
unfolding fresh reset
fresh-Absorbed junk h = record {
  blocks = [];
  tail = [];
  split = refl;
  whole = tt;
  short = omega arith;
  hashed = refl;
  counted = refl;
  filled = refl;
  room = h;
  held = refl;
}

module _ {s : Sha256} {msg : Bytes} (v : Absorbed s msg) (b : ℕ) where
  open v use {blocks, tail, split, whole, short, hashed, counted, filled, room, held}

  extended : flatten blocks ++ (tail ++ b ∷ []) ≡ msg ++ b ∷ []
  extended = sym (append_assoc (flatten blocks) tail (b ∷ [])) ∙ ap (λ xs. xs ++ b ∷ []) split

  grown : take (suc s.buflen) (set s.buf s.buflen b) ≡ tail ++ b ∷ []
  grown =
      take-set-suc s.buf s.buflen b (omega (arith, filled, room, short))
      ∙ ap (λ xs. xs ++ b ∷ []) held

  grown_length : length (tail ++ b ∷ []) ≡ suc s.buflen
  grown_length = omega (arith, length-append tail (b ∷ []), filled)

  full_block : suc s.buflen ≡ 64 → set s.buf s.buflen b ≡ tail ++ b ∷ []
  full_block full =
      sym (take_all (set s.buf s.buflen b))
      ∙ ap (λ n. take n (set s.buf s.buflen b)) (length-set s.buf s.buflen b ∙ room ∙ sym full)
      ∙ grown

  abbrev block : Bytes
  block = tail ++ b ∷ []

  abbrev flushed : Sha256
  flushed = record {
    state = compress s.state (set s.buf s.buflen b);
    bitlen = u64 (s.bitlen + 512);
    buf = set s.buf s.buflen b;
    buflen = 0;
  }

  abbrev stored : Sha256
  stored = record s { buf = set s.buf s.buflen b; buflen = s.buflen + 1 }

  flushed-Absorbed : suc s.buflen ≡ 64 → Absorbed flushed (msg ++ b ∷ [])
  flushed-Absorbed full = record {
    blocks = blocks ++ block ∷ [];
    tail = [];
    split = append-nil _ ∙ flatten-append blocks block ∙ extended;
    whole = All-append IsBlock blocks (block ∷ []) whole (grown_length ∙ full, tt);
    short = omega arith;
    hashed = ap₂ compress hashed (full_block full) ∙ sym (foldl-append initial_state blocks block);
    counted = omega (arith, counted, length-append blocks (block ∷ []));
    filled = refl;
    room = length-set s.buf s.buflen b ∙ room;
    held = refl;
  }

  stored-Absorbed : suc s.buflen < 64 → Absorbed stored (msg ++ b ∷ [])
  stored-Absorbed more = record {
    blocks = blocks;
    tail = block;
    split = extended;
    whole = whole;
    short = omega (arith, grown_length);
    hashed = hashed;
    counted = counted;
    filled = omega (arith, grown_length);
    room = length-set s.buf s.buflen b ∙ room;
    held =
        let e : s.buflen + 1 ≡ suc s.buflen = omega arith in
        ap (λ n. take n (set s.buf s.buflen b)) e ∙ grown;
  }

  pub update_byte-Absorbed : Absorbed (update_byte s b) (msg ++ b ∷ [])
  unfolding update_byte transform
  update_byte-Absorbed = elim (Bool-cases (s.buflen + 1 == 64)) [
    | inl full ↦ rw full (flushed-Absorbed (omega (arith, (==_iff (s.buflen + 1) 64).0 full)))
    | inr more ↦ rw more (stored-Absorbed (ground (arith, filled, short)))
  ]

-- `update` absorbs its bytes in order, however they are split into calls.
pub update-Absorbed :
    (bs : Bytes) {s : Sha256} {msg : Bytes} → Absorbed s msg → Absorbed (update s bs) (msg ++ bs)
unfolding update
update-Absorbed [] v = subst (Absorbed _) (sym (append-nil _)) v
update-Absorbed (b ∷ bs) {s} {msg} v =
    subst (Absorbed _) (append_assoc msg (b ∷ []) bs)
      (update-Absorbed bs (update_byte-Absorbed v b))

-- The buffer's fill and the bit counter, from the length of what was absorbed.
pub buflen-Absorbed : {s : Sha256} {msg : Bytes} → Absorbed s msg → s.buflen ≡ length msg % 64
buflen-Absorbed v = omega (
  arith,
  v.filled,
  v.short,
  ap length v.split,
  length-append (flatten v.blocks) v.tail,
  length-flatten v.blocks v.whole,
)

pub bits-Absorbed :
    {s : Sha256} {msg : Bytes}
    → Absorbed s msg
    → (s.bitlen + s.buflen * 8) % 2 ^ 64 ≡ 8 * length msg % 2 ^ 64
bits-Absorbed v = omega (
  arith,
  v.filled,
  v.counted,
  ap length v.split,
  length-append (flatten v.blocks) v.tail,
  length-flatten v.blocks v.whole,
)
