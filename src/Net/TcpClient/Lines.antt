-- ===== src/Net/TcpClient/Lines.antt =====
-- src/net/tcp_client.cpp: `read_line` cuts the byte stream into lines, however `recv` splits it.
use minerby.Base.{
  Bytes, List, [], ◌∷◌, ◌++◌, ◌==◌, ==_iff, length, ltb, none, some, ◌≡◌, ◌≢◌, refl, sym, ap, ◌∙◌,
  subst, arith, All, Bool-cases, Option-cases, some-injective, inl, inr, append_assoc, append-nil,
}
use minerby.Net.TcpClient.{
  TcpClient, is_open, Received, got, ended, lost, split_line, strip_cr, max_line, ReadResult,
  or_line, no_line, read_loop, read_line,
}

abbrev pub IsPlain : Bytes → Type 0
IsPlain = All (λ b. b ≢ b'\n')

-- The bytes of the calls of `recv` that a read used up: those of `rs` before `left`.
abbrev pub bytes_of : Received → Bytes
bytes_of (got bs) = bs
bytes_of ended = []
bytes_of lost = []

abbrev pub stream : List Received → Bytes
stream [] = []
stream (r ∷ rs) = bytes_of r ++ stream rs

split_line-none : (bs : Bytes) → split_line bs ≡ none → IsPlain bs
unfolding split_line
split_line-none [] e = tt
split_line-none (b ∷ bs) e = ground (arith, split_line-none bs)

split_line-some :
    (bs raw post : Bytes)
    → split_line bs ≡ some (raw, post)
    → (bs ≡ raw ++ b'\n' ∷ post) × IsPlain raw
unfolding split_line
split_line-some [] raw post e = cc
split_line-some (b ∷ bs) raw post e = elim (Bool-cases (b == b'\n')) [
  | inl hit ↦ ground (arith, (==_iff b b'\n').0 hit)
  | inr miss ↦ elim (Option-cases (split_line bs)) [
    | inl none_left ↦ ground arith
    | inr ((raw', post'), found) ↦
        let (same, plain) = split_line-some bs raw' post' found in
        subst (λ (p : Bytes × Bytes). (b ∷ bs ≡ p.0 ++ b'\n' ∷ p.1) × IsPlain p.0)
          (some-injective (rw (miss, found) at e))
          (ap (◌∷◌ b) same, (λ h. cc (miss, (==_iff b b'\n').1 h), plain))
  ]
]

-- A read that returns a line took exactly that line, its end and the bytes before off the stream,
-- and kept the rest; a read that returns none kept every byte that it received.
pub record IsRead (rx : Bytes) (rs : List Received) (r : ReadResult) : Type 0 where
  pub used : Bytes
  pub consumed : stream rs ≡ used ++ stream r.left
  pub missing : r.line ≡ none → rx ++ used ≡ r.rx
  pub delivered :
      (line : Bytes)
      → r.line ≡ some line
      → (raw : Bytes) × (rx ++ used ≡ raw ++ b'\n' ∷ r.rx) × IsPlain raw × (line ≡ strip_cr raw)

or_line-IsRead :
    (rx : Bytes) (rs : List Received) (other : ReadResult)
    → IsRead rx rs other
    → IsRead rx rs (or_line (split_line rx) rs other)
unfolding or_line
or_line-IsRead rx rs other v = elim (Option-cases (split_line rx)) [
  | inl none_left ↦ rw none_left v
  | inr ((raw, post), found) ↦
      let (same, plain) = split_line-some rx raw post found in
      rw found (record {
        used = [];
        consumed = refl;
        missing = λ e. cc;
        delivered = λ line e. (raw, append-nil rx ∙ same, plain, sym (some-injective e));
      })
]

no_line-IsRead :
    (rx used : Bytes) (rs left : List Received)
    → stream rs ≡ used ++ stream left
    → IsRead rx rs (no_line (rx ++ used) left)
no_line-IsRead rx used rs left e = record {
  used = used;
  consumed = e;
  missing = λ _. refl;
  delivered = λ line e. cc;
}

stays-IsRead :
    (rx : Bytes) (rs left : List Received)
    → stream rs ≡ stream left
    → IsRead rx rs (no_line rx left)
stays-IsRead rx rs left e = record {
  used = [];
  consumed = e;
  missing = λ _. append-nil rx;
  delivered = λ line h. cc;
}

-- A call that brought `bs`, before a read that goes on.
after-IsRead :
    (rx bs : Bytes) (rs : List Received) (r : ReadResult)
    → IsRead (rx ++ bs) rs r
    → IsRead rx (got bs ∷ rs) r
after-IsRead rx bs rs r v = record {
  used = bs ++ v.used;
  consumed = ap (◌++◌ bs) v.consumed ∙ sym (append_assoc bs v.used (stream r.left));
  missing = λ e. sym (append_assoc rx bs v.used) ∙ v.missing e;
  delivered = λ line e.
      let (raw, same, plain, cut) = v.delivered line e in
      (raw, sym (append_assoc rx bs v.used) ∙ same, plain, cut);
}

read_loop-IsRead : (rs : List Received) (rx : Bytes) → IsRead rx rs (read_loop rx rs)
unfolding read_loop
read_loop-IsRead [] rx = or_line-IsRead rx [] _ (stays-IsRead rx [] [] refl)
read_loop-IsRead (ended ∷ rs) rx = or_line-IsRead rx (ended ∷ rs) _ (stays-IsRead rx _ rs refl)
read_loop-IsRead (lost ∷ rs) rx = or_line-IsRead rx (lost ∷ rs) _ (stays-IsRead rx _ rs refl)
read_loop-IsRead (got [] ∷ rs) rx = or_line-IsRead rx (got [] ∷ rs) _ (stays-IsRead rx _ rs refl)
read_loop-IsRead (got (b ∷ bs) ∷ rs) rx =
    or_line-IsRead rx (got (b ∷ bs) ∷ rs) _
      (elim (Bool-cases (ltb max_line (length (rx ++ b ∷ bs)))) [
        | inl long ↦ rw long (no_line-IsRead rx (b ∷ bs) (got (b ∷ bs) ∷ rs) rs refl)
        | inr short ↦ rw short (after-IsRead rx (b ∷ bs) rs _ (read_loop-IsRead rs (rx ++ b ∷ bs)))
      ])

-- Whatever `recv` returns, a read neither loses, repeats nor reorders a byte of the stream.
pub read_line-IsRead : (c : TcpClient) (rs : List Received) → IsRead c.rx rs (read_line c rs)
unfolding read_line
read_line-IsRead c rs = elim (Bool-cases (is_open c)) [
  | inl here ↦ rw here (read_loop-IsRead rs c.rx)
  | inr gone ↦ rw gone (stays-IsRead c.rx rs rs refl)
]

-- Every call brings some bytes.
abbrev pub Arrives : Received → Type 0
Arrives (got bs) = bs ≢ []
Arrives ended = ⊥
Arrives lost = ⊥
