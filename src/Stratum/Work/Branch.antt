-- ===== src/Stratum/Work/Branch.antt =====
-- src/stratum/work.cpp: the merkle root of a branch.
use minerby.Base.{
  Bytes, List, [], ◌∷◌, ◌++◌, ◌==◌, ==_iff, length, foldl, ok, require, bad_length, true, ◌≡◌, refl,
  >>=-eq-ok, require-eq-ok, ok-injective,
}
use minerby.Util.Hex.{from_hex}
use minerby.Pow.Sha256.{sha256d}
use minerby.Pow.Sha256.Padding.{sha256-size}
use minerby.Stratum.Work.{fold_branch}

-- The nodes of a branch, decoded: 32 bytes each.
abbrev pub Decodes : List Bytes → List Bytes → Type 0
Decodes [] [] = Unit
Decodes (n ∷ ns) (b ∷ bs) = (from_hex n ≡ ok b) × (length b ≡ 32) × Decodes ns bs
Decodes _ _ = ⊥

module _ (junk : Bytes) (stack : length junk ≡ 64) where
  -- The root of a branch: each node in turn is hashed to the right of what is there.
  abbrev pub root_of : Bytes → List Bytes → Bytes
  root_of leaf bs = foldl (λ acc b. sha256d junk (acc ++ b)) leaf bs

  pub sha256d-length : (msg : Bytes) → length (sha256d junk msg) ≡ 32
  unfolding sha256d
  sha256d-length msg = (sha256-size junk _ stack).0

  pub fold_branch-root_of :
      (nodes : List Bytes) (leaf root : Bytes)
      → fold_branch junk leaf nodes ≡ ok root
      → (bs : List Bytes) × Decodes nodes bs × (root_of leaf bs ≡ root)
  unfolding fold_branch
  fold_branch-root_of [] leaf root e = ([], tt, ok-injective e)
  fold_branch-root_of (n ∷ ns) leaf root e =
      let (b, read, e') = >>=-eq-ok (from_hex n) _ e in
      let (u, checked, e'') = >>=-eq-ok (require (length b == 32) bad_length) _ e' in
      let (bs, rest, done) = fold_branch-root_of ns (sha256d junk (leaf ++ b)) root e'' in
      (b ∷ bs, (read, (==_iff _ 32).0 (require-eq-ok _ bad_length checked), rest), done)

  pub length-root_of :
      (bs : List Bytes) (leaf : Bytes) → length leaf ≡ 32 → length (root_of leaf bs) ≡ 32
  length-root_of [] leaf h = h
  length-root_of (b ∷ bs) leaf h = length-root_of bs _ (sha256d-length (leaf ++ b))

  pub fold_branch-total :
      (ns bs : List Bytes) (leaf : Bytes)
      → Decodes ns bs
      → fold_branch junk leaf ns ≡ ok (root_of leaf bs)
  unfolding fold_branch
  fold_branch-total [] [] leaf d = refl
  fold_branch-total [] (b ∷ bs) leaf d = absurd d
  fold_branch-total (n ∷ ns) [] leaf d = absurd d
  fold_branch-total (n ∷ ns) (b ∷ bs) leaf d =
      let size : (length b == 32) ≡ true = (==_iff _ 32).1 d.1 in
      rw (d.0, size) (fold_branch-total ns bs (sha256d junk (leaf ++ b)) d.2)
