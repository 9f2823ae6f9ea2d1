-- ===== src/App/Engine/Choice.antt =====
-- src/app/main.cpp and src/config/config.cpp: what a configuration that passes the checks runs.
use minerby.Base.{
  Bytes, ◌∙◌, codes, Bool, true, false, some, ◌≡◌, ◌⊎◌, inl, inr, refl, ap, same_bytes,
  same_bytes_refl,
}
use minerby.Config.{Config}
use minerby.Config.Valid.{IsValid}
use minerby.App.Engine.{Engine, sha256d_stratum, randomx_monero, options_of, choose}

-- The engine is the one that the configuration names, in the mode that it names.
abbrev pub Runs : {Double : Type 0} → Config Double → Engine → Type 0
Runs c sha256d_stratum = (c.protocol ≡ codes "bitcoin") × (c.engine ≡ codes "sha256d")
Runs c (randomx_monero opt) =
    (c.protocol ≡ codes "monero")
    × (c.engine ≡ codes "randomx")
    × (((opt.fast_mode ≡ true) × (c.randomx.mode ≡ codes "fast"))
        ⊎ ((opt.fast_mode ≡ false) × (c.randomx.mode ≡ codes "light")))

not_monero : same_bytes (codes "bitcoin") (codes "monero") ≡ false
unfolding same_bytes
not_monero = refl

not_fast : same_bytes (codes "light") (codes "fast") ≡ false
unfolding same_bytes
not_fast = refl

mode_kept :
    (mode : Bytes)
    → (mode ≡ codes "light") ⊎ (mode ≡ codes "fast")
    → ((same_bytes mode (codes "fast") ≡ true) × (mode ≡ codes "fast"))
      ⊎ ((same_bytes mode (codes "fast") ≡ false) × (mode ≡ codes "light"))
mode_kept mode (inl light) = inr (ap (λ m. same_bytes m (codes "fast")) light ∙ not_fast, light)
mode_kept mode (inr fast) =
    inl (ap (λ m. same_bytes m (codes "fast")) fast ∙ same_bytes_refl (codes "fast"), fast)

-- A configuration that passes the checks always gets an engine, though only its protocol is looked
-- at: the engine that it names, with the client of its protocol, and RandomX in the mode that it
-- names.
pub choose-IsValid :
    {Double : Type 0} (with_randomx : Bool) (c : Config Double)
    → IsValid with_randomx c
    → (e : Engine) × (choose with_randomx c ≡ some e) × Runs c e
unfolding choose
choose-IsValid with_randomx c v = by_pair v.pair
  where
    by_pair :
        ((c.protocol ≡ codes "bitcoin") × (c.engine ≡ codes "sha256d"))
          ⊎ ((c.protocol ≡ codes "monero")
              × (c.engine ≡ codes "randomx")
              × (with_randomx ≡ true)
              × ((c.randomx.mode ≡ codes "light") ⊎ (c.randomx.mode ≡ codes "fast")))
        → (e : Engine) × (choose with_randomx c ≡ some e) × Runs c e
    by_pair (inl (protocol, engine)) = (
      sha256d_stratum,
      rw (ap (λ p. same_bytes p (codes "monero")) protocol ∙ not_monero) refl,
      (protocol, engine),
    )
    by_pair (inr (protocol, engine, built, mode)) = (
      randomx_monero (options_of c),
      rw
          (
            ap (λ p. same_bytes p (codes "monero")) protocol ∙ same_bytes_refl (codes "monero"),
            built,
          )
          refl,
      (protocol, engine, mode_kept c.randomx.mode mode),
    )
