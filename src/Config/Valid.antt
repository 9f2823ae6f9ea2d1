-- ===== src/Config/Valid.antt =====
-- src/config/config.cpp: what a configuration that passes `validate` is good for.
use minerby.Base.{
  ℕ, ◌<◌, Bytes, [], ◌∷◌, codes, ◌==◌, Bool, true, false, not, ◌||◌, Option, none, some, Result, ok,
  err, bad_config, require, ◌≡◌, ◌≢◌, ◌⊎◌, inl, inr, subst, arith, >>=-eq-ok, require-eq-ok,
  ok-injective, Bool-cases, same_bytes, same_bytes_sound,
}
use minerby.Json.{JsonLib}
use minerby.Config.{
  Config, is_empty, is_negative, validate_engine, validate, effective_threads, read_config,
  from_json,
}

abbrev pub HasPair : {Double : Type 0} → Bool → Config Double → Type 0
HasPair with_randomx c =
    ((c.protocol ≡ codes "bitcoin") × (c.engine ≡ codes "sha256d"))
    ⊎ ((c.protocol ≡ codes "monero")
        × (c.engine ≡ codes "randomx")
        × (with_randomx ≡ true)
        × ((c.randomx.mode ≡ codes "light") ⊎ (c.randomx.mode ≡ codes "fast")))

-- A pool to connect to, a user, and one of the two pairs of protocol and engine.
pub record IsValid {Double : Type 0} (with_randomx : Bool) (c : Config Double) : Type 0 where
  pub host : c.pool_host ≢ []
  pub port : 0 < c.pool_port
  pub user : c.user ≢ []
  pub threads : is_negative c.threads ≡ false
  pub priority : (c.cpu_priority ≡ codes "low") ⊎ (c.cpu_priority ≡ codes "normal")
  pub pair : HasPair with_randomx c

not_empty : (xs : Bytes) → not (is_empty xs) ≡ true → xs ≢ []
not_empty [] h e = cc
not_empty (x ∷ xs) h e = cc

either : (xs ys zs : Bytes) → same_bytes xs ys || same_bytes xs zs ≡ true → (xs ≡ ys) ⊎ (xs ≡ zs)
either xs ys zs h = elim (Bool-cases (same_bytes xs ys)) [
  | inl hit ↦ inl (same_bytes_sound xs ys hit)
  | inr miss ↦ inr (same_bytes_sound xs zs (rw miss at h))
]

module _ {Double : Type 0} (with_randomx : Bool) (c : Config Double) where
  validate_engine-HasPair :
      {u : Unit {0}} → validate_engine with_randomx c ≡ ok u → HasPair with_randomx c
  unfolding validate_engine
  validate_engine-HasPair e = elim (Bool-cases (same_bytes c.protocol (codes "bitcoin"))) [
    | inl b ↦ inl (
      same_bytes_sound c.protocol (codes "bitcoin") b,
      same_bytes_sound c.engine (codes "sha256d") (require-eq-ok _ bad_config (rw b at e)),
    )
    | inr nb ↦ elim (Bool-cases (same_bytes c.protocol (codes "monero"))) [
      | inl m ↦
          let e' = rw (nb, m) at e in
          let (u, engine, e') =
            >>=-eq-ok (require (same_bytes c.engine (codes "randomx")) bad_config) _ e' in
          let (u, built, e') = >>=-eq-ok (require with_randomx bad_config) _ e' in
          inr (
            same_bytes_sound c.protocol (codes "monero") m,
            same_bytes_sound c.engine (codes "randomx") (require-eq-ok _ bad_config engine),
            require-eq-ok _ bad_config built,
            either c.randomx.mode (codes "light") (codes "fast") (require-eq-ok _ bad_config e'),
          )
      | inr nm ↦
          absurd
            (let bad : ◌≡◌ {A = Result (Unit {0})} (err bad_config) (ok _) = rw (nb, nm) at e in cc)
    ]
  ]

  pub validate-IsValid : {u : Unit {0}} → validate with_randomx c ≡ ok u → IsValid with_randomx c
  unfolding validate
  validate-IsValid e =
      let (u, host, e) = >>=-eq-ok (require (not (is_empty c.pool_host)) bad_config) _ e in
      let (u, port, e) = >>=-eq-ok (require (not (c.pool_port == 0)) bad_config) _ e in
      let (u, user, e) = >>=-eq-ok (require (not (is_empty c.user)) bad_config) _ e in
      let (u, threads, e) = >>=-eq-ok (require (not (is_negative c.threads)) bad_config) _ e in
      let (u, priority, e) =
        >>=-eq-ok
          (require
            (same_bytes c.cpu_priority (codes "low") || same_bytes c.cpu_priority (codes "normal"))
            bad_config)
          _ e in
      let some_port : not (c.pool_port == 0) ≡ true = require-eq-ok _ bad_config port in
      let counted : not (is_negative c.threads) ≡ true = require-eq-ok _ bad_config threads in
      record {
        host = not_empty c.pool_host (require-eq-ok _ bad_config host);
        port = ground (arith, some_port);
        user = not_empty c.user (require-eq-ok _ bad_config user);
        threads = ground (arith, counted);
        priority =
            either c.cpu_priority (codes "low") (codes "normal")
              (require-eq-ok _ bad_config priority);
        pair = validate_engine-HasPair e;
      }

-- A configuration that is read from a file names a host, a port, a user and one of the two pairs of
-- protocol and engine, the second only in a build with RandomX and with a known mode; it always
-- runs at least one thread.
pub from_json-IsValid :
    {Double : Type 0} (J : JsonLib Double) (with_randomx : Bool) (d : Config Double)
    (file : Option J.Json) (c : Config Double) (hardware : ℕ)
    → from_json J with_randomx d file ≡ ok c
    → IsValid with_randomx c × (0 < effective_threads c hardware)
unfolding from_json effective_threads
from_json-IsValid J with_randomx d none c hardware e = cc
from_json-IsValid J with_randomx d (some j) c hardware e =
    let (r, read, e) = >>=-eq-ok (read_config J j d) _ e in
    let (u, valid, e) = >>=-eq-ok (validate with_randomx r) _ e in
    let v = subst (IsValid with_randomx) (ok-injective e) (validate-IsValid with_randomx r valid) in
    (v, ground (arith, v.threads))
