-- ===== src/App/Options/HostPort.antt =====
-- src/app/main.cpp: what `--pool` and the path of the configuration file come to.
use minerby.Base.{
  ℕ, suc, ◌∙◌, ◌+◌, ◌%◌, ◌^◌, ◌<◌, ◌==◌, Bool, true, false, Bytes, [], ◌∷◌, ◌++◌, codes, take,
  length, All, none, some, ok, ◌≡◌, refl, ap, arith, >>=-eq-ok, ok-injective, sym, subst, if_split,
  if_either, Option,
}
use minerby.Util.Decimal.{to_string, stoi, stoi-to_string, to_string-Lacks}
use minerby.Config.{Config, is_empty, is_negative, validate}
use minerby.Config.Valid.{IsValid, validate-IsValid}
use minerby.App.Options.{
  Overrides, override_user, override_threads, override_metrics, apply_overrides, split_last,
  point_at, override_pool, is_slash, default_stats_path,
}

none_behind :
    (test : ℕ → Bool) (post : Bytes) → All (λ b. test b ≡ false) post → split_last test post ≡ none
unfolding split_last
none_behind test [] h = refl
none_behind test (b ∷ post) h = rw (h.0, none_behind test post h.1) refl

split_last-last :
    (test : ℕ → Bool) (pre : Bytes) (c : ℕ) (post : Bytes)
    → test c ≡ true
    → All (λ b. test b ≡ false) post
    → split_last test (pre ++ c ∷ post) ≡ some (pre, post)
unfolding split_last
split_last-last test [] c post hit h = rw (hit, none_behind test post h) refl
split_last-last test (b ∷ pre) c post hit h = rw (split_last-last test pre c post hit h) refl

not_empty : (host : Bytes) (c : ℕ) (s : Bytes) → is_empty (host ++ c ∷ s) ≡ false
not_empty [] c s = refl
not_empty (b ∷ host) c s = refl

-- `--pool` with any host, colons of its own included, a colon and the decimal text of any `int` that
-- is not negative: the host is as given, and the port is the number modulo 2^16. So a port is
-- taken as given if it is one, and a larger number is not refused.
pub override_pool-to_string :
    {Double : Type 0} (host : Bytes) (n : ℕ) (c : Config Double)
    → n < 2 ^ 31
    → override_pool (host ++ b':' ∷ to_string n) c
      ≡ ok (record c { pool_host = host; pool_port = n % 2 ^ 16 })
unfolding override_pool
override_pool-to_string host n c small =
    rw
      (
        not_empty host b':' (to_string n),
        split_last-last (λ b. b == b':') host b':' (to_string n) refl (to_string-Lacks b':' n refl),
        stoi-to_string n small,
      )
      refl

take-pre :
    (pre : Bytes) (c : ℕ) (post : Bytes) → take (suc (length pre)) (pre ++ c ∷ post) ≡ pre ++ c ∷ []
take-pre [] c post = refl
take-pre (b ∷ pre) c post = ap (◌∷◌ b) (take-pre pre c post)

-- The statistics file stands beside the configuration file: behind the last separator of the path.
pub default_stats_path-beside :
    (dir : Bytes) (c : ℕ) (name : Bytes)
    → is_slash c ≡ true
    → All (λ b. is_slash b ≡ false) name
    → default_stats_path (dir ++ c ∷ name) ≡ (dir ++ c ∷ []) ++ codes "minerby-stats.json"
unfolding default_stats_path
default_stats_path-beside dir c name hit h =
    let one_more : length dir + 1 ≡ suc (length dir) = omega arith in
    rw (split_last-last is_slash dir c name hit h) (
      ap (λ k. take k (dir ++ c ∷ name) ++ codes "minerby-stats.json") one_more
      ∙ ap (λ d. d ++ codes "minerby-stats.json") (take-pre dir c name))

abbrev pub Keeps : {Double : Type 0} → Config Double → Config Double → Type 0
Keeps c r = (r.protocol ≡ c.protocol) × (r.engine ≡ c.engine)

point_at-Keeps :
    {Double : Type 0} (c r : Config Double) (found : Option (Bytes × Bytes))
    → point_at c found ≡ ok r
    → Keeps c r
point_at-Keeps c r none h = cc
point_at-Keeps c r (some (host, port)) h =
    let (n, _, h') = >>=-eq-ok (stoi port) _ h in subst (Keeps c) (ok-injective h') (refl, refl)

override_pool-Keeps :
    {Double : Type 0} (pool : Bytes) (c r : Config Double) → override_pool pool c ≡ ok r → Keeps c r
unfolding override_pool
override_pool-Keeps pool c r =
    if_split (is_empty pool) (λ _ h. subst (Keeps c) (ok-injective h) (refl, refl))
      (λ _. point_at-Keeps c r (split_last (λ b. b == b':') pool))

chosen-Keeps :
    {Double : Type 0} (o : Overrides) (c : Config Double)
    → Keeps c
        (override_metrics o.metrics_port (override_threads o.threads (override_user o.user c)))
chosen-Keeps o c =
    let user = override_user o.user c in
    let threads = override_threads o.threads user in
    let kept : Keeps c user = if_either (Keeps c) (is_empty o.user) (refl, refl) (refl, refl) in
    let still : Keeps c threads = if_either (Keeps c) (is_negative o.threads) kept kept in
    if_either (Keeps c) (is_negative o.metrics_port) still still

-- What the options leave passes the checks of the configuration, whatever the file had said; the
-- options keep the protocol and the engine.
pub apply_overrides-IsValid :
    {Double : Type 0} (with_randomx : Bool) (o : Overrides) (c r : Config Double)
    → apply_overrides with_randomx o c ≡ ok r
    → IsValid with_randomx r × (r.protocol ≡ c.protocol) × (r.engine ≡ c.engine)
unfolding apply_overrides
apply_overrides-IsValid with_randomx o c r h =
    let (pointed, read, h') = >>=-eq-ok (override_pool o.pool c) _ h in
    let chosen =
      override_metrics o.metrics_port (override_threads o.threads (override_user o.user pointed)) in
    let (_, passed, h'') = >>=-eq-ok (validate with_randomx chosen) _ h' in
    let (protocol, engine) = override_pool-Keeps o.pool c pointed read in
    let (same_protocol, same_engine) = chosen-Keeps o pointed in
    let last : chosen ≡ r = ok-injective h'' in
    (
      subst (IsValid with_randomx) last (validate-IsValid with_randomx chosen passed),
      ap (λ x. x.protocol) (sym last) ∙ same_protocol ∙ protocol,
      ap (λ x. x.engine) (sym last) ∙ same_engine ∙ engine,
    )
