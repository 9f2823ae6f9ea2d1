-- ===== src/App/Run/Retries.antt =====
-- src/app/main.cpp: the waits between tries to connect.
use minerby.Base.{
  ℕ, suc, ◌*◌, ◌^◌, min, List, [], ◌∷◌, All, length, tabulate, false, Option, ok, >>=-eq-ok,
  ok-injective, ◌≡◌, refl, sym, subst, ap, ap₂, ◌∙◌, arith,
}
use minerby.Pow.Doubles.{Doubles}
use minerby.Pool.PoolClient.{PoolClient, IsPoolClient}
use minerby.App.Run.{
  Run, Round, Ending, stopped, expired, retried, dropped, starved, went_on, is_last, Ended, Looped,
  round, loop,
}
use minerby.App.Run.Rounds.{Left, round-IsSettled}
use minerby.App.Run.Loop.{loop_on_cases}

-- The round ends with a failed try.
abbrev pub IsRetry : Ending → Type 0
IsRetry (retried n) = Unit
IsRetry stopped = ⊥
IsRetry expired = ⊥
IsRetry dropped = ⊥
IsRetry starved = ⊥
IsRetry (went_on persisted shown) = ⊥

retry-goes : (n : Ending) → IsRetry n → is_last n ≡ false
retry-goes (retried n) retry = refl
retry-goes stopped retry = absurd retry
retry-goes expired retry = absurd retry
retry-goes dropped retry = absurd retry
retry-goes starved retry = absurd retry
retry-goes (went_on persisted shown) retry = absurd retry

-- `connect` failed `k` times since the last connection: the wait is 1, 2, 4, … seconds, at most 30.
abbrev pub wait_after : ℕ → ℕ
wait_after k = min (2 ^ k) 30

wait_after-suc : (k : ℕ) → min (wait_after k * 2) 30 ≡ wait_after (suc k)
wait_after-suc k = omega arith

module _ (D : Doubles) (share_diff : D.Double) (P : PoolClient) (laws : IsPoolClient P)
    (deadline : Option ℕ) where
  open P use {Client, Outside}

  retry_left :
      (s : Run Client) (r : Round Outside) (e : Ended Client)
      → r.looks ≡ []
      → IsRetry e.ending
      → round D share_diff P deadline s r ≡ ok e
      → (e.ending ≡ retried (s.backoff * 10)) × (e.run.backoff ≡ min (s.backoff * 2) 30)
  retry_left s r e calm retry went =
      by_ending e.ending retry (round-IsSettled D share_diff P laws deadline s r e went)
    where
      by_ending :
          (n : Ending)
          → IsRetry n
          → Left D share_diff P laws deadline s r e.run n
          → (n ≡ retried (s.backoff * 10)) × (e.run.backoff ≡ min (s.backoff * 2) 30)
      by_ending (retried n) retry v = (ap retried (v.4 calm), v.2)
      by_ending stopped retry v = absurd retry
      by_ending expired retry v = absurd retry
      by_ending dropped retry v = absurd retry
      by_ending starved retry v = absurd retry
      by_ending (went_on persisted shown) retry v = absurd retry

  retries_from :
      (k : ℕ) (s : Run Client) (rs : List (Round Outside)) (o : Looped Client)
      → s.backoff ≡ wait_after k
      → All (λ r. r.looks ≡ []) rs
      → All IsRetry o.endings
      → loop D share_diff P deadline s rs ≡ ok o
      → o.endings ≡ tabulate (length rs) k (λ i. retried (10 * wait_after i))
  unfolding loop
  retries_from k s [] o b calm all h = ap (λ x. x.endings) (sym (ok-injective h))
  retries_from k s (r ∷ rs) o b calm all h =
      let (e, went, h') = >>=-eq-ok (round D share_diff P deadline s r) _ h in
      loop_on_cases (λ t. loop D share_diff P deadline t rs) e o
        (λ last same.
          let one = subst (λ x. All IsRetry x.endings) (sym same) all in
          absurd (ground (arith, retry-goes e.ending one.0)))
        (λ _ rest ran same.
          let all' = subst (λ x. All IsRetry x.endings) (sym same) all in
          let (now, next) = retry_left s r e calm.0 all'.0 went in
          ap (λ x. x.endings) (sym same)
          ∙ ap₂ ◌∷◌ (now ∙ ap retried (omega (arith, b))) (
              retries_from (suc k) e.run rs rest
                (next ∙ ap (λ n. min (n * 2) 30) b ∙ wait_after-suc k) calm.1 all'.1 ran))
        h'

  -- Tries that fail one after the other, with no signal: the k-th, counted from 0, is followed by a
  -- wait of 2^k seconds or 30, whichever is less, in tenths of a second.
  pub retries-back_off :
      (s : Run Client) (rs : List (Round Outside)) (o : Looped Client)
      → s.backoff ≡ 1
      → All (λ r. r.looks ≡ []) rs
      → All IsRetry o.endings
      → loop D share_diff P deadline s rs ≡ ok o
      → o.endings ≡ tabulate (length rs) 0 (λ i. retried (10 * wait_after i))
  retries-back_off s rs o b = retries_from 0 s rs o b
