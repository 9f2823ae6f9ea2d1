-- ===== src/App/Run/Loop.antt =====
-- src/app/main.cpp: what the connection loop does over many rounds.
use minerby.Base.{
  ℕ, List, [], ◌∷◌, ◌++◌, true, false, Option, Result, ok, >>=-eq-ok, ok-injective, ◌≡◌, refl, sym,
  subst, ap, ◌⊎◌, ◌∙◌, arith, if_split,
}
use minerby.Pow.Doubles.{Doubles}
use minerby.Pool.PoolClient.{PoolClient, IsPoolClient}
use minerby.App.Run.{
  Run, Round, Ended, Looped, is_last, is_over, round, loop, loop_on, shut_down, stop_workers,
}
use minerby.App.JobCallback.{Workers}
use minerby.App.Run.Sound.{IsSound, round-IsSound}

-- A loop that went a round went it and then the rest, or ended with it.
pub loop_on_cases {κ} :
    {Client : Type 0} {P : Type κ} (more : Run Client → Result (Looped Client)) (e : Ended Client)
    (o : Looped Client)
    → (is_last e.ending ≡ true
        → record { run = e.run; endings = e.ending ∷ []; over = true } ≡ o
        → P)
    → (is_last e.ending ≡ false
        → (rest : Looped Client) → more e.run ≡ ok rest
        → record { run = rest.run; endings = e.ending ∷ rest.endings; over = rest.over } ≡ o
        → P)
    → loop_on more e ≡ ok o
    → P
unfolding loop_on
loop_on_cases more e o f g =
    if_split (is_last e.ending) (λ last h. f last (ok-injective h))
      (λ goes h.
        let (rest, ran, h') = >>=-eq-ok (more e.run) _ h in g goes rest ran (ok-injective h'))

module _ (D : Doubles) (share_diff : D.Double) (P : PoolClient) (deadline : Option ℕ) where
  open P use {Client, Outside}

  -- Whatever the pool sends, whatever the system returns and whenever a signal comes: at each head of
  -- the loop the wait for another try is between 1 and 30 seconds, no pause of the workers is left
  -- over, the context has the seed that the program remembers, and the workers run if they have a
  -- job.
  pub loop-IsSound :
      (s : Run Client) (rs : List (Round Outside)) (o : Looped Client)
      → IsSound s
      → loop D share_diff P deadline s rs ≡ ok o
      → IsSound o.run
  unfolding loop
  loop-IsSound s [] o v h = subst (λ x. IsSound x.run) (ok-injective h) v
  loop-IsSound s (r ∷ rs) o v h =
      let (e, went, h') = >>=-eq-ok (round D share_diff P deadline s r) _ h in
      let w = round-IsSound D share_diff P deadline s r e v went in
      loop_on_cases (λ t. loop D share_diff P deadline t rs) e o
        (λ _ same. subst (λ x. IsSound x.run) same w)
        (λ _ rest ran same. subst (λ x. IsSound x.run) same (loop-IsSound e.run rs rest w ran)) h'

  -- The round sees the signal, or reads a time past the deadline.
  abbrev pub IsEnd : Round Outside → Type 0
  IsEnd r = (r.stop ≡ true) ⊎ (is_over deadline r.deadline_at ≡ true)

  round-IsEnd :
      (s : Run Client) (r : Round Outside) (e : Ended Client)
      → IsEnd r
      → round D share_diff P deadline s r ≡ ok e
      → is_last e.ending ≡ true
  unfolding round
  round-IsEnd s r e end =
      if_split r.stop (λ _ h. subst (λ x. is_last x.ending ≡ true) (ok-injective h) refl)
        (λ goes.
          if_split (is_over deadline r.deadline_at)
            (λ _ h. subst (λ x. is_last x.ending ≡ true) (ok-injective h) refl)
            (λ early. absurd (ground (arith, end))))

  loop-over :
      (s : Run Client) (before : List (Round Outside)) (r : Round Outside)
      (after : List (Round Outside)) (o : Looped Client)
      → IsEnd r
      → loop D share_diff P deadline s (before ++ r ∷ after) ≡ ok o
      → o.over ≡ true
  unfolding loop
  loop-over s [] r after o end h =
      let (e, went, h') = >>=-eq-ok (round D share_diff P deadline s r) _ h in
      loop_on_cases (λ t. loop D share_diff P deadline t after) e o
        (λ _ same. ap (λ x. x.over) (sym same))
        (λ goes _ _ _. absurd (ground (arith, round-IsEnd s r e end went))) h'
  loop-over s (b ∷ before) r after o end h =
      let (e, went, h') = >>=-eq-ok (round D share_diff P deadline s b) _ h in
      loop_on_cases (λ t. loop D share_diff P deadline t (before ++ r ∷ after)) e o
        (λ _ same. ap (λ x. x.over) (sym same))
        (λ _ rest ran same.
          ap (λ x. x.over) (sym same) ∙ loop-over e.run before r after rest end ran)
        h'

  stop_workers-stops : (w : Workers) → (stop_workers w).running ≡ false
  unfolding stop_workers
  stop_workers-stops w = ground arith

  -- The loop ends no later than the first round that sees the signal or reads a time past the
  -- deadline, unless an exception ends it before; after the shutdown no worker runs and there is no
  -- connection.
  pub loop-ends :
      (s : Run Client) (before : List (Round Outside)) (r : Round Outside)
      (after : List (Round Outside)) (o : Looped Client)
      → IsPoolClient P
      → IsEnd r
      → loop D share_diff P deadline s (before ++ r ∷ after) ≡ ok o
      → let last = shut_down D share_diff P deadline o.run in
        (o.over ≡ true) × (last.workers.running ≡ false) × (P.connected last.client ≡ false)
  unfolding shut_down
  loop-ends s before r after o laws end h = (
    loop-over s before r after o end h,
    stop_workers-stops o.run.workers,
    laws.disconnect-connected o.run.client,
  )
