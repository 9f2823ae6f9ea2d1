-- ===== src/Telemetry/HttpServer/Sockets.antt =====
-- src/telemetry/http_server.cpp: the listening socket from `start` to `stop`.
use minerby.Base.{
  ℕ, List, [], ◌∷◌, ◌++◌, Bool, false, not, ◌||◌, Option, none, some, ok, ok-injective, ◌≡◌, refl,
  sym, subst, ap, ◌∙◌, append-nil, arith, if_split, if_either, Bool-cases, inl, inr,
}
use minerby.Telemetry.HttpServer.{HttpServer, new_server, Switched, launch, start, held, stop}

-- The thread, the flag and the socket are there together.
pub record IsWhole (s : HttpServer) : Type 0 where
  pub thread : s.joinable ≡ s.running
  pub socket : s.running ≡ false → s.listen_sock ≡ none

-- What a call leaves: a whole server, and the sockets that were there or came are closed or held.
pub record IsKept (before : List ℕ) (r : Switched) : Type 0 where
  pub whole : IsWhole r.server
  pub sockets : before ≡ r.closed ++ held r.server.listen_sock

launch-IsKept :
    (k : ℕ) (s : HttpServer) (r : Switched)
    → IsWhole s
    → launch k s ≡ ok r
    → IsKept (k ∷ held s.listen_sock) r
launch-IsKept k s r v h = elim (Bool-cases s.joinable) [
  | inl twice ↦ absurd (ground (arith, twice))
  | inr free ↦
      let empty = v.socket (ground (arith, v.thread)) in
      subst (IsKept (k ∷ held s.listen_sock)) (ok-injective (rw free at h))
        (record { whole = record { thread = refl; socket = λ e. cc }; sockets = rw empty refl })
]

-- Whatever `socket`, `bind` and `listen` return, and whether or not the server runs: if `start`
-- comes back, the socket that it opened, or that the server had, is closed or held, and the
-- server has a socket, a thread and the flag, or none of them.
pub start-IsKept :
    (opened : Option ℕ) (bound listens : Bool) (s : HttpServer) (r : Switched)
    → IsWhole s
    → start opened bound listens s ≡ ok r
    → IsKept (held opened ++ held s.listen_sock) r
unfolding start
start-IsKept none bound listens s r v =
    λ h. subst (IsKept (held s.listen_sock)) (ok-injective h) (record { whole = v; sockets = refl })
start-IsKept (some k) bound listens s r v =
    if_split (not bound || not listens)
      (λ _ h.
        subst (IsKept (k ∷ held s.listen_sock)) (ok-injective h)
          (record { whole = v; sockets = refl }))
      (λ _. launch-IsKept k s r v)

stop-IsKept : (s : HttpServer) → IsWhole s → IsKept (held s.listen_sock) (stop s)
unfolding stop
stop-IsKept s v =
    if_either (IsKept (held s.listen_sock)) (not s.running) (record { whole = v; sockets = refl })
      (record {
        whole = record { thread = refl; socket = λ _. refl };
        sockets = sym (append-nil (held s.listen_sock));
      })

stop-empty : (s : HttpServer) → IsWhole s → held (stop s).server.listen_sock ≡ []
unfolding stop
stop-empty s v = elim (Bool-cases s.running) [
  | inl on ↦ rw on refl
  | inr off ↦ rw (off, v.socket off) refl
]

stop-joinable : (s : HttpServer) → IsWhole s → (stop s).server.joinable ≡ false
unfolding stop
stop-joinable s v = elim (Bool-cases s.running) [
  | inl on ↦ rw on refl
  | inr off ↦ rw off (v.thread ∙ off)
]

-- A new server that is started and stopped has closed every socket that it opened, whatever
-- `socket`, `bind` and `listen` returned, and has no thread.
pub start-stop_closes :
    (opened : Option ℕ) (bound listens : Bool) (r : Switched)
    → start opened bound listens new_server ≡ ok r
    → (held opened ≡ r.closed ++ (stop r.server).closed) × ((stop r.server).server.joinable ≡ false)
start-stop_closes opened bound listens r h =
    let v =
      start-IsKept opened bound listens new_server r (record { thread = refl; socket = λ _. refl })
        h in
    let w = stop-IsKept r.server v.whole in
    (
      sym (append-nil (held opened))
          ∙ v.sockets
          ∙ ap (◌++◌ r.closed) (
              w.sockets
              ∙ ap (◌++◌ ((stop r.server).closed)) (stop-empty r.server v.whole)
              ∙ append-nil ((stop r.server).closed)),
      stop-joinable r.server v.whole,
    )
