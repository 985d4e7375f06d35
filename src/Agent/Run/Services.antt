-- ===== src/Agent/Run/Services.antt =====
-- What a run does once it is verified leaves nothing behind.
use heartpost.Common.{
  ℕ, suc, ◌<◌, ◌≡◌, ◌⊎◌, refl, ◌∙◌, inl, inr, Bool, true, false, none, some, List, [], ◌∷◌, ◌++◌,
  map, if◌then◌else◌, arith, All, All-mono, Bool-cases, Option-cases,
}
use heartpost.Agent.Run.{
  Resource, timed_context, heartbeat, service, take, work, RunError, Env, Ran, Service, Start,
  stoppable, starts, fails, working, start_services, stop, canceled, service_failed, serving,
  verified, work_failed,
}
use heartpost.Agent.Run.Replay.{
  holds, holds_all, replay, holds_all-more, replay-then, taken_first, given_last, Neutral,
  nothing_done, holding_if-Neutral,
}

start_fails : Start → Bool
start_fails fails = true
start_fails _ = false

Start-cases : (s : Start) → (s ≡ fails) ⊎ ((s ≡ starts) ⊎ (s ≡ stoppable))
Start-cases fails = inl refl
Start-cases starts = inr (inl refl)
Start-cases stoppable = inr (inr refl)

module _ (i : ℕ) (s : Service) (ss : List Service) (stops : List ℕ) where
  stopped_short :
      (e : RunError)
      → (if s.is_canceled
          then some canceled
          else if start_fails s.start
          then some service_failed
          else none)
        ≡ some e
      → start_services i (s ∷ ss) stops ≡ ([], stops, some e)
  unfolding start_services start_fails
  stopped_short e h = ground arith

  unstoppable :
      s.is_canceled ≡ false
      → s.start ≡ starts
      → start_services i (s ∷ ss) stops ≡ start_services (suc i) ss stops
  unfolding start_services
  unstoppable c h = ground arith

  to_be_stopped :
      s.is_canceled ≡ false
      → s.start ≡ stoppable
      → let rest = start_services (suc i) ss (i ∷ stops) in
        start_services i (s ∷ ss) stops ≡ (take (service i) ∷ rest.0, rest.1, rest.2)
  unfolding start_services
  to_be_stopped c h = ground arith

serving_failed :
    (env : Env) (e : RunError)
    → (start_services 0 env.services []).2 ≡ some e
    → let started = start_services 0 env.services [] in
      serving env ≡ (started.0 ++ map stop started.1, some e)
unfolding serving
serving_failed env e h = ground arith

serving_works :
    (env : Env)
    → (start_services 0 env.services []).2 ≡ none
    → let started = start_services 0 env.services [] in
      serving env ≡ (started.0 ++ ((working env).0 ++ map stop started.1), (working env).1)
unfolding serving
serving_works env h = ground arith

-- What a run may hold when it starts its services: no service, heartbeat or timed context.
pub record IsCalm (held : List Resource) : Type 0 where
  pub no_heartbeat : holds heartbeat held ≡ false
  pub no_service : (j : ℕ) → holds (service j) held ≡ false
  pub no_timer : holds timed_context held ≡ false

beside_services :
    (stops : List ℕ) (held : List Resource)
    → holds heartbeat (map service stops ++ held) ≡ holds heartbeat held
unfolding holds
beside_services [] held = refl
beside_services (i ∷ stops) held = ground (arith, beside_services stops held)

module _ (needed : List Resource) where
  worked : (held : List Resource) → holds_all needed held ≡ true → Neutral needed (work ∷ []) held
  unfolding replay
  worked held enough = rw enough refl

  working-Neutral :
      (env : Env) (held : List Resource)
      → holds_all needed held ≡ true
      → holds heartbeat held ≡ false
      → Neutral needed (working env).0 held
  unfolding working
  working-Neutral env held enough free =
      let one : Ran = (work ∷ [], if env.work_fails then some work_failed else none) in
      holding_if-Neutral needed env.has_heartbeat heartbeat one held free
        (worked (heartbeat ∷ held) (holds_all-more needed (heartbeat ∷ []) held enough))
        (worked held enough)

  stopped :
      (stops : List ℕ) (held : List Resource)
      → replay needed (map stop stops) (map service stops ++ held) ≡ some held
  stopped [] held = nothing_done needed held
  stopped (i ∷ stops) held =
      given_last needed (service i) (map stop stops) (map service stops ++ held)
      ∙ stopped stops held

  -- The services so far have smaller numbers than `i`.
  not_held :
      (i : ℕ) (stops : List ℕ) (held : List Resource)
      → All (λ j. j < i) stops
      → holds (service i) held ≡ false
      → holds (service i) (map service stops ++ held) ≡ false
  unfolding holds
  not_held i [] held below free = free
  not_held i (j ∷ stops) held below free =
      ground (arith, not_held i stops held below.1 free, below.0)

  services_taken :
      (i : ℕ) (ss : List Service) (stops : List ℕ) (held : List Resource)
      → All (λ j. j < i) stops
      → ((j : ℕ) → holds (service j) held ≡ false)
      → let started = start_services i ss stops in
        replay needed started.0 (map service stops ++ held) ≡ some (map service started.1 ++ held)
  services_taken i [] stops held below free =
      unfold start_services in nothing_done needed (map service stops ++ held)
  services_taken i (s ∷ ss) stops held below free =
      let bound : All (λ j. j < suc i) stops =
        All-mono (λ j. j < i) (λ j. j < suc i) stops (λ j l. omega arith) below in
      elim (Bool-cases s.is_canceled) [
        | inl c ↦
            rw (stopped_short i s ss stops canceled (rw c refl))
              (nothing_done needed (map service stops ++ held))
        | inr c ↦ elim (Start-cases s.start) [
          | inl f ↦
              rw (stopped_short i s ss stops service_failed (unfold start_fails in rw (c, f) refl))
                (nothing_done needed (map service stops ++ held))
          | inr (inl f) ↦
              rw (unstoppable i s ss stops c f) (services_taken (suc i) ss stops held bound free)
          | inr (inr f) ↦ rw (to_be_stopped i s ss stops c f) (
              taken_first needed (service i) (start_services (suc i) ss (i ∷ stops)).0
                (map service stops ++ held) (not_held i stops held below (free i))
              ∙ services_taken (suc i) ss (i ∷ stops) held (omega arith, bound) free)
        ]
      ]

  serving-Neutral :
      (env : Env) (held : List Resource)
      → holds_all needed held ≡ true
      → holds heartbeat held ≡ false
      → ((j : ℕ) → holds (service j) held ≡ false)
      → Neutral needed (serving env).0 held
  serving-Neutral env held enough calm free =
      let started = start_services 0 env.services [] in
      let taken = services_taken 0 env.services [] held tt free in
      let now = map service started.1 ++ held in
      elim (Option-cases started.2) [
        | inr (e, h) ↦ rw (serving_failed env e h) (
            replay-then needed started.0 (map stop started.1) held now taken
            ∙ stopped started.1 held)
        | inl h ↦ rw (serving_works env h) (
            replay-then needed started.0 ((working env).0 ++ map stop started.1) held now taken
            ∙ replay-then needed (working env).0 (map stop started.1) now now (
                working-Neutral env now (holds_all-more needed (map service started.1) held enough)
                  (beside_services started.1 held ∙ calm))
            ∙ stopped started.1 held)
      ]

  pub verified-Neutral :
      (env : Env) (held : List Resource)
      → holds_all needed held ≡ true
      → IsCalm held
      → Neutral needed (verified env).0 held
  unfolding verified
  verified-Neutral env held enough calm = elim (Bool-cases env.verifies) [
    | inr bad ↦ rw bad (nothing_done needed held)
    | inl good ↦ rw good (
        holding_if-Neutral needed env.has_timeout timed_context (serving env) held calm.no_timer
          (serving-Neutral env (timed_context ∷ held)
            (holds_all-more needed (timed_context ∷ []) held enough)
            (unfold holds in calm.no_heartbeat) (λ j. unfold holds in calm.no_service j))
          (serving-Neutral env held enough calm.no_heartbeat calm.no_service))
  ]
