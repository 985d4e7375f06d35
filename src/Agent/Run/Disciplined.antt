-- ===== src/Agent/Run/Disciplined.antt =====
-- What a run holds while it works, and that it gives everything back.
use heartpost.Common.{
  ◌≡◌, refl, inl, inr, Bool, true, false, ◌&&◌, ◌||◌, not, some, List, [], ◌∷◌, if◌then◌else◌,
  arith, Bool-cases,
}
use heartpost.Agent.Run.{
  Resource, whole_run, active, lock_file, flock, Trace, Env, Flags, Ran, Flock, got, would_block,
  broken, holding, verified, flocked, lock_failed, locked, with_lock, locking, already_running, run,
}
use heartpost.Agent.Run.Replay.{holds, holds_all, replay, Neutral, nothing_done, holding-Neutral}
use heartpost.Agent.Run.Services.{IsCalm, verified-Neutral}

-- What the work of a run needs.
abbrev pub needs : Env → List Resource
needs env = whole_run ∷ active ∷ (if env.has_lock_path then lock_file ∷ flock ∷ [] else [])

abbrev guarded : List Resource
guarded = active ∷ whole_run ∷ []

guarded-IsCalm : IsCalm guarded
unfolding holds
guarded-IsCalm = record { no_heartbeat = refl; no_service = λ j. refl; no_timer = refl }

locked-IsCalm : IsCalm (flock ∷ lock_file ∷ guarded)
unfolding holds
locked-IsCalm = record { no_heartbeat = refl; no_service = λ j. refl; no_timer = refl }

flocked-Neutral :
    (needed : List Resource) (f : Flock) (ran : Ran)
    → Neutral needed ran.0 (flock ∷ lock_file ∷ guarded)
    → Neutral needed (flocked f ran).0 guarded
unfolding flocked
flocked-Neutral needed got ran h =
    holding-Neutral needed lock_file (holding flock ran) guarded (unfold holds in refl)
      (holding-Neutral needed flock ran (lock_file ∷ guarded) (unfold holds in refl) h)
flocked-Neutral needed would_block ran h =
    holding-Neutral needed lock_file ([], some locked) guarded (unfold holds in refl)
      (nothing_done needed (lock_file ∷ guarded))
flocked-Neutral needed broken ran h =
    holding-Neutral needed lock_file ([], some lock_failed) guarded (unfold holds in refl)
      (nothing_done needed (lock_file ∷ guarded))

with_lock-Neutral :
    (needed : List Resource) (env : Env) (ran : Ran)
    → Neutral needed ran.0 (flock ∷ lock_file ∷ guarded)
    → Neutral needed (with_lock env ran).0 guarded
unfolding with_lock
with_lock-Neutral needed env ran h = elim (Bool-cases env.opens_lock) [
  | inr shut ↦ rw shut (nothing_done needed guarded)
  | inl opens ↦ rw opens (flocked-Neutral needed env.flocks ran h)
]

holding_choice :
    (b : Bool) (needed : List Resource) (ran : Ran)
    → Neutral needed ran.0 guarded
    → Neutral needed
        (if b then holding active ran else ([], some already_running)).0
        (whole_run ∷ [])
holding_choice true needed ran h =
    holding-Neutral needed active ran (whole_run ∷ []) (unfold holds in refl) h
holding_choice false needed ran h = nothing_done needed (whole_run ∷ [])

module _ (env : Env) where
  unlocked_enough : env.has_lock_path ≡ false → holds_all (needs env) guarded ≡ true
  unfolding holds_all
  unlocked_enough free = ground arith

  locked_enough : holds_all (needs env) (flock ∷ lock_file ∷ guarded) ≡ true
  unfolding holds_all
  locked_enough = ground arith

  locking_free : env.has_lock_path ≡ false → locking env ≡ verified env
  unfolding locking
  locking_free free = ground arith

  locking_nowhere :
      env.has_lock_path ≡ true
      → (env.creates_directory && not env.makes_directory) ≡ true
      → (locking env).0 ≡ []
  unfolding locking
  locking_nowhere named bad = ground arith

  locking_path :
      env.has_lock_path ≡ true
      → (env.creates_directory && not env.makes_directory) ≡ false
      → locking env ≡ with_lock env (verified env)
  unfolding locking
  locking_path named good = ground arith

  locking-Neutral : Neutral (needs env) (locking env).0 guarded
  locking-Neutral = elim (Bool-cases env.has_lock_path) [
    | inr free ↦
        rw (locking_free free)
          (verified-Neutral (needs env) env guarded (unlocked_enough free) guarded-IsCalm)
    | inl named ↦ elim (Bool-cases (env.creates_directory && not env.makes_directory)) [
      | inl bad ↦ rw (locking_nowhere named bad) (nothing_done (needs env) guarded)
      | inr good ↦ rw (locking_path named good) (
          with_lock-Neutral (needs env) env (verified env) (
            verified-Neutral (needs env) env (flock ∷ lock_file ∷ guarded) locked_enough
              locked-IsCalm))
    ]
  ]

  entered : Ran
  entered = if env.active_is_free then holding active (locking env) else ([], some already_running)

  entered-Neutral : Neutral (needs env) entered.0 (whole_run ∷ [])
  unfolding entered
  entered-Neutral = holding_choice env.active_is_free (needs env) (locking env) locking-Neutral

  run-entered :
      (f : Flags)
      → f.is_closed ≡ false
      → f.is_started ≡ false
      → (run f env).1 ≡ holding whole_run entered
  unfolding run entered
  run-entered f o i = ground arith

  run_refused : (f : Flags) → (f.is_closed || f.is_started) ≡ true → (run f env).1.0 ≡ []
  unfolding run
  run_refused f h = ground arith

-- The trace gives back all that it takes, and works with what is needed.
abbrev pub IsDisciplined : Env → Trace → Type 0
IsDisciplined env t = replay (needs env) t [] ≡ some []

-- On every path through Run, whatever fails, all that a run takes is given back, the last taken
-- first: its context, its services, the heartbeat, the lock and its file, and the mutex of all runs;
-- and it works only under that mutex and, with a lock path, under the lock.
pub run-IsDisciplined : (f : Flags) (env : Env) → IsDisciplined env (run f env).1.0
run-IsDisciplined f env = elim (Bool-cases (f.is_closed || f.is_started)) [
  | inl over ↦ rw (run_refused env f over) (nothing_done (needs env) [])
  | inr fresh ↦ rw (run-entered env f (ground arith) (ground arith)) (
      holding-Neutral (needs env) whole_run (entered env) [] (unfold holds in refl)
        (entered-Neutral env))
]
