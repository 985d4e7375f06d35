-- ===== src/Agent/Run.antt =====
-- agent/runner.go: Run from its guards to its deferred calls, with filelock/filelock.go. What a run
-- takes and gives back is its trace; what it meets on the way is an Env.
pub mod Replay
pub mod Services
pub mod Disciplined
use heartpost.Common.{
  ℕ, suc, Bool, true, false, ◌&&◌, ◌||◌, not, Option, none, some, List, [], ◌∷◌, ◌++◌, ◌==◌, map,
  if◌then◌else◌,
}
use mathlib.Core.List.{reverse}

-- The run itself, until `done` is closed; the mutex of all runs of the process; the file of the lock
-- and its flock; the context with a timeout; a service with a stop function; the heartbeat.
pub data Resource : Type 0 where
  whole_run active lock_file flock timed_context heartbeat : Resource
  service : ℕ → Resource

-- `work` is the collecting and sending.
pub data Effect : Type 0 where
  take give : Resource → Effect
  work : Effect

abbrev pub Trace : Type 0
Trace = List Effect

pub data RunError : Type 0 where
  closed already_running no_lock_directory locked lock_not_opened lock_failed verify_failed canceled
        service_failed work_failed :
      RunError

-- What flock answers.
pub data Flock : Type 0 where
  got would_block broken : Flock

-- A service that starts may return no function to stop it; `is_canceled` is the context's error
-- before it.
pub data Start : Type 0 where
  stoppable starts fails : Start

pub record Service : Type 0 where
  pub is_canceled : Bool
  pub start : Start

pub record Env : Type 0 where
  pub active_is_free : Bool
  pub has_lock_path : Bool
  pub creates_directory : Bool
  pub makes_directory : Bool
  pub opens_lock : Bool
  pub flocks : Flock
  pub verifies : Bool
  pub has_timeout : Bool
  pub services : List Service
  pub has_heartbeat : Bool
  pub work_fails : Bool

-- The fields of a Runner that Run and Close read.
pub record Flags : Type 0 where
  pub is_started : Bool
  pub is_closed : Bool

abbrev pub Ran : Type 0
Ran = Trace × Option RunError

-- `defer`: what follows, and then the resource is given back.
unfoldable pub holding : Resource → Ran → Ran
holding r (t, e) = (take r ∷ (t ++ give r ∷ []), e)

abbrev pub holding_if : Bool → Resource → Ran → Ran
holding_if b r ran = if b then holding r ran else ran

-- Once, or the groups of intervals, with the heartbeat around it.
unfoldable pub working : Env → Ran
unfolding holding
working env =
    holding_if env.has_heartbeat heartbeat
      (work ∷ [], if env.work_fails then some work_failed else none)

-- The loop that starts the services, numbered from `i`: what it took, the services to stop, the last
-- started first, and its error.
unfoldable pub start_services : ℕ → List Service → List ℕ → Trace × List ℕ × Option RunError
start_services i [] stops = ([], stops, none)
start_services i (s ∷ ss) stops =
    let (t, all, e) = start_services (suc i) ss (i ∷ stops) in
    if s.is_canceled then ([], stops, some canceled) else elim s.start [
      | fails ↦ ([], stops, some service_failed)
      | starts ↦ start_services (suc i) ss stops
      | stoppable ↦ (take (service i) ∷ t, all, e)
    ]

abbrev stop : ℕ → Effect
stop i = give (service i)

-- The work, unless a service failed, and the deferred loop that stops the services.
unfoldable pub serving : Env → Ran
unfolding start_services working
serving env =
    let (taken, stops, failure) = start_services 0 env.services [] in
    elim failure [
      | some e ↦ (taken ++ map stop stops, some e)
      | none ↦ let (t, e) = working env in (taken ++ (t ++ map stop stops), e)
    ]

unfoldable pub verified : Env → Ran
unfolding serving
verified env =
    if env.verifies
    then holding_if env.has_timeout timed_context (serving env)
    else ([], some verify_failed)

-- After the file is opened: a lock that is not got closes it at once, one that is got is released
-- after the rest.
unfoldable pub flocked : Flock → Ran → Ran
unfolding holding
flocked got rest = holding lock_file (holding flock rest)
flocked would_block rest = holding lock_file ([], some locked)
flocked broken rest = holding lock_file ([], some lock_failed)

-- filelock.Acquire, and what is done under the lock.
unfoldable pub with_lock : Env → Ran → Ran
unfolding flocked
with_lock env rest =
    if not env.opens_lock then ([], some lock_not_opened) else flocked env.flocks rest

unfoldable pub locking : Env → Ran
unfolding with_lock verified
locking env =
    if not env.has_lock_path
    then verified env
    else if env.creates_directory && not env.makes_directory
    then ([], some no_lock_directory)
    else with_lock env (verified env)

-- Run: the flags after it, its trace and its error.
unfoldable pub run : Flags → Env → Flags × Ran
unfolding holding locking
run f env =
    if f.is_closed
    then (f, ([], some closed))
    else if f.is_started
    then (f, ([], some already_running))
    else (
      record { is_started = true; is_closed = true },
      holding whole_run
          (if env.active_is_free then holding active (locking env) else ([], some already_running)),
    )
