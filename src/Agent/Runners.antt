-- ===== src/Agent/Runners.antt =====
-- agent/runner.go: the runners of one process, whose calls of Run and Close interleave. Each step is
-- what one call does under a mutex: that of its runner, or `active`, which all runs share.
pub mod Exclusive
use heartpost.Common.{
  ℕ, ◌≡◌, ◌==◌, Bool, true, false, Option, none, some, List, [], ◌∷◌, if◌then◌else◌,
}

-- Where the one run of a runner stands: before it, before TryLock, under `active`, after Unlock and
-- after the deferred call that closes `done`.
pub data Phase : Type 0 where
  idle entered working leaving ended : Phase

-- `is_shut`: a call of Close has returned nil.
pub record Runner : Type 0 where
  pub is_started : Bool
  pub is_closed : Bool
  pub is_shut : Bool
  pub phase : Phase

pub record Process : Type 0 where
  pub active : Option ℕ
  pub runners : ℕ → Runner

-- New
abbrev pub new_runner : Runner
new_runner = record { is_started = false; is_closed = false; is_shut = false; phase = idle }

abbrev pub at_start : Process
at_start = record { active = none; runners = λ i. new_runner }

abbrev pub update : (ℕ → Runner) → ℕ → Runner → ℕ → Runner
update runners i r j = if i == j then r else runners j

abbrev pub with_runner : Process → ℕ → Runner → Process
with_runner p i r = record p { runners = update p.runners i r }

abbrev pub enter_run : Runner → Runner
enter_run r = record r { is_started = true; phase = entered }

-- The deferred call: closed, and `done` closed.
abbrev pub end_run : Runner → Runner
end_run r = record r { is_closed = true; phase = ended }

pub data Step (p : Process) : Process → Type 0 where
  -- Run returns ErrClosed or ErrAlreadyRunning.
  refuse_closed : (i : ℕ) → (p.runners i).is_closed ≡ true → Step p p
  refuse_started : (i : ℕ) → (p.runners i).is_started ≡ true → Step p p
  enter :
      (i : ℕ)
      → (p.runners i).is_closed ≡ false
      → (p.runners i).is_started ≡ false
      → Step p (with_runner p i (enter_run (p.runners i)))
  -- TryLock fails: another run is active.
  lose :
      (i j : ℕ)
      → (p.runners i).phase ≡ entered
      → p.active ≡ some j
      → Step p (with_runner p i (end_run (p.runners i)))
  win :
      (i : ℕ)
      → (p.runners i).phase ≡ entered
      → p.active ≡ none
      → Step p (record {
        active = some i;
        runners = update p.runners i (record (p.runners i) { phase = working });
      })
  unlock :
      (i : ℕ)
      → (p.runners i).phase ≡ working
      → Step p (record {
        active = none;
        runners = update p.runners i (record (p.runners i) { phase = leaving });
      })
  finish :
      (i : ℕ) → (p.runners i).phase ≡ leaving → Step p (with_runner p i (end_run (p.runners i)))
  -- Close of a runner that never started, the start of Close of one that did, and its return once
  -- `done` is closed.
  close_idle :
      (i : ℕ)
      → (p.runners i).is_started ≡ false
      → Step p (with_runner p i (record (p.runners i) { is_closed = true; is_shut = true }))
  close_started :
      (i : ℕ)
      → (p.runners i).is_started ≡ true
      → Step p (with_runner p i (record (p.runners i) { is_closed = true }))
  close_ended :
      (i : ℕ)
      → (p.runners i).phase ≡ ended
      → Step p (with_runner p i (record (p.runners i) { is_closed = true; is_shut = true }))

pub data Reach : Process → Process → Type 0 where
  here : {p : Process} → Reach p p
  next : {p q r : Process} → Reach p q → Step q r → Reach p r
