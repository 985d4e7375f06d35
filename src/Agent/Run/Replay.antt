-- ===== src/Agent/Run/Replay.antt =====
-- The traces of a run replayed: what is held after each effect.
use heartpost.Common.{
  ◌≡◌, refl, ap, ◌∙◌, inl, inr, Bool, true, false, ◌&&◌, ◌||◌, Option, none, some, List, [], ◌∷◌,
  ◌++◌, ◌==◌, ◌>>=◌, if◌then◌else◌, arith, Option-cases,
}
use heartpost.Agent.Run.{
  Resource, whole_run, active, lock_file, flock, timed_context, heartbeat, service, Effect, take,
  give, work, Trace, Ran, holding, holding_if,
}

unfoldable pub same_resource : Resource → Resource → Bool
same_resource whole_run whole_run = true
same_resource active active = true
same_resource lock_file lock_file = true
same_resource flock flock = true
same_resource timed_context timed_context = true
same_resource heartbeat heartbeat = true
same_resource (service i) (service j) = i == j
same_resource _ _ = false

unfoldable pub holds : Resource → List Resource → Bool
unfolding same_resource
holds r [] = false
holds r (h ∷ held) = same_resource r h || holds r held

unfoldable pub holds_all : List Resource → List Resource → Bool
unfolding holds
holds_all [] held = true
holds_all (r ∷ rs) held = holds r held && holds_all rs held

abbrev pub given : Resource → List Resource → Option (List Resource)
given r [] = none
given r (h ∷ held) = if same_resource r h then some held else none

unfoldable pub after_effect : List Resource → Effect → List Resource → Option (List Resource)
unfolding holds holds_all
after_effect needed (take r) held = if holds r held then none else some (r ∷ held)
after_effect needed (give r) held = given r held
after_effect needed work held = if holds_all needed held then some held else none

-- What is held after a trace, the last taken first. It is an error to take what is held, to give back
-- anything but the last taken, and to work without the resources needed.
unfoldable pub replay : List Resource → Trace → List Resource → Option (List Resource)
unfolding after_effect
replay needed [] held = some held
replay needed (e ∷ t) held = after_effect needed e held >>= replay needed t

same_resource_refl : (r : Resource) → same_resource r r ≡ true
unfolding same_resource
same_resource_refl whole_run = refl
same_resource_refl active = refl
same_resource_refl lock_file = refl
same_resource_refl flock = refl
same_resource_refl timed_context = refl
same_resource_refl heartbeat = refl
same_resource_refl (service i) = ground arith

pub holds-append :
    (r : Resource) (xs ys : List Resource) → holds r (xs ++ ys) ≡ (holds r xs || holds r ys)
unfolding holds
holds-append r [] ys = refl
holds-append r (x ∷ xs) ys = ground (arith, holds-append r xs ys)

pub holds_all-more :
    (rs xs ys : List Resource) → holds_all rs ys ≡ true → holds_all rs (xs ++ ys) ≡ true
unfolding holds_all
holds_all-more [] xs ys h = refl
holds_all-more (r ∷ rs) xs ys h = ground (arith, holds-append r xs ys, holds_all-more rs xs ys)

module _ (needed : List Resource) where
  pub replay-then :
      (t u : Trace) (held held' : List Resource)
      → replay needed t held ≡ some held'
      → replay needed (t ++ u) held ≡ replay needed u held'
  unfolding replay
  replay-then [] u held held' h = ap (λ o. o >>= replay needed u) h
  replay-then (e ∷ t) u held held' h = elim (Option-cases (after_effect needed e held)) [
    | inl n ↦ absurd (ground arith)
    | inr (next, n) ↦ rw n (replay-then t u next held' (ground arith))
  ]

  pub taken_first :
      (r : Resource) (t : Trace) (held : List Resource)
      → holds r held ≡ false
      → replay needed (take r ∷ t) held ≡ replay needed t (r ∷ held)
  unfolding replay
  taken_first r t held free = rw free refl

  pub given_last :
      (r : Resource) (t : Trace) (held : List Resource)
      → replay needed (give r ∷ t) (r ∷ held) ≡ replay needed t held
  unfolding replay
  given_last r t held = rw (same_resource_refl r) refl

  -- A trace that leaves what is held as it was.
  abbrev pub Neutral : Trace → List Resource → Type 0
  Neutral t held = replay needed t held ≡ some held

  pub nothing_done : (held : List Resource) → Neutral [] held
  unfolding replay
  nothing_done held = refl

  pub holding-Neutral :
      (r : Resource) (ran : Ran) (held : List Resource)
      → holds r held ≡ false
      → Neutral ran.0 (r ∷ held)
      → Neutral (holding r ran).0 held
  unfolding holding
  holding-Neutral r ran held free inner =
      taken_first r (ran.0 ++ give r ∷ []) held free
      ∙ replay-then ran.0 (give r ∷ []) (r ∷ held) (r ∷ held) inner
      ∙ given_last r [] held
      ∙ nothing_done held

  pub holding_if-Neutral :
      (b : Bool) (r : Resource) (ran : Ran) (held : List Resource)
      → holds r held ≡ false
      → Neutral ran.0 (r ∷ held)
      → Neutral ran.0 held
      → Neutral (holding_if b r ran).0 held
  holding_if-Neutral true r ran held free inner outer = holding-Neutral r ran held free inner
  holding_if-Neutral false r ran held free inner outer = outer
