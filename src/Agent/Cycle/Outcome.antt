-- ===== src/Agent/Cycle/Outcome.antt =====
-- What New accepts, and when a cycle returns an error.
use heartpost.Common.{
  ℕ, zero, suc, ◌≡◌, ◌≢◌, inl, inr, refl, Bool, true, false, ◌&&◌, ◌||◌, not, Option, none, some,
  List, [], ◌∷◌, ◌==◌, arith, Option-cases,
}
use heartpost.Common.Text.{Text}
use heartpost.Signature.{Bytes, Mac}
use heartpost.Agent.Reporter.{
  Target, Attempt, SendError, invalid_target, or_canceled, TargetResult, outcome, attempts,
  send_reports,
}
use heartpost.Common.Assoc.{Assoc}
use heartpost.Agent.Collect.{Task, Value, value, collect}
use heartpost.Agent.Cycle.{
  Setting, Runner, FailurePolicy, return_failure, warn_failure, final_error, settle_results, cycle,
  refreshes,
}

-- Some result is a success.
abbrev pub any_delivered : List TargetResult → Bool
any_delivered [] = false
any_delivered (r ∷ rs) = elim r.err [ none ↦ true | some e ↦ any_delivered rs ]

abbrev pub is_none : {A : Type 0} → Option A → Bool
is_none none = true
is_none (some _) = false

abbrev pub warns : FailurePolicy → Bool
warns warn_failure = true
warns return_failure = false

abbrev pub no_results : List TargetResult → Bool
no_results [] = true
no_results (_ ∷ _) = false

-- A delivery to the targets, one result for each.
abbrev pub Matches : List Target → List TargetResult → Type 0
Matches [] [] = Unit
Matches (t ∷ ts) (r ∷ rs) = Matches ts rs
Matches _ _ = ⊥

send_reports-Matches :
    (mac : Mac) (ts : List Target) (body : Bytes) (id token : Text) (meets : Text → ℕ → Attempt)
    → Matches ts (send_reports mac ts body id token meets)
unfolding send_reports
send_reports-Matches mac [] body id token meets = tt
send_reports-Matches mac (t ∷ ts) body id token meets =
    send_reports-Matches mac ts body id token meets

is_none-final_error :
    (p : FailurePolicy) (n : ℕ) (e : Option SendError)
    → is_none (final_error p n e) ≡ (warns p || not (n == 0) || is_none e)
unfolding final_error
is_none-final_error warn_failure n e = refl
is_none-final_error return_failure zero none = refl
is_none-final_error return_failure zero (some e) = refl
is_none-final_error return_failure (suc n) e = ground arith

module _ {V : Type 0} (g : Setting V) (body : Bytes) (no_refresh : g.refresh ≡ none) where
  settle_results-verdict :
      (ts : List Target) (rs : List TargetResult) (n : ℕ) (e : Option SendError) (s : Runner)
      → Matches ts rs
      → let answer = settle_results g body ts rs n e s in
        (answer.0 ≡ s)
        × (is_none answer.1 ≡ (
            warns g.opts.send_failure_policy
            || not (n == 0)
            || any_delivered rs
            || (is_none e && no_results rs)))
  unfolding settle_results refreshes
  settle_results-verdict [] [] n e s m =
      (refl, ground (arith, is_none-final_error g.opts.send_failure_policy n e))
  settle_results-verdict [] (r ∷ rs) n e s m = absurd m
  settle_results-verdict (t ∷ ts) [] n e s m = absurd m
  settle_results-verdict (t ∷ ts) (r ∷ rs) n e s m = elim (Option-cases r.err) [
    | inl ok ↦ ground (arith, settle_results-verdict ts rs (suc n) e s m)
    | inr (bad, is) ↦ ground (arith, no_refresh, settle_results-verdict ts rs n (some bad) s m)
  ]

cycle-settled :
    {V : Type 0} (g : Setting V) (tasks : List Task) (s : Runner) (values : Assoc (Value V))
    (body : Bytes)
    → g.refresh ≡ none
    → g.opts.dry_run ≡ false
    → collect g.opts.cancel_policy g.opts.encoding g.opts.jobs g.meets tasks [] ≡ (values, none)
    → g.encode values ≡ value body
    → cycle g tasks s
      ≡ settle_results g body g.opts.targets
          (send_reports g.mac g.opts.targets body g.opts.id [] g.attempts)
          0
          none
          s
unfolding cycle
cycle-settled g tasks s values body no_refresh wet collected encoded = ground arith

-- Without a license, a cycle that collects and encodes its report leaves the runner as it was, and
-- returns an error exactly when its policy is to return failures, it has targets, and the delivery
-- to each of them failed.
pub cycle_succeeds_iff :
    {V : Type 0} (g : Setting V) (tasks : List Task) (s : Runner) (values : Assoc (Value V))
    (body : Bytes)
    → g.refresh ≡ none
    → g.opts.dry_run ≡ false
    → collect g.opts.cancel_policy g.opts.encoding g.opts.jobs g.meets tasks [] ≡ (values, none)
    → g.encode values ≡ value body
    → let rs = send_reports g.mac g.opts.targets body g.opts.id [] g.attempts in
      ((cycle g tasks s).0 ≡ s)
      × (is_none (cycle g tasks s).1
          ≡ (warns g.opts.send_failure_policy || any_delivered rs || no_results rs))
cycle_succeeds_iff g tasks s values body no_refresh wet collected encoded =
    let rs = send_reports g.mac g.opts.targets body g.opts.id [] g.attempts in
    let h =
      settle_results-verdict g body no_refresh g.opts.targets rs 0 none s
        (send_reports-Matches g.mac g.opts.targets body g.opts.id [] g.attempts) in
    rw (cycle-settled g tasks s values body no_refresh wet collected encoded) (ground (arith, h))

outcome_valid : (o : Option ℕ) → outcome o ≢ some invalid_target
outcome_valid none = ground arith
outcome_valid (some status) = ground arith

or_canceled_valid :
    (o : Option SendError) → o ≢ some invalid_target → or_canceled o ≢ some invalid_target
or_canceled_valid none h = ground arith
or_canceled_valid (some e) h = h

pub attempts_valid :
    (mac : Mac) (t : Target) (body : Bytes) (id token : Text) (meets : ℕ → Attempt) (left i : ℕ)
    (last : Option SendError)
    → last ≢ some invalid_target
    → (attempts mac t body id token meets left i last).0 ≢ some invalid_target
unfolding attempts
attempts_valid mac t body id token meets zero i last h = h
attempts_valid mac t body id token meets (suc left) i last h =
    let rest = attempts_valid mac t body id token meets left (suc i) (outcome (meets i).status) in
    λ e. ground (arith, rest, outcome_valid (meets i).status, or_canceled_valid last h)
