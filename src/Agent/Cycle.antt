-- ===== src/Agent/Cycle.antt =====
-- agent/runner.go: New, which checks the options of a runner, and cycle, which collects one report
-- and delivers it.
pub mod Outcome
pub mod New
use heartpost.Common.{
  ℕ, zero, suc, ◌+◌, ◌*◌, Bool, true, false, ◌&&◌, ◌||◌, not, Option, none, some, List, [], ◌∷◌,
  ◌==◌, if◌then◌else◌,
}
use heartpost.Common.Text.{Text, text_eq, is_empty}
use heartpost.Common.Assoc.{Assoc}
use heartpost.Common.Int.{ℤ, pos, ltb_ℤ}
use heartpost.Clock.{Time, Duration, second, minute}
use heartpost.Signature.{Bytes, Mac}
use heartpost.Agent.Reporter.{
  Target, Attempt, SendError, http_status, TargetResult, send_one, send_reports,
}
use heartpost.Agent.Collect.{
  CancelPolicy, drop_canceled, Encoding, Task, Value, Meets, Collected, value, failed, collect,
}
use heartpost.Agent.TokenCache.{Files, clear_cache}
use heartpost.Agent.License.{LicenseOptions, Token, token, refused, resolve_token}

pub data FailurePolicy : Type 0 where
  return_failure warn_failure : FailurePolicy

-- The options of New and cycle. The mode, the license's presence of a verifier, the services and the
-- logger are left out, and a task's collector is in `Meets`; the policies' types hold the valid ones.
pub record Options : Type 0 where
  pub id : Text
  pub tasks : List Task
  pub jobs : Assoc Bool
  pub targets : List Target
  pub unknown_interval : Duration
  pub cancel_policy : CancelPolicy
  pub send_failure_policy : FailurePolicy
  pub encoding : Encoding
  pub dry_run : Bool

-- A name is in the table of the names before it.
unfoldable pub has_name : Text → List Text → Bool
has_name name [] = false
has_name name (n ∷ names) = text_eq n name || has_name name names

unfoldable pub valid_tasks : List Text → List Task → Bool
unfolding has_name
valid_tasks names [] = true
valid_tasks names (task ∷ tasks) =
    not (is_empty task.name || has_name task.name names) && valid_tasks (task.name ∷ names) tasks

unfoldable pub valid_targets : List Text → List Target → Bool
unfolding has_name
valid_targets names [] = true
valid_targets names (t ∷ ts) =
    not (
      is_empty t.name
      || ltb_ℤ t.retry_count (pos 0)
      || ltb_ℤ t.timeout (pos 0)
      || has_name t.name names)
    && valid_targets (t.name ∷ names) ts

abbrev pub is_zero : ℤ → Bool
is_zero (pos zero) = true
is_zero _ = false

abbrev pub with_timeout : Target → Target
with_timeout t = if is_zero t.timeout then record t { timeout = pos (10 * second) } else t

unfoldable pub with_timeouts : List Target → List Target
with_timeouts [] = []
with_timeouts (t ∷ ts) = with_timeout t ∷ with_timeouts ts

abbrev no_targets : List Target → Bool
no_targets [] = true
no_targets (_ ∷ _) = false

-- The options of the runner, or `none` for an error.
unfoldable pub new : Options → Option Options
unfolding valid_tasks valid_targets with_timeouts
new o =
    if is_empty o.id
    then none
    else if not (valid_tasks [] o.tasks)
    then none
    else if not (valid_targets [] o.targets)
    then none
    else if not o.dry_run && no_targets o.targets
    then none
    else some (record o {
      targets = with_timeouts o.targets;
      unknown_interval =
          if ltb_ℤ (pos 0) o.unknown_interval then o.unknown_interval else pos (5 * minute);
    })

pub data CycleError : Type 0 where
  collect_canceled encode_failed : Text → CycleError
  refresh_failed : CycleError
  retry_failed send_failed : SendError → CycleError

-- The runner's changing state: the files of the cache and the verifier's current token.
pub record Runner : Type 0 where
  pub files : Files
  pub current_token : Text

-- The license as a cycle uses it, with what its monitor answers to a refresh, and the first attempts
-- of the report after that.
pub record Refresh : Type 0 where
  pub license : LicenseOptions
  pub refresh_401 : Bool
  pub primary : Text
  pub now : Time
  pub retry : ℕ → Attempt

pub record Setting (V : Type 0) : Type 0 where
  pub opts : Options
  pub mac : Mac
  pub refresh : Option Refresh
  pub meets : Meets V
  pub encode : Assoc (Value V) → Collected Bytes
  pub attempts : Text → ℕ → Attempt

unfoldable pub is_401 : SendError → Bool
is_401 (http_status status) = status == 401
is_401 _ = false

unfoldable pub refreshes : Option Refresh → Text → SendError → Option Refresh
unfolding is_401
refreshes none name e = none
refreshes (some r) name e =
    if r.refresh_401 && text_eq name r.primary && is_401 e then some r else none

abbrev pub current_or_none : Option Refresh → Runner → Text
current_or_none none s = []
current_or_none (some r) s = s.current_token

-- The error of a cycle in which so many targets succeeded.
unfoldable pub final_error : FailurePolicy → ℕ → Option SendError → Option CycleError
final_error return_failure zero (some e) = some (send_failed e)
final_error _ _ _ = none

module _ {V : Type 0} (g : Setting V) (body : Bytes) where
  -- A new token for the primary target, and the report once more with it.
  unfoldable pub refresh_and_retry : Refresh → Target → Runner → Runner × Option CycleError
  refresh_and_retry r t s =
      let cleared = if r.license.has_cache then (clear_cache s.files).0 else s.files in
      let (files, answer) = resolve_token r.license g.opts.id r.now true cleared in
      elim answer [
        | refused ↦ (record s { files = files }, some refresh_failed)
        | token new_token ↦
            let s' : Runner = record { files = files; current_token = new_token } in
            elim (send_one g.mac t body g.opts.id new_token r.retry).0 [
              | none ↦ (s', none)
              | some e ↦ (s', some (retry_failed e))
            ]
      ]

  -- The loop over the results, with the targets beside them.
  unfoldable pub settle_results :
      List Target → List TargetResult → ℕ → Option SendError → Runner → Runner × Option CycleError
  unfolding refreshes refresh_and_retry final_error
  settle_results (t ∷ ts) (r ∷ rs) successes failure s =
      let succeeded = settle_results ts rs (suc successes) failure s in
      elim r.err [
        | none ↦ succeeded
        | some e ↦ elim (refreshes g.refresh r.name e) [
          | none ↦ settle_results ts rs successes (some e) s
          | some how ↦
              let (s', err) = refresh_and_retry how t s in
              elim err [
                | some stop ↦ (s', some stop)
                | none ↦ settle_results ts rs (suc successes) failure s'
              ]
        ]
      ]
  settle_results _ _ successes failure s =
      (s, final_error g.opts.send_failure_policy successes failure)

unfoldable pub canceled_cycle : CancelPolicy → Text → Option CycleError
canceled_cycle drop_canceled message = none
canceled_cycle _ message = some (collect_canceled message)

unfoldable pub cycle : {V : Type 0} → Setting V → List Task → Runner → Runner × Option CycleError
unfolding canceled_cycle settle_results
cycle g tasks s =
    let (values, stop) =
      collect g.opts.cancel_policy g.opts.encoding g.opts.jobs g.meets tasks [] in
    elim stop [
      | some message ↦ (s, canceled_cycle g.opts.cancel_policy message)
      | none ↦ elim (g.encode values) [
        | failed message ↦ (s, some (encode_failed message))
        | value body ↦
            if g.opts.dry_run
            then (s, none)
            else settle_results g body g.opts.targets
                (send_reports g.mac g.opts.targets body g.opts.id (current_or_none g.refresh s)
                  g.attempts)
                0 none s
      ]
    ]
