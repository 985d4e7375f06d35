-- ===== src/Agent/Collect.antt =====
-- agent/collect.go: one ordered batch of collectors, and the report's body. `V` is the type of what
-- a collector returns.
pub mod Entries
use heartpost.Common.{
  Bool, true, false, ◌||◌, not, Option, none, some, List, [], ◌∷◌, if◌then◌else◌,
}
use heartpost.Common.Text.{Text}
use heartpost.Common.Assoc.{Assoc, insert}
use heartpost.Signature.{Bytes}
use heartpost.Agent.Settings.{job_enabled}

pub data CancelPolicy : Type 0 where
  report_canceled fail_canceled drop_canceled : CancelPolicy

pub data Encoding : Type 0 where
  typed_indented sorted_indented sorted_compact : Encoding

pub record Task : Type 0 where
  pub name : Text
  pub group : Text
  pub always : Bool

-- The value of a collector in a report: as it was returned, as JSON, or its failure.
pub data Value (V : Type 0) : Type 0 where
  plain : V → Value V
  raw : Bytes → Value V
  error : Text → Value V

pub data Collected (V : Type 0) : Type 0 where
  value : V → Collected V
  failed : Text → Collected V

-- What the batch meets: the error of the context before each task, what the task's collector
-- returns, and encoding/json (a failure with its message).
pub record Meets (V : Type 0) : Type 0 where
  pub canceled : Text → Option Text
  pub collect : Text → Collected V
  pub marshal : V → Collected Bytes

unfoldable pub is_report : CancelPolicy → Bool
is_report report_canceled = true
is_report _ = false

module _ {V : Type 0} where
  unfoldable pub marshaled : Collected Bytes → Value V
  marshaled (value bytes) = raw bytes
  marshaled (failed message) = error message

  unfoldable pub value_of : Encoding → Meets V → Collected V → Value V
  unfolding marshaled
  value_of encoding meets (failed message) = error message
  value_of typed_indented meets (value v) = marshaled (meets.marshal v)
  value_of encoding meets (value v) = plain v

  -- The loop of collect: the results, and the error of a cancellation that ends it.
  unfoldable pub collect :
      CancelPolicy
      → Encoding
      → Assoc Bool
      → Meets V
      → List Task
      → Assoc (Value V)
      → Assoc (Value V) × Option Text
  unfolding is_report value_of
  collect policy encoding jobs meets [] results = (results, none)
  collect policy encoding jobs meets (task ∷ tasks) results =
      let skipped = collect policy encoding jobs meets tasks results in
      let collected =
        collect policy encoding jobs meets tasks
          (insert task.name (value_of encoding meets (meets.collect task.name)) results) in
      if task.always || job_enabled jobs task.name
      then elim (meets.canceled task.name) [
        | none ↦ collected
        | some message ↦
            if is_report policy
            then collect policy encoding jobs meets tasks (insert task.name (error message) results)
            else (results, some message)
      ]
      else skipped
