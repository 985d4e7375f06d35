-- ===== src/Agent/Collect/Entries.antt =====
-- Which collectors have an entry in a report.
use heartpost.Common.{
  ◌≡◌, inl, inr, refl, Bool, true, false, ◌&&◌, ◌||◌, Option, none, some, List, [], ◌∷◌, arith,
  Bool-cases, Option-cases,
}
use heartpost.Common.Text.{Text, text_eq}
use heartpost.Common.Assoc.{Assoc, lookup, insert, lookup-insert}
use heartpost.Agent.Settings.{job_enabled}
use heartpost.Agent.Collect.{
  report_canceled, Encoding, Task, Value, error, Meets, collect, is_report, value_of,
}

abbrev pub is_some : {V : Type 0} → Option V → Bool
is_some none = false
is_some (some _) = true

-- A task of this name always runs, or its job is on.
abbrev pub any_enabled : Assoc Bool → Text → List Task → Bool
any_enabled jobs name [] = false
any_enabled jobs name (task ∷ tasks) =
    (text_eq task.name name && (task.always || job_enabled jobs task.name))
    || any_enabled jobs name tasks

module _ {V : Type 0} (encoding : Encoding) (jobs : Assoc Bool) (meets : Meets V) where
  insert-is_some :
      (name k : Text) (v : Value V) (m : Assoc (Value V))
      → is_some (lookup name (insert k v m)) ≡ (text_eq k name || is_some (lookup name m))
  insert-is_some name k v m = ground (arith, lookup-insert k name v m)

  -- Where a cancellation is reported, a batch never fails, and the names it has results for are those
  -- it had before and those of the tasks that always run or whose job is on.
  pub collect-lookup :
      (tasks : List Task) (name : Text) (results : Assoc (Value V))
      → let answer = collect report_canceled encoding jobs meets tasks results in
        (answer.1 ≡ none)
        × (is_some (lookup name answer.0)
            ≡ (is_some (lookup name results) || any_enabled jobs name tasks))
  unfolding collect is_report
  collect-lookup [] name results = (refl, ground arith)
  collect-lookup (task ∷ tasks) name results =
      elim (Bool-cases (task.always || job_enabled jobs task.name)) [
        | inr off ↦ ground (arith, collect-lookup tasks name results)
        | inl on ↦ elim (Option-cases (meets.canceled task.name)) [
          | inl e ↦
              let v = value_of encoding meets (meets.collect task.name) in
              ground (
                arith,
                collect-lookup tasks name (insert task.name v results),
                insert-is_some name task.name v results,
              )
          | inr (message, e) ↦ ground (
            arith,
            collect-lookup tasks name (insert task.name (error message) results),
            insert-is_some name task.name (error message) results,
          )
        ]
      ]
