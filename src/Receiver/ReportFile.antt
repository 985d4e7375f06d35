-- ===== src/Receiver/ReportFile.antt =====
-- core/receiver/store.go: the names of report files, the day that a name holds, and the paths that
-- stay below a directory.
use heartpost.Common.{
  ◌+◌, ◌*◌, Bool, ◌&&◌, not, Option, none, some, [], ◌∷◌, ◌++◌, ◌==◌, if◌then◌else◌, ◌>>=◌,
}
use heartpost.Common.Text.{Text, codes, text_eq, has_prefix}
use heartpost.Common.Int.{ℤ, ltb_ℤ, sub_ℕ, pos_part, neg_part}
use heartpost.Clock.{Time, day}
use heartpost.Calendar.{format_day, parse_day, day_number}
use heartpost.FilePath.{clean, join, is_below}
use heartpost.Receiver.AgentId.{valid_agent_id}
use mathlib.Core.List.{reverse}

unfoldable pub reports_dir : Text → Text
reports_dir dir = join dir (codes "reports")

-- `none` is the error "path escapes base directory".
unfoldable pub safe_join : Text → Text → Option Text
safe_join base name =
    let base_clean = clean base in
    let joined = clean (join base_clean name) in
    if not (text_eq joined base_clean) && not (is_below base_clean joined)
    then none
    else some joined

-- fmt.Sprintf("report_%s_%s.jsonl", …)
unfoldable pub report_name : Text → Time → Text
report_name id t = codes "report_" ++ (id ++ (b'_' ∷ (format_day t ++ codes ".jsonl")))

unfoldable pub report_path : Text → Text → Time → Option Text
report_path dir id t =
    if not (valid_agent_id id) then none else safe_join (reports_dir dir) (report_name id t)

-- The text before a suffix, where the text ends in it.
unfoldable pub strip_prefix : Text → Text → Option Text
strip_prefix [] s = some s
strip_prefix (d ∷ p) [] = none
strip_prefix (d ∷ p) (c ∷ s) = if c == d then strip_prefix p s else none

-- What stands after the last `_`, where there is one.
unfoldable pub after_underscore : Text → Option Text
after_underscore [] = none
after_underscore (c ∷ s) = elim (after_underscore s) [
  | none ↦ (if c == b'_' then some s else none)
  | some t ↦ some t
]

unfoldable pub trim_suffix : Text → Text → Option Text
unfolding strip_prefix
trim_suffix suffix s = elim (strip_prefix (reverse suffix) (reverse s)) [
  | none ↦ none
  | some t ↦ some (reverse t)
]

-- The day that a report file's name holds, in days.
unfoldable pub report_file_day : Text → Option ℤ
unfolding trim_suffix after_underscore
report_file_day name = do
  trimmed ← if has_prefix name (codes "report_") then trim_suffix (codes ".jsonl") name else none
  date ← after_underscore trimmed >>= parse_day
  some (day_number date)

-- Whether the day, `n` days from the zero time, begins before `now` less the retention in days.
unfoldable pub expired : ℤ → Time → ℤ → Bool
expired n now retention =
    ltb_ℤ (sub_ℕ (pos_part n * day) (neg_part n * day))
      (sub_ℕ (now + neg_part retention * day) (pos_part retention * day))
