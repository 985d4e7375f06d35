-- ===== src/HttpOutcome/Shipping.antt =====
-- collector/vps/httpoutcome/httpoutcome.go: the collector that ships the receipts of the configured
-- files. The accounts of the host and the files are what a World gives; log lines are left out.
pub mod Trusted
use heartpost.Common.{
  ℕ, zero, suc, ◌+◌, ◌^◌, Bool, true, false, not, Option, none, some, List, [], ◌∷◌, ◌++◌, ltb,
  length, ◌>>=◌, if◌then◌else◌,
}
use heartpost.Common.Text.{Text, codes, is_empty}
use heartpost.Common.Decimal.{parse_ℕ}
use heartpost.Common.Int.{ℤ, pos, ltb_ℤ}
use heartpost.Clock.{Time}
use heartpost.Signature.{Bytes}
use heartpost.FilePath.{join}
use heartpost.Collector.Tail.{tail_lines}
use heartpost.Collector.Jsonl.{Template, Files, Os, Ran, ran, failed, run}
use heartpost.HttpOutcome.Receipt.{Receipt, Decoder, Parsed, parsed, dropped, parse_receipt_line}
use heartpost.HttpOutcome.Paths.{
  Host, Check, passed, out_of_fuel, refused, PathError, is_missing, not_absolute, not_clean,
  verify_trusted_path, verify_trusted_path_with_owners,
}

-- DefaultMaxLines
abbrev pub default_max_lines : ℕ
default_max_lines = 5000

pub record Settings : Type 0 where
  pub logs : List Text
  pub trusted_owners : List Text
  pub data_dir : Text
  pub log_lines : ℤ

pub record World : Type 0 where
  pub host : Host
  pub user_uid : Text → Option Text
  pub makes_dir : Text → Bool
  pub log_of : Text → Option Bytes
  pub os_of : Text → Os

-- encoding/json at a receipt and time.Parse of RFC 3339.
pub record Codec : Type 0 where
  pub decoder : Decoder
  pub parse_time : Text → Option Time
  pub marshal : Receipt → Option Bytes
  pub unmarshal : Bytes → Option Receipt

pub data Reason : Type 0 where
  unknown_owner does_not_exist not_absolute_clean untrusted read_failed : Reason

pub record SkippedFile : Type 0 where
  pub path : Text
  pub reason : Reason

pub record CollectResult : Type 0 where
  pub new_events : ℕ
  pub dropped_lines : ℕ
  pub jsonl_path : Text
  pub skipped : List SkippedFile
  pub events : List Receipt

-- `nothing` is the null result.
pub data Collected : Type 0 where
  nothing no_data_dir no_directory : Collected
  collected : CollectResult → Collected

abbrev in_uint32 : ℕ → Option ℕ
in_uint32 n = if ltb n (2 ^ 32) then some n else none

-- strconv.ParseUint(s, 10, 32)
unfoldable pub parse_uint32 : Text → Option ℕ
parse_uint32 s = parse_ℕ s >>= in_uint32

-- resolveOwner
unfoldable pub resolve_owner : World → Text → Option ℕ
unfolding parse_uint32
resolve_owner w name = elim (parse_uint32 name) [
  | some n ↦ some n
  | none ↦ w.user_uid name >>= parse_uint32
]

abbrev onto_owners : ℕ → Option (List ℕ) → Option (List ℕ)
onto_owners uid none = none
onto_owners uid (some owners) = some (uid ∷ owners)

-- The owners, or `none` where one cannot be resolved.
unfoldable pub resolve_owners : World → List Text → Option (List ℕ)
unfolding resolve_owner
resolve_owners w [] = some []
resolve_owners w (name ∷ names) =
    let rest = resolve_owners w names in
    elim (resolve_owner w name) [ none ↦ none | some uid ↦ onto_owners uid rest ]

abbrev pub verify_log : Host → List ℕ → Text → Check
verify_log h [] path = verify_trusted_path h path
verify_log h (o ∷ owners) path = verify_trusted_path_with_owners h (o ∷ owners) path

-- os.IsNotExist does not look inside an error that wraps another, as that of a directory does.
unfoldable pub reason_of : PathError → Reason
reason_of is_missing = does_not_exist
reason_of not_absolute = not_absolute_clean
reason_of not_clean = not_absolute_clean
reason_of _ = untrusted

module _ (w : World) (x : Codec) where
  unfoldable pub receipt_line : Bytes → Option Receipt
  receipt_line line = elim (parse_receipt_line x.decoder x.parse_time line) [
    | parsed r ↦ some r
    | dropped e ↦ none
  ]

  abbrev pub template : Template Receipt
  template = record {
    parse_line = receipt_line;
    seen_key = λ r. r.request_id;
    max_bytes = pos 0;
    marshal = x.marshal;
    unmarshal = x.unmarshal;
  }

  unfoldable pub count_dropped : List Bytes → ℕ
  unfolding receipt_line
  count_dropped [] = 0
  count_dropped (l ∷ ls) = elim (receipt_line l) [
    | none ↦ suc (count_dropped ls)
    | some r ↦ count_dropped ls
  ]

  -- The lines that one run hands to ParseLine and that it refuses.
  unfoldable pub dropped_of : Os → Option Bytes → ℤ → ℕ
  unfolding count_dropped
  dropped_of os log max_lines = elim (if os.reads_log then log else none) [
    | none ↦ 0
    | some s ↦ elim (tail_lines s max_lines) [ none ↦ 0 | some ls ↦ count_dropped ls ]
  ]

  unfoldable pub skip : Text → Reason → CollectResult → CollectResult
  skip path reason res = record res {
    skipped = record { path = path; reason = reason } ∷ res.skipped;
  }

  unfoldable pub ship : Text → ℕ → Ran Receipt → CollectResult → CollectResult
  unfolding skip
  ship path n (failed e) res =
      let skipped = skip path read_failed res in
      record skipped { dropped_lines = n + res.dropped_lines }
  ship path n (ran events) res = record res {
    dropped_lines = n + res.dropped_lines;
    events = events ++ res.events;
  }

  -- The files with the log of that path.
  abbrev pub at_log : Text → Files → Files
  at_log path f = record f { log = w.log_of path }

  -- The loop over the logs, after the owners; the result of the later logs is put behind.
  unfoldable pub collect_logs : Option (List ℕ) → ℤ → List Text → Files → Files × CollectResult
  unfolding ship reason_of dropped_of
  collect_logs owners max_lines [] f =
      (f, record { new_events = 0; dropped_lines = 0; jsonl_path = []; skipped = []; events = [] })
  collect_logs none max_lines (path ∷ logs) f =
      let (f', res) = collect_logs none max_lines logs f in (f', skip path unknown_owner res)
  collect_logs (some owners) max_lines (path ∷ logs) f =
      let unread = collect_logs (some owners) max_lines logs f in
      let after = run template (w.os_of path) max_lines (at_log path f) in
      let read = collect_logs (some owners) max_lines logs after.0 in
      let n = dropped_of (w.os_of path) (w.log_of path) max_lines in
      elim (verify_log w.host owners path) [
        | passed ↦ (read.0, ship path n after.1 read.1)
        | refused e ↦ (unread.0, skip path (reason_of e) unread.1)
        | out_of_fuel ↦ (unread.0, skip path untrusted unread.1)
      ]

  -- Collect
  unfoldable pub collect : Settings → Files → Files × Collected
  unfolding collect_logs resolve_owners
  collect s f =
      let jsonl_path = join (join s.data_dir (codes "logs")) (codes "http_outcome.jsonl") in
      let max_lines = if ltb_ℤ (pos 0) s.log_lines then s.log_lines else pos default_max_lines in
      let (f', res) = collect_logs (resolve_owners w s.trusted_owners) max_lines s.logs f in
      let done = record res { new_events = length res.events; jsonl_path = jsonl_path } in
      elim s.logs [
        | [] ↦ (f, nothing)
        | path ∷ logs ↦
            if is_empty s.data_dir
            then (f, no_data_dir)
            else if not (w.makes_dir (join s.data_dir (codes "logs")))
            then (f, no_directory)
            else (f', collected done)
      ]
