-- ===== src/Collector/Pot.antt =====
-- collector/optional/honeypot/honeypot.go: the collector that sums up the honeypot's log of the last
-- days. The file system, JSON, the reading of times and the order of a loop over a map are
-- parameters.
pub mod Summary
pub mod Sorted
pub mod Ranked
use heartpost.Common.{
  ℕ, zero, suc, ◌+◌, ◌-◌, ◌*◌, Bool, true, false, not, ◌||◌, ◌&&◌, Option, none, some, List, [],
  ◌∷◌, ◌++◌, leb, length, take, drop, ltb, if◌then◌else◌,
}
use mathlib.Core.List.{reverse}
use heartpost.Common.Text.{Text, codes, is_empty, has_prefix}
use heartpost.Common.Assoc.{Assoc, lookup, insert}
use heartpost.Common.Int.{ℤ}
use heartpost.Clock.{Time}
use heartpost.FilePath.{join}
use heartpost.Signature.{Bytes}
use heartpost.Collector.Tail.{split_lines, drop_cr}

pub record HpRecord : Type 0 where
  pub schema : Text
  pub ts : Text
  pub ip : Text
  pub method : Text
  pub path : Text
  pub query : Text
  pub trigger : Text
  pub is_whitelisted : Bool
  pub headers : Assoc Text
  pub post_body : Text
  pub dedupe_key : Text

abbrev pub Counts : Type 0
Counts = Assoc ℕ

pub record CollectResult : Type 0 where
  pub total_hits : ℕ
  pub unique_ips : ℕ
  pub trigger_counts : Counts
  pub top_ips : List (Text × ℕ)
  pub recent_hits : List HpRecord
  pub new_events : ℕ
  pub events : List HpRecord
  pub jsonl_path : Text
  pub period_days : ℤ

pub record Settings : Type 0 where
  pub jsonl_path : Text
  pub data_dir : Text
  pub honeypot_days : ℤ

-- What os.Stat answers.
pub data Stat : Type 0 where
  present missing broken : Stat

-- A directory lists its entries by name, with whether each is a directory. `cutoff` is the time so
-- many days ago; `ranged` is a map's entries in the order of a loop over it, which Go leaves open.
pub record World : Type 0 where
  pub stat : Text → Stat
  pub read_dir : Text → Option (List (Text × Bool))
  pub read_file : Text → Option Bytes
  pub unmarshal : Bytes → Option HpRecord
  pub parse_time : Text → Option Time
  pub cutoff : ℤ → Time
  pub ranged : Counts → List (Text × ℕ)

-- The largest line with its newline.
abbrev pub line_limit : ℕ
line_limit = 512 * 1024

-- bufio.Scanner with this buffer: the lines, and whether it came to the end.
unfoldable pub scan_short : List Bytes → List Bytes × Bool
scan_short [] = ([], true)
scan_short (l ∷ ls) =
    let rest = scan_short ls in
    if leb (suc (length l)) line_limit then (drop_cr l ∷ rest.0, rest.1) else ([], false)

-- Whether the loop of readJSONL keeps a record.
unfoldable pub is_recent : World → Time → HpRecord → Bool
is_recent w since r = elim (w.parse_time r.ts) [ none ↦ false | some t ↦ not (ltb t since) ]

unfoldable pub records_of : World → Time → List Bytes → List HpRecord
records_of w since [] = []
records_of w since (l ∷ ls) =
    let rest = records_of w since ls in
    elim (w.unmarshal l) [ none ↦ rest | some r ↦ if is_recent w since r then r ∷ rest else rest ]

unfoldable pub scanned : World → Time → List Bytes × Bool → Option (List HpRecord)
scanned w since (lines, true) = some (records_of w since lines)
scanned w since (lines, false) = none

-- readJSONL; what it has read is of no use to its callers where it fails.
unfoldable pub read_jsonl : World → Text → Time → Option (List HpRecord)
unfolding scanned scan_short
read_jsonl w path since = elim (w.read_file path) [
  | none ↦ none
  | some s ↦ scanned w since (scan_short (split_lines s))
]

abbrev pub or_nothing : Option (List HpRecord) → List HpRecord
or_nothing none = []
or_nothing (some rs) = rs

-- filepath.Ext(name) == ".jsonl", for the name of an entry.
unfoldable pub is_jsonl : Text → Bool
is_jsonl name = has_prefix (reverse name) (reverse (codes ".jsonl"))

-- The loop of loadRecords: a file that cannot be read is left out.
unfoldable pub load_entries_of : World → Text → Time → List (Text × Bool) → List HpRecord
unfolding read_jsonl is_jsonl
load_entries_of w dir since [] = []
load_entries_of w dir since ((name, is_dir) ∷ entries) =
    let rest = load_entries_of w dir since entries in
    if is_dir || not (is_jsonl name)
    then rest
    else or_nothing (read_jsonl w (join dir name) since) ++ rest

-- loadRecords
unfoldable pub load_records : World → Text → Time → Option (List HpRecord)
unfolding load_entries_of
load_records w dir since = elim (w.read_dir dir) [
  | none ↦ none
  | some entries ↦ some (load_entries_of w dir since entries)
]

abbrev pub or_zero : Option ℕ → ℕ
or_zero none = 0
or_zero (some n) = n

-- counts[key]++, unless the key is empty.
unfoldable pub count_key : Text → Counts → Counts
unfolding lookup insert
count_key key counts =
    if is_empty key then counts else insert key (suc (or_zero (lookup key counts))) counts

-- The loop that counts the records by a key.
unfoldable pub count_by : (HpRecord → Text) → List HpRecord → Counts → Counts
count_by key [] counts = counts
count_by key (r ∷ rs) counts = count_by key rs (count_key (key r) counts)

-- xs[len(xs)-n:], where there are more.
unfoldable pub last_of : ℕ → List HpRecord → List HpRecord
last_of n xs = drop (length xs - n) xs

-- The comparator of sort.Slice.
abbrev pub more_hits : Text × ℕ → Text × ℕ → Bool
more_hits a b = ltb b.1 a.1

-- sort.Slice. It may leave equal counts in any order, but what it leaves is what a stable sort leaves
-- of the entries in some order, and that of the loop over the map is open.
unfoldable pub insert_count : Text × ℕ → List (Text × ℕ) → List (Text × ℕ)
insert_count e [] = e ∷ []
insert_count e (x ∷ xs) = if more_hits x e then x ∷ insert_count e xs else e ∷ x ∷ xs

unfoldable pub sort_counts : List (Text × ℕ) → List (Text × ℕ)
unfolding insert_count
sort_counts [] = []
sort_counts (x ∷ xs) = insert_count x (sort_counts xs)

-- buildResult
unfoldable pub build_result : World → List HpRecord → ℤ → Text → CollectResult
unfolding count_by count_key last_of sort_counts
build_result w records days path =
    let ip_counts = count_by (λ r. r.ip) records [] in
    record {
      total_hits = length records;
      unique_ips = length ip_counts;
      trigger_counts = count_by (λ r. r.trigger) records [];
      top_ips = take 10 (sort_counts (w.ranged ip_counts));
      recent_hits = last_of 20 records;
      new_events = length (last_of 200 records);
      events = last_of 200 records;
      jsonl_path = path;
      period_days = days;
    }

-- Collect gives nothing where there is no honeypot.
pub data Answer : Type 0 where
  nothing unread : Answer
  summed : CollectResult → Answer

unfoldable pub answer_with : World → Settings → Text → Option (List HpRecord) → Answer
unfolding build_result
answer_with w c path none = unread
answer_with w c path (some records) = summed (build_result w records c.honeypot_days path)

unfoldable pub legacy_dir : Settings → Text
legacy_dir c = join (join c.data_dir (codes "json")) (codes "honeypot")

unfoldable pub collect_legacy : World → Settings → Stat → Answer
unfolding load_records answer_with legacy_dir
collect_legacy w c missing = nothing
collect_legacy w c present =
    answer_with w c (legacy_dir c) (load_records w (legacy_dir c) (w.cutoff c.honeypot_days))
collect_legacy w c broken =
    answer_with w c (legacy_dir c) (load_records w (legacy_dir c) (w.cutoff c.honeypot_days))

unfoldable pub collect_at : World → Settings → Text → Stat → Answer
unfolding collect_legacy read_jsonl answer_with
collect_at w c path broken = nothing
collect_at w c path present = answer_with w c path (read_jsonl w path (w.cutoff c.honeypot_days))
collect_at w c path missing =
    if is_empty c.data_dir then nothing else collect_legacy w c (w.stat (legacy_dir c))

unfoldable pub log_path : Settings → Text
log_path c =
    if is_empty c.jsonl_path
    then join (join c.data_dir (codes "logs")) (codes "honeypot.jsonl")
    else c.jsonl_path

-- Collect
unfoldable pub collect_pot : World → Settings → Answer
unfolding collect_at log_path
collect_pot w c =
    if is_empty c.jsonl_path && is_empty c.data_dir
    then nothing
    else collect_at w c (log_path c) (w.stat (log_path c))
