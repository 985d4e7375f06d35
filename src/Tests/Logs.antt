-- ===== src/Tests/Logs.antt =====
-- Small logs and receipt files, and the theorems about collectors and trusted paths applied to them.
use heartpost.Common.{
  ◌-◌, ◌≡◌, ◌≢◌, ◌↔◌, refl, true, false, ◌||◌, none, some, List, [], ◌∷◌, arith, drop, length,
  if◌then◌else◌,
}
use heartpost.Common.Text.{Text, codes, text_eq}
use heartpost.Common.Int.{pos}
use heartpost.Signature.{Bytes}
use heartpost.Collector.Tail.{tail_lines, scan, drop_cr}
use heartpost.Collector.Tail.Last.{tail_lines_last}
use heartpost.Collector.Jsonl.{Template, Files, Os, ran, run, or_empty, has_key, parse_lines}
use heartpost.Collector.Jsonl.Lines.{Writes, IsJsonl}
use heartpost.Collector.Jsonl.Again.{run_again}
use heartpost.HttpOutcome.Paths.{
  Host, FileInfo, found, missing, passed, out_of_fuel, verify_trusted_path_with_owners,
}
use heartpost.HttpOutcome.Paths.Accepted.{IsVetted, verify_trusted_path_iff}
use heartpost.HttpOutcome.Paths.Ends.{verify_trusted_path_ends}
use heartpost.FilePath.{clean, dir_of}

abbrev three_lines : Bytes
three_lines = codes "a\nb\nc"

tail_lines_last_example : tail_lines three_lines (pos 2) ≡ (
    if (scan three_lines).1
    then some (drop (length (scan three_lines).0 - 2) (scan three_lines).0)
    else none)
tail_lines_last_example = tail_lines_last three_lines 1

last_two : tail_lines three_lines (pos 2) ≡ some (codes "b" ∷ codes "c" ∷ [])
unfolding tail_lines
last_two = refl

-- Each line is a record, and its own key.
abbrev plain : Template Bytes
plain = record {
  parse_line = λ l. some l;
  seen_key = λ v. v;
  max_bytes = pos 0;
  marshal = λ v. some v;
  unmarshal = λ b. some b;
}

abbrev pub works : Os
works = record {
  reads_jsonl = true;
  reads_log = true;
  opens = true;
  short_write = none;
  stats = true;
  renames = true;
}

abbrev repeating : List Bytes
repeating = codes "a" ∷ codes "b" ∷ codes "a" ∷ []

only_a : (parse_lines plain repeating (codes "b" ∷ [])).0 ≡ codes "a" ∷ []
unfolding parse_lines has_key text_eq
only_a = refl

abbrev before : Files
before = record { log = some three_lines; jsonl = some (codes "b\n"); rotated = none }

abbrev after : Files
after = record before { jsonl = some (codes "b\na\nc\n") }

before_after : run plain works (pos 3) before ≡ (after, ran (codes "a" ∷ codes "c" ∷ []))
unfolding run tail_lines text_eq
before_after = refl

before-IsJsonl : IsJsonl plain (or_empty before.jsonl)
unfolding scan
before-IsJsonl = (codes "b" ∷ [], (((refl, tt), refl, omega arith), tt), refl)

a_line : Writes plain (codes "a")
unfolding drop_cr
a_line = record {
  line = codes "a";
  marshals = refl;
  is_line = ((refl, tt), refl, omega arith);
  back = codes "a";
  reads = refl;
  same_key = refl;
}

c_line : Writes plain (codes "c")
unfolding drop_cr
c_line = record {
  line = codes "c";
  marshals = refl;
  is_line = ((refl, tt), refl, omega arith);
  back = codes "c";
  reads = refl;
  same_key = refl;
}

run_again_example : run plain works (pos 3) after ≡ (after, ran [])
run_again_example =
    run_again plain works works (pos 3) before after (codes "a" ∷ codes "c" ∷ []) before-IsJsonl
      (a_line, (c_line, tt)) refl refl refl before_after (λ e. cc)

abbrev pub dir_info : FileInfo
dir_info = record {
  is_symlink = false;
  is_dir = true;
  is_regular = false;
  owner = some 0;
  perm = 493;
  sticky = false;
}

abbrev pub file_info : FileInfo
file_info = record {
  is_symlink = false;
  is_dir = false;
  is_regular = true;
  owner = some 1000;
  perm = 384;
  sticky = false;
}

abbrev pub receipts : Text
receipts = codes "/var/hp/out.jsonl"

-- The user 1000, whose receipts lie in a directory of its own below two of root's.
abbrev pub vps_host : Host
vps_host = record {
  lstat = λ path.
      if text_eq path receipts
      then found file_info
      else if text_eq path (codes "/var/hp")
      then found (record dir_info { owner = some 1000 })
      else if text_eq path (codes "/var") || text_eq path (codes "/")
      then found dir_info
      else missing;
  uid = 1000;
}

verify_trusted_path_iff_example :
    (verify_trusted_path_with_owners vps_host (33 ∷ []) receipts ≡ passed)
    ↔ IsVetted vps_host (33 ∷ []) receipts
verify_trusted_path_iff_example = verify_trusted_path_iff vps_host (33 ∷ []) receipts

verify_trusted_path_ends_example :
    verify_trusted_path_with_owners vps_host (33 ∷ []) receipts ≢ out_of_fuel
verify_trusted_path_ends_example = verify_trusted_path_ends vps_host (33 ∷ []) receipts

receipts_pass : verify_trusted_path_with_owners vps_host (33 ∷ []) receipts ≡ passed
unfolding verify_trusted_path_with_owners text_eq clean dir_of
receipts_pass = refl
