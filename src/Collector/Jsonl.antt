-- ===== src/Collector/Jsonl.antt =====
-- collector/jsonl.go: the template of a collector that reads the end of a log, leaves out the
-- records that it has written before, writes the new ones to a JSONL file and rotates it.
pub mod Seen
pub mod Lines
pub mod Again
use heartpost.Common.{
  ℕ, zero, suc, ◌+◌, ◌*◌, Bool, true, false, ◌||◌, ◌&&◌, not, Option, none, some, List, [], ◌∷◌,
  ◌++◌, ltb, leb, length, take, if◌then◌else◌,
}
use heartpost.Common.Text.{Text, text_eq}
use heartpost.Common.Int.{ℤ, pos, negsuc, ltb_ℤ, pos_part}
use heartpost.Signature.{Bytes}
use heartpost.Collector.Tail.{scan, tail_lines}

-- JSONLLogCollector, with encoding/json at the type of its records.
pub record Template {ℓ} (T : Type ℓ) : Type ℓ where
  pub parse_line : Bytes → Option T
  pub seen_key : T → Text
  pub max_bytes : ℤ
  pub marshal : T → Option Bytes
  pub unmarshal : Bytes → Option T

-- The log, the JSONL file and the one that a rotation leaves; `none` is a missing file.
pub record Files : Type 0 where
  pub log : Option Bytes
  pub jsonl : Option Bytes
  pub rotated : Option Bytes

-- Which system calls of one run work. A write that fails has written so many bytes.
pub record Os : Type 0 where
  pub reads_jsonl : Bool
  pub reads_log : Bool
  pub opens : Bool
  pub short_write : Option ℕ
  pub stats : Bool
  pub renames : Bool

pub data RunError : Type 0 where
  log_not_read not_opened not_written not_renamed : RunError

unfoldable pub has_key : Text → List Text → Bool
has_key k [] = false
has_key k (j ∷ seen) = text_eq j k || has_key k seen

abbrev pub or_empty : Option Bytes → Bytes
or_empty none = []
or_empty (some s) = s

pub data Ran {ℓ} (T : Type ℓ) : Type ℓ where
  ran : List T → Ran T
  failed : RunError → Ran T

abbrev pub is_none {ℓ} : {T : Type ℓ} → List T → Bool
is_none [] = true
is_none (_ ∷ _) = false

abbrev pub ending {ℓ} : {T : Type ℓ} → List T → Files × Option RunError → Files × Ran T
ending vs (f, none) = (f, ran vs)
ending vs (f, some e) = (f, failed e)

module _ {ℓ} {T : Type ℓ} (c : Template T) where
  -- The keys of the lines that decode.
  unfoldable pub keys_of : List Bytes → List Text
  keys_of [] = []
  keys_of (l ∷ ls) = elim (c.unmarshal l) [ none ↦ keys_of ls | some v ↦ c.seen_key v ∷ keys_of ls ]

  -- LoadSeen: a file that cannot be opened has no keys, and a line that is too long ends the reading.
  unfoldable pub load_seen : Os → Files → List Text
  unfolding keys_of
  load_seen os f = if os.reads_jsonl then keys_of (scan (or_empty f.jsonl)).0 else []

  -- The loop over the lines: the new records, and the keys seen with theirs.
  unfoldable pub parse_lines : List Bytes → List Text → List T × List Text
  parse_lines [] seen = ([], seen)
  parse_lines (l ∷ ls) seen =
      let skipped = parse_lines ls seen in
      elim (c.parse_line l) [
        | none ↦ skipped
        | some v ↦
            let rest = parse_lines ls (c.seen_key v ∷ seen) in
            if has_key (c.seen_key v) seen then skipped else (v ∷ rest.0, rest.1)
      ]

  unfoldable pub parse_tail : Os → Files → ℤ → List Text → Option (List T × List Text)
  unfolding parse_lines has_key
  parse_tail os f max_lines seen = if not os.reads_log then none else elim f.log [
    | none ↦ none
    | some s ↦ elim (tail_lines s max_lines) [
      | none ↦ none
      | some lines ↦ some (parse_lines lines seen)
    ]
  ]

  -- The bytes of AppendJSONL. A record that does not marshal is left out.
  unfoldable pub encode : List T → Bytes
  encode [] = []
  encode (v ∷ vs) = elim (c.marshal v) [ none ↦ encode vs | some b ↦ b ++ 10 ∷ encode vs ]

  unfoldable pub append_jsonl : Os → List T → Files → Files × Option RunError
  unfolding encode
  append_jsonl os vs f =
      let old = or_empty f.jsonl in
      if is_none vs
      then (f, none)
      else if not os.opens
      then (f, some not_opened)
      else elim os.short_write [
        | none ↦ (record f { jsonl = some (old ++ encode vs) }, none)
        | some n ↦ (record f { jsonl = some (old ++ take n (encode vs)) }, some not_written)
      ]

  abbrev pub max_size : ℕ
  max_size = if ltb_ℤ (pos 0) c.max_bytes then pos_part c.max_bytes else 10 * 1024 * 1024

  -- Rotate, RotateIfNeeded
  unfoldable pub rotate : Os → Files → Files × Option RunError
  rotate os f = elim f.jsonl [
    | none ↦ (f, none)
    | some s ↦
        if not os.stats || leb (length s) max_size
        then (f, none)
        else if os.renames
        then (record f { jsonl = none; rotated = some s }, none)
        else (f, some not_renamed)
  ]

  -- Append, then rotate unless that failed.
  unfoldable pub keep : Os → List T → Files → Files × Ran T
  unfolding append_jsonl rotate
  keep os vs f =
      let (f', err) = append_jsonl os vs f in
      elim err [ some e ↦ (f', failed e) | none ↦ ending vs (rotate os f') ]

  -- Run
  unfoldable pub run : Os → ℤ → Files → Files × Ran T
  unfolding load_seen parse_tail keep
  run os max_lines f = elim (parse_tail os f max_lines (load_seen os f)) [
    | none ↦ (f, failed log_not_read)
    | some (vs, seen) ↦ (if is_none vs then (f, ran []) else keep os vs f)
  ]
