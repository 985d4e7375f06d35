-- ===== src/Receiver/Disk.antt =====
-- The files below the data directory that core/receiver/store.go writes, and how a write can fail.
-- `D` is the type of encoded states: the content of state.json.
use heartpost.Common.{
  ℕ, Bool, true, ◌&&◌, not, Option, none, some, List, [], ◌∷◌, ◌++◌, take, or_else, ◌==◌,
  if◌then◌else◌,
}
use heartpost.Common.Text.{Text, text_eq, contains_code}
use heartpost.Common.Assoc.{Assoc, lookup, insert}
use heartpost.FilePath.{slash}
use heartpost.Receiver.State.{AgentState, Record, SummaryJson}

abbrev pub States : Type 0
States = Assoc AgentState

pub record Disk (D : Type 0) : Type 0 where
  -- The report files, by path.
  pub reports : Assoc (List ℕ)
  -- state.json. The temporary file that is renamed to it is never read.
  pub state : Option D

-- encoding/json as the store uses it. `none` is an error of Marshal or Unmarshal; a state that is
-- `none` is a JSON null.
pub record Json (D : Type 0) : Type 0 where
  pub marshal_states : States → Option D
  pub unmarshal_states : D → Option (Assoc (Option AgentState))
  pub marshal_record : Record → Option (List ℕ)
  pub summary : SummaryJson

-- What the operating system answers to the calls of one operation of the store.
pub record Os : Type 0 where
  pub open_ok : Bool
  -- A write that fails has written so many bytes.
  pub write_short : Option ℕ
  pub close_ok : Bool
  pub write_tmp_ok : Bool
  pub rename_ok : Bool
  pub read_dir_ok : Bool
  pub mkdir_ok : Bool
  pub read_ok : Bool
  pub remove_ok : Text → Bool

-- Every call succeeds.
abbrev pub working : Os
working = record {
  open_ok = true;
  write_short = none;
  close_ok = true;
  write_tmp_ok = true;
  rename_ok = true;
  read_dir_ok = true;
  mkdir_ok = true;
  read_ok = true;
  remove_ok = λ path. true;
}

pub data Error : Type 0 where
  invalid_agent_id path_escapes marshal_failed open_failed write_failed close_failed : Error
  unknown_agent write_state_failed rename_failed parse_state_failed empty_dir mkdir_failed : Error
  read_state_failed : Error

-- O_APPEND|O_CREATE: the content of a file, and an empty one if it is not there.
abbrev pub content : Text → Assoc (List ℕ) → List ℕ
content name files = or_else (lookup name files) []

-- The file after a write that may stop short.
unfoldable pub append_file : Option ℕ → Text → List ℕ → Assoc (List ℕ) → Assoc (List ℕ)
append_file none name line files = insert name (content name files ++ line) files
append_file (some n) name line files = insert name (content name files ++ take n line) files

-- os.Remove
unfoldable pub remove_file : Text → Assoc (List ℕ) → Assoc (List ℕ)
remove_file path [] = []
remove_file path ((p, bytes) ∷ files) =
    if text_eq p path then remove_file path files else (p, bytes) ∷ remove_file path files

-- The name of a file that stands in the directory itself.
unfoldable pub entry_name : Text → Text → Option Text
entry_name [] [] = none
entry_name [] (c ∷ s) = if (c == slash) && not (contains_code slash s) then some s else none
entry_name (d ∷ dir) [] = none
entry_name (d ∷ dir) (c ∷ s) = if c == d then entry_name dir s else none

unfoldable pub cons_some : Option Text → List Text → List Text
cons_some none names = names
cons_some (some name) names = name ∷ names

-- os.ReadDir: the names of the files in a directory.
unfoldable pub read_dir : Text → Assoc (List ℕ) → List Text
unfolding entry_name cons_some
read_dir dir [] = []
read_dir dir ((p, bytes) ∷ files) = cons_some (entry_name dir p) (read_dir dir files)
