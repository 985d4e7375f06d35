-- ===== src/Receiver/State.antt =====
-- core/receiver/store.go: the record of a report, the state of an agent, and the values that a
-- report's collectors add to it. A float64 stands for its 64 bits, so 0.0 is 0; the JSON of one
-- collector is its bytes.
use heartpost.Common.{
  ℕ, Bool, true, false, Option, none, some, List, [], ◌∷◌, or_else, if◌then◌else◌,
}
use heartpost.Common.Text.{Text, codes, text_eq, is_empty, trim_space}
use heartpost.Common.Assoc.{Assoc, lookup}
use heartpost.Clock.{Time}

pub data NotifyState : Type 0 where
  notify_none notify_down notify_up : NotifyState

abbrev pub Raw : Type 0
Raw = List ℕ

pub record Record : Type 0 where
  pub received_at : Text
  pub agent_id : Text
  pub agent_label : Text
  pub agent_type : Text
  pub reported_at : Text
  pub collectors : Option (Assoc Raw)

pub record AgentState : Type 0 where
  pub agent_id : Text
  pub agent_label : Text
  pub agent_type : Text
  pub last_seen : Time
  pub reported_at : Text
  pub hostname : Text
  pub root_disk_percent : Text
  pub load1 : ℕ
  pub load5 : ℕ
  pub load15 : ℕ
  pub has_load : Bool
  pub down : Bool
  pub down_since : Time
  pub notified : NotifyState

-- &AgentState{AgentID: id, AgentLabel: label}
abbrev pub new_agent : Text → Text → AgentState
new_agent id label = record {
  agent_id = id;
  agent_label = label;
  agent_type = [];
  last_seen = 0;
  reported_at = [];
  hostname = [];
  root_disk_percent = [];
  load1 = 0;
  load5 = 0;
  load15 = 0;
  has_load = false;
  down = false;
  down_since = 0;
  notified = notify_none;
}

unfoldable pub label : AgentState → Text
label st =
    let by_label = trim_space st.agent_label in
    let by_host = trim_space st.hostname in
    if is_empty by_label then (if is_empty by_host then st.agent_id else by_host) else by_label

pub record DiskUse : Type 0 where
  pub use_percent : Text
  pub mounted : Text

pub record LoadAvg : Type 0 where
  pub load1 : Option ℕ
  pub load5 : Option ℕ
  pub load15 : Option ℕ

-- encoding/json at the types that `applySummary` decodes; `none` is a decoding error.
pub record SummaryJson : Type 0 where
  pub host_name : Raw → Option Text
  pub disks : Raw → Option (List DiskUse)
  pub load_avg : Raw → Option LoadAvg

unfoldable pub apply_host : Option Text → AgentState → AgentState
apply_host none st = st
apply_host (some name) st = if is_empty name then st else record st { hostname = name }

-- The loop over the file systems stops at the first that is mounted at `/`.
unfoldable pub apply_disks : List DiskUse → AgentState → AgentState
apply_disks [] st = st
apply_disks (d ∷ ds) st =
    if text_eq d.mounted (codes "/")
    then record st { root_disk_percent = d.use_percent }
    else apply_disks ds st

unfoldable pub apply_load : Option ℕ → LoadAvg → AgentState → AgentState
apply_load none la st = st
apply_load (some one) la st = record st {
  load1 = one;
  load5 = or_else la.load5 st.load5;
  load15 = or_else la.load15 st.load15;
  has_load = true;
}

-- `json.Unmarshal` of the collector of that name, if the report has it.
abbrev decoded : {A : Type 0} → (Raw → Option A) → Text → Assoc Raw → Option A
decoded decode name collectors = elim (lookup name collectors) [
  | none ↦ none
  | some raw ↦ decode raw
]

unfoldable pub apply_some :
    {A : Type 0} → (A → AgentState → AgentState) → Option A → AgentState → AgentState
apply_some f none st = st
apply_some f (some a) st = f a st

unfoldable pub apply_summary : SummaryJson → Option (Assoc Raw) → AgentState → AgentState
unfolding apply_host apply_disks apply_load apply_some
apply_summary json none st = st
apply_summary json (some collectors) st =
    let st1 = apply_host (decoded json.host_name (codes "host") collectors) st in
    let st2 = apply_some apply_disks (decoded json.disks (codes "disk") collectors) st1 in
    apply_some (λ la. apply_load la.load1 la) (decoded json.load_avg (codes "loadavg") collectors)
      st2
