-- ===== src/Receiver/Store.antt =====
-- core/receiver/store.go: the reports on disk and the latest state of every agent. A method
-- returns the store after it and its error, `none` for nil. The mutex makes each method one step.
pub mod Keys
pub mod Snapshot
pub mod Restart
use heartpost.Common.{ℕ, Bool, not, Option, none, some, List, [], ◌∷◌, ◌++◌, if◌then◌else◌}
use heartpost.Common.Text.{Text, text_ltb, trim_space, is_empty}
use heartpost.Common.Assoc.{Assoc, lookup, insert}
use heartpost.Common.Int.{ℤ, pos, ltb_ℤ}
use heartpost.Clock.{Time}
use heartpost.FilePath.{clean}
use heartpost.Receiver.AgentId.{valid_agent_id}
use heartpost.Receiver.ReportFile.{reports_dir, safe_join, report_path, report_file_day, expired}
use heartpost.Receiver.State.{
  AgentState, Record, NotifyState, new_agent, apply_summary, SummaryJson,
}
use heartpost.Receiver.Disk.{
  Disk, Json, Os, States, Error, invalid_agent_id, path_escapes, marshal_failed, open_failed,
  write_failed, close_failed, unknown_agent, write_state_failed, rename_failed, parse_state_failed,
  empty_dir, mkdir_failed, read_state_failed, append_file, remove_file, read_dir,
}

pub record Store (D : Type 0) : Type 0 where
  pub dir : Text
  pub retention_days : ℤ
  pub states : States
  pub disk : Disk D

-- sort.Slice by agent id.
unfoldable pub insert_state : AgentState → List AgentState → List AgentState
insert_state st [] = st ∷ []
insert_state st (x ∷ xs) =
    if text_ltb x.agent_id st.agent_id then x ∷ insert_state st xs else st ∷ x ∷ xs

unfoldable pub sort_states : List AgentState → List AgentState
unfolding insert_state
sort_states [] = []
sort_states (st ∷ sts) = insert_state st (sort_states sts)

unfoldable pub values : States → List AgentState
values [] = []
values ((id, st) ∷ m) = st ∷ values m

-- A state.json's entries into the map: those with a null or with an invalid id are left out.
unfoldable pub load_entries : Assoc (Option AgentState) → States → States
load_entries [] states = states
load_entries ((id, none) ∷ loaded) states = load_entries loaded states
load_entries ((id, some st) ∷ loaded) states =
    load_entries loaded
      (if valid_agent_id id then insert id (record st { agent_id = id }) states else states)

unfoldable pub found_or_new : Text → Option AgentState → AgentState
found_or_new id none = new_agent id []
found_or_new id (some st) = st

-- What a report writes into its agent's state.
unfoldable pub apply_report : SummaryJson → Record → Time → AgentState → AgentState
unfolding apply_summary
apply_report json rec now st = apply_summary json rec.collectors (record st {
  agent_label = rec.agent_label;
  agent_type = rec.agent_type;
  last_seen = now;
  reported_at = rec.reported_at;
})

unfoldable pub apply_liveness : Bool → Time → NotifyState → AgentState → AgentState
apply_liveness down since notified st = record st {
  down = down;
  down_since = since;
  notified = notified;
}

module _ {D : Type 0} where
  unfoldable pub save_encoded : Os → Option D → Store D → Store D × Option Error
  save_encoded os none s = (s, some marshal_failed)
  save_encoded os (some bytes) s =
      if not os.write_tmp_ok
      then (s, some write_state_failed)
      else if not os.rename_ok
      then (s, some rename_failed)
      else (record s { disk = record s.disk { state = some bytes } }, none)

  -- saveStateLocked: state.json is replaced by a rename, or stays as it was.
  unfoldable pub save_state : Json D → Os → Store D → Store D × Option Error
  unfolding save_encoded
  save_state json os s = save_encoded os (json.marshal_states s.states) s

  unfoldable pub cleanup_entry : Os → Time → Text → Store D → Store D
  cleanup_entry os now name s = elim (report_file_day name) [
    | none ↦ s
    | some n ↦
        if expired n now s.retention_days
        then elim (safe_join (reports_dir s.dir) name) [
          | none ↦ s
          | some path ↦
              if os.remove_ok path
              then record s { disk = record s.disk { reports = remove_file path s.disk.reports } }
              else s
        ]
        else s
  ]

  unfoldable pub cleanup_entries : Os → Time → List Text → Store D → Store D
  cleanup_entries os now [] s = s
  cleanup_entries os now (name ∷ names) s =
      cleanup_entries os now names (cleanup_entry os now name s)

  -- cleanupLocked, and Cleanup.
  unfoldable pub cleanup : Os → Time → Store D → Store D
  cleanup os now s =
      if not (ltb_ℤ (pos 0) s.retention_days)
      then s
      else if not os.read_dir_ok
      then s
      else cleanup_entries os now (read_dir (reports_dir s.dir) s.disk.reports) s

  abbrev pub with_reports : Store D → Assoc (List ℕ) → Store D
  with_reports s files = record s { disk = record s.disk { reports = files } }

  -- The store once the line is in the file and the report in the agent's state.
  unfoldable pub with_report : Json D → Record → Time → Text → List ℕ → Store D → Store D
  with_report json rec now path line s =
      let st = found_or_new rec.agent_id (lookup rec.agent_id s.states) in
      record (with_reports s (append_file none path line s.disk.reports)) {
        states = insert rec.agent_id (apply_report json.summary rec now st) s.states;
      }

  unfoldable pub save_and_clean : Json D → Os → Time → Store D → Store D × Option Error
  save_and_clean json os now s =
      let saved = save_state json os s in
      elim saved.1 [ some e ↦ (saved.0, some e) | none ↦ (cleanup os now saved.0, none) ]

  -- The file is open: write the line, close it, update the agent, save the state, clean up.
  unfoldable pub append_line :
      Json D → Os → Record → Time → Text → List ℕ → Store D → Store D × Option Error
  append_line json os rec now path line s =
      let file = with_reports s (append_file os.write_short path line s.disk.reports) in
      elim os.write_short [
        | some n ↦ (file, some write_failed)
        | none ↦
            if not os.close_ok
            then (file, some close_failed)
            else save_and_clean json os now (with_report json rec now path line s)
      ]

  unfoldable pub append : Json D → Os → Record → Time → Store D → Store D × Option Error
  append json os rec now s =
      if not (valid_agent_id rec.agent_id)
      then (s, some invalid_agent_id)
      else elim (report_path s.dir rec.agent_id now) [
        | none ↦ (s, some path_escapes)
        | some path ↦ elim (json.marshal_record rec) [
          | none ↦ (s, some marshal_failed)
          | some line ↦
              if not os.open_ok
              then (s, some open_failed)
              else append_line json os rec now path (line ++ 10 ∷ []) s
        ]
      ]

  -- States: a sorted copy.
  unfoldable pub snapshot : Store D → List AgentState
  unfolding sort_states values
  snapshot s = sort_states (values s.states)

  unfoldable pub set_liveness :
      Json D → Os → Text → Bool → Time → NotifyState → Store D → Store D × Option Error
  set_liveness json os id down since notified s = elim (lookup id s.states) [
    | none ↦ (s, some unknown_agent)
    | some st ↦
        save_state json os
          (record s { states = insert id (apply_liveness down since notified st) s.states })
  ]

  unfoldable pub ensure_agent : Json D → Os → Text → Text → Store D → Store D × Option Error
  ensure_agent json os id label s =
      if not (valid_agent_id id) then (s, some invalid_agent_id) else elim (lookup id s.states) [
        | some st ↦ (s, none)
        | none ↦ save_state json os (record s { states = insert id (new_agent id label) s.states })
      ]

  -- loadState, on a store with an empty map. A state.json that is not there is no error.
  unfoldable pub load_state : Json D → Os → Store D → Store D × Option Error
  unfolding load_entries
  load_state json os s = if not os.read_ok then (s, some read_state_failed) else elim s.disk.state [
    | none ↦ (s, none)
    | some bytes ↦ elim (json.unmarshal_states bytes) [
      | none ↦ (s, some parse_state_failed)
      | some loaded ↦ (record s { states = load_entries loaded s.states }, none)
    ]
  ]

  -- NewStore over the files that the directory holds.
  unfoldable pub new_store : Json D → Os → Text → ℤ → Disk D → Store D × Option Error
  new_store json os dir retention disk =
      let s : Store D = record {
        dir = clean dir;
        retention_days = retention;
        states = [];
        disk = disk;
      } in
      if is_empty (trim_space dir)
      then (s, some empty_dir)
      else if not os.mkdir_ok
      then (s, some mkdir_failed)
      else load_state json os s
