-- ===== src/Receiver/Store/Keys.antt =====
-- Every entry of the store's map holds its own key, which is a valid agent id, and no key stands
-- twice. Every method keeps this, whatever the operating system answers.
use heartpost.Common.{
  ℕ, ◌≡◌, ◌∙◌, ◌⊎◌, refl, Bool, true, Option, none, some, List, [], ◌∷◌, arith, inl, inr,
  Bool-cases, Option-cases,
}
use heartpost.Common.Text.{Text, text_eq_iff, is_empty, trim_space}
use heartpost.Common.Assoc.{Assoc, lookup, insert, lookup-insert, WellKeyed}
use heartpost.Common.Int.{ℤ}
use heartpost.FilePath.{clean}
use heartpost.Clock.{Time}
use heartpost.Receiver.AgentId.{valid_agent_id}
use heartpost.Receiver.Disk.{Disk, Json, Os, States}
use heartpost.Receiver.State.{
  AgentState, Record, NotifyState, SummaryJson, apply_summary, apply_host, apply_disks, apply_load,
  LoadAvg, DiskUse, Raw, new_agent,
}
use heartpost.Receiver.Store.{
  Store, append, append_line, with_report, save_and_clean, save_state, save_encoded, cleanup,
  cleanup_entries, cleanup_entry, set_liveness, ensure_agent, load_entries, apply_report,
  apply_liveness, found_or_new, new_store, load_state,
}

-- An entry holds its own key, a valid agent id.
abbrev pub Holds : Text → AgentState → Type 0
Holds id st = (st.agent_id ≡ id) × (valid_agent_id id ≡ true)

abbrev pub HasKeys : States → Type 0
HasKeys = WellKeyed Holds

pub insert-HasKeys :
    (id : Text) (st : AgentState) (m : States) → Holds id st → HasKeys m → HasKeys (insert id st m)
unfolding insert lookup
insert-HasKeys id st [] h w = (h, refl, tt)
insert-HasKeys id st ((j, x) ∷ m) h w = ground (
  arith,
  text_eq_iff j id,
  text_eq_iff id j,
  lookup-insert id j st m,
  insert-HasKeys id st m h w.2,
)

pub lookup-Holds :
    (id : Text) (m : States) {st : AgentState} → HasKeys m → lookup id m ≡ some st → Holds id st
unfolding lookup
lookup-Holds id [] w h = ground arith
lookup-Holds id ((j, x) ∷ m) {st} w h =
    ground (arith, text_eq_iff j id, lookup-Holds id m {st = st} w.2)

-- What a report writes into a state leaves its id and what checks write.
abbrev pub SameLiveness : AgentState → AgentState → Type 0
SameLiveness x y =
    (x.agent_id ≡ y.agent_id)
    × (x.notified ≡ y.notified)
    × (x.down ≡ y.down)
    × (x.down_since ≡ y.down_since)

apply_disks-SameLiveness :
    (ds : List DiskUse) (st : AgentState) → SameLiveness (apply_disks ds st) st
unfolding apply_disks
apply_disks-SameLiveness [] st = (refl, refl, refl, refl)
apply_disks-SameLiveness (d ∷ ds) st = ground (arith, apply_disks-SameLiveness ds st)

apply_load-SameLiveness :
    (one : Option ℕ) (la : LoadAvg) (st : AgentState) → SameLiveness (apply_load one la st) st
unfolding apply_load
apply_load-SameLiveness one la st = ground arith

apply_host-SameLiveness :
    (name : Option Text) (st : AgentState) → SameLiveness (apply_host name st) st
unfolding apply_host
apply_host-SameLiveness name st = ground arith

apply_summary-SameLiveness :
    (json : SummaryJson) (c : Option (Assoc Raw)) (st : AgentState)
    → SameLiveness (apply_summary json c st) st
unfolding apply_summary
apply_summary-SameLiveness json none st = (refl, refl, refl, refl)
apply_summary-SameLiveness json (some c) st =
    grind (arith, apply_disks-SameLiveness, apply_load-SameLiveness, apply_host-SameLiveness)

pub apply_report-SameLiveness :
    (json : SummaryJson) (rec : Record) (now : Time) (st : AgentState)
    → SameLiveness (apply_report json rec now st) st
unfolding apply_report
apply_report-SameLiveness json rec now st = apply_summary-SameLiveness json rec.collectors _

load_entries-HasKeys :
    (loaded : Assoc (Option AgentState)) (m : States) → HasKeys m → HasKeys (load_entries loaded m)
unfolding load_entries
load_entries-HasKeys [] m w = w
load_entries-HasKeys ((id, none) ∷ loaded) m w = load_entries-HasKeys loaded m w
load_entries-HasKeys ((id, some st) ∷ loaded) m w =
    load_entries-HasKeys loaded _ (elim (Bool-cases (valid_agent_id id)) [
      | inl ok ↦ rw ok (insert-HasKeys id (record st { agent_id = id }) m (refl, ok) w)
      | inr bad ↦ rw bad w
    ])

agent_id-found_or_new :
    (id : Text) (m : States) → HasKeys m → (found_or_new id (lookup id m)).agent_id ≡ id
unfolding found_or_new
agent_id-found_or_new id m w = elim (Option-cases (lookup id m)) [
  | inl gone ↦ rw gone
  | inr (st, found) ↦ rw found (lookup-Holds id m w found).0
]

module _ {D : Type 0} where
  pub states-save_state :
      (json : Json D) (os : Os) (s : Store D) → (save_state json os s).0.states ≡ s.states
  unfolding save_state save_encoded
  states-save_state json os s = ground arith

  pub states-cleanup_entries :
      (os : Os) (now : Time) (names : List Text) (s : Store D)
      → (cleanup_entries os now names s).states ≡ s.states
  unfolding cleanup_entries cleanup_entry
  states-cleanup_entries os now [] s = refl
  states-cleanup_entries os now (name ∷ names) s =
      ground (arith, states-cleanup_entries os now names (cleanup_entry os now name s))

  pub states-cleanup : (os : Os) (now : Time) (s : Store D) → (cleanup os now s).states ≡ s.states
  unfolding cleanup
  states-cleanup os now s = grind (arith, states-cleanup_entries)

  abbrev pub reported : Json D → Record → Time → States → States
  reported json rec now m =
      insert rec.agent_id
        (apply_report json.summary rec now (found_or_new rec.agent_id (lookup rec.agent_id m))) m

  pub states-save_and_clean :
      (json : Json D) (os : Os) (now : Time) (s : Store D)
      → (save_and_clean json os now s).0.states ≡ s.states
  unfolding save_and_clean
  states-save_and_clean json os now s = grind (arith, states-cleanup, states-save_state)

  states-append_line :
      (json : Json D) (os : Os) (rec : Record) (now : Time) (path : Text) (line : List ℕ)
      (s : Store D)
      → ((append_line json os rec now path line s).0.states ≡ s.states)
        ⊎ ((append_line json os rec now path line s).0.states ≡ reported json rec now s.states)
  unfolding append_line with_report
  states-append_line json os rec now path line s = grind (arith, states-save_and_clean)

  -- A report leaves the map as it was, or writes into the entry of its agent, whose id is valid.
  pub states-append :
      (json : Json D) (os : Os) (rec : Record) (now : Time) (s : Store D)
      → ((append json os rec now s).0.states ≡ s.states)
        ⊎ ((valid_agent_id rec.agent_id ≡ true)
            × ((append json os rec now s).0.states ≡ reported json rec now s.states))
  unfolding append
  states-append json os rec now s = grind (arith, states-append_line)

  pub states-set_liveness :
      (json : Json D) (os : Os) (id : Text) (down : Bool) (since : Time) (n : NotifyState)
      (s : Store D)
      → (set_liveness json os id down since n s).0.states ≡ elim (lookup id s.states) [
        | none ↦ s.states
        | some st ↦ insert id (apply_liveness down since n st) s.states
      ]
  unfolding set_liveness save_state save_encoded
  states-set_liveness json os id down since n s = ground arith

  reported-HasKeys :
      (json : Json D) (rec : Record) (now : Time) (m : States)
      → valid_agent_id rec.agent_id ≡ true
      → HasKeys m
      → HasKeys (reported json rec now m)
  reported-HasKeys json rec now m ok w =
      insert-HasKeys _ _ m
        (
          (apply_report-SameLiveness json.summary rec now _).0
              ∙ agent_id-found_or_new rec.agent_id m w,
          ok,
        )
        w

  -- Every method of the store keeps the keys of its map, whatever the operating system answers.
  pub append-HasKeys :
      (json : Json D) (os : Os) (rec : Record) (now : Time) (s : Store D)
      → HasKeys s.states
      → HasKeys (append json os rec now s).0.states
  append-HasKeys json os rec now s w = elim (states-append json os rec now s) [
    | inl same ↦ rw same w
    | inr (ok, written) ↦ rw written (reported-HasKeys json rec now s.states ok w)
  ]

  pub set_liveness-HasKeys :
      (json : Json D) (os : Os) (id : Text) (down : Bool) (since : Time) (n : NotifyState)
      (s : Store D)
      → HasKeys s.states
      → HasKeys (set_liveness json os id down since n s).0.states
  set_liveness-HasKeys json os id down since n s w =
      rw states-set_liveness (elim (Option-cases (lookup id s.states)) [
        | inl gone ↦ rw gone w
        | inr (st, found) ↦ rw found (
            insert-HasKeys id _ s.states (unfold apply_liveness in lookup-Holds id s.states w found)
              w)
      ])

  pub states-ensure_agent :
      (json : Json D) (os : Os) (id label : Text) (s : Store D)
      → ((ensure_agent json os id label s).0.states ≡ s.states)
        ⊎ ((valid_agent_id id ≡ true)
            × (lookup id s.states ≡ none)
            × ((ensure_agent json os id label s).0.states
                ≡ insert id (new_agent id label) s.states))
  unfolding ensure_agent save_state save_encoded
  states-ensure_agent json os id label s = ground arith

  pub ensure_agent-HasKeys :
      (json : Json D) (os : Os) (id label : Text) (s : Store D)
      → HasKeys s.states
      → HasKeys (ensure_agent json os id label s).0.states
  ensure_agent-HasKeys json os id label s w = elim (states-ensure_agent json os id label s) [
    | inl same ↦ rw same w
    | inr (ok, gone, written) ↦
        rw written (insert-HasKeys id (new_agent id label) s.states (refl, ok) w)
  ]

  load_state-HasKeys :
      (json : Json D) (os : Os) (s : Store D)
      → HasKeys s.states
      → HasKeys (load_state json os s).0.states
  unfolding load_state
  load_state-HasKeys json os s w = elim (Bool-cases os.read_ok) [
    | inl ok ↦ elim (Option-cases s.disk.state) [
      | inl gone ↦ rw (ok, gone) w
      | inr (bytes, there) ↦ elim (Option-cases (json.unmarshal_states bytes)) [
        | inl bad ↦ rw (ok, there, bad) w
        | inr (loaded, good) ↦ rw (ok, there, good) (load_entries-HasKeys loaded s.states w)
      ]
    ]
    | inr failed ↦ rw failed w
  ]

  pub new_store-HasKeys :
      (json : Json D) (os : Os) (dir : Text) (retention : ℤ) (disk : Disk D)
      → HasKeys (new_store json os dir retention disk).0.states
  unfolding new_store load_state
  new_store-HasKeys json os dir retention disk =
      let s : Store D = record {
        dir = clean dir;
        retention_days = retention;
        states = [];
        disk = disk;
      } in
      elim (Bool-cases (is_empty (trim_space dir))) [
        | inl blank ↦ rw blank tt
        | inr named ↦ elim (Bool-cases os.mkdir_ok) [
          | inl made ↦ rw (named, made) (load_state-HasKeys json os s tt)
          | inr failed ↦ rw (named, failed) tt
        ]
      ]
