-- ===== src/Receiver/Store/Restart.antt =====
-- What a new process reads back from state.json.
use heartpost.Common.{
  ℕ, ◌≡◌, ◌≢◌, ◌∙◌, refl, sym, Bool, true, false, Option, none, some, List, [], ◌∷◌, arith,
  if◌then◌else◌, Option-cases, inl, inr,
}
use heartpost.Common.Text.{Text, text_eq_iff, is_empty, trim_space}
use heartpost.Common.Assoc.{Assoc, lookup, insert, lookup-insert, WellKeyed}
use heartpost.Common.Int.{ℤ}
use heartpost.Clock.{Time}
use heartpost.Receiver.AgentId.{valid_agent_id}
use heartpost.Receiver.Disk.{Json, Os, States}
use heartpost.Receiver.State.{AgentState, NotifyState, Record}
use heartpost.Receiver.Store.{
  Store, load_entries, load_state, new_store, save_state, save_encoded, save_and_clean, with_report,
  append, append_line, cleanup, cleanup_entries, cleanup_entry, set_liveness,
}
use heartpost.Receiver.Store.Keys.{HasKeys, lookup-Holds, states-cleanup}
use mathlib.Core.Option

-- What encoding/json promises of a map of states, which has no key twice: the document that Marshal writes is read back as
-- a map, no key twice, with the same states. (Go's JSON keeps every field of a state: texts that
-- are valid UTF-8, finite numbers, and instants with their nanoseconds.)
pub record RoundTrips {D : Type 0} (json : Json D) : Type 0 where
  pub read_back :
      (m : States) (d : D)
      → HasKeys m
      → json.marshal_states m ≡ some d
      → (loaded : Assoc (Option AgentState)) × (json.unmarshal_states d ≡ some loaded)
        × WellKeyed (λ id st. Unit {0}) loaded
        × ((id : Text) → lookup id loaded ≡ Option.map some (lookup id m))

-- What loading makes of one entry.
abbrev entry : Text → Option (Option AgentState) → Option AgentState → Option AgentState
entry id none kept = kept
entry id (some none) kept = kept
entry id (some (some st)) kept =
    if valid_agent_id id then some (record st { agent_id = id }) else kept

lookup-load_entries :
    (id : Text) (loaded : Assoc (Option AgentState)) (m : States)
    → WellKeyed (λ id st. Unit {0}) loaded
    → lookup id (load_entries loaded m) ≡ entry id (lookup id loaded) (lookup id m)
unfolding load_entries lookup
lookup-load_entries id [] m w = refl
lookup-load_entries id ((k, none) ∷ loaded) m w =
    ground (arith, lookup-load_entries id loaded m w.2, text_eq_iff k id, w.1)
lookup-load_entries id ((k, some st) ∷ loaded) m w =
    let kept = if valid_agent_id k then insert k (record st { agent_id = k }) m else m in
    ground (
      arith,
      lookup-load_entries id loaded kept w.2,
      text_eq_iff k id,
      w.1,
      lookup-insert k id (record st { agent_id = k }) m,
    )

-- The state of every agent comes back.
lookup-read_back :
    (id : Text) (m : States) (loaded : Assoc (Option AgentState))
    → HasKeys m
    → WellKeyed (λ id st. Unit {0}) loaded
    → lookup id loaded ≡ Option.map some (lookup id m)
    → lookup id (load_entries loaded []) ≡ lookup id m
lookup-read_back id m loaded w distinct same =
    rw (lookup-load_entries id loaded [] distinct, same)
      (elim (Option-cases (lookup id m)) [
        | inl gone ↦ rw gone (unfold lookup in refl)
        | inr (st, found) ↦ rw found (ground (arith, lookup-Holds id m w found))
      ])

module _ {D : Type 0} (json : Json D) where
  -- state.json is there and holds the states of the map.
  abbrev pub InSync : Store D → Type 0
  InSync s = (s.disk.state ≡ json.marshal_states s.states) × (s.disk.state ≢ none)

  pub save_state-InSync :
      (os : Os) (s : Store D) → (save_state json os s).1 ≡ none → InSync (save_state json os s).0
  unfolding save_state save_encoded
  save_state-InSync os s ok = ground arith

  disk_state-cleanup_entries :
      (os : Os) (now : Time) (names : List Text) (s : Store D)
      → (cleanup_entries os now names s).disk.state ≡ s.disk.state
  unfolding cleanup_entries cleanup_entry
  disk_state-cleanup_entries os now [] s = refl
  disk_state-cleanup_entries os now (name ∷ names) s =
      ground (arith, disk_state-cleanup_entries os now names (cleanup_entry os now name s))

  disk_state-cleanup :
      (os : Os) (now : Time) (s : Store D) → (cleanup os now s).disk.state ≡ s.disk.state
  unfolding cleanup
  disk_state-cleanup os now s = grind (arith, disk_state-cleanup_entries)

  pub save_and_clean-InSync :
      (os : Os) (now : Time) (s : Store D)
      → (save_and_clean json os now s).1 ≡ none
      → InSync (save_and_clean json os now s).0
  unfolding save_and_clean
  save_and_clean-InSync os now s ok = ground (
    arith,
    save_state-InSync os s,
    disk_state-cleanup os now (save_state json os s).0,
    states-cleanup os now (save_state json os s).0,
  )

  append_line-InSync :
      (os : Os) (rec : Record) (now : Time) (path : Text) (line : List ℕ) (s : Store D)
      → (append_line json os rec now path line s).1 ≡ none
      → InSync (append_line json os rec now path line s).0
  unfolding append_line
  append_line-InSync os rec now path line s ok =
      ground (arith, save_and_clean-InSync os now (with_report json rec now path line s))

  -- A report that is answered with success is in state.json.
  pub append-InSync :
      (os : Os) (rec : Record) (now : Time) (s : Store D)
      → (append json os rec now s).1 ≡ none
      → InSync (append json os rec now s).0
  unfolding append
  append-InSync os rec now s ok = grind (arith, append_line-InSync)

  pub set_liveness-InSync :
      (os : Os) (id : Text) (down : Bool) (since : Time) (n : NotifyState) (s : Store D)
      → (set_liveness json os id down since n s).1 ≡ none
      → InSync (set_liveness json os id down since n s).0
  unfolding set_liveness
  set_liveness-InSync os id down since n s ok = grind (arith, save_state-InSync)

  -- The map after a new process has read the file.
  new_store-states :
      (os : Os) (dir : Text) (retention : ℤ) (s : Store D) (loaded : Assoc (Option AgentState))
      (d : D)
      → s.disk.state ≡ some d
      → json.unmarshal_states d ≡ some loaded
      → is_empty (trim_space dir) ≡ false
      → os.mkdir_ok ≡ true
      → os.read_ok ≡ true
      → ((new_store json os dir retention s.disk).1 ≡ none)
        × ((new_store json os dir retention s.disk).0.states ≡ load_entries loaded [])
  unfolding new_store load_state
  new_store-states os dir retention s loaded d stored back named made readable = ground arith

  -- A new process over the same directory finds every agent as the old one had it.
  pub new_store-lookup :
      RoundTrips json
      → (os : Os) (dir : Text) (retention : ℤ) (s : Store D) → HasKeys s.states
      → InSync s
      → is_empty (trim_space dir) ≡ false
      → os.mkdir_ok ≡ true
      → os.read_ok ≡ true
      → ((new_store json os dir retention s.disk).1 ≡ none)
        × ((id : Text)
            → lookup id (new_store json os dir retention s.disk).0.states ≡ lookup id s.states)
  new_store-lookup law os dir retention s w (same, there) named made readable =
      elim (Option-cases s.disk.state) [
        | inl gone ↦ absurd (there gone)
        | inr (d, stored) ↦
            let (loaded, back, distinct, kept) = law.read_back s.states d w (sym same ∙ stored) in
            let (ok, states) =
              new_store-states os dir retention s loaded d stored back named made readable in
            (ok, λ id. rw states (lookup-read_back id s.states loaded w distinct (kept id)))
      ]
