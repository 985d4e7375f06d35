-- ===== src/Receiver/Liveness/Durable.antt =====
-- A restart of the monitor between two runs: as long as the saves work, no alert is sent again.
use heartpost.Common.{
  ℕ, ◌≡◌, ◌≢◌, true, false, none, List, [], ◌∷◌, ◌++◌, arith, All, Bool-cases, inl, inr,
}
use heartpost.Common.Text.{Text, is_empty, trim_space}
use heartpost.Common.Assoc.{lookup}
use heartpost.Common.Int.{ℤ}
use heartpost.Clock.{Time, is_zero}
use heartpost.Receiver.Disk.{Json, Os, States}
use heartpost.Receiver.State.{AgentState, Record}
use heartpost.Receiver.Notify.{Notifier}
use heartpost.Receiver.Store.{
  Store, append, append_line, ensure_agent, set_liveness, save_state, save_encoded, save_and_clean,
  with_report, new_store,
}
use heartpost.Receiver.Store.Keys.{HasKeys, new_store-HasKeys}
use heartpost.Receiver.Store.Restart.{
  InSync, RoundTrips, save_state-InSync, save_and_clean-InSync, new_store-lookup,
}
use heartpost.Receiver.Liveness.{Thresholds, Verdict, check, check_states, write_back}
use heartpost.Receiver.Liveness.Pointwise.{about, about-append}
use heartpost.Receiver.Liveness.Alternation.{Alternates, Alternates-append, alerted, kinds}
use heartpost.Receiver.Liveness.Runs.{
  Step, report, tick, ensure, take_step, run, take_step-HasKeys, run-Alternates,
}
use mathlib.Core.List.{map-append}

-- The two calls that replace state.json succeed.
abbrev pub CanSave : Os → Type 0
CanSave os = (os.write_tmp_ok ≡ true) × (os.rename_ok ≡ true)

abbrev pub Saves : Step → Type 0
Saves (report os rec now) = CanSave os
Saves (tick os notifier now) = (id : Text) → CanSave (os id)
Saves (ensure os id label) = CanSave os

module _ {D : Type 0} (json : Json D) (encodes : (m : States) → json.marshal_states m ≢ none) where
  save_state_ok : (os : Os) (s : Store D) → CanSave os → (save_state json os s).1 ≡ none
  unfolding save_state save_encoded
  save_state_ok os s ok = ground (arith, encodes s.states)

  save-InSync : (os : Os) (s : Store D) → CanSave os → InSync json (save_state json os s).0
  save-InSync os s ok = save_state-InSync json os s (save_state_ok os s ok)

  save_and_clean_ok :
      (os : Os) (now : Time) (s : Store D)
      → CanSave os
      → InSync json (save_and_clean json os now s).0
  save_and_clean_ok os now s ok =
      save_and_clean-InSync json os now s
        (unfold save_and_clean in ground (arith, save_state_ok os s ok))

  append_line_keeps :
      (os : Os) (rec : Record) (now : Time) (path : Text) (line : List ℕ) (s : Store D)
      → CanSave os
      → InSync json s
      → InSync json (append_line json os rec now path line s).0
  unfolding append_line
  append_line_keeps os rec now path line s ok h =
      ground (arith, save_and_clean_ok os now (with_report json rec now path line s) ok)

  append_keeps :
      (os : Os) (rec : Record) (now : Time) (s : Store D)
      → CanSave os
      → InSync json s
      → InSync json (append json os rec now s).0
  unfolding append
  append_keeps os rec now s ok h = grind (arith, append_line_keeps)

  ensure_agent_keeps :
      (os : Os) (id label : Text) (s : Store D)
      → CanSave os
      → InSync json s
      → InSync json (ensure_agent json os id label s).0
  unfolding ensure_agent
  ensure_agent_keeps os id label s ok h = grind (arith, save-InSync)

  write_back_keeps :
      (os : Os) (id : Text) (v : Verdict) (s : Store D)
      → CanSave os
      → InSync json s
      → InSync json (write_back json os id v s)
  unfolding write_back set_liveness
  write_back_keeps os id v s ok h = grind (arith, save-InSync)

  module _ (ths : Thresholds) where
    check_states_keeps :
        (os : Text → Os) (notifier : Notifier) (now : Time) (sts : List AgentState) (s : Store D)
        → ((id : Text) → CanSave (os id))
        → InSync json s
        → InSync json (check_states json os ths notifier now sts s).0
    unfolding check_states
    check_states_keeps os notifier now [] s ok h = h
    check_states_keeps os notifier now (st ∷ sts) s ok h =
        elim (Bool-cases (is_zero st.last_seen)) [
          | inl new ↦ rw (new, check_states) (check_states_keeps os notifier now sts s ok h)
          | inr seen ↦
              rw (seen, check_states)
                (check_states_keeps os notifier now sts _ ok
                  (write_back_keeps (os st.agent_id) st.agent_id _ s (ok st.agent_id) h))
        ]

    take_step_keeps :
        (step : Step) (s : Store D)
        → Saves step
        → InSync json s
        → InSync json (take_step json ths step s).0
    unfolding take_step check
    take_step_keeps (report os rec now) s ok h = append_keeps os rec now s ok h
    take_step_keeps (tick os notifier now) s ok h = check_states_keeps os notifier now _ s ok h
    take_step_keeps (ensure os id label) s ok h = ensure_agent_keeps os id label s ok h

    -- While the saves work, state.json holds what the process knows.
    pub run-InSync :
        (steps : List Step) (s : Store D)
        → All Saves steps
        → InSync json s
        → InSync json (run json ths steps s).0
    unfolding run
    run-InSync [] s ok h = h
    run-InSync (step ∷ steps) s ok h =
        run-InSync steps (take_step json ths step s).0 ok.1 (take_step_keeps step s ok.0 h)

    run-HasKeys :
        (steps : List Step) (s : Store D)
        → HasKeys s.states
        → HasKeys (run json ths steps s).0.states
    unfolding run
    run-HasKeys [] s w = w
    run-HasKeys (step ∷ steps) s w =
        run-HasKeys steps (take_step json ths step s).0 (take_step-HasKeys json ths step s w)

    -- The alerts about one agent alternate over a run, a restart of the monitor and another run, if
    -- the saves of the first run work: what was alerted before the restart is not alerted again.
    pub restart-Alternates :
        RoundTrips json
        → (id : Text) (before after : List Step) (s : Store D) (os : Os) (dir : Text)
          (retention : ℤ)
        → HasKeys s.states
        → InSync json s
        → All Saves before
        → is_empty (trim_space dir) ≡ false
        → os.mkdir_ok ≡ true
        → os.read_ok ≡ true
        → let first = run json ths before s in
          let second = run json ths after (new_store json os dir retention first.0.disk).0 in
          Alternates
            (alerted (lookup id s.states))
            (kinds (about id (first.1 ++ second.1)))
            (alerted (lookup id second.0.states))
    restart-Alternates law id before after s os dir retention w h ok named made readable =
        let first = run json ths before s in
        let restarted = (new_store json os dir retention first.0.disk).0 in
        let same =
          (new_store-lookup json law os dir retention first.0 (run-HasKeys before s w)
              (run-InSync before s ok h) named made readable).1
            id in
        rw (about-append, map-append)
          (Alternates-append _ _ _ (kinds (about id first.1)) _
            (run-Alternates json ths id before s w)
            (rw same at (
              run-Alternates json ths id after restarted
                (new_store-HasKeys json os dir retention first.0.disk))))
