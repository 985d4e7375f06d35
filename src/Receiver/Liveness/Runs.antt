-- ===== src/Receiver/Liveness/Runs.antt =====
-- The alerts about one agent over a whole run of the monitor: reports, checks and new agents in any
-- order, whatever the notifier and the operating system answer each time.
use heartpost.Common.{
  ◌≡◌, ◌∙◌, refl, sym, Option, none, some, List, [], ◌∷◌, ◌++◌, arith, Bool-cases, inl, inr, ap,
}
use heartpost.Common.Text.{Text, text_eq, text_eq_iff}
use heartpost.Common.Assoc.{lookup, lookup-insert}
use heartpost.Clock.{Time, is_zero}
use heartpost.Receiver.Disk.{Json, Os}
use heartpost.Receiver.State.{AgentState, Record}
use heartpost.Receiver.Notify.{Event, Notifier}
use heartpost.Receiver.Store.{Store, append, ensure_agent, found_or_new}
use heartpost.Receiver.Store.Keys.{
  HasKeys, append-HasKeys, ensure_agent-HasKeys, set_liveness-HasKeys, states-append,
  states-ensure_agent, apply_report-SameLiveness,
}
use heartpost.Receiver.Liveness.{
  Thresholds, check, check_states, write_back, judge, is_notified_down,
}
use heartpost.Receiver.Liveness.Pointwise.{
  about, about-append, check-pointwise, checked, alerts, or_none,
}
use heartpost.Receiver.Liveness.Alternation.{
  Alternates, Alternates-append, Alternates-alerts, alerted, kinds,
}
use mathlib.Core.Option
use mathlib.Core.List.{map-append}

-- What reaches the store while the monitor runs, with the answers that it meets.
pub data Step : Type 0 where
  report : Os → Record → Time → Step
  tick : (Text → Os) → Notifier → Time → Step
  ensure : Os → Text → Text → Step

module _ {D : Type 0} (json : Json D) (ths : Thresholds) where
  unfoldable pub take_step : Step → Store D → Store D × List Event
  take_step (report os rec now) s = ((append json os rec now s).0, [])
  take_step (tick os notifier now) s = check json os ths notifier now s
  take_step (ensure os id label) s = ((ensure_agent json os id label s).0, [])

  unfoldable pub run : List Step → Store D → Store D × List Event
  run [] s = (s, [])
  run (step ∷ steps) s =
      let first = take_step step s in let rest = run steps first.0 in (rest.0, first.1 ++ rest.1)

  write_back-HasKeys :
      (os : Os) (st : AgentState) (notifier : Notifier) (now : Time) (s : Store D)
      → HasKeys s.states
      → HasKeys (write_back json os st.agent_id (judge ths notifier now st) s).states
  unfolding write_back
  write_back-HasKeys os st notifier now s w = ground (
    arith,
    set_liveness-HasKeys json os st.agent_id (judge ths notifier now st).down
        (judge ths notifier now st).down_since (judge ths notifier now st).notified s w,
  )

  check_states-HasKeys :
      (os : Text → Os) (notifier : Notifier) (now : Time) (sts : List AgentState) (s : Store D)
      → HasKeys s.states
      → HasKeys (check_states json os ths notifier now sts s).0.states
  unfolding check_states
  check_states-HasKeys os notifier now [] s w = w
  check_states-HasKeys os notifier now (st ∷ sts) s w = elim (Bool-cases (is_zero st.last_seen)) [
    | inl new ↦ rw (new, check_states) (check_states-HasKeys os notifier now sts s w)
    | inr seen ↦
        rw (seen, check_states)
          (check_states-HasKeys os notifier now sts _
            (write_back-HasKeys (os st.agent_id) st notifier now s w))
  ]

  pub take_step-HasKeys :
      (step : Step) (s : Store D) → HasKeys s.states → HasKeys (take_step step s).0.states
  unfolding take_step check
  take_step-HasKeys (report os rec now) s w = append-HasKeys json os rec now s w
  take_step-HasKeys (tick os notifier now) s w = check_states-HasKeys os notifier now _ s w
  take_step-HasKeys (ensure os id label) s w = ensure_agent-HasKeys json os id label s w

  module _ (id : Text) where
    alerted-found_or_new :
        (k : Text) (o : Option AgentState)
        → is_notified_down (found_or_new k o).notified ≡ alerted o
    unfolding found_or_new
    alerted-found_or_new k none = refl
    alerted-found_or_new k (some st) = refl

    -- A report leaves the last notification of every agent.
    alerted-append :
        (os : Os) (rec : Record) (now : Time) (s : Store D)
        → alerted (lookup id (append json os rec now s).0.states) ≡ alerted (lookup id s.states)
    alerted-append os rec now s = elim (states-append json os rec now s) [
      | inl same ↦ rw same
      | inr (ok, put) ↦ rw put (
          rw lookup-insert (elim (Bool-cases (text_eq rec.agent_id id)) [
            | inl mine ↦
                rw (mine, (apply_report-SameLiveness json.summary rec now _).1)
                  (alerted-found_or_new rec.agent_id (lookup rec.agent_id s.states)
                    ∙ ap (λ (k : Text). alerted (lookup k s.states))
                        ((text_eq_iff rec.agent_id id).0 mine))
            | inr other ↦ rw other
          ]))
    ]

    alerted-ensure_agent :
        (os : Os) (j label : Text) (s : Store D)
        → alerted (lookup id (ensure_agent json os j label s).0.states)
          ≡ alerted (lookup id s.states)
    alerted-ensure_agent os j label s = elim (states-ensure_agent json os j label s) [
      | inl same ↦ rw same
      | inr (ok, gone, put) ↦ rw put (rw lookup-insert (ground (arith, gone, text_eq_iff j id)))
    ]

    take_step-Alternates :
        (step : Step) (s : Store D)
        → HasKeys s.states
        → Alternates
            (alerted (lookup id s.states))
            (kinds (about id (take_step step s).1))
            (alerted (lookup id (take_step step s).0.states))
    unfolding take_step
    take_step-Alternates (report os rec now) s w = sym (alerted-append os rec now s)
    take_step-Alternates (ensure os j label) s w = sym (alerted-ensure_agent os j label s)
    take_step-Alternates (tick os notifier now) s w =
        let (states, sent) = check-pointwise json os ths notifier now s w id in
        rw (states, sent) (of_state (lookup id s.states))
      where
        of_state :
            (o : Option AgentState)
            → Alternates
                (alerted o)
                (kinds (or_none (alerts ths notifier now) o))
                (alerted (Option.map (checked ths notifier now) o))
        of_state none = refl
        of_state (some st) = Alternates-alerts ths notifier now st

    -- Over any run the alerts about one agent alternate.
    pub run-Alternates :
        (steps : List Step) (s : Store D)
        → HasKeys s.states
        → Alternates
            (alerted (lookup id s.states))
            (kinds (about id (run steps s).1))
            (alerted (lookup id (run steps s).0.states))
    unfolding run
    run-Alternates [] s w = refl
    run-Alternates (step ∷ steps) s w =
        let first = take_step step s in
        let rest = run steps first.0 in
        rw (about-append, map-append)
          (Alternates-append _ _ _ (kinds (about id first.1)) _ (take_step-Alternates step s w)
            (run-Alternates steps first.0 (take_step-HasKeys step s w)))
