-- ===== src/Receiver/Liveness/Silence.antt =====
-- When an agent counts as silent, and what one check does about one agent.
use heartpost.Common.{
  ℕ, ◌≡◌, ◌≢◌, ◌↔◌, refl, Bool, true, false, Option, none, some, List, [], ◌∷◌, arith, ◌+◌, ◌≤◌,
  ◌<◌, if◌then◌else◌,
}
use heartpost.Common.Text.{Text}
use heartpost.Common.Int.{pos, max_int64, ◌<ℤ◌}
use heartpost.Clock.{Time, is_zero, sub}
use heartpost.Receiver.State.{AgentState, NotifyState, label}
use heartpost.Receiver.Notify.{Event, Notifier, Cause, Kind, down, recovered}
use heartpost.Receiver.Store.{apply_liveness}
use heartpost.Receiver.Liveness.{
  Thresholds, threshold_for, is_down, judge, event_of, is_notified_down, transition, settle,
  next_down_since, notified_by, react, conclude, Verdict,
}
use heartpost.Receiver.Liveness.Pointwise.{checked, alerts}

-- Whatever the configuration holds, the threshold of an agent is positive.
pub threshold_for_pos : (ths : Thresholds) (id : Text) → pos 0 <ℤ threshold_for ths id
unfolding threshold_for
threshold_for_pos ths id = ground arith

-- An agent is silent exactly when more than its threshold has passed since its last report.
pub is_down_iff :
    (ths : Thresholds) (now : Time) (st : AgentState) (n : ℕ)
    → threshold_for ths st.agent_id ≡ pos n
    → n < max_int64
    → (is_down ths now st ≡ true) ↔ (st.last_seen + n < now)
unfolding is_down sub
is_down_iff ths now st n h fits = (ground arith, ground arith)

-- Silence lasts until the next report.
pub is_down_mono :
    (ths : Thresholds) (now later : Time) (st : AgentState)
    → now ≤ later
    → is_down ths now st ≡ true
    → is_down ths later st ≡ true
unfolding is_down sub
is_down_mono ths now later st le h = ground arith

unchanged :
    (st : AgentState) (d : Bool) (since : Time) (n : NotifyState) (sent : List Event)
    → (settle st d since n sent).writes ≡ false
    → apply_liveness d since n st ≡ st
unfolding settle apply_liveness
unchanged st d since n sent h = ground arith

-- Writing back only what changed is writing back.
settle_writes :
    (st : AgentState) (d : Bool) (since : Time) (n : NotifyState) (sent : List Event)
    → (if (settle st d since n sent).writes then apply_liveness d since n st else st)
      ≡ apply_liveness d since n st
settle_writes st d since n sent = ground (arith, unchanged st d since n sent)

-- The last notification after the notifier's answer.
abbrev pub answered : NotifyState → Kind → List Cause → NotifyState
answered n kind [] = notified_by kind
answered n kind (_ ∷ _) = n

-- The last notification after a check: a transition moves it once its event is delivered.
abbrev pub notified_after : Thresholds → Notifier → Time → AgentState → Option Kind → NotifyState
notified_after ths notifier now st none = st.notified
notified_after ths notifier now st (some kind) =
    answered st.notified kind (notifier (event_of ths now st kind))

abbrev pub taken : Event → List Cause → List Event
taken ev [] = ev ∷ []
taken ev (_ ∷ _) = []

-- The events that a transition sends.
abbrev pub delivered : Thresholds → Notifier → Time → AgentState → Option Kind → List Event
delivered ths notifier now st none = []
delivered ths notifier now st (some kind) =
    let ev = event_of ths now st kind in taken ev (notifier ev)

abbrev written : Verdict → AgentState → AgentState
written v st = if v.writes then apply_liveness v.down v.down_since v.notified st else st

written-conclude :
    (st : AgentState) (d : Bool) (since : Time) (ev : Event) (causes : List Cause)
    → written (conclude st d since ev causes) st
      ≡ apply_liveness d since (answered st.notified ev.kind causes) st
unfolding conclude settle
written-conclude st d since ev [] = settle_writes st d since (notified_by ev.kind) (ev ∷ [])
written-conclude st d since ev (cause ∷ causes) = refl

pub transition-quiet :
    (n : NotifyState) → is_notified_down n ≡ false → transition true n ≡ some down
unfolding transition
transition-quiet n h = ground arith

-- What a check writes shows neither in the test nor in an event.
is_down-apply_liveness :
    (ths : Thresholds) (now since : Time) (d : Bool) (n : NotifyState) (st : AgentState)
    → is_down ths now (apply_liveness d since n st) ≡ is_down ths now st
unfolding is_down apply_liveness
is_down-apply_liveness ths now since d n st = refl

event_of-apply_liveness :
    (ths : Thresholds) (now since : Time) (d : Bool) (n : NotifyState) (st : AgentState)
    (kind : Kind)
    → event_of ths now (apply_liveness d since n st) kind ≡ event_of ths now st kind
unfolding event_of apply_liveness label
event_of-apply_liveness ths now since d n st kind = refl

last_seen-apply_liveness :
    (since : Time) (d : Bool) (n : NotifyState) (st : AgentState)
    → (apply_liveness d since n st).last_seen ≡ st.last_seen
unfolding apply_liveness
last_seen-apply_liveness since d n st = refl

pub notified-apply_liveness :
    (since : Time) (d : Bool) (n : NotifyState) (st : AgentState)
    → (apply_liveness d since n st).notified ≡ n
unfolding apply_liveness
notified-apply_liveness since d n st = refl

module _ (ths : Thresholds) (notifier : Notifier) (now : Time) (st : AgentState) where
  written-react :
      (d : Bool) (since : Time) (kind : Option Kind)
      → written (react ths notifier now st d since kind) st
        ≡ apply_liveness d since (notified_after ths notifier now st kind) st
  unfolding react settle event_of
  written-react d since none = settle_writes st d since st.notified []
  written-react d since (some kind) = written-conclude st d since (event_of ths now st kind) _

  pub sent-react :
      (d : Bool) (since : Time) (kind : Option Kind)
      → (react ths notifier now st d since kind).sent ≡ delivered ths notifier now st kind
  unfolding react settle conclude
  sent-react d since kind = ground arith

  pub checked_eq :
      is_zero st.last_seen ≡ false
      → checked ths notifier now st
        ≡ apply_liveness
            (is_down ths now st)
            (next_down_since (is_down ths now st) now st.down_since)
            (notified_after ths notifier now st (transition (is_down ths now st) st.notified))
            st
  unfolding checked judge
  checked_eq seen = rw seen (written-react _ _ _)

  pub alerts_eq :
      is_zero st.last_seen ≡ false
      → alerts ths notifier now st
        ≡ delivered ths notifier now st (transition (is_down ths now st) st.notified)
  unfolding alerts judge
  alerts_eq seen = rw seen (sent-react _ _ _)

  -- With a notifier that accepts every event, a check of an agent that has been seen records
  -- exactly whether the agent is silent, in the display and as the last notification.
  pub checked_agrees :
      is_zero st.last_seen ≡ false
      → ((ev : Event) → notifier ev ≡ [])
      → ((checked ths notifier now st).down ≡ is_down ths now st)
        × (is_notified_down (checked ths notifier now st).notified ≡ is_down ths now st)
  unfolding apply_liveness transition
  checked_agrees seen works =
      rw (checked_eq seen)
        (ground (arith, works (event_of ths now st down), works (event_of ths now st recovered)))

alerts-apply_liveness :
    (ths : Thresholds) (notifier : Notifier) (now since : Time) (d : Bool) (n : NotifyState)
    (st : AgentState)
    → is_zero st.last_seen ≡ false
    → is_down ths now st ≡ true
    → is_notified_down n ≡ false
    → notifier (event_of ths now st down) ≡ []
    → alerts ths notifier now (apply_liveness d since n st) ≡ event_of ths now st down ∷ []
alerts-apply_liveness ths notifier now since d n st seen silent quiet accepted =
    simp
      (
        alerts_eq ths notifier now (apply_liveness d since n st) (rw last_seen-apply_liveness seen),
        is_down-apply_liveness,
        silent,
        notified-apply_liveness,
        transition-quiet n quiet,
      )
      (ground (arith, event_of-apply_liveness ths now since d n st down))

module _ (ths : Thresholds) (notifier retry : Notifier) (now later : Time) (st : AgentState)
    (seen : is_zero st.last_seen ≡ false) (silent : is_down ths now st ≡ true)
    (quiet : is_notified_down st.notified ≡ false)
    (refused : notifier (event_of ths now st down) ≢ []) where
  kept : (checked ths notifier now st).notified ≡ st.notified
  kept =
      rw
        (
          checked_eq ths notifier now st seen,
          notified-apply_liveness,
          silent,
          transition-quiet st.notified quiet,
        )
        (ground arith)

  -- An agent that is silent and whose alert is refused keeps its last notification, and nothing
  -- counts as sent; a later check, while no report has come, sends the alert.
  pub refused_alert_is_retried :
      now ≤ later
      → retry (event_of ths later st down) ≡ []
      → (alerts ths notifier now st ≡ [])
        × ((checked ths notifier now st).notified ≡ st.notified)
        × (alerts ths retry later (checked ths notifier now st) ≡ event_of ths later st down ∷ [])
  refused_alert_is_retried le accepted = (
    rw (alerts_eq ths notifier now st seen, silent, transition-quiet st.notified quiet)
        (ground arith),
    kept,
    rw (checked_eq ths notifier now st seen) (
        alerts-apply_liveness ths retry later _ _ _ st seen
          (is_down_mono ths now later st le silent)
          (rw (silent, transition-quiet st.notified quiet) (ground arith)) accepted),
  )
