-- ===== src/Receiver/Liveness.antt =====
-- core/receiver/liveness.go: the threshold of an agent and the check that notifies a transition.
pub mod Pointwise
pub mod Silence
pub mod Alternation
pub mod Runs
pub mod Durable
use heartpost.Common.{
  ℕ, ◌*◌, Bool, true, false, ◌&&◌, ◌||◌, not, Option, none, some, List, [], ◌∷◌, ◌++◌, ◌==◌,
  if◌then◌else◌,
}
use heartpost.Common.Text.{Text}
use heartpost.Common.Assoc.{Assoc, lookup}
use heartpost.Common.Int.{pos, ltb_ℤ}
use heartpost.Clock.{Time, Duration, is_zero, sub, minute, whole_seconds}
use heartpost.Receiver.Disk.{Json, Os}
use heartpost.Receiver.State.{AgentState, NotifyState, notify_none, notify_down, notify_up, label}
use heartpost.Receiver.Notify.{Event, Kind, Notifier, Cause, format_text, down, recovered}
use heartpost.Receiver.Store.{Store, snapshot, set_liveness}

pub record Thresholds : Type 0 where
  pub default : Duration
  pub per_agent : Assoc Duration

-- Where an override is missing or not positive, the default; where that is not, 15 minutes.
unfoldable pub threshold_default : Duration → Duration
threshold_default d = if ltb_ℤ (pos 0) d then d else pos (3 * 5 * minute)

unfoldable pub threshold_for : Thresholds → Text → Duration
unfolding threshold_default
threshold_for t id = elim (lookup id t.per_agent) [
  | none ↦ threshold_default t.default
  | some d ↦ if ltb_ℤ (pos 0) d then d else threshold_default t.default
]

-- The test of a check, and of the dashboard.
unfoldable pub is_down : Thresholds → Time → AgentState → Bool
is_down ths now st = ltb_ℤ (threshold_for ths st.agent_id) (sub now st.last_seen)

abbrev pub is_notified_down : NotifyState → Bool
is_notified_down notify_down = true
is_notified_down _ = false

unfoldable pub next_down_since : Bool → Time → Time → Time
next_down_since true now since = if is_zero since then now else since
next_down_since false now since = 0

-- The switch over the test and the last notification.
unfoldable pub transition : Bool → NotifyState → Option Kind
transition true notify_down = none
transition true _ = some down
transition false notify_down = some recovered
transition false _ = none

unfoldable pub event_of : Thresholds → Time → AgentState → Kind → Event
event_of ths now st kind =
    let silence = sub now st.last_seen in
    let th = threshold_for ths st.agent_id in
    record {
      kind = kind;
      agent_id = st.agent_id;
      agent_label = label st;
      last_seen = st.last_seen;
      silence_seconds = whole_seconds silence;
      threshold_seconds = whole_seconds th;
      occurred_at = now;
      text = format_text kind (label st) silence th;
    }

abbrev pub notified_by : Kind → NotifyState
notified_by down = notify_down
notified_by recovered = notify_up

abbrev pub same_notify : NotifyState → NotifyState → Bool
same_notify notify_none notify_none = true
same_notify notify_down notify_down = true
same_notify notify_up notify_up = true
same_notify _ _ = false

abbrev pub same_bool : Bool → Bool → Bool
same_bool true b = b
same_bool false b = not b

-- What a check writes back for one agent, if it writes, and what it has sent.
pub record Verdict : Type 0 where
  pub writes : Bool
  pub down : Bool
  pub down_since : Time
  pub notified : NotifyState
  pub sent : List Event

-- No event, or one that was sent: written back unless nothing changed.
unfoldable pub settle : AgentState → Bool → Time → NotifyState → List Event → Verdict
settle st is_down since notified sent = record {
  writes =
      not (
        same_bool is_down st.down
        && ((since == st.down_since) && same_notify notified st.notified));
  down = is_down;
  down_since = since;
  notified = notified;
  sent = sent;
}

-- The answer of the notifier. A failed notification leaves `notified` as it was and writes the rest
-- back.
unfoldable pub conclude : AgentState → Bool → Time → Event → List Cause → Verdict
conclude st is_down since ev [] = settle st is_down since (notified_by ev.kind) (ev ∷ [])
conclude st is_down since ev (cause ∷ causes) = record {
  writes = true;
  down = is_down;
  down_since = since;
  notified = st.notified;
  sent = [];
}

unfoldable pub react :
    Thresholds → Notifier → Time → AgentState → Bool → Time → Option Kind → Verdict
react ths notifier now st is_down since none = settle st is_down since st.notified []
react ths notifier now st is_down since (some kind) =
    let ev = event_of ths now st kind in conclude st is_down since ev (notifier ev)

-- One round of the loop, for an agent that has been seen.
unfoldable pub judge : Thresholds → Notifier → Time → AgentState → Verdict
judge ths notifier now st =
    let silent = is_down ths now st in
    react ths notifier now st silent (next_down_since silent now st.down_since)
      (transition silent st.notified)

module _ {D : Type 0} where
  unfoldable pub write_back : Json D → Os → Text → Verdict → Store D → Store D
  write_back json os id v s =
      if v.writes then (set_liveness json os id v.down v.down_since v.notified s).0 else s

  -- The loop of Check over the snapshot. A failed save is logged and the loop goes on; the
  -- operating system may answer otherwise for each agent.
  unfoldable pub check_states :
      Json D
      → (Text → Os)
      → Thresholds
      → Notifier
      → Time
      → List AgentState
      → Store D
      → Store D × List Event
  check_states json os ths notifier now [] s = (s, [])
  check_states json os ths notifier now (st ∷ sts) s =
      let skipped = check_states json os ths notifier now sts s in
      let v = judge ths notifier now st in
      let rest =
        check_states json os ths notifier now sts
          (write_back json (os st.agent_id) st.agent_id v s) in
      elim (is_zero st.last_seen) [ true ↦ skipped | false ↦ (rest.0, v.sent ++ rest.1) ]

  -- Check: the store after it and the events that were sent.
  unfoldable pub check :
      Json D → (Text → Os) → Thresholds → Notifier → Time → Store D → Store D × List Event
  check json os ths notifier now s = check_states json os ths notifier now (snapshot s) s
