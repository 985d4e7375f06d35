-- ===== src/Tests/Liveness.antt =====
-- Checks of one agent, and the theorems of the liveness judgement applied to them.
use heartpost.Common.{◌+◌, ◌*◌, ◌≡◌, refl, true, false, none, some, List, [], ◌∷◌, ◌++◌, arith}
use heartpost.Common.Text.{Text, codes, text_eq, is_empty, trim_space}
use heartpost.Common.Assoc.{lookup, insert}
use heartpost.Common.Int.{pos}
use heartpost.Common.Decimal.{print_ℕ}
use heartpost.Clock.{Time, second, minute, sub}
use heartpost.Receiver.Disk.{working, States}
use heartpost.Receiver.AgentId.{valid_agent_id}
use heartpost.Receiver.State.{label}
use heartpost.Receiver.Notify.{down, format_text}
use heartpost.Receiver.Store.{
  Store, new_store, snapshot, set_liveness, save_state, save_encoded, apply_liveness,
}
use heartpost.Receiver.Store.Restart.{new_store-lookup}
use heartpost.Receiver.Store.Keys.{HasKeys}
use heartpost.Receiver.Liveness.{
  is_down, is_notified_down, threshold_for, threshold_default, event_of, check, check_states, judge,
  react, conclude, settle, write_back, transition, next_down_since,
}
use heartpost.Receiver.Liveness.Silence.{checked_agrees, refused_alert_is_retried}
use heartpost.Receiver.Liveness.Pointwise.{checked, alerts, about, check-pointwise, or_none}
use heartpost.Receiver.Liveness.Alternation.{Alternates, alerted, kinds}
use heartpost.Receiver.Liveness.Runs.{
  Step, report, tick, run, take_step, run-Alternates, take_step-HasKeys,
}
use heartpost.Receiver.Liveness.Durable.{restart-Alternates}
use heartpost.Tests.Data.{
  plain_json, plain_json-RoundTrips, web1, noon, web1_seen, web1_report, fresh, one_agent, defaults,
  accepting, failing,
}
use mathlib.Core.Option

abbrev late : Time
late = noon + 16 * minute

web1_is_down : is_down defaults late web1_seen ≡ true
unfolding is_down threshold_for threshold_default sub lookup
web1_is_down = refl

one_agent-HasKeys : HasKeys one_agent.states
one_agent-HasKeys = ((refl, unfold valid_agent_id in refl), unfold lookup in refl, tt)

down_text :
    format_text down (codes "Web") (pos (16 * minute)) (pos (15 * minute))
    ≡ codes "[欠報] Web から 16m0s レポートが届いていません（しきい値 15m0s）"
unfolding format_text print_ℕ
down_text = refl

alerts_once :
    kinds (
      about web1
        (run plain_json defaults
          (tick (λ id. working) failing late
            ∷ tick (λ id. working) accepting late
            ∷ tick (λ id. working) accepting late
            ∷ [])
          one_agent).1)
    ≡ down ∷ []
unfolding run take_step check check_states snapshot judge react conclude settle write_back
    set_liveness save_state save_encoded transition next_down_since is_down threshold_for
    threshold_default sub event_of apply_liveness label format_text lookup insert print_ℕ text_eq
alerts_once = refl

fresh-HasKeys : HasKeys fresh.states
fresh-HasKeys = tt

web1_threshold : threshold_for defaults web1 ≡ pos (15 * minute)
unfolding threshold_for threshold_default lookup
web1_threshold = refl

checked_agrees_example :
    ((checked defaults accepting late web1_seen).down ≡ is_down defaults late web1_seen)
    × (is_notified_down (checked defaults accepting late web1_seen).notified
        ≡ is_down defaults late web1_seen)
checked_agrees_example = checked_agrees defaults accepting late web1_seen refl (λ ev. refl)

refused_alert_is_retried_example :
    (alerts defaults failing late web1_seen ≡ [])
    × ((checked defaults failing late web1_seen).notified ≡ web1_seen.notified)
    × (alerts defaults accepting (late + second) (checked defaults failing late web1_seen)
        ≡ event_of defaults (late + second) web1_seen down ∷ [])
refused_alert_is_retried_example =
    refused_alert_is_retried defaults failing accepting late (late + second) web1_seen refl
      web1_is_down refl (λ e. cc) (omega arith) refl

check-pointwise_example :
    (lookup web1 (check plain_json (λ id. working) defaults accepting late one_agent).0.states
      ≡ Option.map (checked defaults accepting late) (lookup web1 one_agent.states))
    × (about web1 (check plain_json (λ id. working) defaults accepting late one_agent).1
        ≡ or_none (alerts defaults accepting late) (lookup web1 one_agent.states))
check-pointwise_example =
    check-pointwise plain_json (λ id. working) defaults accepting late one_agent one_agent-HasKeys
      web1

-- A report, and a check that finds the agent silent.
abbrev steps : List Step
steps = report working web1_report noon ∷ tick (λ id. working) accepting late ∷ []

take_step-HasKeys_example :
    HasKeys (take_step plain_json defaults (report working web1_report noon) one_agent).0.states
take_step-HasKeys_example =
    take_step-HasKeys plain_json defaults (report working web1_report noon) one_agent
      one_agent-HasKeys

run-Alternates_example :
    Alternates
      (alerted (lookup web1 one_agent.states))
      (kinds (about web1 (run plain_json defaults steps one_agent).1))
      (alerted (lookup web1 (run plain_json defaults steps one_agent).0.states))
run-Alternates_example = run-Alternates plain_json defaults web1 steps one_agent one_agent-HasKeys

data_named : is_empty (trim_space fresh.dir) ≡ false
unfolding trim_space
data_named = refl

restart-Alternates_example :
    let first = run plain_json defaults steps fresh in
    let second =
      run plain_json defaults steps
        (new_store plain_json working fresh.dir fresh.retention_days first.0.disk).0 in
    Alternates
      (alerted (lookup web1 fresh.states))
      (kinds (about web1 (first.1 ++ second.1)))
      (alerted (lookup web1 second.0.states))
restart-Alternates_example =
    restart-Alternates plain_json (λ m e. cc) defaults plain_json-RoundTrips web1 steps steps fresh
      working fresh.dir fresh.retention_days fresh-HasKeys (refl, λ e. cc)
      ((refl, refl), ((λ id. (refl, refl)), tt)) data_named refl refl

-- The store whose file holds its one agent.
abbrev synced : Store States
synced = record one_agent { disk = record { reports = []; state = some one_agent.states } }

new_store-lookup_example :
    ((new_store plain_json working fresh.dir fresh.retention_days synced.disk).1 ≡ none)
    × ((id : Text)
        → lookup id
            (new_store plain_json working fresh.dir fresh.retention_days synced.disk).0.states
          ≡ lookup id synced.states)
new_store-lookup_example =
    new_store-lookup plain_json plain_json-RoundTrips working fresh.dir fresh.retention_days synced
      one_agent-HasKeys (refl, λ e. cc) data_named refl refl
