-- ===== src/Receiver/Liveness/Pointwise.antt =====
-- The loop of Check over the sorted snapshot, agent by agent: what it writes and what it sends for
-- one agent depends on the state of that agent alone.
use mathlib.Core.List.{append-nil}
use mathlib.Core.Option
use heartpost.Common.{
  ◌≡◌, refl, Option, none, some, List, [], ◌∷◌, ◌++◌, arith, if◌then◌else◌, All, select, Bool-cases,
  inl, inr,
}
use heartpost.Common.Text.{Text, text_eq, text_eq_iff}
use heartpost.Common.Assoc.{lookup, lookup-insert}
use heartpost.Clock.{Time, is_zero}
use heartpost.Receiver.Disk.{Json, Os}
use heartpost.Receiver.State.{AgentState}
use heartpost.Receiver.Notify.{Event, Notifier}
use heartpost.Receiver.Store.{Store, apply_liveness, snapshot}
use heartpost.Receiver.Store.Keys.{HasKeys, states-set_liveness}
use heartpost.Receiver.Store.Snapshot.{
  find_state, IsDistinct, find-snapshot, snapshot-lookup, snapshot-IsDistinct,
}
use heartpost.Receiver.Liveness.{
  Thresholds, Verdict, judge, react, conclude, settle, write_back, check, check_states, event_of,
}

-- What a check makes of one agent's state, and what it sends about it.
unfoldable pub checked : Thresholds → Notifier → Time → AgentState → AgentState
checked ths notifier now st =
    if is_zero st.last_seen
    then st
    else let v = judge ths notifier now st in
      if v.writes then apply_liveness v.down v.down_since v.notified st else st

unfoldable pub alerts : Thresholds → Notifier → Time → AgentState → List Event
alerts ths notifier now st = if is_zero st.last_seen then [] else (judge ths notifier now st).sent

-- The events about one agent, in order.
abbrev pub about : Text → List Event → List Event
about id = select (λ ev. text_eq ev.agent_id id)

pub about-append :
    (id : Text) (xs ys : List Event) → about id (xs ++ ys) ≡ about id xs ++ about id ys
about-append id [] ys = refl
about-append id (x ∷ xs) ys = ground (arith, about-append id xs ys)

-- An agent's events carry its id.
about-sent :
    (id : Text) (ths : Thresholds) (notifier : Notifier) (now : Time) (st : AgentState)
    → about id (judge ths notifier now st).sent
      ≡ (if text_eq st.agent_id id then (judge ths notifier now st).sent else [])
unfolding judge react conclude settle event_of
about-sent id ths notifier now st = ground arith

abbrev pub or_none : {A : Type 0} → (AgentState → List A) → Option AgentState → List A
or_none f none = []
or_none f (some st) = f st

module _ {D : Type 0} (json : Json D) (os : Text → Os) (ths : Thresholds) (notifier : Notifier)
    (now : Time) where
  lookup-write_back :
      (id : Text) (v : Verdict) (st : AgentState) (s : Store D)
      → lookup st.agent_id s.states ≡ some st
      → lookup id (write_back json (os st.agent_id) st.agent_id v s).states ≡ (
          if text_eq st.agent_id id
          then some (if v.writes then apply_liveness v.down v.down_since v.notified st else st)
          else lookup id s.states)
  unfolding write_back
  lookup-write_back id v st s h = elim (Bool-cases v.writes) [
    | inl written ↦
        rw written (rw (states-set_liveness, h) (lookup-insert st.agent_id id _ s.states))
    | inr kept ↦ rw kept (ground (arith, text_eq_iff st.agent_id id))
  ]

  abbrev InStore : Store D → List AgentState → Type 0
  InStore s = All (λ st. lookup st.agent_id s.states ≡ some st)

  write_back-InStore :
      (v : Verdict) (st : AgentState) (sts : List AgentState) (s : Store D)
      → lookup st.agent_id s.states ≡ some st
      → find_state st.agent_id sts ≡ none
      → InStore s sts
      → InStore (write_back json (os st.agent_id) st.agent_id v s) sts
  write_back-InStore v st [] s h gone i = tt
  write_back-InStore v st (x ∷ xs) s h gone i = ground (
    arith,
    lookup-write_back x.agent_id v st s,
    text_eq_iff x.agent_id st.agent_id,
    text_eq_iff st.agent_id x.agent_id,
    write_back-InStore v st xs s,
  )

  abbrev or_kept : Option AgentState → Option AgentState → Option AgentState
  or_kept none kept = kept
  or_kept (some st) kept = some (checked ths notifier now st)

  lookup-check_states :
      (id : Text) (sts : List AgentState) (s : Store D)
      → IsDistinct sts
      → InStore s sts
      → lookup id (check_states json os ths notifier now sts s).0.states
        ≡ or_kept (find_state id sts) (lookup id s.states)
  unfolding check_states checked
  lookup-check_states id [] s d i = refl
  lookup-check_states id (st ∷ sts) s d i =
      let v = judge ths notifier now st in
      let s' = write_back json (os st.agent_id) st.agent_id v s in
      ground (
        arith,
        text_eq_iff st.agent_id id,
        d.0,
        i.0,
        lookup-check_states id sts s d.1 i.1,
        lookup-check_states id sts s' d.1 (write_back-InStore v st sts s i.0 d.0 i.1),
        lookup-write_back id v st s i.0,
      )

  about-check_states :
      (id : Text) (sts : List AgentState) (s : Store D)
      → IsDistinct sts
      → about id (check_states json os ths notifier now sts s).1
        ≡ or_none (alerts ths notifier now) (find_state id sts)
  unfolding check_states alerts
  about-check_states id [] s d = refl
  about-check_states id (st ∷ sts) s d =
      let v = judge ths notifier now st in
      let s' = write_back json (os st.agent_id) st.agent_id v s in
      ground (
        arith,
        text_eq_iff st.agent_id id,
        d.0,
        about-sent id ths notifier now st,
        about-append id v.sent (check_states json os ths notifier now sts s').1,
        append-nil v.sent,
        about-check_states id sts s d.1,
        about-check_states id sts s' d.1,
      )

module _ {D : Type 0} (json : Json D) (os : Text → Os) (ths : Thresholds) (notifier : Notifier)
    (now : Time) (s : Store D) (w : HasKeys s.states) where
  -- A check acts on each agent as if that agent were the only one: whatever the operating system
  -- answers to the saves, the agent's state after it and the events sent about the agent are
  -- those that its own state determines.
  pub check-pointwise :
      (id : Text)
      → (lookup id (check json os ths notifier now s).0.states
          ≡ Option.map (checked ths notifier now) (lookup id s.states))
        × (about id (check json os ths notifier now s).1
            ≡ or_none (alerts ths notifier now) (lookup id s.states))
  unfolding check
  check-pointwise id =
      let found = find-snapshot s w id in
      let distinct = snapshot-IsDistinct s w in
      ground (
        arith,
        found,
        lookup-check_states json os ths notifier now id (snapshot s) s distinct
            (snapshot-lookup s w),
        about-check_states json os ths notifier now id (snapshot s) s distinct,
      )
