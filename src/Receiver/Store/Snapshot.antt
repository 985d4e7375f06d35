-- ===== src/Receiver/Store/Snapshot.antt =====
-- States: the sorted copy of the map holds each agent once, under its id.
use heartpost.Common.{
  ◌≡◌, ◌∙◌, sym, All, All-mono, refl, Option, none, some, List, [], ◌∷◌, arith, if◌then◌else◌,
}
use heartpost.Common.Text.{Text, text_eq, text_eq_iff, text_ltb_irrefl}
use heartpost.Common.Assoc.{lookup}
use heartpost.Receiver.Disk.{States}
use heartpost.Receiver.State.{AgentState}
use heartpost.Receiver.Store.{Store, snapshot, sort_states, insert_state, values}
use heartpost.Receiver.Store.Keys.{HasKeys}

-- The first state of that agent in a list.
abbrev pub find_state : Text → List AgentState → Option AgentState
find_state id [] = none
find_state id (st ∷ sts) = if text_eq st.agent_id id then some st else find_state id sts

-- No agent stands twice.
abbrev pub IsDistinct : List AgentState → Type 0
IsDistinct [] = Unit
IsDistinct (st ∷ sts) = (find_state st.agent_id sts ≡ none) × IsDistinct sts

find-insert_state :
    (id : Text) (st : AgentState) (sts : List AgentState)
    → find_state id (insert_state st sts) ≡ find_state id (st ∷ sts)
unfolding insert_state
find-insert_state id st [] = refl
find-insert_state id st (x ∷ xs) = ground (
  arith,
  find-insert_state id st xs,
  text_eq_iff x.agent_id id,
  text_eq_iff st.agent_id id,
  text_ltb_irrefl id,
)

insert_state-IsDistinct :
    (st : AgentState) (sts : List AgentState)
    → find_state st.agent_id sts ≡ none
    → IsDistinct sts
    → IsDistinct (insert_state st sts)
unfolding insert_state
insert_state-IsDistinct st [] h d = (refl, tt)
insert_state-IsDistinct st (x ∷ xs) h d = ground (
  arith,
  find-insert_state x.agent_id st xs,
  insert_state-IsDistinct st xs,
  text_eq_iff x.agent_id st.agent_id,
  text_eq_iff st.agent_id x.agent_id,
)

find-sort_states :
    (id : Text) (sts : List AgentState) → find_state id (sort_states sts) ≡ find_state id sts
unfolding sort_states
find-sort_states id [] = refl
find-sort_states id (st ∷ sts) =
    ground (arith, find-insert_state id st (sort_states sts), find-sort_states id sts)

find-values : (id : Text) (m : States) → HasKeys m → find_state id (values m) ≡ lookup id m
unfolding values lookup
find-values id [] w = refl
find-values id ((k, st) ∷ m) w = ground (arith, find-values id m w.2)

values-IsDistinct : (m : States) → HasKeys m → IsDistinct (values m)
unfolding values
values-IsDistinct [] w = tt
values-IsDistinct ((k, st) ∷ m) w = ground (arith, find-values k m w.2, values-IsDistinct m w.2)

sort_states-IsDistinct : (sts : List AgentState) → IsDistinct sts → IsDistinct (sort_states sts)
unfolding sort_states
sort_states-IsDistinct [] d = tt
sort_states-IsDistinct (st ∷ sts) d =
    insert_state-IsDistinct st (sort_states sts) (find-sort_states st.agent_id sts ∙ d.0)
      (sort_states-IsDistinct sts d.1)

find-cons :
    (x : AgentState) (sts : List AgentState) (st : AgentState)
    → find_state x.agent_id sts ≡ none
    → find_state st.agent_id sts ≡ some st
    → find_state st.agent_id (x ∷ sts) ≡ some st
find-cons x sts st gone found = ground (arith, text_eq_iff x.agent_id st.agent_id)

-- Each state of a list with distinct ids is the one that is found under its id.
IsDistinct-find :
    (sts : List AgentState) → IsDistinct sts → All (λ st. find_state st.agent_id sts ≡ some st) sts
IsDistinct-find [] d = tt
IsDistinct-find (x ∷ xs) d = (
  ground (arith, text_eq_iff x.agent_id x.agent_id),
  All-mono (λ st. find_state st.agent_id xs ≡ some st) _ xs (λ st. find-cons x xs st d.0)
      (IsDistinct-find xs d.1),
)

module _ {D : Type 0} (s : Store D) (w : HasKeys s.states) where
  -- The snapshot has the state of an agent exactly where the map has it.
  pub find-snapshot : (id : Text) → find_state id (snapshot s) ≡ lookup id s.states
  unfolding snapshot
  find-snapshot id = find-sort_states id (values s.states) ∙ find-values id s.states w

  pub snapshot-IsDistinct : IsDistinct (snapshot s)
  unfolding snapshot
  snapshot-IsDistinct = sort_states-IsDistinct (values s.states) (values-IsDistinct s.states w)

  pub snapshot-lookup : All (λ st. lookup st.agent_id s.states ≡ some st) (snapshot s)
  snapshot-lookup =
      All-mono (λ st. find_state st.agent_id (snapshot s) ≡ some st) _ (snapshot s)
        (λ st found. sym (find-snapshot st.agent_id) ∙ found)
        (IsDistinct-find (snapshot s) snapshot-IsDistinct)
