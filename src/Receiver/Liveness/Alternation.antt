-- ===== src/Receiver/Liveness/Alternation.antt =====
-- The alerts about one agent over a whole run of the monitor: reports, checks and new agents in any
-- order, whatever the notifier and the operating system answer each time.
use heartpost.Common.{
  ◌≡◌, refl, Bool, true, false, Option, none, some, List, [], ◌∷◌, ◌++◌, map, arith, Bool-cases,
  inl, inr,
}
use heartpost.Clock.{Time, is_zero}
use heartpost.Receiver.State.{AgentState, NotifyState}
use heartpost.Receiver.Notify.{Event, Notifier, Cause, Kind, down, recovered}
use heartpost.Receiver.Liveness.{Thresholds, is_notified_down, transition, event_of}
use heartpost.Receiver.Liveness.Pointwise.{checked, alerts}
use heartpost.Receiver.Liveness.Silence.{
  checked_eq, alerts_eq, answered, notified_after, delivered, taken, notified-apply_liveness,
  transition-quiet,
}

-- The alerts from one state of the last notification to another: `true` after an alert of silence.
-- Such alerts alternate with those of a recovery.
abbrev pub Alternates : Bool → List Kind → Bool → Type 0
Alternates alerted [] after = alerted ≡ after
Alternates false (down ∷ kinds) after = Alternates true kinds after
Alternates true (recovered ∷ kinds) after = Alternates false kinds after
Alternates _ (_ ∷ _) after = ⊥

pub Alternates-append :
    (a b c : Bool) (xs ys : List Kind)
    → Alternates a xs b
    → Alternates b ys c
    → Alternates a (xs ++ ys) c
Alternates-append a b c [] ys h k = rw h k
Alternates-append false b c (down ∷ xs) ys h k = Alternates-append true b c xs ys h k
Alternates-append true b c (recovered ∷ xs) ys h k = Alternates-append false b c xs ys h k
Alternates-append true b c (down ∷ xs) ys h k = absurd h
Alternates-append false b c (recovered ∷ xs) ys h k = absurd h

abbrev pub kinds : List Event → List Kind
kinds = map (λ ev. ev.kind)

abbrev pub alerted : Option AgentState → Bool
alerted none = false
alerted (some st) = is_notified_down st.notified

transition-told : (n : NotifyState) → is_notified_down n ≡ true → transition true n ≡ none
unfolding transition
transition-told n h = ground arith

transition-back :
    (n : NotifyState) → is_notified_down n ≡ true → transition false n ≡ some recovered
unfolding transition
transition-back n h = ground arith

transition-rest : (n : NotifyState) → is_notified_down n ≡ false → transition false n ≡ none
unfolding transition
transition-rest n h = ground arith

Alternates-down :
    (n : NotifyState) (ev : Event) (causes : List Cause)
    → is_notified_down n ≡ false
    → ev.kind ≡ down
    → Alternates
        (is_notified_down n)
        (kinds (taken ev causes))
        (is_notified_down (answered n down causes))
Alternates-down n ev [] quiet e = rw (quiet, e) refl
Alternates-down n ev (cause ∷ causes) quiet e = refl

Alternates-recovered :
    (n : NotifyState) (ev : Event) (causes : List Cause)
    → is_notified_down n ≡ true
    → ev.kind ≡ recovered
    → Alternates
        (is_notified_down n)
        (kinds (taken ev causes))
        (is_notified_down (answered n recovered causes))
Alternates-recovered n ev [] told e = rw (told, e) refl
Alternates-recovered n ev (cause ∷ causes) told e = refl

-- A transition that is delivered is the alternation's next step.
Alternates-delivered :
    (ths : Thresholds) (notifier : Notifier) (now : Time) (st : AgentState) (silent : Bool)
    → Alternates
        (is_notified_down st.notified)
        (kinds (delivered ths notifier now st (transition silent st.notified)))
        (is_notified_down (notified_after ths notifier now st (transition silent st.notified)))
unfolding event_of
Alternates-delivered ths notifier now st true = elim (Bool-cases (is_notified_down st.notified)) [
  | inl told ↦ rw (transition-told st.notified told) refl
  | inr quiet ↦ rw (transition-quiet st.notified quiet) (Alternates-down st.notified _ _ quiet refl)
]
Alternates-delivered ths notifier now st false = elim (Bool-cases (is_notified_down st.notified)) [
  | inl told ↦
      rw (transition-back st.notified told) (Alternates-recovered st.notified _ _ told refl)
  | inr quiet ↦ rw (transition-rest st.notified quiet) refl
]

pub Alternates-alerts :
    (ths : Thresholds) (notifier : Notifier) (now : Time) (st : AgentState)
    → Alternates
        (is_notified_down st.notified)
        (kinds (alerts ths notifier now st))
        (is_notified_down (checked ths notifier now st).notified)
Alternates-alerts ths notifier now st = elim (Bool-cases (is_zero st.last_seen)) [
  | inl new ↦ unfold alerts checked in rw new refl
  | inr seen ↦
      simp
        (
          alerts_eq ths notifier now st seen,
          checked_eq ths notifier now st seen,
          notified-apply_liveness,
        )
        (Alternates-delivered ths notifier now st _)
]
