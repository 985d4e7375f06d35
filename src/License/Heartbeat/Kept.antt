-- ===== src/License/Heartbeat/Kept.antt =====
-- The token that a heartbeat keeps.
use heartpost.Common.{
  ◌≡◌, ◌⊎◌, inl, inr, refl, ◌∙◌, Bool, true, false, ◌||◌, not, some, List, [], ◌∷◌, arith,
  Bool-cases, Option-cases, if◌then◌else◌,
}
use mathlib.Core.Path.{subst}
use heartpost.Common.Text.{Text, is_empty}
use heartpost.License.Heartbeat.{
  Answer, Reply, no_request, no_answer, answered, Outcome, MonitorError, gives, fails, not_ok, Tick,
  no_monitor, send_heartbeat, verify_with_monitor, beat_once, heartbeat_loop, run_heartbeat,
  is_revoked,
}

-- The monitor answered with this token: to a heartbeat, or, where it refused one, to the renewal
-- that followed.
abbrev Answers : Text → Reply → Type 0
Answers token r =
    (a : Answer) × (r ≡ answered a)
    × (a.status ≡ 200)
    × (is_ok : Bool) × (a.body ≡ some (is_ok, token))

abbrev pub Gave : Text → Tick → Type 0
Gave token t = Answers token t.beat ⊎ Answers token t.renewal

-- A token that the loop holds is the one that it began with or one that the monitor gave.
abbrev pub From : Text → Text → List Tick → Type 0
From first token [] = token ≡ first
From first token (t ∷ ts) = Gave token t ⊎ From first token ts

abbrev Fine : Text → Text → Tick → Type 0
Fine current next t = (is_empty next ≡ false) × ((next ≡ current) ⊎ Gave next t)

text_of : Outcome → Text
text_of (gives token) = token
text_of (fails e) = []

gives_injective : (a b : Text) → gives a ≡ gives b → a ≡ b
unfolding text_of
gives_injective a b e = λ i. text_of (e i)

from_body :
    (is_ok : Bool) (given token : Text)
    → (if not is_ok || is_empty given then fails not_ok else gives given) ≡ gives token
    → (is_empty token ≡ false) × (given ≡ token)
from_body is_ok given token e = ground arith

send_heartbeat-gives : (r : Reply) (token : Text) → send_heartbeat r ≡ gives token → Answers token r
unfolding send_heartbeat
send_heartbeat-gives no_request token e = ground arith
send_heartbeat-gives no_answer token e = ground arith
send_heartbeat-gives (answered a) token e = elim (Option-cases a.body) [
  | inl n ↦ ground arith
  | inr ((is_ok, given), h) ↦ (a, refl, ground arith, is_ok, ground arith)
]

verify_with_monitor-gives :
    (endpoint : Text) (r : Reply) (token : Text)
    → no_monitor endpoint ≡ false
    → verify_with_monitor endpoint r ≡ gives token
    → (is_empty token ≡ false) × Answers token r
unfolding verify_with_monitor
verify_with_monitor-gives endpoint no_request token there e = ground arith
verify_with_monitor-gives endpoint no_answer token there e = ground arith
verify_with_monitor-gives endpoint (answered a) token there e = elim (Option-cases a.body) [
  | inl n ↦ ground arith
  | inr ((is_ok, given), h) ↦ (ground arith, (a, refl, ground arith, is_ok, ground arith))
]

Outcome-cases : (o : Outcome) → ((t : Text) × (o ≡ gives t)) ⊎ ((e : MonitorError) × (o ≡ fails e))
Outcome-cases (gives t) = inl (t, refl)
Outcome-cases (fails e) = inr (e, refl)

beat_given :
    (endpoint current given : Text) (t : Tick)
    → send_heartbeat t.beat ≡ gives given
    → beat_once endpoint current t ≡ (if is_empty given then current else given)
unfolding beat_once
beat_given endpoint current given t e = ground arith

beat_renewed :
    (endpoint current given : Text) (t : Tick) (e : MonitorError)
    → send_heartbeat t.beat ≡ fails e
    → verify_with_monitor endpoint t.renewal ≡ gives given
    → beat_once endpoint current t ≡ (if is_revoked e then given else current)
unfolding beat_once
beat_renewed endpoint current given t e r v = ground arith

beat_failed :
    (endpoint current : Text) (t : Tick) (e e' : MonitorError)
    → send_heartbeat t.beat ≡ fails e
    → verify_with_monitor endpoint t.renewal ≡ fails e'
    → beat_once endpoint current t ≡ current
unfolding beat_once
beat_failed endpoint current t e e' r v = ground arith

Fine-if :
    (b : Bool) (current x y next : Text) (t : Tick)
    → next ≡ (if b then x else y)
    → (b ≡ true → Fine current x t)
    → (b ≡ false → Fine current y t)
    → Fine current next t
Fine-if true current x y next t e h k = rw e (h refl)
Fine-if false current x y next t e h k = rw e (k refl)

beat_once-cases :
    (endpoint current : Text) (t : Tick)
    → no_monitor endpoint ≡ false
    → is_empty current ≡ false
    → Fine current (beat_once endpoint current t) t
beat_once-cases endpoint current t there full = elim (Outcome-cases (send_heartbeat t.beat)) [
  | inl (given, s) ↦
      Fine-if (is_empty given) current current given (beat_once endpoint current t) t
        (beat_given endpoint current given t s) (λ _. (full, inl refl))
        (λ e. (e, inr (inl (send_heartbeat-gives t.beat given s))))
  | inr (e, s) ↦ elim (Outcome-cases (verify_with_monitor endpoint t.renewal)) [
    | inl (given, v) ↦
        let (filled, answer) = verify_with_monitor-gives endpoint t.renewal given there v in
        Fine-if (is_revoked e) current given current (beat_once endpoint current t) t
          (beat_renewed endpoint current given t e s v) (λ _. (filled, inr (inr answer)))
          (λ _. (full, inl refl))
    | inr (e', v) ↦ rw (beat_failed endpoint current t e e' s v) (full, inl refl)
  ]
]

From-step :
    (first next token : Text) (t : Tick) (ts : List Tick)
    → (next ≡ first) ⊎ Gave next t
    → From next token ts
    → From first token (t ∷ ts)
From-step first next token t [] (inl e) h = inr (h ∙ e)
From-step first next token t [] (inr g) h = inl (rw h g)
From-step first next token t (u ∷ us) c (inl g) = inr (inl g)
From-step first next token t (u ∷ us) (inl e) (inr f) = inr (inr (subst (λ x. From x token us) e f))
From-step first next token t (u ∷ us) (inr g) (inr f) =
    elim (From-step first next token t us (inr g) f) [ inl g' ↦ inl g' | inr f' ↦ inr (inr f') ]

heartbeat_loop-keeps :
    (endpoint current : Text) (ts : List Tick)
    → no_monitor endpoint ≡ false
    → is_empty current ≡ false
    → let last = heartbeat_loop endpoint current ts in
      (is_empty last ≡ false) × From current last ts
unfolding heartbeat_loop
heartbeat_loop-keeps endpoint current [] there full = (full, refl)
heartbeat_loop-keeps endpoint current (t ∷ ts) there full =
    let next = beat_once endpoint current t in
    let (kept, source) = beat_once-cases endpoint current t there full in
    let (filled, from) = heartbeat_loop-keeps endpoint next ts there kept in
    (filled, From-step current next (heartbeat_loop endpoint next ts) t ts source from)

From-first : (first : Text) (ts : List Tick) → From first first ts
From-first first [] = refl
From-first first (t ∷ ts) = inr (From-first first ts)

idle :
    (endpoint current : Text) (ts : List Tick)
    → no_monitor endpoint ≡ true
    → run_heartbeat endpoint current ts ≡ current
unfolding run_heartbeat
idle endpoint current ts e = ground arith

running :
    (endpoint current : Text) (ts : List Tick)
    → no_monitor endpoint ≡ false
    → is_empty current ≡ false
    → run_heartbeat endpoint current ts ≡ heartbeat_loop endpoint current ts
unfolding run_heartbeat
running endpoint current ts e full = ground arith

-- Where nothing else sets the verifier's token, a token that was not empty is not empty after any
-- number of heartbeats, and is the first one or one that the monitor sent with status 200 at one of
-- them.
pub run_heartbeat-keeps :
    (endpoint current : Text) (ts : List Tick)
    → is_empty current ≡ false
    → let last = run_heartbeat endpoint current ts in (is_empty last ≡ false) × From current last ts
run_heartbeat-keeps endpoint current ts full = elim (Bool-cases (no_monitor endpoint)) [
  | inl e ↦ rw (idle endpoint current ts e) (full, From-first current ts)
  | inr e ↦
      rw (running endpoint current ts e full) (heartbeat_loop-keeps endpoint current ts e full)
]
