-- ===== src/Agent/Cycle/New.antt =====
-- What New accepts.
use heartpost.Common.{
  ℕ, zero, suc, ◌*◌, ◌≡◌, ◌≢◌, inl, inr, refl, Bool, true, false, ◌&&◌, ◌||◌, not, none, some, List,
  [], ◌∷◌, arith, All, if◌then◌else◌, Bool-cases,
}
use heartpost.Common.Text.{Text, is_empty}
use heartpost.Common.Int.{ℤ, pos, negsuc, ltb_ℤ, pos_part}
use heartpost.Clock.{Duration, minute}
use heartpost.Signature.{Bytes, Mac}
use heartpost.Agent.Reporter.{Target, Attempt, invalid_target, TargetResult, send_one, send_reports}
use heartpost.Agent.Cycle.{
  Options, valid_tasks, valid_targets, with_timeouts, with_timeout, is_zero, no_targets, new,
}
use heartpost.Agent.Cycle.Outcome.{attempts_valid}

abbrev pub CanSend : Target → Type 0
CanSend t =
    (is_empty t.name ≡ false)
    × (ltb_ℤ t.retry_count (pos 0) ≡ false)
    × (ltb_ℤ (pos 0) t.timeout ≡ true)

pos_of_nonzero : (v : ℤ) → is_zero v ≡ false → ltb_ℤ v (pos 0) ≡ false → ltb_ℤ (pos 0) v ≡ true
pos_of_nonzero (pos zero) h g = absurd (ground arith)
pos_of_nonzero (pos (suc n)) h g = ground arith
pos_of_nonzero (negsuc n) h g = absurd (ground arith)

with_timeout-CanSend :
    (t : Target)
    → is_empty t.name ≡ false
    → ltb_ℤ t.retry_count (pos 0) ≡ false
    → ltb_ℤ t.timeout (pos 0) ≡ false
    → CanSend (with_timeout t)
with_timeout-CanSend t named retries timed = elim (Bool-cases (is_zero t.timeout)) [
  | inl z ↦ rw z (named, retries, refl)
  | inr z ↦ rw z (named, retries, pos_of_nonzero t.timeout z timed)
]

with_timeout_idem : (t : Target) → with_timeout (with_timeout t) ≡ with_timeout t
with_timeout_idem t = elim (Bool-cases (is_zero t.timeout)) [
  | inl z ↦ rw z refl
  | inr z ↦ rw (z, z) refl
]

with_timeouts_idem : (ts : List Target) → with_timeouts (with_timeouts ts) ≡ with_timeouts ts
unfolding with_timeouts
with_timeouts_idem [] = refl
with_timeouts_idem (t ∷ ts) = rw (with_timeout_idem t, with_timeouts_idem ts) refl

with_timeouts-CanSend :
    (names : List Text) (ts : List Target)
    → valid_targets names ts ≡ true
    → All CanSend (with_timeouts ts)
unfolding valid_targets with_timeouts
with_timeouts-CanSend names [] h = tt
with_timeouts-CanSend names (t ∷ ts) h = (
  with_timeout-CanSend t (ground arith) (ground arith) (ground arith),
  with_timeouts-CanSend (t.name ∷ names) ts (ground arith),
)

valid_targets-with_timeouts :
    (names : List Text) (ts : List Target)
    → valid_targets names ts ≡ true
    → valid_targets names (with_timeouts ts) ≡ true
unfolding valid_targets with_timeouts
valid_targets-with_timeouts names [] h = refl
valid_targets-with_timeouts names (t ∷ ts) h =
    ground (arith, valid_targets-with_timeouts (t.name ∷ names) ts)

send_one_valid :
    (mac : Mac) (t : Target) (body : Bytes) (id token : Text) (meets : ℕ → Attempt)
    → CanSend t
    → (send_one mac t body id token meets).0 ≢ some invalid_target
unfolding send_one
send_one_valid mac t body id token meets c =
    ground (arith, attempts_valid mac t body id token meets (suc (pos_part t.retry_count)) 0 none)

abbrev pub IsSent : TargetResult → Type 0
IsSent r = r.err ≢ some invalid_target

send_reports-IsSent :
    (mac : Mac) (ts : List Target) (body : Bytes) (id token : Text) (meets : Text → ℕ → Attempt)
    → All CanSend ts
    → All IsSent (send_reports mac ts body id token meets)
unfolding send_reports
send_reports-IsSent mac [] body id token meets c = tt
send_reports-IsSent mac (t ∷ ts) body id token meets c = (
  send_one_valid mac t body id token (meets t.name) c.0,
  send_reports-IsSent mac ts body id token meets c.1,
)

no_targets-with_timeouts : (ts : List Target) → no_targets (with_timeouts ts) ≡ no_targets ts
unfolding with_timeouts
no_targets-with_timeouts [] = refl
no_targets-with_timeouts (t ∷ ts) = refl

abbrev pub interval_or_default : Duration → Duration
interval_or_default d = if ltb_ℤ (pos 0) d then d else pos (5 * minute)

abbrev pub filled : Options → Options
filled o = record o {
  targets = with_timeouts o.targets;
  unknown_interval = interval_or_default o.unknown_interval;
}

-- The tests of New.
abbrev pub passes : Options → Bool
passes o =
    not (is_empty o.id)
    && valid_tasks [] o.tasks
    && valid_targets [] o.targets
    && (o.dry_run || not (no_targets o.targets))

pub new-passes : (o : Options) → new o ≡ (if passes o then some (filled o) else none)
unfolding new
new-passes o = ground arith

passes-filled : (o : Options) → passes o ≡ true → passes (filled o) ≡ true
passes-filled o h =
    ground (arith, valid_targets-with_timeouts [] o.targets, no_targets-with_timeouts o.targets)

interval_idem : (d : Duration) → interval_or_default (interval_or_default d) ≡ interval_or_default d
interval_idem d = elim (Bool-cases (ltb_ℤ (pos 0) d)) [
  | inl h ↦ rw (h, h) refl
  | inr h ↦ rw (h) refl
]

filled_idem : (o : Options) → filled (filled o) ≡ filled o
filled_idem o = λ i. record o {
  targets = with_timeouts_idem o.targets i;
  unknown_interval = interval_idem o.unknown_interval i;
}

-- The options of a runner are accepted again without a change, and no delivery to its targets is
-- refused as invalid.
pub new-IsSent :
    (o o' : Options) (mac : Mac) (body : Bytes) (token : Text) (meets : Text → ℕ → Attempt)
    → new o ≡ some o'
    → (new o' ≡ some o') × All IsSent (send_reports mac o'.targets body o'.id token meets)
new-IsSent o o' mac body token meets h = elim (Bool-cases (passes o)) [
  | inr fails ↦ absurd (ground (arith, new-passes o))
  | inl p ↦
      let e : o' ≡ filled o = ground (arith, new-passes o) in
      let again : new (filled o) ≡ some (filled o) =
        ground (arith, new-passes (filled o), passes-filled o p, filled_idem o) in
      rw e (
        again,
        send_reports-IsSent mac (with_timeouts o.targets) body o.id token meets
            (with_timeouts-CanSend [] o.targets (ground arith)),
      )
]
