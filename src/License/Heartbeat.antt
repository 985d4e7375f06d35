-- ===== src/License/Heartbeat.antt =====
-- agentlicense/verifier.go: the requests to the monitor, and the loop that keeps a token alive. An
-- HTTP answer is its status and what JSON reads in its body, or an error.
pub mod Kept
use heartpost.Common.{
  ℕ, zero, suc, ◌+◌, ◌*◌, Bool, true, false, ◌&&◌, ◌||◌, not, Option, none, some, List, [], ◌∷◌,
  ◌++◌, ◌==◌, if◌then◌else◌,
}
use heartpost.Common.Text.{Text, codes, text_eq, is_empty}
use heartpost.Common.Int.{ℤ, pos, ltb_ℤ}
use heartpost.Clock.{Duration, hour}
use heartpost.License.Jwt.{full_stop}
use heartpost.FilePath.{slash}

-- The body {"ok": …, "token": …}, if it decodes.
pub record Answer : Type 0 where
  pub status : ℕ
  pub body : Option (Bool × Text)

pub data Reply : Type 0 where
  no_request no_answer : Reply
  answered : Answer → Reply

pub data MonitorError : Type 0 where
  not_built not_sent not_decoded not_ok : MonitorError
  license_refused revoked bad_status : ℕ → MonitorError

pub data Outcome : Type 0 where
  gives : Text → Outcome
  fails : MonitorError → Outcome

-- strings.TrimRight(s, "/")
unfoldable pub trim_slashes : Text → Text
trim_slashes [] = []
trim_slashes (c ∷ s) = elim (trim_slashes s) [
  | [] ↦ (if c == slash then [] else c ∷ [])
  | d ∷ t ↦ c ∷ d ∷ t
]

abbrev pub no_monitor : Text → Bool
no_monitor endpoint = is_empty endpoint || text_eq endpoint (codes "http://localhost")

unfoldable pub verify_url : Text → Text
unfolding trim_slashes
verify_url endpoint = trim_slashes endpoint ++ codes "/api/license/verify"

unfoldable pub heartbeat_url : Text → Text
unfolding trim_slashes
heartbeat_url endpoint = trim_slashes endpoint ++ codes "/api/license/heartbeat"

abbrev pub refuses : ℕ → Bool
refuses status = (status == 401) || (status == 403)

-- VerifyWithMonitor, on the answer of the monitor.
unfoldable pub verify_with_monitor : Text → Reply → Outcome
verify_with_monitor endpoint reply = if no_monitor endpoint then gives [] else elim reply [
  | no_request ↦ fails not_built
  | no_answer ↦ fails not_sent
  | answered a ↦
      if refuses a.status
      then fails (license_refused a.status)
      else if not (a.status == 200)
      then fails (bad_status a.status)
      else elim a.body [
        | none ↦ fails not_decoded
        | some (is_ok, token) ↦ (if not is_ok || is_empty token then fails not_ok else gives token)
      ]
]

-- isJWT
unfoldable pub count_of : ℕ → Text → ℕ
count_of d [] = 0
count_of d (c ∷ s) = if c == d then suc (count_of d s) else count_of d s

unfoldable pub is_jwt : Text → Bool
unfolding count_of
is_jwt token = count_of full_stop token == 2

-- The header that carries the token.
unfoldable pub token_header : Text → Text × Text
unfolding is_jwt
token_header token =
    if is_jwt token
    then (codes "Authorization", codes "Bearer " ++ token)
    else (codes "X-License-Token", token)

-- sendHeartbeat
unfoldable pub send_heartbeat : Reply → Outcome
send_heartbeat no_request = fails not_built
send_heartbeat no_answer = fails not_sent
send_heartbeat (answered a) =
    if refuses a.status
    then fails (revoked a.status)
    else if not (a.status == 200)
    then fails (bad_status a.status)
    else elim a.body [ none ↦ fails not_decoded | some (is_ok, token) ↦ gives token ]

-- isRevoked
unfoldable pub is_revoked : MonitorError → Bool
is_revoked (revoked status) = true
is_revoked _ = false

-- What one tick of the loop meets: the answer to the heartbeat, and that to VerifyWithMonitor.
pub record Tick : Type 0 where
  pub beat : Reply
  pub renewal : Reply

abbrev after_renewal : Text → Outcome → Text
after_renewal current (gives token) = token
after_renewal current (fails e) = current

-- One round of heartbeatLoop: the verifier's current token after it.
unfoldable pub beat_once : Text → Text → Tick → Text
unfolding send_heartbeat is_revoked verify_with_monitor
beat_once endpoint current t = elim (send_heartbeat t.beat) [
  | gives token ↦ (if is_empty token then current else token)
  | fails e ↦
      if is_revoked e
      then after_renewal current (verify_with_monitor endpoint t.renewal)
      else current
]

unfoldable pub heartbeat_loop : Text → Text → List Tick → Text
unfolding beat_once
heartbeat_loop endpoint current [] = current
heartbeat_loop endpoint current (t ∷ ts) = heartbeat_loop endpoint (beat_once endpoint current t) ts

-- The interval of RunHeartbeat and StartHeartbeat.
unfoldable pub beat_interval : Duration → Duration
beat_interval d = if ltb_ℤ (pos 0) d then d else pos (6 * hour)

-- RunHeartbeat, until it is canceled.
unfoldable pub run_heartbeat : Text → Text → List Tick → Text
unfolding heartbeat_loop
run_heartbeat endpoint current ticks =
    if no_monitor endpoint || is_empty current
    then current
    else heartbeat_loop endpoint current ticks

-- StartHeartbeat, which stores its token first; the loop that it starts until it is canceled.
unfoldable pub start_heartbeat : Text → Text → Text → List Tick → Text
unfolding heartbeat_loop
start_heartbeat endpoint current token ticks =
    if no_monitor endpoint || is_empty token then current else heartbeat_loop endpoint token ticks
