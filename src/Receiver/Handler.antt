-- ===== src/Receiver/Handler.antt =====
-- core/receiver/handler.go: POST /api/agent/report. Log lines are left out.
pub mod Admission
pub mod Window
pub mod Serving
use heartpost.Common.{
  ℕ, ◌^◌, ◌*◌, Bool, true, false, ◌||◌, ◌&&◌, not, Option, none, some, List, [], ◌∷◌, length, ltb,
  ◌==◌, if◌then◌else◌,
}
use heartpost.Common.Text.{Text, codes, text_eq, is_empty, trim_space}
use heartpost.Common.Assoc.{Assoc, lookup}
use heartpost.Common.Int.{ℤ, pos, negsuc, ltb_ℤ, ◌-ℤ◌, wrap_int64}
use heartpost.Common.Decimal.{parse_int64}
use heartpost.Clock.{Time, Duration, second, unix, whole_seconds}
use heartpost.Calendar.{format_rfc3339}
use heartpost.Signature.{Bytes, Mac, verify}
use heartpost.Receiver.AgentId.{valid_agent_id}
use heartpost.Receiver.Disk.{Json, Os, Error}
use heartpost.Receiver.State.{Record, Raw}
use heartpost.Receiver.Store.{Store, append}
use heartpost.Receiver.Source.{IpNet, Net, remote_ip, ip_allowed, parse_allowed_ips}

-- report.Payload
pub record Payload : Type 0 where
  pub agent_id : Text
  pub agent_label : Text
  pub agent_type : Text
  pub reported_at : Text
  pub collectors : Option (Assoc Raw)

pub record Config : Type 0 where
  pub agent_keys : Assoc Text
  pub allowed_ips : List Text
  pub trust_forwarded_for : Bool
  pub timestamp_skew : Duration
  pub max_body_bytes : ℤ

pub record Handler : Type 0 where
  pub cfg : Config
  pub allowed : List IpNet

-- A header that is missing is the empty text. The body is what arrives; it breaks off where the
-- connection does.
pub record Request : Type 0 where
  pub method : Text
  pub agent_id : Text
  pub timestamp : Text
  pub signature : Text
  pub forwarded_for : Text
  pub remote_addr : Text
  pub body : Bytes
  pub broken : Bool

pub record Response : Type 0 where
  pub status : ℕ
  pub message : Text

-- What the handler calls and does not implement; `none` of `payload` is a decoding error.
pub record Env (D : Type 0) : Type 0 where
  pub net : Net
  pub mac : Mac
  pub payload : Bytes → Option Payload
  pub json : Json D

unfoldable pub skew : Config → Duration
skew c = if ltb_ℤ (pos 0) c.timestamp_skew then c.timestamp_skew else pos (120 * second)

unfoldable pub max_body : Config → ℕ
max_body c = elim c.max_body_bytes [ pos n ↦ (if n == 0 then 2 ^ 20 else n) | negsuc n ↦ 2 ^ 20 ]

-- NewHandler: `none` is the error of an entry of the allowlist.
unfoldable pub new_handler : Net → Config → Option Handler
new_handler net cfg = elim (parse_allowed_ips net cfg.allowed_ips) [
  | none ↦ none
  | some nets ↦ some (record { cfg = cfg; allowed = nets })
]

abbrev pub error : ℕ → Text → Response
error status message = record { status = status; message = message }

pub data Check {ℓ} (A : Type ℓ) : Type ℓ where
  pass : A → Check A
  refuse : Response → Check A

infixl 5 ◌>>=◌ ◌>>◌
abbrev pub ◌>>=◌ {ℓ κ} : {A : Type ℓ} {B : Type κ} → Check A → (A → Check B) → Check B
pass a >>= f = f a
refuse r >>= f = refuse r

abbrev pub ◌>>◌ {ℓ} : {B : Type ℓ} → Check (Unit {0}) → Check B → Check B
m >> k = m >>= λ _. k

abbrev pub require : Bool → ℕ → Text → Check (Unit {0})
require true status message = pass tt
require false status message = refuse (error status message)

abbrev pub get {ℓ} : {A : Type ℓ} → Option A → ℕ → Text → Check A
get none status message = refuse (error status message)
get (some a) status message = pass a

abbrev pub or_empty : Option Text → Text
or_empty none = []
or_empty (some key) = key

-- now.Unix() - ts and its negation, in int64; `true` if the difference is within the skew.
unfoldable pub in_window : Config → Time → ℤ → Bool
in_window cfg now ts =
    let diff = wrap_int64 (unix now -ℤ ts) in
    let size = if ltb_ℤ diff (pos 0) then wrap_int64 (pos 0 -ℤ diff) else diff in
    not (ltb_ℤ (whole_seconds (skew cfg)) size)

abbrev pub post : Text
post = codes "POST"

module _ {D : Type 0} (env : Env D) where
  unfoldable pub signed : Config → Text → Text → Bytes → Text → Bool
  signed cfg id ts body sig =
      let key = or_empty (lookup id cfg.agent_keys) in
      not (is_empty key) && verify env.mac key ts body sig

  -- The checks of ServeHTTP, in its order, and the record that they let through.
  unfoldable pub validate : Handler → Time → Request → Check Record
  validate h now r = do
    require (text_eq r.method post) 405 (codes "method not allowed")
    let id = trim_space r.agent_id
    require (not (is_empty id)) 400 (codes "missing agent id header")
    require (valid_agent_id id) 400 (codes "invalid agent id")
    require
        (ip_allowed h.allowed
          (remote_ip env.net h.cfg.trust_forwarded_for r.remote_addr r.forwarded_for))
        403 (codes "forbidden")
    require (not (ltb (max_body h.cfg) (length r.body))) 413 (codes "body too large")
    require (not r.broken) 400 (codes "body read error")
    let ts_text = trim_space r.timestamp
    let sig = trim_space r.signature
    require (not (is_empty ts_text || is_empty sig)) 401 (codes "unauthorized")
    ts ← get (parse_int64 ts_text) 401 (codes "unauthorized")
    require (in_window h.cfg now ts) 401 (codes "unauthorized")
    require (signed h.cfg id ts_text r.body sig) 401 (codes "unauthorized")
    payload ← get (env.payload r.body) 400 (codes "invalid json")
    require (text_eq payload.agent_id id) 400 (codes "agent id mismatch")
    pass (record {
      received_at = format_rfc3339 now;
      agent_id = payload.agent_id;
      agent_label = payload.agent_label;
      agent_type = payload.agent_type;
      reported_at = payload.reported_at;
      collectors = payload.collectors;
    })

  abbrev pub answer : Option Error → Response
  answer none = error 200 (codes "ok")
  answer (some e) = error 500 (codes "save failed")

  unfoldable pub store_report : Os → Time → Store D → Check Record → Store D × Response
  store_report os now s (refuse response) = (s, response)
  store_report os now s (pass rec) =
      let (s', err) = append env.json os rec now s in (s', answer err)

  unfoldable pub serve_http : Handler → Os → Time → Request → Store D → Store D × Response
  serve_http h os now r s = store_report os now s (validate h now r)
