-- ===== src/Monitor.antt =====
-- cmd/heartpost-monitor/config.go: Load, which reads monitor.toml, fills in what it leaves out and
-- refuses what it does not understand. Headers of the notification are left out.
pub mod Steps
pub mod Valid
pub mod Threshold
use heartpost.Common.{
  ℕ, ◌+◌, ◌*◌, Bool, true, false, ◌&&◌, ◌||◌, not, Option, none, some, List, [], ◌∷◌, ◌==◌,
  if◌then◌else◌,
}
use heartpost.Common.Text.{Text, codes, is_empty, trim_space}
use heartpost.Common.Assoc.{Assoc, lookup, insert}
use heartpost.Common.Int.{ℤ, pos, negsuc, ltb_ℤ, wrap_int64}
use heartpost.Clock.{Duration, second, minute}
use heartpost.Receiver.AgentId.{valid_agent_id}
use heartpost.Receiver.Liveness.{Thresholds}

pub record Override : Type 0 where
  pub label : Text
  pub down_threshold : Text

pub record FileConfig : Type 0 where
  pub listen : Text
  pub data_dir : Text
  pub timezone : Text
  pub user : Text
  pub password : Text
  pub retention_days : ℤ
  pub max_body_bytes : ℤ
  pub timestamp_skew : Text
  pub allowed_ips : List Text
  pub trust_forwarded_for : Bool
  pub agent_interval : Text
  pub down_threshold : Text
  pub check_interval : Text
  pub webhook_url : Text
  pub notify_timeout : Text
  pub notify_disabled : Bool
  pub keys : Assoc Text
  pub agents : Assoc Override

-- The two that Load leaves at their zero value where auth.user is not set.
pub record Auth : Type 0 where
  pub user : Text
  pub password : Text

pub record Config : Type 0 where
  pub listen : Text
  pub data_dir : Text
  -- `none` is the host's own zone.
  pub location : Option Text
  pub auth : Auth
  pub retention_days : ℤ
  pub max_body_bytes : ℤ
  pub timestamp_skew : Duration
  pub allowed_ips : List Text
  pub trust_forwarded_for : Bool
  pub thresholds : Thresholds
  pub check_interval : Duration
  pub webhook_url : Text
  pub notify_timeout : Duration
  pub notify_disabled : Bool
  pub agent_keys : Assoc Text
  pub agent_labels : Assoc Text

pub data LoadError : Type 0 where
  not_read not_toml unknown_keys unknown_timezone : LoadError
  not_duration not_positive : Text → LoadError
  invalid_agent_id empty_key no_agent_key : Text → LoadError
  no_agent_keys no_password no_webhook : LoadError

pub data Load {ℓ} (A : Type ℓ) : Type ℓ where
  loaded : A → Load A
  rejected : LoadError → Load A

infixl 5 ◌>>=◌ ◌>>◌
abbrev pub ◌>>=◌ {ℓ κ} : {A : Type ℓ} {B : Type κ} → Load A → (A → Load B) → Load B
loaded a >>= f = f a
rejected e >>= f = rejected e

abbrev pub ◌>>◌ {ℓ} : {B : Type ℓ} → Load (Unit {0}) → Load B → Load B
m >> k = m >>= λ _. k

abbrev pub require : Bool → LoadError → Load (Unit {0})
require true e = loaded tt
require false e = rejected e

abbrev pub get {ℓ} : {A : Type ℓ} → Option A → LoadError → Load A
get none e = rejected e
get (some a) e = loaded a

-- What Load calls: the file with its text, the TOML library with the keys that it left over, and
-- the time package.
pub record Reader : Type 0 where
  pub text : Option Text
  pub decode : Text → Option (FileConfig × List Text)
  pub has_zone : Text → Bool
  pub parse_duration : Text → Option Duration

abbrev pub no_keys_left : List Text → Bool
no_keys_left [] = true
no_keys_left (_ ∷ _) = false

abbrev pub no_entries : {V : Type 0} → Assoc V → Bool
no_entries [] = true
no_entries (_ ∷ _) = false

-- firstNonEmpty of a value and its default
unfoldable pub first_non_empty : Text → Text → Text
first_non_empty v d = if is_empty (trim_space v) then trim_space d else trim_space v

abbrev pub is_zero : ℤ → Bool
is_zero (pos n) = n == 0
is_zero (negsuc n) = false

-- time.Duration(3) * d, in int64.
unfoldable pub triple : Duration → Duration
triple (pos n) = wrap_int64 (pos (3 * n))
triple (negsuc n) = wrap_int64 (negsuc (3 * n + 2))

module _ (r : Reader) where
  unfoldable pub parse_duration : Text → Text → Duration → Load Duration
  parse_duration key raw default =
      let v = trim_space raw in
      if is_empty v then loaded default else do
        d ← get (r.parse_duration v) (not_duration key)
        require (ltb_ℤ (pos 0) d) (not_positive key)
        loaded d

  unfoldable pub load_location : Text → Load (Option Text)
  load_location timezone =
      let tz = trim_space timezone in
      if is_empty tz
      then loaded none
      else (require (r.has_zone tz) unknown_timezone >> loaded (some tz))

  unfoldable pub default_threshold : FileConfig → Load Duration
  unfolding parse_duration triple
  default_threshold f = do
    interval ← parse_duration (codes "liveness.agent_interval") f.agent_interval (pos (5 * minute))
    parse_duration (codes "liveness.down_threshold") f.down_threshold (triple interval)

-- The loop over [agent_keys].
unfoldable pub load_keys : Assoc Text → Assoc Text → Load (Assoc Text)
load_keys [] keys = loaded keys
load_keys ((id, key) ∷ rest) keys =
    let more = load_keys rest (insert id key keys) in
    do
      require (valid_agent_id id) (invalid_agent_id id)
      require (not (is_empty (trim_space key))) (empty_key id)
      more

abbrev pub is_some : {V : Type 0} → Option V → Bool
is_some none = false
is_some (some _) = true

module _ (r : Reader) (keys : Assoc Text) where
  -- The threshold of one agent, in the table of those before it.
  unfoldable pub load_override : Text → Override → Assoc Duration → Load (Assoc Duration)
  unfolding parse_duration
  load_override id ov per_agent = if is_empty ov.down_threshold then loaded per_agent else do
    d ← parse_duration r (codes "agents.down_threshold") ov.down_threshold (pos 0)
    loaded (insert id d per_agent)

  -- The loop over [agents]: the labels and the thresholds.
  unfoldable pub load_agents :
      Assoc Override → Assoc Text → Assoc Duration → Load (Assoc Text × Assoc Duration)
  unfolding load_override
  load_agents [] labels per_agent = loaded (labels, per_agent)
  load_agents ((id, ov) ∷ rest) labels per_agent =
      let labels' = if is_empty ov.label then labels else insert id ov.label labels in
      let more : Assoc Duration → Load (Assoc Text × Assoc Duration) =
        λ ths. load_agents rest labels' ths in
      do
        require (valid_agent_id id) (invalid_agent_id id)
        require (is_some (lookup id keys)) (no_agent_key id)
        ths ← load_override id ov per_agent
        more ths

unfoldable pub load_auth : FileConfig → Load Auth
load_auth f =
    if is_empty f.user
    then loaded (record { user = []; password = [] })
    else (require (not (is_empty f.password)) no_password
        >> loaded (record { user = f.user; password = f.password }))

-- Load, from the decoded file on.
unfoldable pub load_config : Reader → FileConfig → Load Config
unfolding load_location default_threshold load_keys load_agents load_auth first_non_empty
load_config r f = do
  location ← load_location r f.timezone
  skew ← parse_duration r (codes "receiver.timestamp_skew") f.timestamp_skew (pos (2 * minute))
  check ← parse_duration r (codes "liveness.check_interval") f.check_interval (pos (30 * second))
  timeout ← parse_duration r (codes "notify.timeout") f.notify_timeout (pos (10 * second))
  threshold ← default_threshold r f
  keys ← load_keys f.keys []
  require (not (no_entries keys)) no_agent_keys
  tables ← load_agents r keys f.agents [] []
  auth ← load_auth f
  require (not (is_empty (trim_space f.webhook_url)) || f.notify_disabled) no_webhook
  loaded (record {
    listen = first_non_empty f.listen (codes "127.0.0.1:8770");
    data_dir = first_non_empty f.data_dir (codes "./data");
    location = location;
    auth = auth;
    retention_days = if is_zero f.retention_days then pos 90 else f.retention_days;
    max_body_bytes = f.max_body_bytes;
    timestamp_skew = skew;
    allowed_ips = f.allowed_ips;
    trust_forwarded_for = f.trust_forwarded_for;
    thresholds = record { default = threshold; per_agent = tables.1 };
    check_interval = check;
    webhook_url = trim_space f.webhook_url;
    notify_timeout = timeout;
    notify_disabled = f.notify_disabled;
    agent_keys = keys;
    agent_labels = tables.0;
  })

unfoldable pub load : Reader → Load Config
unfolding load_config
load r = do
  text ← get r.text not_read
  decoded ← get (r.decode text) not_toml
  require (no_keys_left decoded.1) unknown_keys
  load_config r decoded.0
