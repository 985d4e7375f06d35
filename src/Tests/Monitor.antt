-- ===== src/Tests/Monitor.antt =====
-- monitor.toml with one agent, whose text of a duration stands for 2^62 nanoseconds.
use heartpost.Common.{◌*◌, ◌^◌, ◌≡◌, ◌≤◌, ◌↔◌, refl, true, false, none, some, [], ◌∷◌, arith}
use heartpost.Common.Text.{codes, is_empty, trim_space, text_eq}
use heartpost.Common.Assoc.{lookup, insert}
use heartpost.Common.Int.{pos, max_int64}
use heartpost.Clock.{second, minute}
use heartpost.Receiver.AgentId.{valid_agent_id}
use heartpost.Receiver.Liveness.{threshold_for}
use heartpost.Monitor.{
  Config, FileConfig, Reader, loaded, load, load_config, load_location, load_keys, load_agents,
  load_override, load_auth, parse_duration, default_threshold, triple, first_non_empty,
}
use heartpost.Monitor.Valid.{IsValid, load-IsValid}
use heartpost.Monitor.Threshold.{three_intervals_iff}
use heartpost.Tests.Data.{web1}

abbrev file : FileConfig
file = record {
  listen = [];
  data_dir = [];
  timezone = [];
  user = [];
  password = [];
  retention_days = pos 0;
  max_body_bytes = pos 0;
  timestamp_skew = [];
  allowed_ips = [];
  trust_forwarded_for = false;
  agent_interval = codes "long";
  down_threshold = [];
  check_interval = [];
  webhook_url = [];
  notify_timeout = [];
  notify_disabled = true;
  keys = (web1, codes "k") ∷ [];
  agents = (web1, record { label = codes "Web"; down_threshold = [] }) ∷ [];
}

abbrev reader : Reader
reader = record {
  text = some [];
  decode = λ text. some (file, []);
  has_zone = λ zone. false;
  parse_duration = λ text. some (pos (2 ^ 62));
}

abbrev config : Config
config = record {
  listen = codes "127.0.0.1:8770";
  data_dir = codes "./data";
  location = none;
  auth = record { user = []; password = [] };
  retention_days = pos 90;
  max_body_bytes = pos 0;
  timestamp_skew = pos (2 * minute);
  allowed_ips = [];
  trust_forwarded_for = false;
  thresholds = record { default = triple (pos (2 ^ 62)); per_agent = [] };
  check_interval = pos (30 * second);
  webhook_url = [];
  notify_timeout = pos (10 * second);
  notify_disabled = true;
  agent_keys = (web1, codes "k") ∷ [];
  agent_labels = (web1, codes "Web") ∷ [];
}

config_loads : load reader ≡ loaded config
unfolding load load_config load_location load_keys load_agents load_override load_auth
    parse_duration default_threshold first_non_empty trim_space valid_agent_id lookup insert text_eq
config_loads = refl

load-IsValid_example : IsValid config
load-IsValid_example = load-IsValid reader config config_loads

long_interval :
    parse_duration reader (codes "liveness.agent_interval") (codes "long") (pos (5 * minute))
    ≡ loaded (pos (2 ^ 62))
unfolding parse_duration trim_space
long_interval = refl

long_threshold : default_threshold reader file ≡ loaded (triple (pos (2 ^ 62)))
unfolding default_threshold parse_duration trim_space
long_threshold = refl

unset : is_empty (trim_space file.down_threshold) ≡ true
unfolding trim_space
unset = refl

no_override : lookup web1 config.thresholds.per_agent ≡ none
unfolding lookup
no_override = refl

three_intervals_iff_example :
    (threshold_for config.thresholds web1 ≡ pos (3 * 2 ^ 62)) ↔ (3 * 2 ^ 62 ≤ max_int64)
three_intervals_iff_example =
    three_intervals_iff reader file config.thresholds web1 (2 ^ 62) (omega arith) (omega arith)
      long_interval unset long_threshold no_override
