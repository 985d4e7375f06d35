-- ===== src/Agent/Config.antt =====
-- agent/config_read.go, LoadConfig of agent/config.go, agent/registry.go, agent/defaults.go and
-- agent/groups.go: from agent.toml to the options of a runner. The TOML library and the file system
-- are parameters.
pub mod Starts
pub mod Groups
use heartpost.Common.{
  ℕ, ◌+◌, ◌*◌, ◌-◌, Bool, true, false, Option, none, some, List, [], ◌∷◌, ◌++◌, map, if◌then◌else◌,
}
use heartpost.Common.Text.{Text, codes, text_eq, is_empty}
use heartpost.Common.Assoc.{Assoc, lookup, insert}
use heartpost.Common.Int.{ℤ, pos, negsuc, wrap_int64}
use heartpost.Clock.{Duration, second}
use heartpost.FilePath.{join, dir_of}
use heartpost.Agent.Settings.{
  AgentConfig, ConfigError, vps, Permission, warned, allowed, refused, check_secrets_perm,
  validate_config,
}
use heartpost.Agent.Reporter.{Target}
use heartpost.Agent.Collect.{Task, report_canceled, typed_indented}
use heartpost.Agent.Cycle.{Options, return_failure}

abbrev pub secrets_file_name : Text
secrets_file_name = codes "agent_secrets.toml"

pub record ReadOptions : Type 0 where
  pub file_name : Text
  pub checks_permissions : Bool

-- toml.DecodeFile over a configuration, which keeps what the file does not name; os.Stat's mode,
-- where it works; runtime.GOOS.
pub record Disk : Type 0 where
  pub decode_file : Text → AgentConfig → Option AgentConfig
  pub mode_of : Text → Option ℕ
  pub goos : Text

pub data LoadError : Type 0 where
  main_not_decoded secrets_exposed secrets_not_decoded : LoadError
  bad_config : ConfigError → LoadError

-- A configuration, with whether the mode of its secrets could not be judged.
pub data Loaded : Type 0 where
  loaded : AgentConfig → Bool → Loaded
  not_loaded : LoadError → Loaded

unfoldable pub merge_secrets : Disk → Text → Bool → AgentConfig → Loaded
merge_secrets d secret is_warned c = elim (d.decode_file secret c) [
  | none ↦ not_loaded secrets_not_decoded
  | some c' ↦ loaded c' is_warned
]

unfoldable pub after_check : Disk → Text → Permission → AgentConfig → Loaded
unfolding merge_secrets
after_check d secret refused c = not_loaded secrets_exposed
after_check d secret warned c = merge_secrets d secret true c
after_check d secret allowed c = merge_secrets d secret false c

unfoldable pub secret_path : Text → ReadOptions → Text
secret_path path opts =
    join (dir_of path) (if is_empty opts.file_name then secrets_file_name else opts.file_name)

-- The secrets file, if it is there.
unfoldable pub with_secrets : Disk → Text → ReadOptions → AgentConfig → Loaded
unfolding after_check check_secrets_perm merge_secrets
with_secrets d secret opts c = elim (d.mode_of secret) [
  | none ↦ loaded c false
  | some mode ↦
      if opts.checks_permissions
      then after_check d secret (check_secrets_perm mode d.goos) c
      else merge_secrets d secret false c
]

-- DecodeConfig
unfoldable pub decode_config : Disk → Text → ReadOptions → AgentConfig → Loaded
unfolding with_secrets secret_path
decode_config d path opts c = elim (d.decode_file path c) [
  | none ↦ not_loaded main_not_decoded
  | some c' ↦ with_secrets d (secret_path path opts) opts c'
]

abbrev pub no_config : AgentConfig
no_config = record {
  id = [];
  label = [];
  type = [];
  endpoint = [];
  path = [];
  api_key = [];
  http_timeout_sec = pos 0;
  retry_count = pos 0;
  log_file = [];
  log_max_bytes = pos 0;
  timeout_sec = pos 0;
  jobs = [];
  home_dir = [];
  config_dir = [];
}

abbrev pub checked : ReadOptions
checked = record { file_name = []; checks_permissions = true }

unfoldable pub validated : Bool → AgentConfig × Option ConfigError → Loaded
validated is_warned (c, none) = loaded c is_warned
validated is_warned (c, some e) = not_loaded (bad_config e)

unfoldable pub validate_loaded : Text → Loaded → Loaded
unfolding validated
validate_loaded path (not_loaded e) = not_loaded e
validate_loaded path (loaded c is_warned) =
    validated is_warned (validate_config (record c { config_dir = dir_of path }))

-- LoadConfig
unfoldable pub load_config : Disk → Text → Loaded
unfolding decode_config validate_loaded
load_config d path = validate_loaded path (decode_config d path checked no_config)

-- The names of RentalCollectors and vpsCollectors, in their order.
abbrev pub rental_names : List Text
rental_names =
    codes "host"
    ∷ codes "loadavg"
    ∷ codes "memory"
    ∷ codes "disk"
    ∷ codes "cron"
    ∷ codes "process"
    ∷ codes "cpu"
    ∷ codes "network"
    ∷ codes "apache_log"
    ∷ []

abbrev pub vps_names : List Text
vps_names =
    codes "system"
    ∷ codes "process"
    ∷ codes "cron"
    ∷ codes "services"
    ∷ codes "ssl"
    ∷ codes "ssh"
    ∷ codes "nginx"
    ∷ codes "http_outcome"
    ∷ codes "updates"
    ∷ []

-- DefaultCollectors
unfoldable pub default_collectors : AgentConfig → List Text
default_collectors c = if text_eq c.type vps then vps_names else rental_names

abbrev pub config_task : Text → Task
config_task name = record { name = name; group = []; always = false }

-- configTasks
unfoldable pub config_tasks : AgentConfig → List Task
unfolding default_collectors
config_tasks c = map config_task (default_collectors c)

-- time.Duration(n) * time.Second, in int64
unfoldable pub seconds : ℤ → Duration
seconds (pos n) = wrap_int64 (pos (n * second))
seconds (negsuc n) = wrap_int64 (negsuc (n * second + (second - 1)))

-- TargetFromConfig
unfoldable pub target_from_config : AgentConfig → Target
unfolding seconds
target_from_config c = record {
  name = codes "monitor";
  endpoint = c.endpoint;
  path = c.path;
  api_key = c.api_key;
  timeout = seconds c.http_timeout_sec;
  retry_count = c.retry_count;
  trim_endpoint = true;
  stop_on_cancel = true;
}

-- OptionsFromConfig
unfoldable pub options_from_config : AgentConfig → Options
unfolding config_tasks target_from_config
options_from_config c = record {
  id = c.id;
  tasks = config_tasks c;
  jobs = c.jobs;
  targets = target_from_config c ∷ [];
  unknown_interval = pos 0;
  cancel_policy = report_canceled;
  send_failure_policy = return_failure;
  encoding = typed_indented;
  dry_run = is_empty c.endpoint;
}

-- The group of a name, which may be missing.
abbrev pub members {ℓ} : {A : Type ℓ} → Option (List A) → List A
members none = []
members (some xs) = xs

-- GroupBy: the loop over the values, from the groups so far.
unfoldable pub group_from {ℓ} : {A : Type ℓ} → (A → Text) → List A → Assoc (List A) → Assoc (List A)
group_from key [] groups = groups
group_from key (x ∷ xs) groups =
    group_from key xs (insert (key x) (members (lookup (key x) groups) ++ x ∷ []) groups)

unfoldable pub group_by {ℓ} : {A : Type ℓ} → (A → Text) → List A → Assoc (List A)
unfolding group_from
group_by key xs = group_from key xs []
