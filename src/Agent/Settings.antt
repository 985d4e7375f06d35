-- ===== src/Agent/Settings.antt =====
-- agent/config.go: the settings of agent.toml that Validate fills in and checks, and which
-- collectors and which lock file they choose. Those that only collectors read, [vps] and two of
-- [paths], are left out.
pub mod Valid
use heartpost.Common.{
  ℕ, ◌+◌, ◌*◌, ◌%◌, ◌/◌, Bool, true, false, ◌||◌, ◌&&◌, not, Option, none, some, List, [], ◌∷◌,
  ◌==◌, if◌then◌else◌,
}
use heartpost.Common.Text.{Text, codes, text_eq, is_empty}
use heartpost.Common.Assoc.{Assoc, lookup}
use heartpost.Common.Int.{ℤ, pos, negsuc, ltb_ℤ}
use heartpost.FilePath.{join, dir_of}

pub record AgentConfig : Type 0 where
  pub id : Text
  pub label : Text
  pub type : Text
  pub endpoint : Text
  pub path : Text
  pub api_key : Text
  pub http_timeout_sec : ℤ
  pub retry_count : ℤ
  pub log_file : Text
  pub log_max_bytes : ℤ
  pub timeout_sec : ℤ
  pub jobs : Assoc Bool
  pub home_dir : Text
  pub config_dir : Text

pub data ConfigError : Type 0 where
  id_required bad_type api_key_required : ConfigError

abbrev pub positive_or : ℤ → ℤ → ℤ
positive_or d v = if ltb_ℤ (pos 0) v then v else d

abbrev pub not_empty_or : Text → Text → Text
not_empty_or d v = if is_empty v then d else v

abbrev pub rental : Text
rental = codes "rental"

abbrev pub vps : Text
vps = codes "vps"

-- The settings that Validate leaves in the configuration, as far as it goes without an error.
unfoldable pub with_defaults : AgentConfig → AgentConfig
with_defaults c = record c {
  type = not_empty_or rental c.type;
  path = not_empty_or (codes "/api/agent/report") c.path;
  http_timeout_sec = positive_or (pos 10) c.http_timeout_sec;
  retry_count = if ltb_ℤ c.retry_count (pos 0) then pos 0 else c.retry_count;
  timeout_sec = positive_or (pos 30) c.timeout_sec;
  log_max_bytes = positive_or (pos (5 * 1024 * 1024)) c.log_max_bytes;
}

-- Validate: the configuration after it, and its error. An error of the id or the type comes before
-- the other defaults.
unfoldable pub validate_config : AgentConfig → AgentConfig × Option ConfigError
unfolding with_defaults
validate_config c =
    let type = not_empty_or rental c.type in
    let full = with_defaults c in
    if is_empty c.id
    then (c, some id_required)
    else if not (text_eq type rental) && not (text_eq type vps)
    then (record c { type = type }, some bad_type)
    else if not (is_empty c.endpoint) && is_empty c.api_key
    then (full, some api_key_required)
    else (full, none)

-- JobEnabled: a collector that the table does not name is on.
unfoldable pub job_enabled : Assoc Bool → Text → Bool
job_enabled jobs name = elim (lookup name jobs) [ none ↦ true | some enabled ↦ enabled ]

abbrev lock_name : Text
lock_name = codes "heartpost-agent.lock"

unfoldable pub lock_path : AgentConfig → Text
lock_path c =
    if not (is_empty c.log_file)
    then join (dir_of c.log_file) lock_name
    else if not (is_empty c.home_dir)
    then join (join c.home_dir (codes "heartpost")) lock_name
    else join c.config_dir lock_name

-- CheckSecretsPerm: `none` refuses a mode that lets the group or others in; a warning is given on
-- Windows, where the mode says nothing.
pub data Permission : Type 0 where
  warned allowed refused : Permission

unfoldable pub check_secrets_perm : ℕ → Text → Permission
check_secrets_perm mode goos =
    if text_eq goos (codes "windows") then warned else if mode % 64 == 0 then allowed else refused
