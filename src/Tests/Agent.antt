-- ===== src/Tests/Agent.antt =====
-- Runs of the agent, and its theorems applied to them.
use heartpost.Common.{
  ℕ, zero, suc, ◌+◌, ◌*◌, ◌≡◌, ◌≢◌, ◌≤◌, ◌↔◌, refl, true, false, ◌||◌, none, some, List, [], ◌∷◌,
  arith, length, All,
}
use heartpost.Common.Text.{codes, text_eq}
use heartpost.Common.Assoc.{lookup}
use heartpost.Common.Int.{pos, negsuc}
use heartpost.Clock.{second, minute, unix_epoch}
use heartpost.Signature.{Mac}
use heartpost.Agent.Settings.{AgentConfig, validate_config}
use heartpost.Agent.Reporter.{Target, Attempt, attempts, send_one, send_reports}
use heartpost.Agent.Reporter.Attempts.{Succeeds, IsSigned, send_one_requests, send_one_iff}
use heartpost.Agent.Collect.{report_canceled, sorted_compact, Task, Meets, value, collect}
use heartpost.Agent.Collect.Entries.{is_some, collect-lookup}
use heartpost.Agent.TokenCache.{Verifier, Files, save_cache, cache_of}
use heartpost.Agent.License.{LicenseOptions, token, resolve_token, cached_token, keep_token}
use heartpost.Agent.License.Reuse.{resolved_token_verifies, kept_token_is_reused}
use heartpost.Agent.Cycle.{
  Options, return_failure, Setting, Runner, new, cycle, valid_tasks, valid_targets, with_timeouts,
  has_name,
}
use heartpost.Agent.Cycle.Outcome.{is_none, any_delivered, no_results, cycle_succeeds_iff}
use heartpost.Tests.Data.{web1, noon}

abbrev one_byte : Mac
one_byte key message = 1 ∷ []

abbrev primary : Target
primary = record {
  name = codes "primary";
  endpoint = codes "https://monitor";
  path = codes "/api/agent/report";
  api_key = codes "secret";
  timeout = pos second;
  retry_count = pos 1;
  trim_endpoint = true;
  stop_on_cancel = false;
}

-- The first attempt is answered 503, the next ones 200.
abbrev second_works : ℕ → Attempt
second_works zero = record { canceled = false; now = noon; built = true; status = some 503 }
second_works (suc i) = record { canceled = false; now = noon; built = true; status = some 200 }

send_one_requests_example :
    let posts = (send_one one_byte primary (1 ∷ []) web1 [] second_works).1 in
    (length posts ≤ 2) × All (IsSigned one_byte primary (1 ∷ []) web1 [] second_works) posts
send_one_requests_example = send_one_requests one_byte primary (1 ∷ []) web1 [] second_works

two_requests : length (send_one one_byte primary (1 ∷ []) web1 [] second_works).1 ≡ 2
unfolding send_one attempts
two_requests = refl

second_works-built : (i : ℕ) → (second_works i).built ≡ true
second_works-built zero = refl
second_works-built (suc i) = refl

send_one_iff_example :
    ((send_one one_byte primary (1 ∷ []) web1 [] second_works).0 ≡ none) ↔ Succeeds second_works 0 2
send_one_iff_example =
    send_one_iff one_byte primary (1 ∷ []) web1 [] second_works refl second_works-built refl refl

abbrev settings : AgentConfig
settings = record {
  id = web1;
  label = [];
  type = [];
  endpoint = codes "https://monitor";
  path = [];
  api_key = codes "secret";
  http_timeout_sec = pos 0;
  retry_count = negsuc 0;
  log_file = [];
  log_max_bytes = pos 0;
  timeout_sec = pos 0;
  jobs = [];
  home_dir = [];
  config_dir = [];
}

settings_accepted : (validate_config settings).1 ≡ none
unfolding validate_config text_eq
settings_accepted = refl

-- Two collectors, the first of which is switched off.
abbrev two_tasks : List Task
two_tasks =
    record { name = codes "disk"; group = []; always = false }
    ∷ record { name = codes "host"; group = []; always = true }
    ∷ []

abbrev canceled_at_once : Meets ℕ
canceled_at_once = record {
  canceled = λ name. some (codes "canceled");
  collect = λ name. value 7;
  marshal = λ v. value (v ∷ []);
}

collect-lookup_example :
    let answer =
      collect report_canceled sorted_compact
        ((codes "disk", false) ∷ [])
        canceled_at_once
        two_tasks
        [] in
    (answer.1 ≡ none) × (is_some (lookup (codes "host") answer.0) ≡ true)
unfolding lookup text_eq
collect-lookup_example =
    collect-lookup sorted_compact ((codes "disk", false) ∷ []) canceled_at_once two_tasks
      (codes "host") []

-- Tokens that verify for an hour after the Unix epoch, and no other text of a time than the empty one.
abbrev toy_verifier : Verifier
toy_verifier = record {
  verify_token = λ id t. some 3600;
  extract_kid = λ t. some [];
  parse_time = λ text. some ((3600 + unix_epoch) * second);
  format_time = λ claim. codes "1970-01-01T01:00:00Z";
}

abbrev toy_license : LicenseOptions
toy_license = record {
  verifier = toy_verifier;
  key_ok = true;
  monitor = some (codes "token");
  offline_ok = false;
  has_offline_file = false;
  has_cache = true;
  relaxed = false;
}

abbrev no_files : Files
no_files = record { cache = none; remove_ok = true; write_ok = true }

token_of_monitor : (resolve_token toy_license web1 noon false no_files).1 ≡ token (codes "token")
unfolding resolve_token cached_token keep_token save_cache cache_of
token_of_monitor = refl

cache_is_empty : cached_token toy_license web1 noon false no_files ≡ none
unfolding cached_token
cache_is_empty = refl

resolved_token_verifies_example : toy_verifier.verify_token web1 (codes "token") ≢ none
resolved_token_verifies_example =
    resolved_token_verifies toy_license web1 (codes "token") noon false no_files refl
      token_of_monitor (λ e. cc)

kept_token_is_reused_example :
    resolve_token
      (record toy_license { monitor = none })
      web1
      (noon + minute)
      false
      (resolve_token toy_license web1 noon false no_files).0
    ≡ ((resolve_token toy_license web1 noon false no_files).0, token (codes "token"))
kept_token_is_reused_example =
    kept_token_is_reused toy_license web1 (codes "token") noon (noon + minute) false no_files 3600
      none refl refl (λ e. cc) cache_is_empty token_of_monitor refl refl (omega arith)

abbrev options : Options
options = record {
  id = web1;
  tasks = two_tasks;
  jobs = [];
  targets = primary ∷ [];
  unknown_interval = pos 0;
  cancel_policy = report_canceled;
  send_failure_policy = return_failure;
  encoding = sorted_compact;
  dry_run = false;
}

options_accepted : new options ≡ some (record options { unknown_interval = pos (5 * minute) })
unfolding new valid_tasks valid_targets with_timeouts has_name text_eq
options_accepted = refl

abbrev setting : Setting ℕ
setting = record {
  opts = options;
  mac = one_byte;
  refresh = none;
  meets = canceled_at_once;
  encode = λ values. value (1 ∷ []);
  attempts = λ name. second_works;
}

nothing_collected : collect report_canceled sorted_compact [] canceled_at_once [] [] ≡ ([], none)
unfolding collect
nothing_collected = refl

abbrev runner : Runner
runner = record { files = no_files; current_token = [] }

cycle_succeeds_iff_example :
    let rs = send_reports one_byte options.targets (1 ∷ []) web1 [] (λ name. second_works) in
    ((cycle setting [] runner).0 ≡ runner)
    × (is_none (cycle setting [] runner).1 ≡ (any_delivered rs || no_results rs))
cycle_succeeds_iff_example =
    cycle_succeeds_iff setting [] runner [] (1 ∷ []) refl refl nothing_collected refl
