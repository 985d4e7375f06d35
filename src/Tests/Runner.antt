-- ===== src/Tests/Runner.antt =====
-- Runners that start, work and close, and the theorems about runs and their configuration applied to
-- them.
use heartpost.Common.{
  ℕ, ◌*◌, ◌≡◌, ◌⊎◌, refl, true, false, none, some, List, [], ◌∷◌, arith, if◌then◌else◌,
}
use heartpost.Common.Text.{Text, codes, text_eq}
use heartpost.Common.Assoc.{lookup, insert}
use heartpost.Common.Int.{pos}
use heartpost.Clock.{minute}
use heartpost.Agent.Run.{
  Env, Flags, take, give, work, whole_run, active, lock_file, flock, timed_context, heartbeat,
  service, got, stoppable, fails, service_failed, run,
}
use heartpost.Agent.Run.Disciplined.{IsDisciplined, run-IsDisciplined}
use heartpost.Agent.Runners.{
  Process, at_start, with_runner, enter_run, end_run, update, Reach, here, next, enter, win, lose,
  close_ended, idle, ended, working, new_runner,
}
use heartpost.Agent.Runners.Exclusive.{runs_exclude, shut_for_good}
use heartpost.Agent.Settings.{AgentConfig, validate_config}
use heartpost.Agent.Settings.Valid.{IsValid}
use heartpost.Agent.Cycle.{new}
use heartpost.Agent.Collect.{Task}
use heartpost.Agent.Config.{
  Disk, loaded, no_config, load_config, options_from_config, members, group_by,
}
use heartpost.Agent.Config.Starts.{SecretsAreJudged, loaded_config_starts}
use heartpost.Tests.Data.{web1}
use heartpost.FilePath.{join, dir_of}

abbrev fresh_flags : Flags
fresh_flags = record { is_started = false; is_closed = false }

-- The second of two services fails, so the first is stopped and there is no work.
abbrev one_failing : Env
one_failing = record {
  active_is_free = true;
  has_lock_path = true;
  creates_directory = true;
  makes_directory = true;
  opens_lock = true;
  flocks = got;
  verifies = true;
  has_timeout = true;
  services =
      record { is_canceled = false; start = stoppable }
      ∷ record { is_canceled = false; start = fails }
      ∷ [];
  has_heartbeat = true;
  work_fails = false;
}

run-IsDisciplined_example : IsDisciplined one_failing (run fresh_flags one_failing).1.0
run-IsDisciplined_example = run-IsDisciplined fresh_flags one_failing

failing_trace : (run fresh_flags one_failing).1 ≡ (
  take whole_run
      ∷ take active
      ∷ take lock_file
      ∷ take flock
      ∷ take timed_context
      ∷ take (service 0)
      ∷ give (service 0)
      ∷ give timed_context
      ∷ give flock
      ∷ give lock_file
      ∷ give active
      ∷ give whole_run
      ∷ [],
  some service_failed,
)
unfolding run
failing_trace = refl

-- A run that works, with its heartbeat.
working_trace :
    (run fresh_flags
      (record one_failing { services = []; has_lock_path = false; has_timeout = false })).1
    ≡ (
      take whole_run
          ∷ take active
          ∷ take heartbeat
          ∷ work
          ∷ give heartbeat
          ∷ give active
          ∷ give whole_run
          ∷ [],
      none,
    )
unfolding run
working_trace = refl

-- Runner 0 works while runner 1 enters, fails to lock and ends.
abbrev zero_entered : Process
zero_entered = with_runner at_start 0 (enter_run new_runner)

abbrev zero_works : Process
zero_works = record {
  active = some 0;
  runners = update zero_entered.runners 0 (record (zero_entered.runners 0) { phase = working });
}

abbrev one_entered : Process
one_entered = with_runner zero_works 1 (enter_run (zero_works.runners 1))

abbrev one_lost : Process
one_lost = with_runner one_entered 1 (end_run (one_entered.runners 1))

zero_works-Reach : Reach at_start zero_works
zero_works-Reach = next (next here (enter 0 refl refl)) (win 0 refl refl)

one_lost-Reach : Reach at_start one_lost
one_lost-Reach = next (next zero_works-Reach (enter 1 refl refl)) (lose 1 0 refl refl)

runs_exclude_example : ◌≡◌ {A = ℕ} 0 0
runs_exclude_example = runs_exclude {p = one_lost} 0 0 one_lost-Reach refl refl

-- Close of runner 1 then returns nil.
abbrev one_shut : Process
one_shut = with_runner one_lost 1 (record (one_lost.runners 1) { is_closed = true; is_shut = true })

shut_for_good_example :
    ((one_shut.runners 1).is_closed ≡ true)
    × (((one_shut.runners 1).phase ≡ idle) ⊎ ((one_shut.runners 1).phase ≡ ended))
shut_for_good_example =
    shut_for_good {p = one_shut} {q = one_shut} 1 (next one_lost-Reach (close_ended 1 refl)) refl
      here

-- agent.toml sets the id, and its secrets file, of mode 600, an endpoint and a key.
abbrev two_files : Disk
two_files = record {
  decode_file = λ path c.
      if text_eq path (codes "/etc/hp/agent.toml")
      then some (record c { id = web1 })
      else some (record c { endpoint = codes "https://monitor"; api_key = codes "secret" });
  mode_of = λ path. if text_eq path (codes "/etc/hp/agent_secrets.toml") then some 384 else none;
  goos = codes "linux";
}

abbrev web1_config : AgentConfig
web1_config = record no_config {
  id = web1;
  type = codes "rental";
  endpoint = codes "https://monitor";
  path = codes "/api/agent/report";
  api_key = codes "secret";
  http_timeout_sec = pos 10;
  log_max_bytes = pos (5 * 1024 * 1024);
  timeout_sec = pos 30;
  config_dir = codes "/etc/hp";
}

web1_loads : load_config two_files (codes "/etc/hp/agent.toml") ≡ loaded web1_config false
unfolding load_config text_eq join dir_of validate_config
web1_loads = refl

loaded_config_starts_example :
    SecretsAreJudged two_files (codes "/etc/hp/agent.toml") false
    × IsValid web1_config
    × (new (options_from_config web1_config)
        ≡ some (record (options_from_config web1_config) { unknown_interval = pos (5 * minute) }))
loaded_config_starts_example =
    loaded_config_starts two_files (codes "/etc/hp/agent.toml") web1_config false web1_loads
      (omega arith)

abbrev hourly : Text → Task
hourly name = record { name = name; group = codes "hourly"; always = false }

abbrev three_tasks : List Task
three_tasks =
    hourly (codes "disk")
    ∷ record { name = codes "cpu"; group = codes "often"; always = false }
    ∷ hourly (codes "cron")
    ∷ []

hourly_tasks :
    members (lookup (codes "hourly") (group_by (λ (t : Task). t.group) three_tasks))
    ≡ hourly (codes "disk") ∷ hourly (codes "cron") ∷ []
unfolding group_by lookup insert text_eq
hourly_tasks = refl
