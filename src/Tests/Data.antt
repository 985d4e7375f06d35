-- ===== src/Tests/Data.antt =====
-- The inputs that the tests share: a JSON codec that keeps the map itself, an agent, its reports.
use heartpost.Common.{◌+◌, ◌*◌, ◌≡◌, refl, Option, none, some, [], ◌∷◌, arith}
use heartpost.Common.Text.{Text, codes}
use heartpost.Common.Assoc.{Assoc, lookup, WellKeyed}
use heartpost.Common.Int.{pos}
use heartpost.Clock.{Time, second, minute, unix_epoch}
use heartpost.Receiver.Disk.{Json, States}
use heartpost.Receiver.State.{AgentState, Record, new_agent}
use heartpost.Receiver.Notify.{Notifier, post_failed}
use heartpost.Receiver.Store.{Store}
use heartpost.Receiver.Store.Keys.{HasKeys}
use heartpost.Receiver.Store.Restart.{RoundTrips}
use heartpost.Receiver.Liveness.{Thresholds}
use mathlib.Core.Option

abbrev all_some : States → Assoc (Option AgentState)
all_some [] = []
all_some ((id, st) ∷ m) = (id, some st) ∷ all_some m

abbrev pub plain_json : Json States
plain_json = record {
  marshal_states = λ m. some m;
  unmarshal_states = λ m. some (all_some m);
  marshal_record = λ rec. some (rec.agent_id);
  summary = record { host_name = λ raw. some raw; disks = λ raw. none; load_avg = λ raw. none };
}

lookup-all_some : (id : Text) (m : States) → lookup id (all_some m) ≡ Option.map some (lookup id m)
unfolding lookup
lookup-all_some id [] = refl
lookup-all_some id ((k, st) ∷ m) = ground (arith, lookup-all_some id m)

all_some-WellKeyed : (m : States) → HasKeys m → WellKeyed (λ id st. Unit {0}) (all_some m)
all_some-WellKeyed [] w = tt
all_some-WellKeyed ((k, st) ∷ m) w =
    (tt, ground (arith, lookup-all_some k m, w.1), all_some-WellKeyed m w.2)

pub plain_json-RoundTrips : RoundTrips plain_json
plain_json-RoundTrips = record {
  read_back = λ m d w e. (all_some m, cc, all_some-WellKeyed m w, λ id. lookup-all_some id m);
}

abbrev pub web1 : Text
web1 = codes "web1"

-- Ten minutes after the Unix epoch.
abbrev pub noon : Time
noon = (unix_epoch + 600) * second

abbrev pub web1_report : Record
web1_report = record {
  received_at = [];
  agent_id = web1;
  agent_label = codes "Web";
  agent_type = codes "vps";
  reported_at = [];
  collectors = some ((codes "host", codes "web.example") ∷ []);
}

-- web1 was heard of at `noon`.
abbrev pub web1_seen : AgentState
web1_seen = record (new_agent web1 (codes "Web")) { last_seen = noon }

abbrev pub fresh : Store States
fresh = record {
  dir = codes "/data";
  retention_days = pos 90;
  states = [];
  disk = record { reports = []; state = some [] };
}

abbrev pub one_agent : Store States
one_agent = record fresh { states = (web1, web1_seen) ∷ [] }

abbrev pub defaults : Thresholds
defaults = record { default = pos (15 * minute); per_agent = [] }

abbrev pub accepting : Notifier
accepting ev = []

abbrev pub failing : Notifier
failing ev = post_failed ∷ []
