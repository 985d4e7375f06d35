-- ===== src/Tests/Delivery.antt =====
-- A delivery of the agent, received by a monitor that holds its key.
use heartpost.Common.{◌≡◌, ◌≤◌, refl, true, false, none, some, [], ◌∷◌, arith}
use heartpost.Common.Text.{codes, text_eq}
use heartpost.Common.Assoc.{lookup}
use heartpost.Common.Int.{pos, ◌-ℤ◌, wrap_int64}
use heartpost.Clock.{unix, second}
use heartpost.Signature.{Mac}
use heartpost.Receiver.AgentId.{valid_agent_id}
use heartpost.Receiver.Source.{remote_ip, ip_allowed}
use heartpost.Receiver.Handler.{Handler, Env, Payload, in_window, skew, max_body}
use heartpost.Receiver.Handler.Admission.{IsAdmitted}
use heartpost.Receiver.Disk.{States}
use heartpost.Agent.Reporter.{Target, Attempt, post_of}
use heartpost.Agent.Reporter.Delivery.{IsMac, received, delivery-IsAdmitted}
use heartpost.Tests.Data.{plain_json, web1, noon}

abbrev one_byte : Mac
one_byte key message = 1 ∷ []

one_byte-IsMac : IsMac one_byte
one_byte-IsMac = record {
  bytes = λ key message. (omega arith, tt);
  not_empty = λ key message e. cc;
}

abbrev web1_payload : Payload
web1_payload = record {
  agent_id = web1;
  agent_label = [];
  agent_type = [];
  reported_at = [];
  collectors = none;
}

abbrev env : Env States
env = record {
  net = record { parse_ip = λ text. none; parse_cidr = λ text. none; split_host = λ text. none };
  mac = one_byte;
  payload = λ body. some web1_payload;
  json = plain_json;
}

abbrev handler : Handler
handler = record {
  cfg = record {
    agent_keys = (web1, codes "k") ∷ [];
    allowed_ips = [];
    trust_forwarded_for = false;
    timestamp_skew = pos 0;
    max_body_bytes = pos 0;
  };
  allowed = [];
}

abbrev target : Target
target = record {
  name = codes "monitor";
  endpoint = codes "https://monitor";
  path = codes "/report";
  api_key = codes "k";
  timeout = pos second;
  retry_count = pos 0;
  trim_endpoint = false;
  stop_on_cancel = false;
}

abbrev attempt : Attempt
attempt = record { canceled = false; now = noon; built = true; status = none }

web1_valid : valid_agent_id web1 ≡ true
unfolding valid_agent_id
web1_valid = refl

attempt_clock : unix attempt.now ≡ pos 600
unfolding unix
attempt_clock = refl

attempt_fresh : in_window handler.cfg noon (pos 600) ≡ true
unfolding in_window skew wrap_int64 ◌-ℤ◌ unix
attempt_fresh = refl

key_held : lookup web1 handler.cfg.agent_keys ≡ some target.api_key
unfolding lookup text_eq
key_held = refl

any_source : ip_allowed handler.allowed (remote_ip env.net false (codes "10.0.0.1") []) ≡ true
unfolding ip_allowed
any_source = refl

small_enough : 1 ≤ max_body handler.cfg
unfolding max_body
small_enough = omega arith

delivery-IsAdmitted_example :
    IsAdmitted env handler noon
      (received (post_of one_byte target (1 ∷ []) web1 [] attempt) (codes "10.0.0.1") [])
      (pos 600)
      web1_payload
delivery-IsAdmitted_example =
    delivery-IsAdmitted env one_byte-IsMac target (1 ∷ []) web1 [] attempt handler noon
      (codes "10.0.0.1") [] 600 web1_payload web1_valid attempt_clock (omega arith) attempt_fresh
      key_held (λ e. cc) any_source small_enough refl refl
