-- ===== src/Tests/Handler.antt =====
-- Requests to the handler, and the theorems of its checks applied to them. The code of a message
-- is a toy here: the key and the message side by side.
use heartpost.Common.{
  ◌-◌, ◌^◌, ◌≡◌, ◌↔◌, ◌⊎◌, inl, inr, refl, true, false, none, some, [], ◌∷◌, ◌++◌, arith,
}
use heartpost.Common.Text.{Text, codes, text_eq, trim_space, has_prefix}
use heartpost.Common.Assoc.{lookup, insert}
use heartpost.Common.Int.{ℤ, pos, negsuc, ◌-ℤ◌, wrap_int64}
use heartpost.Common.Decimal.{parse_int64, parse_ℕ}
use heartpost.Clock.{unix, whole_seconds}
use heartpost.Signature.{Mac, compute, verify, hex, utf8}
use heartpost.Receiver.AgentId.{valid_agent_id}
use heartpost.Receiver.Disk.{working, States}
use heartpost.Receiver.Source.{Net, ip_allowed}
use heartpost.Receiver.Handler.{
  Config, Handler, Request, Env, Payload, pass, serve_http, store_report, validate, in_window, skew,
  signed, max_body, error,
}
use heartpost.Receiver.Handler.Window.{IsNear, IsOpposite, in_window_iff}
use heartpost.Receiver.Handler.Admission.{IsAdmitted, record_of, validate_iff}
use heartpost.Receiver.Handler.Serving.{
  serve_http_ok, refused_unchanged, unsigned_alike, forwarded_ignored,
}
use heartpost.Receiver.ReportFile.{
  report_path, safe_join, reports_dir, report_name, report_file_day, expired,
}
use heartpost.Receiver.Store.{
  append, append_line, with_report, apply_report, found_or_new, save_and_clean, save_state,
  save_encoded, cleanup, cleanup_entries, cleanup_entry,
}
use heartpost.Receiver.Disk.{append_file, read_dir}
use heartpost.Receiver.State.{apply_summary}
use heartpost.FilePath.{clean, join, is_below}
use heartpost.Calendar.{
  format_day, date_of, month_of, days_before, parse_day, day_number, format_rfc3339,
}
use heartpost.Tests.Data.{plain_json, web1, noon, fresh}

abbrev toy_mac : Mac
toy_mac key message = key ++ message

abbrev no_net : Net
no_net = record {
  parse_ip = λ text. some (10 ∷ 0 ∷ 0 ∷ 1 ∷ []);
  parse_cidr = λ text. none;
  split_host = λ text. none;
}

abbrev web1_payload : Payload
web1_payload = record {
  agent_id = web1;
  agent_label = codes "Web";
  agent_type = codes "vps";
  reported_at = [];
  collectors = none;
}

abbrev env : Env States
env = record { net = no_net; mac = toy_mac; payload = λ body. some web1_payload; json = plain_json }

abbrev cfg : Config
cfg = record {
  agent_keys = (web1, codes "k") ∷ [];
  allowed_ips = [];
  trust_forwarded_for = false;
  timestamp_skew = pos 0;
  max_body_bytes = pos 0;
}

abbrev handler : Handler
handler = record { cfg = cfg; allowed = [] }

abbrev request : Text → Request
request signature = record {
  method = codes "POST";
  agent_id = web1;
  timestamp = codes "540";
  signature = signature;
  forwarded_for = [];
  remote_addr = codes "10.0.0.1";
  body = codes "{}";
  broken = false;
}

-- hex of "k540.{}"
abbrev good : Request
good = request (codes "6b3534302e7b7d")

abbrev forged : Request
forged = request (codes "00")

-- What a run of the handler computes with.
handler_code : Unit {0}
unfolding serve_http store_report validate text_eq trim_space valid_agent_id ip_allowed max_body
    parse_int64 parse_ℕ in_window skew wrap_int64 ◌-ℤ◌ unix signed lookup verify utf8 compute hex
    append report_path safe_join is_below reports_dir clean join report_name format_day date_of
    month_of days_before has_prefix append_line with_report append_file insert apply_report
    apply_summary found_or_new save_and_clean save_state save_encoded cleanup cleanup_entries
    cleanup_entry read_dir report_file_day expired parse_day day_number format_rfc3339
handler_code = tt

answers :
    ((serve_http env handler working noon good fresh).1.status ≡ 200)
    × ((serve_http env handler working noon forged fresh).1.status ≡ 401)
unfolding handler_code
answers = (refl, refl)

validate_iff_example : (validate env handler noon good ≡ pass (record_of noon web1_payload)) ↔ (
    (ts : ℤ) × (payload : Payload) × IsAdmitted env handler noon good ts payload
    × (record_of noon web1_payload ≡ record_of noon payload))
validate_iff_example = validate_iff env handler noon good (record_of noon web1_payload)

serve_http_ok_example :
    (ts : ℤ) × (payload : Payload) × IsAdmitted env handler noon good ts payload
    × ((append env.json working (record_of noon payload) noon fresh).1 ≡ none)
    × ((serve_http env handler working noon good fresh).0
        ≡ (append env.json working (record_of noon payload) noon fresh).0)
serve_http_ok_example = serve_http_ok env handler working noon good fresh answers.0

forged_status :
    (serve_http env handler working noon forged fresh).1 ≡ error 401 (codes "unauthorized")
unfolding handler_code
forged_status = refl

refused_unchanged_example : (serve_http env handler working noon forged fresh).0 ≡ fresh
refused_unchanged_example =
    refused_unchanged env handler working noon forged fresh (rw forged_status (λ e. omega arith))
      (rw forged_status (λ e. omega arith))

forged_is_unsigned :
    signed env cfg
      (trim_space forged.agent_id)
      (trim_space forged.timestamp)
      forged.body
      (trim_space forged.signature)
    ≡ false
unfolding handler_code
forged_is_unsigned = refl

stranger_is_unsigned :
    signed env
      (record cfg { agent_keys = [] })
      (trim_space forged.agent_id)
      (trim_space forged.timestamp)
      forged.body
      (trim_space forged.signature)
    ≡ false
unfolding handler_code
stranger_is_unsigned = refl

unsigned_alike_example :
    serve_http env handler working noon forged fresh
    ≡ serve_http env
        (record handler { cfg = record cfg { agent_keys = [] } })
        working
        noon
        forged
        fresh
unsigned_alike_example =
    unsigned_alike env handler working noon forged fresh [] forged_is_unsigned stranger_is_unsigned

forwarded_ignored_example :
    serve_http env handler working noon (record good { forwarded_for = codes "10.9.9.9" }) fresh
    ≡ serve_http env handler working noon good fresh
forwarded_ignored_example =
    forwarded_ignored env handler working noon good fresh (codes "10.9.9.9") (inl refl)

default_skew : whole_seconds (skew cfg) ≡ pos 120
unfolding skew
default_skew = refl

noon_in_seconds : unix noon ≡ pos 600
unfolding unix
noon_in_seconds = refl

in_window_iff_example :
    (in_window cfg noon (negsuc (2 ^ 63 - 601)) ≡ true)
    ↔ (IsNear 120 600 (negsuc (2 ^ 63 - 601)) ⊎ IsOpposite 600 (negsuc (2 ^ 63 - 601)))
in_window_iff_example =
    in_window_iff cfg noon (negsuc (2 ^ 63 - 601)) 120 600 default_skew noon_in_seconds
      (omega arith) (omega arith)

-- A signed report of that timestamp passes the window of two minutes.
opposite_passes : in_window cfg noon (negsuc (2 ^ 63 - 601)) ≡ true
opposite_passes = in_window_iff_example.1 (inr refl)
