-- ===== src/Tests/Receipts.antt =====
-- A receipt recorded and shipped, and the theorems about receipts applied to them.
use heartpost.Common.{
  ℕ, zero, suc, ◌≡◌, ◌↔◌, refl, true, Option, none, some, List, [], ◌∷◌, arith, All, length,
  some_injective, if◌then◌else◌,
}
use heartpost.Common.Text.{Text, codes, text_eq, trim_space}
use heartpost.Common.Assoc.{lookup}
use heartpost.Common.Int.{pos}
use heartpost.Clock.{Time}
use heartpost.Signature.{Bytes, hex, utf8}
use heartpost.License.Base64.Laws.{IsBytes}
use heartpost.Collector.Tail.{make, tail_lines}
use heartpost.Collector.Jsonl.{Files, run}
use heartpost.HttpOutcome.Receipt.{
  Receipt, receipt_keys, validate_receipt, method_ok, in_range, fetch_file, bad_method,
  operation_from, new_operation_id, parse_receipt_line, path_hash_of, classify,
}
use heartpost.HttpOutcome.Transport.{Request, World, round_trip, receipt_of, header_operation_id}
use heartpost.HttpOutcome.Transport.Recorded.{recorded_valid}
use heartpost.HttpOutcome.Shipping
use heartpost.HttpOutcome.Shipping.{
  Settings, Codec, CollectResult, collected, collect, resolve_owners,
}
use heartpost.HttpOutcome.Shipping.Trusted.{IsShipped, collect-IsShipped}
use heartpost.Tests.Data.{noon}
use heartpost.Tests.Logs.{works, vps_host, receipts}
use heartpost.Common.Decimal.{parse_ℕ}
use heartpost.FilePath.{join, dir_of}
use heartpost.HttpOutcome.Paths.{verify_trusted_path_with_owners}

abbrev zeros : ℕ → Bytes
zeros n = make n 0

zeros-IsBytes : (n : ℕ) → IsBytes (zeros n)
unfolding make
zeros-IsBytes zero = tt
zeros-IsBytes (suc n) = (omega arith, zeros-IsBytes n)

zeros_32 : length (zeros 32) ≡ 32
unfolding make
zeros_32 = refl

zeros_16 : length (zeros 16) ≡ 16
unfolding make
zeros_16 = refl

draws : (b : Bytes) → some (zeros 16) ≡ some b → IsBytes b × (length b ≡ 16)
draws b e = rw (← some_injective (zeros 16) b e) (zeros-IsBytes 16, zeros_16)

abbrev no_hash : Bytes → Bytes
no_hash s = zeros 32

abbrev any_time : Text → Option Time
any_time s = some noon

abbrev get_file : Request
get_file = record {
  context = some fetch_file;
  method = codes "GET";
  escaped_path = codes "/dav/a.txt";
  headers = (header_operation_id, codes "old" ∷ []) ∷ [];
}

abbrev answers_404 : World
answers_404 = record {
  base = λ req. some (pos 404);
  sink = some (λ r. true);
  random = some (zeros 16);
  now = codes "2026-01-01T00:00:00Z";
}

abbrev zero_id : Text
zero_id = hex (zeros 16)

abbrev lost_file : Receipt
lost_file = receipt_of no_hash answers_404 fetch_file zero_id get_file (pos 404)

recorded_valid_example :
    let trip = round_trip no_hash answers_404 get_file in
    (trip.status ≡ some (pos 404))
    × (lookup header_operation_id trip.sent.headers ≡ some (zero_id ∷ []))
    × (trip.recorded ≡ lost_file ∷ [])
    × (lost_file.request_id ≡ zero_id)
    × ((validate_receipt any_time lost_file ≡ none)
        ↔ ((method_ok (codes "GET") ≡ true) × (in_range (pos 404) 100 600 ≡ true)))
unfolding text_eq operation_from new_operation_id
recorded_valid_example =
    recorded_valid no_hash any_time answers_404 get_file fetch_file zero_id (pos 404) (λ r. true)
      refl refl refl refl (λ s. (zeros-IsBytes 32, zeros_32)) draws (λ e. cc)

-- A GET whose request leaves the method empty, as net/http allows.
unnamed_get :
    validate_receipt any_time (
      receipt_of no_hash answers_404 fetch_file zero_id (record get_file { method = [] }) (pos 404))
    ≡ some bad_method
unfolding validate_receipt receipt_of hex make
unnamed_get = refl

-- Each line of one byte is the receipt of the lost file.
abbrev one_receipt : Codec
one_receipt = record {
  decoder = record { keys = λ line. some receipt_keys; receipt = λ line. some lost_file };
  parse_time = any_time;
  marshal = λ r. some (1 ∷ []);
  unmarshal = λ b. some lost_file;
}

abbrev vps : Shipping.World
vps = record {
  host = vps_host;
  user_uid = λ name. if text_eq name (codes "www-data") then some (codes "33") else none;
  makes_dir = λ path. true;
  log_of = λ path. if text_eq path receipts then some (codes "x\ny\n") else none;
  os_of = λ path. works;
}

abbrev two_logs : Settings
two_logs = record {
  logs = receipts ∷ codes "/tmp/other.jsonl" ∷ [];
  trusted_owners = codes "www-data" ∷ [];
  data_dir = codes "/var/lib/hp";
  log_lines = pos 0;
}

abbrev no_files : Files
no_files = record { log = none; jsonl = none; rotated = none }

-- One receipt of the two lines, which share an id; the other log does not exist.
abbrev shipped : CollectResult
shipped = record {
  new_events = 1;
  dropped_lines = 0;
  jsonl_path = codes "/var/lib/hp/logs/http_outcome.jsonl";
  skipped = record { path = codes "/tmp/other.jsonl"; reason = Shipping.untrusted } ∷ [];
  events = lost_file ∷ [];
}

one_log_read : (collect vps one_receipt two_logs no_files).1 ≡ collected shipped
unfolding collect parse_ℕ join text_eq verify_trusted_path_with_owners dir_of run tail_lines
    parse_receipt_line receipt_of hex trim_space utf8 path_hash_of classify
one_log_read = refl

collect-IsShipped_example :
    (shipped.new_events ≡ length shipped.events)
    × All
        (λ r.
          (owners : List ℕ) × (resolve_owners vps (codes "www-data" ∷ []) ≡ some owners)
          × IsShipped vps one_receipt owners (receipts ∷ codes "/tmp/other.jsonl" ∷ []) r)
        shipped.events
collect-IsShipped_example = collect-IsShipped vps one_receipt two_logs no_files shipped one_log_read
