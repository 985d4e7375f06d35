-- ===== src/Tests/Honeypot.antt =====
-- A honeypot that logs a form, and its theorems applied to it.
use heartpost.Common.{ℕ, ◌+◌, ◌≡◌, refl, true, ◌&&◌, none, some, [], ◌∷◌, leb, arith, if◌then◌else◌}
use heartpost.Common.Text.{codes, text_eq, is_empty, has_prefix}
use heartpost.Common.Int.{pos}
use heartpost.Receiver.Source.{Net}
use heartpost.Honeypot.Mask.{
  mask_body, replaced, secret_at, words, if_assigned, strip_word, strip_any, strip, assigned,
  value_length,
}
use heartpost.Honeypot.Mask.Secrets.{password, value, Alike, same, hidden, joined}
use heartpost.Honeypot.Trigger.{classify_trigger, contains_text}
use heartpost.Honeypot.Server.{Config, World, Os, Request, made, new_server, handle}
use heartpost.Honeypot.Server.Hidden.{handle-Alike}

abbrev lower : ℕ → ℕ
lower c = if leb b'A' c && leb c b'Z' then c + 32 else c

masked_form :
    mask_body (codes "PassWord=b c&api-key=&my_token=x")
    ≡ codes "PassWord=*** c&api-key=&my_token=***"
unfolding mask_body replaced secret_at words if_assigned strip_word strip_any strip assigned
    value_length
masked_form = refl

-- The Kelvin sign folds to k.
masked_kelvin :
    mask_body (116 ∷ 111 ∷ 0xe2 ∷ 0x84 ∷ 0xaa ∷ codes "en=x")
    ≡ 116 ∷ 111 ∷ 0xe2 ∷ 0x84 ∷ 0xaa ∷ codes "en=***"
unfolding mask_body replaced secret_at words if_assigned strip_word strip_any strip assigned
    value_length
masked_kelvin = refl

triggers :
    classify_trigger lower (codes "/index.php") (codes "id=1+UNION+SELECT+2")
      ∷ classify_trigger lower (codes "/WP-login.php") []
      ∷ []
    ≡ codes "query_string" ∷ codes "wordpress" ∷ []
unfolding classify_trigger contains_text has_prefix
triggers = refl

abbrev local_net : Net
local_net = record {
  parse_ip = λ text. if is_empty text then none else some (127 ∷ 0 ∷ 0 ∷ 1 ∷ []);
  parse_cidr = λ text. none;
  split_host = λ text. if is_empty text then none else some (codes "127.0.0.1");
}

abbrev pot : Config
pot = record {
  listen = [];
  jsonl_path = codes "/var/log/pot.jsonl";
  max_body_bytes = pos 0;
  allowed_headers = [];
  ignore_paths = codes "/health" ∷ [];
}

abbrev pot_made : Config
pot_made = record pot {
  listen = codes "127.0.0.1:8776";
  max_body_bytes = pos 8192;
  allowed_headers = codes "user-agent" ∷ codes "referer" ∷ [];
}

pot_is_made : new_server local_net pot ≡ made pot_made
unfolding new_server text_eq
pot_is_made = refl

-- The encoding of an event is its body.
abbrev world : World
world = record {
  net = local_net;
  ip_text = λ ip. codes "127.0.0.1";
  lower = lower;
  sha256 = λ s. s;
  marshal = λ ev. some ev.post_body;
  now = codes "2026-01-02T03:04:05Z";
}

abbrev working : Os
working = record { makes_directory = true; opens = true; short_write = none }

abbrev login : Request
login = record {
  method = codes "POST";
  path = codes "/login";
  query = [];
  headers = (codes "X-Real-Ip", codes "127.0.0.1" ∷ []) ∷ [];
  remote_addr = codes "127.0.0.1:5000";
  body = [];
}

forms-Alike : Alike (codes "user=a&password=b x") (codes "user=a&password=cd x")
forms-Alike = joined b'&' refl (same (codes "user=a")) (
    joined b' ' refl
      (hidden password (value b'b' [] (refl, tt)) (value b'c' (b'd' ∷ []) (refl, (refl, tt))))
      (same (codes "x")))

handle-Alike_example :
    handle world pot_made working (record login { body = codes "user=a&password=b x" }) none
    ≡ handle world pot_made working (record login { body = codes "user=a&password=cd x" }) none
handle-Alike_example =
    handle-Alike world pot_made working login none forms-Alike (omega arith) (omega arith)

logged :
    handle world pot_made working (record login { body = codes "user=a&password=cd" }) none
    ≡ (403, some (codes "user=a&password=***\n"))
unfolding handle text_eq mask_body replaced secret_at words if_assigned strip_word strip_any strip
    assigned value_length
logged = refl
