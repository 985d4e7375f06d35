-- ===== src/Honeypot/Server.antt =====
-- honeypotserver/server.go: New, the handler of a request, and AppendEvent, which the mutex makes one
-- step. The log is the bytes of its file, if there is one.
pub mod Hidden
pub mod Local
use heartpost.Common.{
  ℕ, zero, suc, ◌+◌, Bool, true, false, ◌&&◌, ◌||◌, not, Option, none, some, List, [], ◌∷◌, ◌++◌,
  map, take, ◌==◌, if◌then◌else◌,
}
use heartpost.Common.Text.{Text, codes, text_eq, is_empty, trim_space}
use heartpost.Common.Assoc.{Assoc, lookup, insert}
use heartpost.Common.Int.{ℤ, pos, negsuc, ltb_ℤ, pos_part}
use heartpost.Signature.{Bytes, utf8, hex}
use heartpost.Receiver.Source.{Ip, Net, or_host}
use heartpost.Honeypot.Mask.{mask_body}
use heartpost.Honeypot.Trigger.{classify_trigger}

pub record Config : Type 0 where
  pub listen : Text
  pub jsonl_path : Text
  pub max_body_bytes : ℤ
  pub allowed_headers : List Text
  pub ignore_paths : List Text

pub record Event : Type 0 where
  pub schema : Text
  pub ts : Text
  pub ip : Text
  pub method : Text
  pub path : Text
  pub query : Text
  pub trigger : Text
  pub headers : Assoc Text
  pub post_body : Bytes
  pub is_whitelisted : Bool
  pub dedupe_key : Text

pub data NewError : Type 0 where
  bad_listen not_local path_required : NewError

pub data Made : Type 0 where
  made : Config → Made
  not_made : NewError → Made

-- The settings that New fills in.
unfoldable pub with_limits : Config → Config
with_limits c = record c {
  max_body_bytes = if ltb_ℤ (pos 0) c.max_body_bytes then c.max_body_bytes else pos 8192;
  allowed_headers = elim c.allowed_headers [
    | [] ↦ codes "user-agent" ∷ codes "referer" ∷ []
    | key ∷ keys ↦ key ∷ keys
  ];
}

abbrev pub with_listen : Config → Config
with_listen c = record c { listen = if is_empty c.listen then codes "127.0.0.1:8776" else c.listen }

unfoldable pub is_local : Text → Bool
is_local host =
    text_eq host (codes "127.0.0.1")
    || text_eq host (codes "localhost")
    || text_eq host (codes "::1")

unfoldable pub new_on : Option Text → Config → Made
unfolding is_local with_limits
new_on none c = not_made bad_listen
new_on (some host) c =
    if not (is_local host)
    then not_made not_local
    else if is_empty c.jsonl_path
    then not_made path_required
    else made (with_limits c)

-- New
unfoldable pub new_server : Net → Config → Made
unfolding new_on
new_server net c = new_on (net.split_host (with_listen c).listen) (with_listen c)

-- `body` is what can be read of it. The keys of the headers are in the canonical form that
-- http.Header keeps.
pub record Request : Type 0 where
  pub method : Text
  pub path : Text
  pub query : Text
  pub headers : Assoc (List Text)
  pub remote_addr : Text
  pub body : Bytes

-- ip.String(), unicode.ToLower, SHA-256, encoding/json at Event, and the current time in RFC 3339.
pub record World : Type 0 where
  pub net : Net
  pub ip_text : Ip → Text
  pub lower : ℕ → ℕ
  pub sha256 : Bytes → Bytes
  pub marshal : Event → Option Bytes
  pub now : Text

-- Which system calls of one request work. A write that fails has written so many bytes.
pub record Os : Type 0 where
  pub makes_directory : Bool
  pub opens : Bool
  pub short_write : Option ℕ

-- shouldIgnorePath
unfoldable pub should_ignore : Text → List Text → Bool
should_ignore path [] = false
should_ignore path (p ∷ ignore) = (not (is_empty p) && text_eq path p) || should_ignore path ignore

-- readLimitedBody
unfoldable pub read_limited : Bytes → ℤ → Bytes
read_limited body limit = if ltb_ℤ (pos 0) limit then take (pos_part limit) body else []

-- The first of the values of a header, or nothing.
unfoldable pub header : Text → Assoc (List Text) → Text
unfolding lookup
header key headers = elim (lookup key headers) [
  | none ↦ []
  | some vs ↦ elim vs [ [] ↦ [] | v ∷ _ ↦ v ]
]

-- The text before the first comma.
unfoldable pub first_part : Text → Text
first_part [] = []
first_part (c ∷ s) = if c == b',' then [] else c ∷ first_part s

-- The address that one of the two headers names.
unfoldable pub named_ip : Net → Text → Option Ip
named_ip net v = if is_empty v then none else net.parse_ip v

unfoldable pub real_ip : Net → Assoc (List Text) → Option Ip
unfolding header named_ip
real_ip net headers = named_ip net (trim_space (header (codes "X-Real-Ip") headers))

unfoldable pub forwarded_ip : Net → Assoc (List Text) → Option Ip
unfolding header named_ip first_part
forwarded_ip net headers =
    let v = trim_space (header (codes "X-Forwarded-For") headers) in
    if is_empty v then none else net.parse_ip (trim_space (first_part v))

-- clientIP
unfoldable pub client_ip : World → Request → Text
unfolding real_ip forwarded_ip
client_ip w req = elim (real_ip w.net req.headers) [
  | some ip ↦ w.ip_text ip
  | none ↦ elim (forwarded_ip w.net req.headers) [
    | some ip ↦ w.ip_text ip
    | none ↦ or_host (w.net.split_host req.remote_addr) req.remote_addr
  ]
]

unfoldable pub is_allowed : (ℕ → ℕ) → Text → List Text → Bool
is_allowed lower key [] = false
is_allowed lower key (k ∷ allowed) = text_eq (map lower k) key || is_allowed lower key allowed

-- strings.Join
unfoldable pub join_with : Text → List Text → Text
join_with sep [] = []
join_with sep (v ∷ []) = v
join_with sep (v ∷ (u ∷ vs)) = v ++ (sep ++ join_with sep (u ∷ vs))

-- filteredHeaders
unfoldable pub filtered_headers : (ℕ → ℕ) → List Text → Assoc (List Text) → Assoc Text
unfolding is_allowed join_with insert
filtered_headers lower allowed [] = []
filtered_headers lower allowed ((key, vs) ∷ h) =
    let rest = filtered_headers lower allowed h in
    if is_allowed lower (map lower key) allowed
    then insert (map lower key) (join_with (codes ", ") vs) rest
    else rest

abbrev pub text_or_none : Option Text → Text
text_or_none none = []
text_or_none (some v) = v

-- buildDedupeKey
unfoldable pub dedupe_key_of : (Bytes → Bytes) → Event → Text
unfolding join_with lookup
dedupe_key_of sha256 ev =
    codes "honeypot|"
    ++ hex (
        sha256 (
          join_with (codes "|") (
            utf8 ev.ts
            ∷ utf8 ev.ip
            ∷ utf8 ev.method
            ∷ utf8 ev.path
            ∷ utf8 ev.query
            ∷ utf8 ev.trigger
            ∷ utf8 (text_or_none (lookup (codes "user-agent") ev.headers))
            ∷ ev.post_body
            ∷ [])))

unfoldable pub without_key : World → Config → Request → Event
unfolding read_limited client_ip filtered_headers
without_key w c req = record {
  schema = codes "honeypot.v1";
  ts = w.now;
  ip = client_ip w req;
  method = req.method;
  path = req.path;
  query = req.query;
  trigger = classify_trigger w.lower req.path req.query;
  headers = filtered_headers w.lower c.allowed_headers req.headers;
  post_body = mask_body (read_limited req.body c.max_body_bytes);
  is_whitelisted = false;
  dedupe_key = [];
}

-- The event of a request.
unfoldable pub event_of : World → Config → Request → Event
unfolding without_key dedupe_key_of
event_of w c req =
    let ev = without_key w c req in record ev { dedupe_key = dedupe_key_of w.sha256 ev }

abbrev pub contents : Option Bytes → Bytes
contents none = []
contents (some s) = s

abbrev pub written : Option ℕ → Bytes → Bytes
written none line = line
written (some n) line = take n line

-- AppendEvent: the log after it, and whether it failed.
unfoldable pub append_event : World → Os → Event → Option Bytes → Option Bytes × Bool
append_event w os ev log = elim (w.marshal ev) [
  | none ↦ (log, true)
  | some b ↦
      if os.makes_directory && os.opens
      then (
        some (contents log ++ written os.short_write (b ++ codes "\n")),
        elim os.short_write [ none ↦ false | some n ↦ true ],
      )
      else (log, true)
]

-- handle: the status of the answer, and the log after it.
unfoldable pub handle : World → Config → Os → Request → Option Bytes → ℕ × Option Bytes
unfolding should_ignore event_of append_event
handle w c os req log =
    if should_ignore req.path c.ignore_paths
    then (403, log)
    else (403, (append_event w os (event_of w c req) log).0)
