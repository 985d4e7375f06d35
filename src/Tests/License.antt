-- ===== src/Tests/License.antt =====
-- Tokens, keys and offline files of small inputs, and the theorems about licenses applied to them.
use heartpost.Common.{
  ℕ, ◌%◌, ◌≡◌, ◌↔◌, refl, sym, ◌∙◌, inl, inr, Bool, true, false, ◌&&◌, Option, none, some, List, [],
  ◌∷◌, ◌++◌, arith, Bool-cases, some_injective, map, if◌then◌else◌,
}
use native.Mathlib.Nat.{mod-lt}
use heartpost.Common.Text.{
  Text, codes, text_eq, text_eq_refl, text_eq_iff, is_empty, has_prefix, trim_space,
}
use heartpost.Common.Assoc.{lookup, insert}
use heartpost.Common.Int.{pos, eqb_ℤ, eqb_ℤ_iff}
use heartpost.Signature.{Bytes, Mac, utf8, hex}
use heartpost.License.Base64.Laws.{IsBytes}
use heartpost.License.Jwt.{
  Claims, Header, Crypto, ok, eddsa, sign_jwt, verify_jwt, extract_kid, split_at, check_times,
}
use heartpost.License.Jwt.Verified.{IsLawful, verify-sign_jwt}
use heartpost.License.Key.{verify_key, license_sig}
use heartpost.License.PublicKeys.{Decoders, parse_public_keys, resolver_of}
use heartpost.License.Offline.{
  OfflineFile, Codec, file_version, verified, verify_offline, verify_offline_file,
}
use heartpost.License.Offline.Accepted.{IsAccepted, verify_offline_iff}
use heartpost.License.Heartbeat.{Tick, answered, no_answer, run_heartbeat}
use heartpost.License.Heartbeat.Kept.{From, run_heartbeat-keeps}
use heartpost.Tests.Data.{web1}
use heartpost.License.Base64.{encode, decode}

abbrev k1 : Text
k1 = codes "k1"

abbrev jwt_header : Header
jwt_header = record { alg = eddsa; typ = codes "JWT"; kid = k1 }

abbrev web1_claims : Claims
web1_claims = record {
  issuer = codes "heartpost";
  subject = web1;
  audience = codes "monitor";
  tenant_id = codes "t1";
  issued_at = pos 100;
  expires_at = pos 900;
  not_before = pos 100;
  jti = codes "j1";
  scope = codes "report";
  type = codes "session";
}

same_header : Header → Header → Bool
same_header h g = text_eq h.alg g.alg && text_eq h.typ g.typ && text_eq h.kid g.kid

same_claims : Claims → Claims → Bool
same_claims c d =
    text_eq c.issuer d.issuer
    && text_eq c.subject d.subject
    && text_eq c.audience d.audience
    && text_eq c.tenant_id d.tenant_id
    && eqb_ℤ c.issued_at d.issued_at
    && eqb_ℤ c.expires_at d.expires_at
    && eqb_ℤ c.not_before d.not_before
    && text_eq c.jti d.jti
    && text_eq c.scope d.scope
    && text_eq c.type d.type

same_header_sound : (h g : Header) → same_header h g ≡ true → h ≡ g
unfolding same_header
same_header_sound h g e =
    ground (arith, text_eq_iff h.alg g.alg, text_eq_iff h.typ g.typ, text_eq_iff h.kid g.kid)

same_claims_sound : (c d : Claims) → same_claims c d ≡ true → c ≡ d
unfolding same_claims
same_claims_sound c d e = ground (
  arith,
  text_eq_iff c.issuer d.issuer,
  text_eq_iff c.subject d.subject,
  text_eq_iff c.audience d.audience,
  text_eq_iff c.tenant_id d.tenant_id,
  eqb_ℤ_iff c.issued_at d.issued_at,
  eqb_ℤ_iff c.expires_at d.expires_at,
  eqb_ℤ_iff c.not_before d.not_before,
  text_eq_iff c.jti d.jti,
  text_eq_iff c.scope d.scope,
  text_eq_iff c.type d.type,
)

abbrev low_byte : ℕ → ℕ
low_byte n = n % 256

-- A signature that shows its key and message, and a JSON for one header and one set of claims.
abbrev toy : Crypto
toy = record {
  sign = λ key msg. map low_byte (key ++ msg);
  verify = λ key msg sig. text_eq sig (map low_byte (key ++ msg));
  marshal_header = λ h. if same_header h jwt_header then some (1 ∷ []) else none;
  marshal_claims = λ c. if same_claims c web1_claims then some (2 ∷ []) else none;
  unmarshal_header = λ b. if text_eq b (1 ∷ []) then some jwt_header else none;
  unmarshal_claims = λ b. if text_eq b (2 ∷ []) then some web1_claims else none;
}

map-IsBytes : (s : Bytes) → IsBytes (map low_byte s)
map-IsBytes [] = tt
map-IsBytes (b ∷ s) = (mod-lt b (omega arith), map-IsBytes s)

header_byte :
    (h : Header) (b : Bytes)
    → toy.marshal_header h ≡ some b
    → IsBytes b × (toy.unmarshal_header b ≡ some h)
unfolding text_eq
header_byte h b e = elim (Bool-cases (same_header h jwt_header)) [
  | inl same ↦
      (let is : b ≡ 1 ∷ [] = some_injective b (1 ∷ []) (sym e ∙ rw same refl) in
        let h_is = same_header_sound h jwt_header same in rw (is, h_is) ((omega arith, tt), refl))
  | inr other ↦ absurd (ground arith)
]

claims_byte :
    (c : Claims) (b : Bytes)
    → toy.marshal_claims c ≡ some b
    → IsBytes b × (toy.unmarshal_claims b ≡ some c)
unfolding text_eq
claims_byte c b e = elim (Bool-cases (same_claims c web1_claims)) [
  | inl same ↦
      (let is : b ≡ 2 ∷ [] = some_injective b (2 ∷ []) (sym e ∙ rw same refl) in
        let c_is = same_claims_sound c web1_claims same in rw (is, c_is) ((omega arith, tt), refl))
  | inr other ↦ absurd (ground arith)
]

toy-IsLawful : IsLawful toy (λ key. key)
toy-IsLawful = record {
  verifies = λ key msg. text_eq_refl (map low_byte (key ++ msg));
  sign_bytes = λ key msg. map-IsBytes (key ++ msg);
  header_back = header_byte;
  claims_back = claims_byte;
}

abbrev k1_key : Text → Option Bytes
k1_key kid = if text_eq kid k1 then some (5 ∷ []) else none

-- "AQ.Ag." and the signature of "AQ.Ag" under the key 5
abbrev token1 : Text
token1 = codes "AQ.Ag.BUFRLkFn"

token1_signed : sign_jwt toy (5 ∷ []) k1 web1_claims ≡ some token1
unfolding sign_jwt same_header same_claims text_eq encode utf8
token1_signed = refl

verify-sign_jwt_example :
    (verify_jwt toy (pos 500) k1_key token1 ≡ ok web1_claims) × (extract_kid toy token1 ≡ ok k1)
unfolding text_eq
verify-sign_jwt_example =
    verify-sign_jwt toy (λ key. key) toy-IsLawful (5 ∷ []) k1 token1 web1_claims (pos 500) k1_key
      token1_signed refl (refl, refl)

abbrev key_mac : Mac
key_mac key message = 0xab ∷ []

abbrev key1 : Text
key1 = codes "t1.t1-web.ab"

key1_verifies : verify_key key_mac (codes "vendor") (codes "t1-web") key1 ≡ none
unfolding verify_key has_prefix text_eq utf8 license_sig hex
key1_verifies = refl

abbrev same_bytes : Decoders
same_bytes = record { std = λ text. some text; raw_std = λ text. none }

abbrev offline1 : OfflineFile
offline1 = record {
  version = file_version;
  header = jwt_header;
  claims = web1_claims;
  meta = record { tenant_name = []; max_agents = pos 0; grace_days = pos 0; features = [] };
  signature = [];
}

abbrev one_file : Codec
one_file = record {
  marshal_target = λ h c. some (3 ∷ []);
  marshal_file = λ f. some (4 ∷ []);
  unmarshal_file = λ b. some offline1;
}

-- A verifier whose signatures are always accepted.
abbrev trusting : Crypto
trusting = record toy { verify = λ key msg sig. true }

abbrev one_key : Text
one_key = codes "k1=0123456789abcdef0123456789abcdef"

verify_offline_iff_example :
    (verify_offline trusting same_bytes one_key one_file (pos 500) web1 (some (4 ∷ []))
      ≡ verified web1_claims)
    ↔ ((bytes : Bytes) × (some (4 ∷ []) ≡ some bytes)
        × IsAccepted trusting same_bytes one_key one_file (pos 500) web1 bytes web1_claims)
verify_offline_iff_example =
    verify_offline_iff trusting same_bytes one_key one_file (pos 500) web1 (some (4 ∷ []))
      web1_claims

offline1_accepted :
    verify_offline trusting same_bytes one_key one_file (pos 500) web1 (some (4 ∷ []))
    ≡ verified web1_claims
unfolding verify_offline parse_public_keys split_at trim_space verify_offline_file resolver_of
    lookup insert text_eq decode check_times
offline1_accepted = refl

-- A tick whose heartbeat is refused, and one that is not answered.
abbrev two_ticks : List Tick
two_ticks =
    record {
      beat = answered (record { status = 401; body = none });
      renewal = answered (record { status = 200; body = some (true, codes "new") });
    }
    ∷ record { beat = no_answer; renewal = no_answer }
    ∷ []

run_heartbeat-keeps_example :
    let last = run_heartbeat (codes "https://monitor") token1 two_ticks in
    (is_empty last ≡ false) × From token1 last two_ticks
run_heartbeat-keeps_example = run_heartbeat-keeps (codes "https://monitor") token1 two_ticks refl

renewed : run_heartbeat (codes "https://monitor") token1 two_ticks ≡ codes "new"
unfolding run_heartbeat text_eq
renewed = refl
