-- ===== src/License/Offline.antt =====
-- agentlicense/offline.go, and VerifyToken and VerifyOfflineLicense of verifier.go.
pub mod Accepted
use heartpost.Common.{
  ℕ, ◌+◌, ◌*◌, Bool, true, false, ◌&&◌, ◌||◌, not, Option, none, some, List, [], ◌∷◌, ◌++◌, ◌==◌,
  if◌then◌else◌,
}
use heartpost.Common.Text.{Text, text_eq, is_empty}
use heartpost.Common.Assoc.{Assoc}
use heartpost.Common.Int.{ℤ, pos, negsuc, ltb_ℤ, eqb_ℤ, sub_ℕ, pos_part, neg_part}
use heartpost.Signature.{Bytes}
use heartpost.License.Base64.{encode, decode}
use heartpost.License.Jwt.{
  Claims, Header, Crypto, Result, ok, err, ◌>>=◌, ◌>>◌, get, require, malformed, unknown_kid,
  bad_signature, eddsa, check_times, verify_jwt,
}
use heartpost.License.PublicKeys.{Decoders, parse_public_keys, resolver_of}

pub record Meta : Type 0 where
  pub tenant_name : Text
  pub max_agents : ℤ
  pub grace_days : ℤ
  pub features : List Text

pub record OfflineFile : Type 0 where
  pub version : ℤ
  pub header : Header
  pub claims : Claims
  pub meta : Meta
  pub signature : Text

-- OfflineFileVersion
abbrev pub file_version : ℤ
file_version = pos 1

-- encoding/json at the signed part and at the file.
pub record Codec : Type 0 where
  pub marshal_target : Header → Claims → Option Bytes
  pub marshal_file : OfflineFile → Option Bytes
  pub unmarshal_file : Bytes → Option OfflineFile

module _ (x : Crypto) (j : Codec) where
  -- IssueOfflineLicenseWithType
  unfoldable pub issue_offline : Bytes → Text → Claims → Meta → Text → Option Bytes
  issue_offline key kid claims meta type =
      let header : Header = record { alg = eddsa; typ = type; kid = kid } in
      if is_empty type then none else elim (j.marshal_target header claims) [
        | none ↦ none
        | some target ↦ j.marshal_file (record {
          version = file_version;
          header = header;
          claims = claims;
          meta = meta;
          signature = encode (x.sign key target);
        })
      ]

  -- ParseOfflineLicense, whose errors have no name.
  unfoldable pub parse_offline : Bytes → Option OfflineFile
  parse_offline bytes = elim (j.unmarshal_file bytes) [
    | none ↦ none
    | some f ↦ (if eqb_ℤ f.version file_version then some f else none)
  ]

  -- VerifyOfflineFile; a failure of ParseOfflineLicense or of json.Marshal counts as `malformed`.
  unfoldable pub verify_offline_file : ℤ → (Text → Option Bytes) → Bytes → Result Claims
  unfolding parse_offline
  verify_offline_file now resolver bytes = do
    f ← get malformed (parse_offline bytes)
    key ← get unknown_kid (resolver f.header.kid)
    sig ← get malformed (decode f.signature)
    target ← get malformed (j.marshal_target f.header f.claims)
    require (x.verify key target sig) bad_signature
    check_times now f.claims

abbrev max_future_skew : ℕ
max_future_skew = 24 * 60 * 60

abbrev pub add_ℕ : ℤ → ℕ → ℤ
add_ℕ a n = sub_ℕ (pos_part a + n) (neg_part a)

-- Why a verifier refuses a token or a file.
pub data VerifyError : Type 0 where
  bad_keys not_readable other_subject issued_in_future : VerifyError
  bad_token : Result Claims → VerifyError

pub data Verified : Type 0 where
  verified : Claims → Verified
  rejected : VerifyError → Verified

-- The claims are for the agent.
unfoldable pub for_subject : Text → Result Claims → Verified
for_subject agent_id (err e) = rejected (bad_token (err e))
for_subject agent_id (ok c) =
    if text_eq c.subject agent_id then verified c else rejected other_subject

unfoldable pub not_future : ℤ → Verified → Verified
not_future now (rejected e) = rejected e
not_future now (verified c) =
    if ltb_ℤ (add_ℕ now max_future_skew) c.issued_at then rejected issued_in_future else verified c

module _ (x : Crypto) (ds : Decoders) (public_keys : Text) where
  -- VerifyToken
  unfoldable pub verify_token : ℤ → Text → Text → Verified
  unfolding for_subject
  verify_token now agent_id token = elim (parse_public_keys ds public_keys) [
    | none ↦ rejected bad_keys
    | some keys ↦ for_subject agent_id (verify_jwt x now (resolver_of keys) token)
  ]

  -- VerifyOfflineLicense, LoadAndVerifyOfflineLicense; the file's bytes, if it can be read.
  unfoldable pub verify_offline : Codec → ℤ → Text → Option Bytes → Verified
  unfolding for_subject not_future
  verify_offline j now agent_id file = elim (parse_public_keys ds public_keys) [
    | none ↦ rejected bad_keys
    | some keys ↦ elim file [
      | none ↦ rejected not_readable
      | some bytes ↦
          not_future now
            (for_subject agent_id (verify_offline_file x j now (resolver_of keys) bytes))
    ]
  ]
