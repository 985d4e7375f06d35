-- ===== src/License/Jwt.antt =====
-- agentlicense/jwt.go and keys.go: the tokens of agents and the keys that sign them. Ed25519 and
-- JSON are parameters; a key is its bytes, and the clock is in seconds from the Unix epoch.
pub mod Verified
use heartpost.Common.{
  ℕ, ◌≡◌, Bool, true, false, ◌&&◌, ◌||◌, not, Option, none, some, List, [], ◌∷◌, ◌++◌, length, ◌==◌,
  if◌then◌else◌,
}
use heartpost.Common.Text.{Text, codes, text_eq, is_empty, trim_space}
use heartpost.Common.Assoc.{Assoc, lookup, insert}
use heartpost.Common.Int.{ℤ, pos, ltb_ℤ}
use heartpost.Signature.{Bytes, utf8}
use heartpost.License.Base64.{encode, decode}

pub record Claims : Type 0 where
  pub issuer : Text
  pub subject : Text
  pub audience : Text
  pub tenant_id : Text
  pub issued_at : ℤ
  pub expires_at : ℤ
  pub not_before : ℤ
  pub jti : Text
  pub scope : Text
  pub type : Text

pub record Header : Type 0 where
  pub alg : Text
  pub typ : Text
  pub kid : Text

-- crypto/ed25519 on bytes, and encoding/json at the two structures; `none` is an error.
pub record Crypto : Type 0 where
  pub sign : Bytes → Bytes → Bytes
  pub verify : Bytes → Bytes → Bytes → Bool
  pub marshal_header : Header → Option Bytes
  pub marshal_claims : Claims → Option Bytes
  pub unmarshal_header : Bytes → Option Header
  pub unmarshal_claims : Bytes → Option Claims

pub data JwtError : Type 0 where
  malformed expired not_yet_valid bad_signature unknown_kid : JwtError

-- What one of the functions returns: a value, or why there is none.
pub data Result (A : Type 0) : Type 0 where
  ok : A → Result A
  err : JwtError → Result A

-- Go's `if err != nil { return nil, err }`
infixl 5 ◌>>=◌ ◌>>◌
abbrev pub ◌>>=◌ : {A B : Type 0} → Result A → (A → Result B) → Result B
err e >>= next = err e
ok a >>= next = next a

abbrev pub ◌>>◌ : {B : Type 0} → Result (Unit {0}) → Result B → Result B
err e >> next = err e
ok u >> next = next

abbrev pub get : {A : Type 0} → JwtError → Option A → Result A
get e none = err e
get e (some a) = ok a

abbrev pub require : Bool → JwtError → Result (Unit {0})
require b e = if b then ok tt else err e

abbrev pub full_stop : ℕ
full_stop = b'.'

abbrev pub onto_first : ℕ → List Text → List Text
onto_first c [] = (c ∷ []) ∷ []
onto_first c (t ∷ ts) = (c ∷ t) ∷ ts

-- strings.Split at one character
unfoldable pub split_at : ℕ → Text → List Text
split_at d [] = [] ∷ []
split_at d (c ∷ s) = if c == d then [] ∷ split_at d s else onto_first c (split_at d s)

-- The parts of a token, if they are three.
unfoldable pub three_parts : List Text → Option (Text × Text × Text)
three_parts (a ∷ b ∷ c ∷ []) = some (a, b, c)
three_parts _ = none

abbrev pub eddsa : Text
eddsa = codes "EdDSA"

-- The claims hold at a time.
unfoldable pub check_times : ℤ → Claims → Result Claims
check_times now c =
    if ltb_ℤ (pos 0) c.not_before && ltb_ℤ now c.not_before
    then err not_yet_valid
    else if ltb_ℤ (pos 0) c.expires_at && ltb_ℤ c.expires_at now
    then err expired
    else ok c

module _ (x : Crypto) where
  -- SignJWT
  unfoldable pub sign_jwt : Bytes → Text → Claims → Option Text
  sign_jwt key kid claims =
      elim (x.marshal_header (record { alg = eddsa; typ = codes "JWT"; kid = kid })) [
        | none ↦ none
        | some header ↦ elim (x.marshal_claims claims) [
          | none ↦ none
          | some body ↦
              let msg = encode header ++ full_stop ∷ encode body in
              some (msg ++ full_stop ∷ encode (x.sign key (utf8 msg)))
        ]
      ]

  -- VerifyJWT
  unfoldable pub verify_jwt : ℤ → (Text → Option Bytes) → Text → Result Claims
  unfolding split_at three_parts check_times
  verify_jwt now resolver token = do
    parts ← get malformed (three_parts (split_at full_stop token))
    header_json ← get malformed (decode parts.0)
    header ← get malformed (x.unmarshal_header header_json)
    require (text_eq header.alg eddsa) malformed
    key ← get unknown_kid (resolver header.kid)
    sig ← get malformed (decode parts.2)
    require (x.verify key (utf8 (parts.0 ++ full_stop ∷ parts.1)) sig) bad_signature
    body ← get malformed (decode parts.1)
    claims ← get malformed (x.unmarshal_claims body)
    check_times now claims

  -- ExtractClaimsUnverified
  unfoldable pub extract_claims : Text → Result Claims
  unfolding split_at three_parts
  extract_claims token = do
    parts ← get malformed (three_parts (split_at full_stop token))
    body ← get malformed (decode parts.1)
    get malformed (x.unmarshal_claims body)

  -- ExtractKid
  unfoldable pub extract_kid : Text → Result Text
  unfolding split_at three_parts
  extract_kid token = do
    parts ← get malformed (three_parts (split_at full_stop token))
    header_json ← get malformed (decode parts.0)
    header ← get malformed (x.unmarshal_header header_json)
    ok header.kid
