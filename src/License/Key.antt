-- ===== src/License/Key.antt =====
-- agentlicense/verifier.go: license keys "<tenant>.<agent>.<signature>", and the checks of a token
-- and of an offline file that the verifier adds.
pub mod Issued
use heartpost.Common.{
  ℕ, Bool, true, false, ◌&&◌, ◌||◌, not, Option, none, some, List, [], ◌∷◌, ◌++◌, ◌==◌,
  if◌then◌else◌,
}
use heartpost.Common.Text.{Text, text_eq, is_empty, has_prefix}
use heartpost.Signature.{Mac, utf8, hex}
use heartpost.License.Jwt.{full_stop}
use heartpost.License.PublicKeys.{cut_at}

pub data KeyError : Type 0 where
  no_secret no_key bad_format other_tenant other_agent bad_key_signature : KeyError

-- ComputeLicenseSig
unfoldable pub license_sig : Mac → Text → Text → Text → Text
license_sig mac key tenant agent_id = hex (mac (utf8 key) (utf8 (tenant ++ full_stop ∷ agent_id)))

-- ComputeVendorLicenseSig
unfoldable pub vendor_license_sig : Mac → Text → Text → Text → Text × Bool
unfolding license_sig
vendor_license_sig mac secret tenant agent_id =
    if is_empty secret then ([], false) else (license_sig mac secret tenant agent_id, true)

-- strings.SplitN(s, ".", 3), if that gives three parts.
unfoldable pub split_three : Text → Option (Text × Text × Text)
unfolding cut_at
split_three s = elim (cut_at full_stop s) [
  | none ↦ none
  | some (a, rest) ↦ elim (cut_at full_stop rest) [ none ↦ none | some (b, c) ↦ some (a, b, c) ]
]

-- Verify, from the parts on.
unfoldable pub check_parts : Mac → Text → Text → Text × Text × Text → Option KeyError
check_parts mac secret agent_id (tenant, key_agent, sig) =
    if not (has_prefix agent_id (tenant ++ b'-' ∷ []))
    then some other_tenant
    else if not (text_eq key_agent agent_id)
    then some other_agent
    else if not (text_eq (utf8 sig) (utf8 (license_sig mac secret tenant agent_id)))
    then some bad_key_signature
    else none

-- Verify
unfoldable pub verify_key : Mac → Text → Text → Text → Option KeyError
unfolding split_three check_parts
verify_key mac secret agent_id key =
    if is_empty secret
    then some no_secret
    else if is_empty key
    then some no_key
    else elim (split_three key) [
      | none ↦ some bad_format
      | some parts ↦ check_parts mac secret agent_id parts
    ]
