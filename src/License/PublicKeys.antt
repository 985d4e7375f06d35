-- ===== src/License/PublicKeys.antt =====
-- agentlicense/keys.go: the public keys of a verifier, "k1=<base64>,k2=<base64>". The two decodings
-- of encoding/base64 that it tries are parameters.
use heartpost.Common.{ℕ, Option, none, some, List, [], ◌∷◌, length, ◌==◌, if◌then◌else◌}
use heartpost.Common.Text.{Text, is_empty, trim_space}
use heartpost.Common.Assoc.{Assoc, lookup, insert}
use heartpost.Signature.{Bytes}
use heartpost.License.Jwt.{split_at}

pub record Decoders : Type 0 where
  pub std : Text → Option Bytes
  pub raw_std : Text → Option Bytes

-- ed25519.PublicKeySize, ed25519.PrivateKeySize
abbrev public_key_size : ℕ
public_key_size = 32

abbrev private_key_size : ℕ
private_key_size = 64

-- The text before and after the first character of that kind.
unfoldable pub cut_at : ℕ → Text → Option (Text × Text)
cut_at d [] = none
cut_at d (c ∷ s) =
    if c == d
    then some ([], s)
    else elim (cut_at d s) [ none ↦ none | some (a, b) ↦ some (c ∷ a, b) ]

unfoldable pub decode_key : Decoders → ℕ → Text → Option Bytes
decode_key ds size text =
    let checked : Bytes → Option Bytes = λ b. if length b == size then some b else none in
    elim (ds.std text) [
      | some b ↦ checked b
      | none ↦ elim (ds.raw_std text) [ none ↦ none | some b ↦ checked b ]
    ]

unfoldable pub parse_entry : Decoders → Text → Option (Text × Bytes)
unfolding cut_at decode_key
parse_entry ds entry = elim (cut_at b'=' entry) [
  | none ↦ none
  | some (kid, text) ↦
      if is_empty kid
      then none
      else elim (decode_key ds public_key_size text) [ none ↦ none | some key ↦ some (kid, key) ]
]

-- The loop over the entries.
unfoldable pub parse_entries : Decoders → List Text → Assoc Bytes → Option (Assoc Bytes)
unfolding parse_entry
parse_entries ds [] keys = some keys
parse_entries ds (e ∷ es) keys =
    let entry = trim_space e in
    let skipped = parse_entries ds es keys in
    let more : Text × Bytes → Option (Assoc Bytes) =
      λ found. parse_entries ds es (insert found.0 found.1 keys) in
    if is_empty entry
    then skipped
    else elim (parse_entry ds entry) [ none ↦ none | some found ↦ more found ]

-- ParseVendorPublicKeys
unfoldable pub parse_public_keys : Decoders → Text → Option (Assoc Bytes)
unfolding parse_entries
parse_public_keys ds text =
    if is_empty text then some [] else parse_entries ds (split_at b',' text) []

-- VendorPublicKeyResolver, where the keys parse.
unfoldable pub resolver_of : Assoc Bytes → Text → Option Bytes
resolver_of keys kid = lookup kid keys

-- ParsePrivateKey, ParsePublicKey
unfoldable pub parse_private_key : Decoders → Text → Option Bytes
parse_private_key ds text = decode_key ds private_key_size text

unfoldable pub parse_public_key : Decoders → Text → Option Bytes
parse_public_key ds text = decode_key ds public_key_size text
