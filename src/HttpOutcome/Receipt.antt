-- ===== src/HttpOutcome/Receipt.antt =====
-- httpoutcome/httpoutcome.go: the receipt, its outcome, and the checks on one that is read.
use heartpost.Common.{
  ℕ, Bool, true, false, ◌&&◌, ◌||◌, not, Option, none, some, List, [], ◌∷◌, ◌==◌, leb, length,
  if◌then◌else◌,
}
use heartpost.Common.Text.{Text, codes, text_eq, is_empty, trim_space}
use heartpost.Common.Int.{ℤ, pos, ltb_ℤ, eqb_ℤ}
use heartpost.Signature.{Bytes, utf8, hex}
use heartpost.Clock.{Time}

abbrev pub ensure_collection : Text
ensure_collection = codes "ensure_collection"

abbrev pub path_exists : Text
path_exists = codes "path_exists"

abbrev pub fetch_file : Text
fetch_file = codes "fetch_file"

abbrev pub preview_file : Text
preview_file = codes "preview_file"

abbrev pub success : Text
success = codes "success"

abbrev pub expected : Text
expected = codes "expected"

abbrev pub integration_error : Text
integration_error = codes "integration_error"

abbrev pub other : Text
other = codes "other"

unfoldable pub is_one_of : Text → List Text → Bool
is_one_of s [] = false
is_one_of s (t ∷ ts) = text_eq s t || is_one_of s ts

unfoldable pub allowed_operation : Text → Bool
unfolding is_one_of
allowed_operation op =
    is_one_of op (ensure_collection ∷ path_exists ∷ fetch_file ∷ preview_file ∷ [])

unfoldable pub allowed_outcome : Text → Bool
unfolding is_one_of
allowed_outcome o = is_one_of o (success ∷ expected ∷ integration_error ∷ other ∷ [])

-- The operation of a request's context, if it has one: WithOperation and operationFrom.
unfoldable pub with_operation : Option Text → Text → Option Text
unfolding allowed_operation
with_operation ctx op = if not (allowed_operation op) then ctx else some op

unfoldable pub operation_from : Option Text → Option Text
unfolding allowed_operation
operation_from none = none
operation_from (some op) = if not (allowed_operation op) then none else some op

pub record Receipt : Type 0 where
  pub ts : Text
  pub request_id : Text
  pub method : Text
  pub path_hash : Text
  pub status : ℤ
  pub operation : Text
  pub outcome : Text

unfoldable pub in_range : ℤ → ℕ → ℕ → Bool
in_range status low high = not (ltb_ℤ status (pos low)) && ltb_ℤ status (pos high)

-- Classify
unfoldable pub classify : Text → Text → ℤ → Text
unfolding in_range
classify op method status =
    if in_range status 200 300
    then success
    else if text_eq op ensure_collection && text_eq method (codes "MKCOL") && eqb_ℤ status (pos 405)
    then expected
    else if text_eq op path_exists && text_eq method (codes "PROPFIND") && eqb_ℤ status (pos 404)
    then expected
    else if text_eq op fetch_file
        && (text_eq method (codes "GET") || text_eq method (codes "HEAD"))
        && eqb_ℤ status (pos 404)
    then integration_error
    else if text_eq op preview_file && text_eq method (codes "GET") && eqb_ℤ status (pos 404)
    then integration_error
    else other

-- PathHash, over SHA-256.
unfoldable pub path_hash_of : (Bytes → Bytes) → Text → Text
path_hash_of sha256 path = hex (sha256 (utf8 path))

-- NewOperationID, on the bytes that the random source gives.
unfoldable pub new_operation_id : Option Bytes → Option Text
new_operation_id none = none
new_operation_id (some b) = some (hex b)

abbrev pub is_hex_code : ℕ → Bool
is_hex_code c = (leb b'0' c && leb c b'9') || (leb b'a' c && leb c b'f')

unfoldable pub all_hex : Text → Bool
all_hex [] = true
all_hex (c ∷ s) = is_hex_code c && all_hex s

-- reHex32, reHex64: so many lowercase hexadecimal digits.
unfoldable pub is_hex : ℕ → Text → Bool
unfolding all_hex
is_hex n s = (length s == n) && all_hex s

unfoldable pub is_operation_id : Text → Bool
unfolding is_hex
is_operation_id s = is_hex 32 s

pub data ReceiptError : Type 0 where
  not_object wrong_keys wrong_types bad_ts bad_request_id bad_method bad_path_hash bad_status
        bad_operation bad_outcome :
      ReceiptError

unfoldable pub method_ok : Text → Bool
method_ok m = not (is_empty m) && text_eq (trim_space m) m && leb (length (utf8 m)) 32

-- ValidateReceipt; time.Parse of RFC 3339 is a parameter.
unfoldable pub validate_receipt : (Text → Option Time) → Receipt → Option ReceiptError
unfolding is_hex method_ok in_range allowed_operation allowed_outcome
validate_receipt parse_time r = elim (parse_time r.ts) [
  | none ↦ some bad_ts
  | some t ↦
      if not (is_hex 32 r.request_id)
      then some bad_request_id
      else if not (method_ok r.method)
      then some bad_method
      else if not (is_hex 64 r.path_hash)
      then some bad_path_hash
      else if not (in_range r.status 100 600)
      then some bad_status
      else if not (allowed_operation r.operation)
      then some bad_operation
      else if not (allowed_outcome r.outcome)
      then some bad_outcome
      else none
]

abbrev pub receipt_keys : List Text
receipt_keys =
    codes "ts"
    ∷ codes "request_id"
    ∷ codes "method"
    ∷ codes "path_hash"
    ∷ codes "status"
    ∷ codes "operation"
    ∷ codes "outcome"
    ∷ []

unfoldable pub has_all : List Text → List Text → Bool
unfolding is_one_of
has_all [] keys = true
has_all (k ∷ ks) keys = is_one_of k keys && has_all ks keys

-- What encoding/json reads in a line: the keys of an object, each once, and a receipt.
pub record Decoder : Type 0 where
  pub keys : Bytes → Option (List Text)
  pub receipt : Bytes → Option Receipt

pub data Parsed : Type 0 where
  parsed : Receipt → Parsed
  dropped : ReceiptError → Parsed

abbrev pub judged : Receipt → Option ReceiptError → Parsed
judged r none = parsed r
judged r (some e) = dropped e

-- ParseReceiptLine
unfoldable pub parse_receipt_line : Decoder → (Text → Option Time) → Bytes → Parsed
unfolding has_all validate_receipt
parse_receipt_line j parse_time line = elim (j.keys line) [
  | none ↦ dropped not_object
  | some keys ↦
      if not (length keys == length receipt_keys)
      then dropped wrong_keys
      else if not (has_all receipt_keys keys)
      then dropped wrong_keys
      else elim (j.receipt line) [
        | none ↦ dropped wrong_types
        | some r ↦ judged r (validate_receipt parse_time r)
      ]
]
