-- ===== src/HttpOutcome/Transport/Recorded.antt =====
-- Which of the transport's receipts a reader accepts.
use heartpost.Common.{
  ℕ, ◌+◌, ◌/◌, ◌%◌, ◌<◌, ◌≡◌, ◌≢◌, ◌↔◌, inl, inr, refl, some_injective, Bool, true, Option, none,
  some, [], ◌∷◌, length, arith, Option-cases, Bool-cases, if◌then◌else◌,
}
use heartpost.Common.Text.{Text, text_eq, text_eq_refl}
use heartpost.Common.Assoc.{lookup}
use heartpost.Common.Int.{ℤ}
use heartpost.Clock.{Time}
use heartpost.Signature.{Bytes, utf8, hex, hex_digit}
use heartpost.License.Base64.Laws.{IsBytes}
use heartpost.HttpOutcome.Receipt.{
  Receipt, is_hex_code, all_hex, is_hex, allowed_operation, allowed_outcome, operation_from,
  new_operation_id, path_hash_of, classify, success, expected, integration_error, other, method_ok,
  in_range, validate_receipt,
}
use heartpost.HttpOutcome.Transport.{
  World, Request, receipt_of, round_trip, record_trip, tagged, header_operation_id, not_recorded,
}

hex_digit-is_hex_code : (n : ℕ) → n < 16 → is_hex_code (hex_digit n) ≡ true
hex_digit-is_hex_code n h = ground arith

all_hex-hex : (b : Bytes) → IsBytes b → all_hex (hex b) ≡ true
unfolding all_hex hex
all_hex-hex [] h = refl
all_hex-hex (b ∷ bs) h =
    rw
      (
        hex_digit-is_hex_code (b / 16) (omega (arith, h.0)),
        hex_digit-is_hex_code (b % 16) (omega arith),
        all_hex-hex bs h.1,
      )
      refl

length-hex : (b : Bytes) → length (hex b) ≡ length b + length b
unfolding hex
length-hex [] = omega arith
length-hex (b ∷ bs) = omega (arith, length-hex bs)

is_hex-hex : (n : ℕ) (b : Bytes) → IsBytes b → length b + length b ≡ n → is_hex n (hex b) ≡ true
unfolding is_hex
is_hex-hex n b h e = ground (arith, length-hex b, all_hex-hex b h)

success-allowed : allowed_outcome success ≡ true
unfolding allowed_outcome text_eq
success-allowed = refl

expected-allowed : allowed_outcome expected ≡ true
unfolding allowed_outcome text_eq
expected-allowed = refl

integration_error-allowed : allowed_outcome integration_error ≡ true
unfolding allowed_outcome text_eq
integration_error-allowed = refl

other-allowed : allowed_outcome other ≡ true
unfolding allowed_outcome text_eq
other-allowed = refl

classify-allowed_outcome :
    (op method : Text) (status : ℤ) → allowed_outcome (classify op method status) ≡ true
unfolding classify
classify-allowed_outcome op method status =
    ground (arith, success-allowed, expected-allowed, integration_error-allowed, other-allowed)

operation_from-allowed :
    (ctx : Option Text) (op : Text) → operation_from ctx ≡ some op → allowed_operation op ≡ true
unfolding operation_from
operation_from-allowed none op e = absurd (ground arith)
operation_from-allowed (some o) op e = elim (Bool-cases (allowed_operation o)) [
  | inl ok ↦ (let same : o ≡ op = ground arith in rw (← same) ok)
  | inr bad ↦ absurd (ground arith)
]

new_operation_id-is_hex :
    (random : Option Bytes) (id : Text)
    → ((b : Bytes) → random ≡ some b → IsBytes b × (length b ≡ 16))
    → new_operation_id random ≡ some id
    → is_hex 32 id ≡ true
unfolding new_operation_id
new_operation_id-is_hex none id k e = absurd (ground arith)
new_operation_id-is_hex (some b) id k e =
    let (bytes, size) = k b refl in
    let same = some_injective (hex b) id e in rw (← same) (is_hex-hex 32 b bytes (omega arith))

lookup-tagged :
    (id : Text) (req : Request)
    → lookup header_operation_id (tagged id req).headers ≡ some (id ∷ [])
unfolding tagged lookup
lookup-tagged id req = ground (arith, text_eq_refl header_operation_id)

module _ (sha256 : Bytes → Bytes) (parse_time : Text → Option Time) (w : World)
    (req : Request) where
  receipt_of_valid :
      (op id : Text) (status : ℤ)
      → parse_time w.now ≢ none
      → is_hex 32 id ≡ true
      → is_hex 64 (path_hash_of sha256 req.escaped_path) ≡ true
      → allowed_operation op ≡ true
      → (validate_receipt parse_time (receipt_of sha256 w op id req status) ≡ none)
        ↔ ((method_ok req.method ≡ true) × (in_range status 100 600 ≡ true))
  unfolding validate_receipt receipt_of
  receipt_of_valid op id status t i p o = elim (Option-cases (parse_time w.now)) [
    | inl e ↦ absurd (t e)
    | inr (time, e) ↦ ground (arith, classify-allowed_outcome op req.method status)
  ]

  made :
      (op id : Text) (status : ℤ) (keeps : Receipt → Bool)
      → operation_from req.context ≡ some op
      → new_operation_id w.random ≡ some id
      → w.base (tagged id req) ≡ some status
      → w.sink ≡ some keeps
      → let rec = receipt_of sha256 w op id req status in
        round_trip sha256 w req ≡ record {
          sent = tagged id req;
          status = some status;
          recorded = rec ∷ [];
          reported = if keeps rec then [] else not_recorded ∷ [];
        }
  unfolding round_trip record_trip
  made op id status keeps o i b k = ground arith

  -- A request with an operation that is answered reaches the base with one operation id, that of
  -- the one receipt which the sink is given, and its status is returned. The receipt passes
  -- ValidateReceipt exactly when the request names a method that is not empty, has no space around
  -- it and at most 32 bytes, and the status is one of 100 to 599; where SHA-256 gives 32 bytes, the
  -- random source 16 and the clock's text reads back.
  pub recorded_valid :
      (op id : Text) (status : ℤ) (keeps : Receipt → Bool)
      → operation_from req.context ≡ some op
      → new_operation_id w.random ≡ some id
      → w.base (tagged id req) ≡ some status
      → w.sink ≡ some keeps
      → ((s : Bytes) → IsBytes (sha256 s) × (length (sha256 s) ≡ 32))
      → ((b : Bytes) → w.random ≡ some b → IsBytes b × (length b ≡ 16))
      → parse_time w.now ≢ none
      → let trip = round_trip sha256 w req in
        let rec = receipt_of sha256 w op id req status in
        (trip.status ≡ some status)
        × (lookup header_operation_id trip.sent.headers ≡ some (id ∷ []))
        × (trip.recorded ≡ rec ∷ [])
        × (rec.request_id ≡ id)
        × ((validate_receipt parse_time rec ≡ none)
            ↔ ((method_ok req.method ≡ true) × (in_range status 100 600 ≡ true)))
  unfolding receipt_of path_hash_of
  recorded_valid op id status keeps o i b k hash draw time =
      let (bytes, size) = hash (utf8 req.escaped_path) in
      rw (made op id status keeps o i b k) (
        refl,
        lookup-tagged id req,
        refl,
        refl,
        receipt_of_valid op id status time (new_operation_id-is_hex w.random id draw i)
            (is_hex-hex 64 (sha256 (utf8 req.escaped_path)) bytes (omega arith))
            (operation_from-allowed req.context op o),
      )
