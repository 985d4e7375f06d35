-- ===== src/HttpOutcome/Transport.antt =====
-- httpoutcome/httpoutcome.go: the transport that tags a request with a fresh id and records a
-- receipt of its answer. The round tripper below it, the sink, the random source and the clock's
-- text are what a World gives.
pub mod Recorded
use heartpost.Common.{ℕ, Bool, true, false, Option, none, some, List, [], ◌∷◌, if◌then◌else◌}
use heartpost.Common.Text.{Text, codes, text_eq}
use heartpost.Common.Assoc.{Assoc}
use heartpost.Common.Int.{ℤ}
use heartpost.Signature.{Bytes}
use heartpost.HttpOutcome.Receipt.{
  Receipt, operation_from, new_operation_id, path_hash_of, classify,
}

-- HeaderOperationID, in the canonical form that http.Header keeps.
abbrev pub header_operation_id : Text
header_operation_id = codes "X-Http-Operation-Id"

pub record Request : Type 0 where
  pub context : Option Text
  pub method : Text
  pub escaped_path : Text
  pub headers : Assoc (List Text)

-- Header.Del
unfoldable pub without : Text → Assoc (List Text) → Assoc (List Text)
without k [] = []
without k ((j, vs) ∷ h) = if text_eq j k then without k h else (j, vs) ∷ without k h

-- Del and Set on the clone of a request.
unfoldable pub tagged : Text → Request → Request
unfolding without
tagged id req = record req {
  headers = (header_operation_id, id ∷ []) ∷ without header_operation_id req.headers;
}

-- The status of an answer is `none` where the base fails; a sink says whether it kept a receipt.
pub record World : Type 0 where
  pub base : Request → Option ℤ
  pub sink : Option (Receipt → Bool)
  pub random : Option Bytes
  pub now : Text

pub data TripError : Type 0 where
  no_id not_recorded : TripError

-- What was sent and answered, the receipts that the sink was given, and the errors reported.
pub record Trip : Type 0 where
  pub sent : Request
  pub status : Option ℤ
  pub recorded : List Receipt
  pub reported : List TripError

unfoldable pub receipt_of : (Bytes → Bytes) → World → Text → Text → Request → ℤ → Receipt
receipt_of sha256 w op id req status = record {
  ts = w.now;
  request_id = id;
  method = req.method;
  path_hash = path_hash_of sha256 req.escaped_path;
  status = status;
  operation = op;
  outcome = classify op req.method status;
}

unfoldable pub untagged : World → Request → List TripError → Trip
untagged w req errors = record { sent = req; status = w.base req; recorded = []; reported = errors }

-- After the answer: the receipt, if there is a sink.
unfoldable pub record_trip : (Bytes → Bytes) → World → Text → Text → Request → Request → Trip
unfolding receipt_of
record_trip sha256 w op id req out =
    let silent : Trip = record { sent = out; status = w.base out; recorded = []; reported = [] } in
    elim (w.base out) [
      | none ↦ silent
      | some status ↦ elim w.sink [
        | none ↦ silent
        | some keeps ↦
            let rec = receipt_of sha256 w op id req status in
            record silent {
              recorded = rec ∷ [];
              reported = if keeps rec then [] else not_recorded ∷ [];
            }
      ]
    ]

-- RoundTrip
unfoldable pub round_trip : (Bytes → Bytes) → World → Request → Trip
unfolding untagged record_trip tagged
round_trip sha256 w req = elim (operation_from req.context) [
  | none ↦ untagged w req []
  | some op ↦ elim (new_operation_id w.random) [
    | none ↦ untagged w req (no_id ∷ [])
    | some id ↦ record_trip sha256 w op id req (tagged id req)
  ]
]
