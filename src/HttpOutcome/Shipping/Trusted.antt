-- ===== src/HttpOutcome/Shipping/Trusted.antt =====
-- What is shipped: receipts of trusted files that pass the checks.
use heartpost.Common.{
  ℕ, ◌≡◌, ◌⊎◌, inl, inr, refl, Option, none, some, List, [], ◌∷◌, length, ◌==◌, not, All,
  All-append, All-mono, arith, Option-cases, Bool-cases, if◌then◌else◌,
}
use heartpost.Common.Text.{Text}
use heartpost.Common.Int.{ℤ, pos, ltb_ℤ}
use heartpost.Clock.{Time}
use heartpost.Signature.{Bytes}
use heartpost.Collector.Jsonl.{Files, Ran, ran, failed, run}
use heartpost.Collector.Jsonl.Again.{run-parsed}
use heartpost.HttpOutcome.Receipt.{
  Receipt, Decoder, ReceiptError, Parsed, parsed, has_all, receipt_keys, dropped, judged,
  parse_receipt_line, validate_receipt,
}
use heartpost.HttpOutcome.Paths.{passed, out_of_fuel, refused, PathError}
use heartpost.HttpOutcome.Paths.Ends.{Check-cases}
use heartpost.HttpOutcome.Shipping.{
  World, Codec, Settings, CollectResult, collected, verify_log, receipt_line, template, ship,
  collect_logs, collect, resolve_owners, at_log, skip, dropped_of, default_max_lines,
}

judged_parsed :
    (r s : Receipt) (o : Option ReceiptError) → judged r o ≡ parsed s → (o ≡ none) × (r ≡ s)
judged_parsed r s none e = (refl, ground arith)
judged_parsed r s (some x) e = absurd (ground arith)

module _ (j : Decoder) (parse_time : Text → Option Time) where
  parsed_line-valid :
      (line : Bytes) (r : Receipt)
      → parse_receipt_line j parse_time line ≡ parsed r
      → validate_receipt parse_time r ≡ none
  unfolding parse_receipt_line
  parsed_line-valid line r e = elim (Option-cases (j.keys line)) [
    | inl n ↦ absurd (ground arith)
    | inr (keys, k) ↦ elim (Bool-cases (not (length keys == length receipt_keys))) [
      | inl bad ↦ absurd (ground arith)
      | inr good ↦ elim (Bool-cases (not (has_all receipt_keys keys))) [
        | inl bad ↦ absurd (ground arith)
        | inr all ↦ elim (Option-cases (j.receipt line)) [
          | inl n ↦ absurd (ground arith)
          | inr (s, d) ↦
              let (ok, same) = judged_parsed s r (validate_receipt parse_time s) (ground arith) in
              rw (← same) ok
        ]
      ]
    ]
  ]

receipt_line-valid :
    (w : World) (x : Codec) (line : Bytes) (r : Receipt)
    → receipt_line w x line ≡ some r
    → validate_receipt x.parse_time r ≡ none
unfolding receipt_line
receipt_line-valid w x line r e = go (parse_receipt_line x.decoder x.parse_time line) refl
  where
    go :
        (p : Parsed)
        → parse_receipt_line x.decoder x.parse_time line ≡ p
        → validate_receipt x.parse_time r ≡ none
    go (dropped e') h = absurd (ground arith)
    go (parsed s) h =
        let same : s ≡ r = ground arith in
        rw (← same) (parsed_line-valid x.decoder x.parse_time line s h)

-- One of the logs has that property.
abbrev pub SomeLog : (Text → Type 0) → List Text → Type 0
SomeLog P [] = ⊥
SomeLog P (path ∷ logs) = P path ⊎ SomeLog P logs

-- The receipt passes ValidateReceipt, and one of the logs is trusted under these owners.
abbrev pub IsShipped : World → Codec → List ℕ → List Text → Receipt → Type 0
IsShipped w x owners logs r =
    (validate_receipt x.parse_time r ≡ none)
    × SomeLog (λ path. verify_log w.host owners path ≡ passed) logs

module _ (w : World) (x : Codec) where
  later :
      (owners : List ℕ) (path : Text) (logs : List Text) (rs : List Receipt)
      → All (IsShipped w x owners logs) rs
      → All (IsShipped w x owners (path ∷ logs)) rs
  later owners path logs rs h =
      All-mono (IsShipped w x owners logs) (IsShipped w x owners (path ∷ logs)) rs
        (λ r q. (q.0, inr q.1)) h

  ship-All :
      (P : Receipt → Type 0) (path : Text) (n : ℕ) (m : Ran Receipt) (res : CollectResult)
      → ((vs : List Receipt) → m ≡ ran vs → All P vs)
      → All P res.events
      → All P (ship w x path n m res).events
  unfolding ship
  ship-All P path n (failed e) res k h = h
  ship-All P path n (ran vs) res k h = All-append P vs res.events (k vs refl) h

  run-All :
      (owners : List ℕ) (max_lines : ℤ) (path : Text) (logs : List Text) (f : Files)
      (vs : List Receipt)
      → verify_log w.host owners path ≡ passed
      → (run (template w x) (w.os_of path) max_lines f).1 ≡ ran vs
      → All (IsShipped w x owners (path ∷ logs)) vs
  run-All owners max_lines path logs f vs trusted h =
      All-mono (λ v. (l : Bytes) × (receipt_line w x l ≡ some v))
        (IsShipped w x owners (path ∷ logs)) vs
        (λ r q. (receipt_line-valid w x q.0 r q.1, inl trusted))
        (run-parsed (template w x) (w.os_of path) max_lines f vs h)

  no_owners :
      (max_lines : ℤ) (logs : List Text) (f : Files)
      → (collect_logs w x none max_lines logs f).1.events ≡ []
  unfolding collect_logs
  no_owners max_lines [] f = refl
  no_owners max_lines (path ∷ logs) f = no_owners max_lines logs f

  module _ (owners : List ℕ) (max_lines : ℤ) (path : Text) (logs : List Text) (f : Files) where
    read_log : Ran Receipt
    read_log = (run (template w x) (w.os_of path) max_lines (at_log w x path f)).1

    after_log : Files
    after_log = (run (template w x) (w.os_of path) max_lines (at_log w x path f)).0

    trusted_log :
        verify_log w.host owners path ≡ passed
        → (collect_logs w x (some owners) max_lines (path ∷ logs) f).1
          ≡ ship w x path
              (dropped_of w x (w.os_of path) (w.log_of path) max_lines)
              read_log
              (collect_logs w x (some owners) max_lines logs after_log).1
    unfolding collect_logs read_log after_log
    trusted_log e = ground arith

    refused_log :
        (e : PathError)
        → verify_log w.host owners path ≡ refused e
        → (collect_logs w x (some owners) max_lines (path ∷ logs) f).1.events
          ≡ (collect_logs w x (some owners) max_lines logs f).1.events
    unfolding collect_logs skip
    refused_log e h = ground arith

    unfinished_log :
        verify_log w.host owners path ≡ out_of_fuel
        → (collect_logs w x (some owners) max_lines (path ∷ logs) f).1.events
          ≡ (collect_logs w x (some owners) max_lines logs f).1.events
    unfolding collect_logs skip
    unfinished_log h = ground arith

  logs-All :
      (owners : List ℕ) (max_lines : ℤ) (logs : List Text) (f : Files)
      → All (IsShipped w x owners logs) (collect_logs w x (some owners) max_lines logs f).1.events
  logs-All owners max_lines [] f = unfold collect_logs in tt
  logs-All owners max_lines (path ∷ logs) f =
      let P = IsShipped w x owners (path ∷ logs) in
      let unread = later owners path logs _ (logs-All owners max_lines logs f) in
      let after = after_log owners max_lines path logs f in
      let read = later owners path logs _ (logs-All owners max_lines logs after) in
      elim (Check-cases (verify_log w.host owners path)) [
        | inl e ↦ rw (trusted_log owners max_lines path logs f e) (
            ship-All P path _ (read_log owners max_lines path logs f) _
              (λ vs h.
                run-All owners max_lines path logs (at_log w x path f) vs e (unfold read_log in h))
              read)
        | inr (inl o) ↦ rw (unfinished_log owners max_lines path logs f o) unread
        | inr (inr (e, h)) ↦ rw (refused_log owners max_lines path logs f e h) unread
      ]

  collected_events :
      (s : Settings) (f : Files) (res : CollectResult)
      → (collect w x s f).1 ≡ collected res
      → (res.new_events ≡ length res.events)
        × (res.events
            ≡ (collect_logs w x
                (resolve_owners w s.trusted_owners)
                (if ltb_ℤ (pos 0) s.log_lines then s.log_lines else pos default_max_lines)
                s.logs
                f).1.events)
  unfolding collect
  collected_events s f res h = (ground arith, ground arith)

  -- Every event of a result passes ValidateReceipt, and one of the configured logs is trusted under
  -- the configured owners, all of which were resolved; the result counts its events.
  pub collect-IsShipped :
      (s : Settings) (f : Files) (res : CollectResult)
      → (collect w x s f).1 ≡ collected res
      → (res.new_events ≡ length res.events)
        × All
            (λ r.
              (owners : List ℕ) × (resolve_owners w s.trusted_owners ≡ some owners)
              × IsShipped w x owners s.logs r)
            res.events
  collect-IsShipped s f res h =
      let n = if ltb_ℤ (pos 0) s.log_lines then s.log_lines else pos default_max_lines in
      let (size, same) = collected_events s f res h in
      elim (Option-cases (resolve_owners w s.trusted_owners)) [
        | inl e ↦ (size, rw (same, e, no_owners n s.logs f) tt)
        | inr (owners, e) ↦ (
          size,
          All-mono (IsShipped w x owners s.logs)
              (λ r.
                (os : List ℕ) × (resolve_owners w s.trusted_owners ≡ some os)
                × IsShipped w x os s.logs r)
              res.events (λ r q. (owners, e, q)) (rw (same, e) (logs-All owners n s.logs f)),
        )
      ]
