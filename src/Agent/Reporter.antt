-- ===== src/Agent/Reporter.antt =====
-- agent/reporter.go: the delivery of a report to its targets.
pub mod Attempts
pub mod Delivery
use heartpost.Common.{
  ℕ, zero, suc, ◌+◌, Bool, true, false, ◌&&◌, ◌||◌, not, Option, none, some, List, [], ◌∷◌, ◌++◌,
  map, ltb, leb, ◌==◌, if◌then◌else◌,
}
use heartpost.Common.Text.{Text, codes, is_empty}
use heartpost.Common.Int.{ℤ, pos, negsuc, ltb_ℤ, pos_part}
use heartpost.Common.Decimal.{print_ℤ}
use heartpost.Clock.{Time, Duration, unix}
use heartpost.Signature.{Bytes, Mac, compute}
use heartpost.FilePath.{slash}

pub record Target : Type 0 where
  pub name : Text
  pub endpoint : Text
  pub path : Text
  pub api_key : Text
  pub timeout : Duration
  pub retry_count : ℤ
  pub trim_endpoint : Bool
  pub stop_on_cancel : Bool

pub data SendError : Type 0 where
  invalid_target canceled build_request http_post : SendError
  http_status : ℕ → SendError

-- What one attempt meets: whether the context is canceled, the clock, whether the request can be
-- built, and the status of the answer, if one comes.
pub record Attempt : Type 0 where
  pub canceled : Bool
  pub now : Time
  pub built : Bool
  pub status : Option ℕ

pub record Post : Type 0 where
  pub url : Text
  pub agent_id : Text
  pub timestamp : Text
  pub signature : Text
  pub authorization : Option Text
  pub body : Bytes

-- strings.TrimSuffix(s, "/")
unfoldable pub trim_slash : Text → Text
trim_slash [] = []
trim_slash (c ∷ []) = if c == slash then [] else c ∷ []
trim_slash (c ∷ d ∷ s) = c ∷ trim_slash (d ∷ s)

unfoldable pub target_url : Target → Text
unfolding trim_slash
target_url t = (if t.trim_endpoint then trim_slash t.endpoint else t.endpoint) ++ t.path

abbrev pub is_success : ℕ → Bool
is_success status = leb 200 status && ltb status 300

-- The error of an answer, if it is one.
abbrev pub outcome : Option ℕ → Option SendError
outcome none = some http_post
outcome (some status) = if is_success status then none else some (http_status status)

abbrev pub or_canceled : Option SendError → Option SendError
or_canceled none = some canceled
or_canceled (some e) = some e

module _ (mac : Mac) (t : Target) (body : Bytes) (agent_id token : Text) where
  -- The request of one attempt, signed for its own second.
  unfoldable pub post_of : Attempt → Post
  post_of a =
      let ts = print_ℤ (unix a.now) in
      record {
        url = target_url t;
        agent_id = agent_id;
        timestamp = ts;
        signature = compute mac t.api_key ts body;
        authorization = if is_empty token then none else some (codes "Bearer " ++ token);
        body = body;
      }

  module _ (meets : ℕ → Attempt) where
    -- The loop over the attempts: the error, and the requests that were sent.
    unfoldable pub attempts : ℕ → ℕ → Option SendError → Option SendError × List Post
    attempts zero attempt last = (last, [])
    attempts (suc left) attempt last =
        let a = meets attempt in
        let result = outcome a.status in
        let rest = attempts left (suc attempt) result in
        if t.stop_on_cancel && a.canceled
        then (or_canceled last, [])
        else if not a.built
        then (some build_request, [])
        else elim result [ none ↦ (none, post_of a ∷ []) | some e ↦ (rest.0, post_of a ∷ rest.1) ]

    unfoldable pub send_one : Option SendError × List Post
    send_one =
        if ltb_ℤ t.retry_count (pos 0) || ltb_ℤ t.timeout (pos 0)
        then (some invalid_target, [])
        else attempts (suc (pos_part t.retry_count)) 0 none

pub record TargetResult : Type 0 where
  pub name : Text
  pub err : Option SendError

-- SendReports: the targets are served concurrently, and each has its result at its own place. What
-- a delivery meets is told by the name of its target, which New keeps distinct.
unfoldable pub send_reports :
    Mac → List Target → Bytes → Text → Text → (Text → ℕ → Attempt) → List TargetResult
send_reports mac [] body id token meets = []
send_reports mac (t ∷ ts) body id token meets =
    record { name = t.name; err = (send_one mac t body id token (meets t.name)).0 }
    ∷ send_reports mac ts body id token meets
