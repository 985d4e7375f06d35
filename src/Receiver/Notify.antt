-- ===== src/Receiver/Notify.antt =====
-- core/notify/webhook.go: the event of a transition, its text, and the ways out: one webhook,
-- several notifiers, none.
use heartpost.Common.{
  ℕ, zero, suc, ◌+◌, ◌-◌, ◌/◌, ◌%◌, Bool, ◌&&◌, Option, none, some, List, [], ◌∷◌, ◌++◌, ltb, leb,
  ◌==◌, if◌then◌else◌,
}
use heartpost.Common.Text.{Text, codes, is_empty, trim_space}
use heartpost.Common.Assoc.{Assoc, insert}
use heartpost.Common.Int.{ℤ, pos, negsuc, max_int64}
use heartpost.Common.Decimal.{print_ℕ}
use heartpost.Clock.{Time, Duration, second}
use mathlib.Core.List.{reverse}

pub data Kind : Type 0 where
  down recovered : Kind

pub record Event : Type 0 where
  pub kind : Kind
  pub agent_id : Text
  pub agent_label : Text
  pub last_seen : Time
  pub silence_seconds : ℤ
  pub threshold_seconds : ℤ
  pub occurred_at : Time
  pub text : Text

-- Why a notifier failed. An error is the list of its causes; nil is the empty list.
pub data Cause : Type 0 where
  url_empty marshal_failed request_failed post_failed : Cause
  unexpected_status : ℕ → Cause

-- The Notify method of a notifier, at the time of one check.
abbrev pub Notifier : Type 0
Notifier = Event → List Cause

-- A negative duration is 0; any other is rounded to whole seconds, half up, and a sum past the
-- largest duration gives that one.
unfoldable pub round_dur : Duration → ℕ
round_dur (negsuc n) = 0
round_dur (pos n) =
    let r = n % second in
    let up = n + (second - r) in
    if ltb (r + r) second then n - r else if ltb max_int64 up then max_int64 else up

trim_zeros : Text → Text
trim_zeros [] = []
trim_zeros (c ∷ s) = if c == b'0' then trim_zeros s else c ∷ s

-- So many digits of `n`, the last first.
low_digits : ℕ → ℕ → Text
low_digits zero n = []
low_digits (suc k) n = (b'0' + n % 10) ∷ low_digits k (n / 10)

fraction : ℕ → Text
unfolding trim_zeros low_digits
fraction n = if n == 0 then [] else b'.' ∷ reverse (trim_zeros (low_digits 9 n))

-- Duration.String of a duration that is 0 or at least a second, as rounded durations are.
unfoldable pub duration_text : ℕ → Text
unfolding fraction
duration_text n =
    let s = n / second in
    let in_minute = print_ℕ (s % 60) ++ (fraction (n % second) ++ codes "s") in
    let minutes = print_ℕ (s / 60 % 60) ++ (codes "m" ++ in_minute) in
    if ltb s 60
    then in_minute
    else if ltb s 3600
    then minutes
    else print_ℕ (s / 3600) ++ (codes "h" ++ minutes)

unfoldable pub format_text : Kind → Text → Duration → Duration → Text
unfolding round_dur duration_text
format_text recovered label silence threshold = codes "[復帰] " ++ (label ++ codes " からレポートが再開しました")
format_text down label silence threshold =
    codes "[欠報] "
    ++ (label
        ++ (codes " から "
            ++ (duration_text (round_dur silence)
                ++ (codes " レポートが届いていません（しきい値 "
                    ++ (duration_text (round_dur threshold) ++ codes "）")))))

pub record Webhook : Type 0 where
  pub url : Text
  pub header : Assoc Text

pub record Request : Type 0 where
  pub url : Text
  pub header : Assoc Text
  pub body : List ℕ

-- encoding/json and net/http: `none` is an error; an answer has a status.
pub record Http : Type 0 where
  pub marshal : Event → Option (List ℕ)
  pub request_ok : Text → Bool
  pub send : Request → Option ℕ

set_headers : Assoc Text → Assoc Text → Assoc Text
set_headers [] header = header
set_headers ((k, v) ∷ more) header = set_headers more (insert k v header)

unfoldable pub check_status : Option ℕ → List Cause
check_status none = post_failed ∷ []
check_status (some status) =
    if leb 200 status && leb status 299 then [] else unexpected_status status ∷ []

-- Webhook.Notify of a webhook that is not nil.
unfoldable pub webhook_notify : Http → Webhook → Notifier
unfolding set_headers check_status
webhook_notify http w ev =
    if is_empty (trim_space w.url) then url_empty ∷ [] else elim (http.marshal ev) [
      | none ↦ marshal_failed ∷ []
      | some body ↦
          if http.request_ok w.url
          then check_status (
              http.send (record {
                url = w.url;
                header =
                    set_headers w.header
                      (insert (codes "Content-Type") (codes "application/json") []);
                body = body;
              }))
          else request_failed ∷ []
    ]

-- Multi.Notify: every notifier that is not nil gets the event; their errors are joined.
unfoldable pub multi_notify : List (Option Notifier) → Notifier
multi_notify [] ev = []
multi_notify (none ∷ ns) ev = multi_notify ns ev
multi_notify (some n ∷ ns) ev = n ev ++ multi_notify ns ev

-- Discard.Notify
unfoldable pub discard_notify : Notifier
discard_notify ev = []
