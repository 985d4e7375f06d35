-- ===== src/Receiver/Dashboard/Access.antt =====
-- Who sees anything of the dashboard.
use heartpost.Common.{◌≡◌, ◌≢◌, ◌↔◌, inl, inr, true, false, Option, none, some, arith, Bool-cases}
use heartpost.Common.Text.{Text, text_eq_iff, is_empty}
use heartpost.Clock.{Time}
use heartpost.Receiver.Liveness.{Thresholds}
use heartpost.Receiver.Store.{Store}
use heartpost.Receiver.Dashboard.{BasicAuth, check_auth, unauthorized, serve_dashboard}

check_auth_iff :
    (auth : BasicAuth) (credentials : Option (Text × Text))
    → is_empty auth.user ≡ false
    → (check_auth auth credentials ≡ true) ↔ (credentials ≡ some (auth.user, auth.password))
unfolding check_auth
check_auth_iff auth none on = (λ h. absurd (ground arith), λ h. absurd (ground arith))
check_auth_iff auth (some (user, password)) on = (
  λ h.
      (let u : user ≡ auth.user = ground (arith, text_eq_iff user auth.user) in
        let p : password ≡ auth.password = ground (arith, text_eq_iff password auth.password) in
        λ i. some (u i, p i)),
  λ h.
      (let u : user ≡ auth.user = ground arith in
        let p : password ≡ auth.password = ground arith in
        ground (arith, text_eq_iff user auth.user, text_eq_iff password auth.password)),
)

-- With a user set, a request gets anything but a refusal exactly with that user and its password,
-- whatever the path and the store.
pub served_iff :
    {D : Type 0} (auth : BasicAuth) (ths : Thresholds) (now : Time) (s : Store D)
    (credentials : Option (Text × Text)) (path : Text)
    → is_empty auth.user ≡ false
    → (serve_dashboard auth ths now s credentials path ≢ unauthorized)
      ↔ (credentials ≡ some (auth.user, auth.password))
unfolding serve_dashboard
served_iff auth ths now s credentials path on = elim (Bool-cases (check_auth auth credentials)) [
  | inl ok ↦ (λ h. (check_auth_iff auth credentials on).0 ok, λ h e. ground arith)
  | inr bad ↦ (
    λ h. absurd (h (ground arith)),
    λ h. absurd (ground (arith, (check_auth_iff auth credentials on).1 h)),
  )
]
