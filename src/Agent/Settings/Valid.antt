-- ===== src/Agent/Settings/Valid.antt =====
-- What a validated configuration holds.
use heartpost.Common.{
  ◌*◌, ◌≡◌, ◌↔◌, ◌⊎◌, refl, true, false, ◌||◌, not, none, [], ◌∷◌, arith, if◌then◌else◌,
}
use heartpost.Common.Text.{Text, codes, is_empty, text_eq, text_eq_refl}
use heartpost.Common.Int.{ℤ, pos, ltb_ℤ}
use heartpost.Agent.Settings.{
  AgentConfig, validate_config, with_defaults, positive_or, not_empty_or, rental, vps,
}

pub record IsValid (c : AgentConfig) : Type 0 where
  pub has_id : is_empty c.id ≡ false
  pub known_type : (text_eq c.type rental || text_eq c.type vps) ≡ true
  pub has_path : is_empty c.path ≡ false
  pub http_timeout_pos : ltb_ℤ (pos 0) c.http_timeout_sec ≡ true
  pub retry_count_nonneg : ltb_ℤ c.retry_count (pos 0) ≡ false
  pub timeout_pos : ltb_ℤ (pos 0) c.timeout_sec ≡ true
  pub log_max_pos : ltb_ℤ (pos 0) c.log_max_bytes ≡ true
  pub has_key : (is_empty c.endpoint ≡ true) ⊎ (is_empty c.api_key ≡ false)

positive_or_pos : (d v : ℤ) → ltb_ℤ (pos 0) d ≡ true → ltb_ℤ (pos 0) (positive_or d v) ≡ true
positive_or_pos d v h = ground arith

is_empty-not_empty_or : (d v : Text) → is_empty d ≡ false → is_empty (not_empty_or d v) ≡ false
is_empty-not_empty_or d v h = ground arith

type_test :
    (t : Text)
    → (text_eq (not_empty_or rental t) rental || text_eq (not_empty_or rental t) vps)
      ≡ (is_empty t || text_eq t rental || text_eq t vps)
type_test [] = ground (arith, text_eq_refl rental)
type_test (c ∷ t) = refl

-- Validate accepts a configuration exactly when its id is set, its type is unset or known, and its
-- key is set where its endpoint is.
accepted_iff :
    (c : AgentConfig)
    → ((validate_config c).1 ≡ none) ↔ (
        (is_empty c.id ≡ false)
        × ((is_empty c.type || text_eq c.type rental || text_eq c.type vps) ≡ true)
        × ((is_empty c.endpoint || not (is_empty c.api_key)) ≡ true))
unfolding validate_config
accepted_iff c = ground (arith, type_test c.type)

validated :
    (c : AgentConfig) → (validate_config c).1 ≡ none → validate_config c ≡ (with_defaults c, none)
unfolding validate_config
validated c h = ground arith

known_not_empty : (t : Text) → (text_eq t rental || text_eq t vps) ≡ true → is_empty t ≡ false
unfolding text_eq
known_not_empty [] h = absurd (ground arith)
known_not_empty (c ∷ t) h = refl

positive_or-kept : (d v : ℤ) → ltb_ℤ (pos 0) v ≡ true → positive_or d v ≡ v
positive_or-kept d v h = rw h refl

not_empty_or-kept : (d v : Text) → is_empty v ≡ false → not_empty_or d v ≡ v
not_empty_or-kept d v h = rw h refl

nonneg_kept : (v : ℤ) → ltb_ℤ v (pos 0) ≡ false → (if ltb_ℤ v (pos 0) then pos 0 else v) ≡ v
nonneg_kept v h = rw h refl

-- The defaults change nothing in a valid configuration.
with_defaults-kept : (c : AgentConfig) → IsValid c → with_defaults c ≡ c
unfolding with_defaults
with_defaults-kept c v = λ i. record c {
  type = not_empty_or-kept rental c.type (known_not_empty c.type v.known_type) i;
  path = not_empty_or-kept (codes "/api/agent/report") c.path v.has_path i;
  http_timeout_sec = positive_or-kept (pos 10) c.http_timeout_sec v.http_timeout_pos i;
  retry_count = nonneg_kept c.retry_count v.retry_count_nonneg i;
  timeout_sec = positive_or-kept (pos 30) c.timeout_sec v.timeout_pos i;
  log_max_bytes = positive_or-kept (pos (5 * 1024 * 1024)) c.log_max_bytes v.log_max_pos i;
}

with_defaults-IsValid : (c : AgentConfig) → (validate_config c).1 ≡ none → IsValid (with_defaults c)
unfolding with_defaults
with_defaults-IsValid c h =
    let (id, type, key) = (accepted_iff c).0 h in
    record {
      has_id = id;
      known_type = rw (type_test c.type) type;
      has_path = is_empty-not_empty_or _ c.path refl;
      http_timeout_pos = positive_or_pos _ c.http_timeout_sec refl;
      retry_count_nonneg = ground arith;
      timeout_pos = positive_or_pos _ c.timeout_sec refl;
      log_max_pos = positive_or_pos _ c.log_max_bytes refl;
      has_key = ground arith;
    }

-- A configuration that Validate accepts comes out of it valid, and a second Validate neither
-- changes nor refuses it.
pub validate_config-IsValid :
    (c : AgentConfig)
    → (validate_config c).1 ≡ none
    → let c' = (validate_config c).0 in IsValid c' × (validate_config c' ≡ (c', none))
validate_config-IsValid c h =
    let e = validated c h in
    let valid = with_defaults-IsValid c h in
    let again : (validate_config (with_defaults c)).1 ≡ none =
      (accepted_iff (with_defaults c)).1
        (valid.has_id, ground (arith, valid.known_type), ground (arith, valid.has_key)) in
    let kept = with_defaults-kept (with_defaults c) valid in
    let twice = validated (with_defaults c) again in rw e (valid, cc)
