-- ===== src/Agent/Config/Starts.antt =====
-- A configuration that loads is one that a runner starts with.
use native.Mathlib.Nat.{mod-eq_of_lt}
use heartpost.Common.{
  ℕ, zero, suc, ◌*◌, ◌%◌, ◌^◌, ◌≢◌, map, ◌≤◌, ◌≡◌, ◌⊎◌, inl, inr, refl, ap, ◌∙◌, Bool, true, false,
  Option, none, some, [], ◌∷◌, arith, ◌==◌, ==_iff, Option-cases, Bool-cases, if◌then◌else◌,
}
use heartpost.Common.Text.{Text, codes, text_eq, text_eq_iff, text_eq_sound, is_empty}
use heartpost.Common.Int.{ℤ, pos, negsuc, ltb_ℤ, pos_part, max_int64, wrap_int64, of_bits}
use heartpost.FilePath.{dir_of}
use heartpost.Clock.{Duration, second, minute}
use heartpost.Agent.Settings.{AgentConfig, ConfigError, vps, validate_config, check_secrets_perm}
use heartpost.Agent.Settings.Valid.{IsValid, validate_config-IsValid}
use heartpost.Agent.Cycle.{
  Options, new, valid_tasks, valid_targets, with_timeouts, has_name, is_zero,
}
use heartpost.Agent.Cycle.New.{new-passes, passes, filled, interval_or_default}
use heartpost.Agent.Reporter.{Target}
use heartpost.Agent.Config.{
  Disk, Loaded, loaded, not_loaded, checked, no_config, merge_secrets, secrets_exposed, secret_path,
  after_check, with_secrets, decode_config, validated, validate_loaded, load_config, rental_names,
  vps_names, default_collectors, config_task, config_tasks, seconds, target_from_config,
  options_from_config,
}

-- The seconds fit in 64 bits as nanoseconds.
abbrev pub FitsInt64 : ℤ → Type 0
FitsInt64 n = pos_part n * second ≤ max_int64

seconds_pos : (n : ℤ) → ltb_ℤ (pos 0) n ≡ true → FitsInt64 n → ltb_ℤ (pos 0) (seconds n) ≡ true
unfolding seconds wrap_int64 of_bits
seconds_pos (pos n) h f =
    let small : n * second % 2 ^ 64 ≡ n * second = mod-eq_of_lt (omega arith) in
    ground (arith, small)
seconds_pos (negsuc n) h f = absurd (ground arith)

vps_valid : valid_tasks [] (map config_task vps_names) ≡ true
unfolding valid_tasks has_name text_eq
vps_valid = refl

rental_valid : valid_tasks [] (map config_task rental_names) ≡ true
unfolding valid_tasks has_name text_eq
rental_valid = refl

either_valid :
    (b : Bool) → valid_tasks [] (map config_task (if b then vps_names else rental_names)) ≡ true
either_valid true = vps_valid
either_valid false = rental_valid

tasks-valid : (c : AgentConfig) → valid_tasks [] (config_tasks c) ≡ true
unfolding config_tasks default_collectors
tasks-valid c = either_valid (text_eq c.type vps)

not_zero : (d : Duration) → ltb_ℤ (pos 0) d ≡ true → (is_zero d ≡ false) × (ltb_ℤ d (pos 0) ≡ false)
not_zero (pos zero) h = absurd (ground arith)
not_zero (pos (suc n)) h = (refl, ground arith)
not_zero (negsuc n) h = absurd (ground arith)

one_target :
    (t : Target)
    → is_empty t.name ≡ false
    → ltb_ℤ t.retry_count (pos 0) ≡ false
    → ltb_ℤ (pos 0) t.timeout ≡ true
    → (valid_targets [] (t ∷ []) ≡ true) × (with_timeouts (t ∷ []) ≡ t ∷ [])
unfolding valid_targets with_timeouts has_name
one_target t named retries timed =
    let (nonzero, nonneg) = not_zero t.timeout timed in (ground arith, rw nonzero refl)

-- A single target that can be sent to is all that New asks of the targets.
new_single :
    (o : Options) (t : Target)
    → o.targets ≡ t ∷ []
    → is_empty o.id ≡ false
    → valid_tasks [] o.tasks ≡ true
    → valid_targets [] (t ∷ []) ≡ true
    → with_timeouts (t ∷ []) ≡ t ∷ []
    → o.unknown_interval ≡ pos 0
    → new o ≡ some (record o { unknown_interval = pos (5 * minute) })
new_single o t targets id tasks valid kept interval =
    let same : with_timeouts o.targets ≡ o.targets = rw targets kept in
    let passing : passes o ≡ true = ground (arith, targets, valid) in
    let full : filled o ≡ record o { unknown_interval = pos (5 * minute) } =
      λ i. record o { targets = same i; unknown_interval = ap interval_or_default interval i } in
    new-passes o ∙ rw passing (ap some full)

-- The mode of a secrets file is closed to the group and others, or it is on Windows, where it counts
-- for nothing and the configuration comes with a warning; there is no warning elsewhere.
abbrev pub IsJudged : ℕ → Text → Bool → Type 0
IsJudged mode goos is_warned =
    ((goos ≡ codes "windows") × (is_warned ≡ true))
    ⊎ ((goos ≢ codes "windows") × (mode % 64 ≡ 0) × (is_warned ≡ false))

-- There is no secrets file beside the configuration, and no warning, or its mode is judged.
abbrev pub SecretsAreJudged : Disk → Text → Bool → Type 0
SecretsAreJudged d path is_warned =
    ((d.mode_of (secret_path path checked) ≡ none) × (is_warned ≡ false))
    ⊎ ((mode : ℕ) × (d.mode_of (secret_path path checked) ≡ some mode)
        × IsJudged mode d.goos is_warned)

merge_secrets-flag :
    (d : Disk) (secret : Text) (b b' : Bool) (c c' : AgentConfig)
    → merge_secrets d secret b c ≡ loaded c' b'
    → b' ≡ b
unfolding merge_secrets
merge_secrets-flag d secret b b' c c' h = elim (Option-cases (d.decode_file secret c)) [
  | inl n ↦ absurd (ground arith)
  | inr (c1, e) ↦ ground arith
]

after_check-IsJudged :
    (d : Disk) (secret : Text) (mode : ℕ) (goos : Text) (c c' : AgentConfig) (b : Bool)
    → after_check d secret (check_secrets_perm mode goos) c ≡ loaded c' b
    → IsJudged mode goos b
unfolding after_check check_secrets_perm
after_check-IsJudged d secret mode goos c c' b h =
    elim (Bool-cases (text_eq goos (codes "windows"))) [
      | inl win ↦
          let merged : merge_secrets d secret true c ≡ loaded c' b = rw win at h in
          inl (
            text_eq_sound goos (codes "windows") win,
            merge_secrets-flag d secret true b c c' merged,
          )
      | inr other ↦ elim (Bool-cases (mode % 64 == 0)) [
        | inr bits ↦
            let never : not_loaded secrets_exposed ≡ loaded c' b = rw (other, bits) at h in
            absurd (ground arith)
        | inl closed ↦
            let merged : merge_secrets d secret false c ≡ loaded c' b = rw (other, closed) at h in
            inr (
              λ e. absurd (ground (arith, (text_eq_iff goos (codes "windows")).1 e)),
              (==_iff (mode % 64) 0).0 closed,
              merge_secrets-flag d secret false b c c' merged,
            )
      ]
    ]

with_secrets-IsJudged :
    (d : Disk) (secret : Text) (c c' : AgentConfig) (b : Bool)
    → with_secrets d secret checked c ≡ loaded c' b
    → ((d.mode_of secret ≡ none) × (b ≡ false))
      ⊎ ((mode : ℕ) × (d.mode_of secret ≡ some mode) × IsJudged mode d.goos b)
unfolding with_secrets
with_secrets-IsJudged d secret c c' b h = elim (Option-cases (d.mode_of secret)) [
  | inl n ↦
      let plain : loaded c false ≡ loaded c' b = rw (n, with_secrets) at h in inl (n, ground arith)
  | inr (mode, e) ↦
      let judged : after_check d secret (check_secrets_perm mode d.goos) c ≡ loaded c' b =
        rw (e, with_secrets) at h in
      inr (mode, e, after_check-IsJudged d secret mode d.goos c c' b judged)
]

decode_config-SecretsAreJudged :
    (d : Disk) (path : Text) (c c' : AgentConfig) (b : Bool)
    → decode_config d path checked c ≡ loaded c' b
    → SecretsAreJudged d path b
unfolding decode_config
decode_config-SecretsAreJudged d path c c' b h = elim (Option-cases (d.decode_file path c)) [
  | inl n ↦ absurd (ground arith)
  | inr (c1, e) ↦
      with_secrets-IsJudged d (secret_path path checked) c1 c' b (rw (e, decode_config) at h)
]

validated-loaded :
    (b b' : Bool) (r : AgentConfig × Option ConfigError) (c : AgentConfig)
    → validated b r ≡ loaded c b'
    → (r ≡ (c, none)) × (b ≡ b')
unfolding validated
validated-loaded b b' (c', none) c h = ground arith
validated-loaded b b' (c', some e) c h = absurd (ground arith)

validate_loaded-cases :
    (path : Text) (l : Loaded) (c : AgentConfig) (b : Bool)
    → validate_loaded path l ≡ loaded c b
    → ((c1 : AgentConfig) × (l ≡ loaded c1 b))
      × ((c2 : AgentConfig) × (validate_config c2 ≡ (c, none)))
unfolding validate_loaded
validate_loaded-cases path (not_loaded e) c b h = absurd (ground arith)
validate_loaded-cases path (loaded c1 b1) c b h =
    let c2 : AgentConfig = record c1 { config_dir = dir_of path } in
    let (ok, flag) = validated-loaded b1 b (validate_config c2) c h in
    ((c1, ap (loaded c1) flag), (c2, ok))

-- A configuration that LoadConfig accepts is valid, and was judged by its secrets file: there is
-- none; or the file's mode gives nothing to the group and others; or the system is Windows, where
-- any mode passes, and there, and only there, the configuration comes with a warning. Where its HTTP
-- timeout fits in 64 bits, New accepts the options made of it as they are, but for the interval that
-- it fills in.
pub loaded_config_starts :
    (d : Disk) (path : Text) (c : AgentConfig) (is_warned : Bool)
    → load_config d path ≡ loaded c is_warned
    → FitsInt64 c.http_timeout_sec
    → SecretsAreJudged d path is_warned
      × IsValid c
      × (new (options_from_config c)
          ≡ some (record (options_from_config c) { unknown_interval = pos (5 * minute) }))
unfolding load_config options_from_config target_from_config
loaded_config_starts d path c is_warned h fits =
    let ((c1, e1), (c2, e2)) =
      validate_loaded-cases path (decode_config d path checked no_config) c is_warned h in
    let valid : IsValid c = rw e2 at (validate_config-IsValid c2 (rw e2 refl)).0 in
    let t = target_from_config c in
    let (targets, kept) =
      one_target t refl valid.retry_count_nonneg
        (seconds_pos c.http_timeout_sec valid.http_timeout_pos fits) in
    (
      decode_config-SecretsAreJudged d path no_config c1 is_warned e1,
      valid,
      new_single (options_from_config c) t refl valid.has_id (tasks-valid c) targets kept refl,
    )
