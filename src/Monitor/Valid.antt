-- ===== src/Monitor/Valid.antt =====
-- What a loaded configuration holds.
use heartpost.Common.{
  ◌*◌, ◌≡◌, inl, inr, refl, true, false, ◌||◌, not, some, [], ◌∷◌, arith, if◌then◌else◌, Bool-cases,
  Option-cases,
}
use heartpost.Common.Text.{Text, codes, is_empty, trim_space, text_eq_iff}
use heartpost.Common.Assoc.{Assoc, lookup, insert, lookup-insert}
use heartpost.Common.Int.{pos, ltb_ℤ}
use mathlib.Core.Path.{subst}
use heartpost.Monitor.Steps.{bind_inv, require_inv, bind_then, require_then, loaded_injective}
use heartpost.Clock.{Duration, second, minute}
use heartpost.Receiver.AgentId.{valid_agent_id}
use heartpost.Monitor.{
  Override, FileConfig, Config, Auth, loaded, Reader, parse_duration, load_location,
  default_threshold, load_keys, load_override, load_agents, load_auth, load_config, load, is_some,
  no_entries, get, not_read, not_toml, no_agent_keys, no_webhook,
}

abbrev IsPositive : Duration → Type 0
IsPositive d = ltb_ℤ (pos 0) d ≡ true

-- Every key stands under a valid id and is not blank.
abbrev pub Keyed : Assoc Text → Type 0
Keyed keys =
    (id key : Text)
    → lookup id keys ≡ some key
    → (valid_agent_id id ≡ true) × (is_empty (trim_space key) ≡ false)

pub record IsValid (c : Config) : Type 0 where
  pub skew_pos : ltb_ℤ (pos 0) c.timestamp_skew ≡ true
  pub check_pos : ltb_ℤ (pos 0) c.check_interval ≡ true
  pub timeout_pos : ltb_ℤ (pos 0) c.notify_timeout ≡ true
  pub keyed : Keyed c.agent_keys
  pub some_agent : no_entries c.agent_keys ≡ false
  pub overrides_keyed :
      (id : Text) (d : Duration)
      → lookup id c.thresholds.per_agent ≡ some d
      → is_some (lookup id c.agent_keys) ≡ true
  pub labels_keyed :
      (id label : Text)
      → lookup id c.agent_labels ≡ some label
      → is_some (lookup id c.agent_keys) ≡ true
  pub protected : (is_empty c.auth.user || not (is_empty c.auth.password)) ≡ true
  pub notifies : (not (is_empty c.webhook_url) || c.notify_disabled) ≡ true

parse_duration_pos :
    (r : Reader) (key raw : Text) (default d : Duration)
    → IsPositive default
    → parse_duration r key raw default ≡ loaded d
    → IsPositive d
unfolding parse_duration
parse_duration_pos r key raw default d p h = elim (Bool-cases (is_empty (trim_space raw))) [
  | inl e ↦ ground arith
  | inr e ↦ elim (Option-cases (r.parse_duration (trim_space raw))) [
    | inl n ↦ absurd (ground arith)
    | inr (d', s) ↦ elim (Bool-cases (ltb_ℤ (pos 0) d')) [
      | inl q ↦ ground arith
      | inr q ↦ absurd (ground arith)
    ]
  ]
]

insert-Keyed :
    (id key : Text) (keys : Assoc Text)
    → Keyed keys
    → valid_agent_id id ≡ true
    → is_empty (trim_space key) ≡ false
    → Keyed (insert id key keys)
insert-Keyed id key keys w v e =
    λ j k h. ground (arith, lookup-insert id j key keys, text_eq_iff id j, w j k)

load_keys-Keyed :
    (file keys out : Assoc Text) → Keyed keys → load_keys file keys ≡ loaded out → Keyed out
unfolding load_keys
load_keys-Keyed [] keys out w h = let e : out ≡ keys = ground arith in rw e w
load_keys-Keyed ((id, key) ∷ rest) keys out w h = elim (Bool-cases (valid_agent_id id)) [
  | inr bad ↦ absurd (ground arith)
  | inl v ↦ elim (Bool-cases (is_empty (trim_space key))) [
    | inl bad ↦ absurd (ground arith)
    | inr e ↦
        load_keys-Keyed rest (insert id key keys) out (insert-Keyed id key keys w v e)
          (ground arith)
  ]
]

-- Every entry stands under an id that has a key.
abbrev pub Known {ℓ} : {V : Type ℓ} → Assoc Text → Assoc V → Type ℓ
Known {V = V} keys m = (id : Text) (v : V) → lookup id m ≡ some v → is_some (lookup id keys) ≡ true

insert-Known :
    {V : Type 0} (keys : Assoc Text) (id : Text) (v : V) (m : Assoc V)
    → Known keys m
    → is_some (lookup id keys) ≡ true
    → Known keys (insert id v m)
insert-Known keys id v m w k =
    λ j u h. ground (arith, lookup-insert id j v m, text_eq_iff id j, w j u)

load_override-Known :
    (r : Reader) (keys : Assoc Text) (id : Text) (ov : Override) (ths out : Assoc Duration)
    → Known keys ths
    → is_some (lookup id keys) ≡ true
    → load_override r keys id ov ths ≡ loaded out
    → Known keys out
unfolding load_override
load_override-Known r keys id ov ths out w k h = elim (Bool-cases (is_empty ov.down_threshold)) [
  | inl e ↦ (let same : out ≡ ths = ground arith in rw same w)
  | inr e ↦
      let (d, parsed, rest) =
        bind_inv (parse_duration r (codes "agents.down_threshold") ov.down_threshold (pos 0))
          (λ d. loaded (insert id d ths)) out (ground arith) in
      let same : out ≡ insert id d ths = ground arith in rw same (insert-Known keys id d ths w k)
]

load_agents-Known :
    (r : Reader) (keys : Assoc Text) (agents : Assoc Override) (labels : Assoc Text)
    (ths : Assoc Duration) (out : Assoc Text × Assoc Duration)
    → Known keys labels
    → Known keys ths
    → load_agents r keys agents labels ths ≡ loaded out
    → Known keys out.0 × Known keys out.1
unfolding load_agents
load_agents-Known r keys [] labels ths out w v h =
    let same : out ≡ (labels, ths) = ground arith in rw same (w, v)
load_agents-Known r keys ((id, ov) ∷ rest) labels ths out w v h =
    let (valid, h1) = require_inv _ _ _ out h in
    let (known, h2) = require_inv _ _ _ out h1 in
    let (ths', overridden, h3) = bind_inv (load_override r keys id ov ths) _ out h2 in
    let labels' = if is_empty ov.label then labels else insert id ov.label labels in
    let w' : Known keys labels' = elim (Bool-cases (is_empty ov.label)) [
      | inl e ↦ rw e w
      | inr e ↦ rw e (insert-Known keys id ov.label labels w known)
    ] in
    load_agents-Known r keys rest labels' ths' out w'
      (load_override-Known r keys id ov ths ths' v known overridden) h3

load_auth-protected :
    (f : FileConfig) (a : Auth)
    → load_auth f ≡ loaded a
    → (is_empty a.user || not (is_empty a.password)) ≡ true
unfolding load_auth
load_auth-protected f a h = elim (Bool-cases (is_empty f.user)) [
  | inl e ↦ ground arith
  | inr e ↦ elim (Bool-cases (is_empty f.password)) [
    | inl q ↦ absurd (ground arith)
    | inr q ↦ ground arith
  ]
]

empty-Keyed : Keyed []
unfolding lookup
empty-Keyed id key h = absurd (ground arith)

empty-Known : {V : Type 0} (keys : Assoc Text) → Known {V = V} keys []
unfolding lookup
empty-Known keys id v h = absurd (ground arith)

load_config-IsValid :
    (r : Reader) (f : FileConfig) (c : Config) → load_config r f ≡ loaded c → IsValid c
unfolding load_config
load_config-IsValid r f c h = bind_then (load_location r f.timezone) _ c h λ location _ h.
    bind_then
      (parse_duration r (codes "receiver.timestamp_skew") f.timestamp_skew (pos (2 * minute))) _ c h
      λ skew skews h.
        bind_then
          (parse_duration r (codes "liveness.check_interval") f.check_interval (pos (30 * second)))
          _ c h
          λ check checks h.
            bind_then
              (parse_duration r (codes "notify.timeout") f.notify_timeout (pos (10 * second))) _ c h
              λ timeout timeouts h. bind_then (default_threshold r f) _ c h λ threshold _ h.
                bind_then (load_keys f.keys []) _ c h λ keys keyed h.
                  require_then (not (no_entries keys)) no_agent_keys _ c h λ some_key h.
                    bind_then (load_agents r keys f.agents [] []) _ c h λ tables known h.
                      bind_then (load_auth f) _ c h λ auth auths h.
                        require_then
                          (not (is_empty (trim_space f.webhook_url)) || f.notify_disabled)
                          no_webhook _ c h
                          λ notified h.
                            let tables_known =
                              load_agents-Known r keys f.agents [] [] tables (empty-Known keys)
                                (empty-Known keys) known in
                            subst IsValid (loaded_injective _ c h) (record {
                              skew_pos =
                                  parse_duration_pos r (codes "receiver.timestamp_skew")
                                    f.timestamp_skew (pos (2 * minute)) skew refl skews;
                              check_pos =
                                  parse_duration_pos r (codes "liveness.check_interval")
                                    f.check_interval (pos (30 * second)) check refl checks;
                              timeout_pos =
                                  parse_duration_pos r (codes "notify.timeout") f.notify_timeout
                                    (pos (10 * second)) timeout refl timeouts;
                              keyed = load_keys-Keyed f.keys [] keys empty-Keyed keyed;
                              some_agent = ground (arith, some_key);
                              overrides_keyed = tables_known.1;
                              labels_keyed = tables_known.0;
                              protected = load_auth-protected f auth auths;
                              notifies = notified;
                            })

-- A monitor.toml that Load accepts gives positive durations to the skew, the checks and the
-- notifications, keys that are not blank under valid ids, at least one, labels and thresholds only
-- for agents with a key, a password beside a user, and a webhook unless it is disabled.
pub load-IsValid : (r : Reader) (c : Config) → load r ≡ loaded c → IsValid c
unfolding load
load-IsValid r c h =
    let (text, _, h1) = bind_inv (get r.text not_read) _ c h in
    let (decoded, _, h2) = bind_inv (get (r.decode text) not_toml) _ c h1 in
    let (_, h3) = require_inv _ _ _ c h2 in load_config-IsValid r decoded.0 c h3
