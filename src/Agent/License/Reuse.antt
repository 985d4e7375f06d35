-- ===== src/Agent/License/Reuse.antt =====
-- A saved token is taken from the cache until it is about to expire, and a token that a run with
-- a cache uses has been verified for the agent.
use heartpost.Common.{
  ℕ, ◌+◌, ◌*◌, ◌≤◌, ◌≡◌, ◌≢◌, ◌⊎◌, inl, inr, refl, Bool, true, false, Option, none, some, [], ◌∷◌,
  arith, Bool-cases, Option-cases,
}
use heartpost.Common.Text.{Text, is_empty, text_eq_refl}
use heartpost.Clock.{Time, second, minute, unix_epoch}
use heartpost.Agent.TokenCache.{
  Cache, Verifier, valid, expiry, judge_expiry, Files, valid_cache, cache_of, save_cache,
}
use heartpost.Agent.License.{
  LicenseOptions, token, is_valid, cached_token, fall_back, keep_token, resolve_token,
}

is_empty-cases : (s : Text) → (s ≡ []) ⊎ (is_empty s ≡ false)
is_empty-cases [] = inl refl
is_empty-cases (c ∷ s) = inr refl

not_empty : (s : Text) → s ≢ [] → is_empty s ≡ false
not_empty [] h = absurd (h refl)
not_empty (c ∷ s) h = refl

module _ (v : Verifier) (agent_id t : Text) where
  cache_of-verified :
      (c : Cache) → cache_of v agent_id t ≡ some c → v.verify_token agent_id t ≢ none
  unfolding cache_of
  cache_of-verified c h e = ground (arith, e)

  save_cache-verified :
      (f : Files) → t ≢ [] → (save_cache v agent_id t f).1 ≡ true → v.verify_token agent_id t ≢ none
  unfolding save_cache
  save_cache-verified f full h = elim (Option-cases (cache_of v agent_id t)) [
    | inl e ↦ absurd (ground (arith, not_empty t full))
    | inr (c, e) ↦ cache_of-verified c e
  ]

  valid_cache-verified :
      (now : Time) (c : Cache)
      → is_valid (valid_cache v agent_id now c) ≡ true
      → v.verify_token agent_id c.token ≢ none
  unfolding valid_cache is_valid
  valid_cache-verified now c h e = ground (arith, e)

keep_token-verified :
    (o : LicenseOptions) (agent_id t u : Text) (f : Files)
    → o.has_cache ≡ true
    → (keep_token o agent_id t f).1 ≡ token u
    → u ≢ []
    → o.verifier.verify_token agent_id u ≢ none
unfolding keep_token
keep_token-verified o agent_id [] u f cached h full = absurd (ground arith)
keep_token-verified o agent_id (c ∷ t) u f cached h full =
    elim (Bool-cases (save_cache o.verifier agent_id (c ∷ t) f).1) [
      | inl saved ↦ ground (arith, save_cache-verified o.verifier agent_id (c ∷ t) f)
      | inr unsaved ↦ absurd (ground arith)
    ]

fall_back-token : (o : LicenseOptions) (u : Text) (f : Files) → (fall_back o f).1 ≡ token u → u ≡ []
unfolding fall_back
fall_back-token o u f h = ground arith

cached_token-verified :
    (o : LicenseOptions) (agent_id u : Text) (now : Time) (force : Bool) (f : Files)
    → cached_token o agent_id now force f ≡ some u
    → o.verifier.verify_token agent_id u ≢ none
unfolding cached_token
cached_token-verified o agent_id u now force f h = elim (Option-cases f.cache) [
  | inl e ↦ absurd (ground arith)
  | inr (c, e) ↦ ground (arith, valid_cache-verified o.verifier agent_id u now c)
]

-- With a cache, the token that a run ends up with is empty or has been verified for the agent,
-- wherever it came from.
pub resolved_token_verifies :
    (o : LicenseOptions) (agent_id u : Text) (now : Time) (force : Bool) (f : Files)
    → o.has_cache ≡ true
    → (resolve_token o agent_id now force f).1 ≡ token u
    → u ≢ []
    → o.verifier.verify_token agent_id u ≢ none
unfolding resolve_token
resolved_token_verifies o agent_id u now force f cached h full =
    elim (Option-cases (cached_token o agent_id now force f)) [
      | inr (t, e) ↦ ground (arith, cached_token-verified o agent_id t now force f e)
      | inl e ↦ elim (Option-cases o.monitor) [
        | inl m ↦ absurd (ground (arith, fall_back-token o u f))
        | inr (t, m) ↦ ground (arith, keep_token-verified o agent_id t u f cached)
      ]
    ]

module _ (v : Verifier) (agent_id t : Text) (now : Time) (claim : ℕ) where
  abbrev made : Text → Cache
  made kid = record { token = t; kid = kid; expires_at = v.format_time claim; agent_id = agent_id }

  expiry-made :
      (kid : Text)
      → v.parse_time (v.format_time claim) ≡ some ((claim + unix_epoch) * second)
      → expiry v (made kid) claim ≡ some ((claim + unix_epoch) * second)
  unfolding expiry
  expiry-made kid parses = elim (Bool-cases (is_empty (v.format_time claim))) [
    | inl h ↦ rw h refl
    | inr h ↦ rw (h, parses) refl
  ]

  -- A cache of the token that was just saved is valid until the token is about to expire.
  made-valid :
      (kid : Text)
      → t ≢ []
      → v.verify_token agent_id t ≡ some claim
      → v.extract_kid t ≡ some kid
      → v.parse_time (v.format_time claim) ≡ some ((claim + unix_epoch) * second)
      → now + 5 * minute ≤ (claim + unix_epoch) * second
      → valid_cache v agent_id now (made kid) ≡ valid
  unfolding valid_cache judge_expiry
  made-valid kid full verified has_kid parses lasting =
      let e = expiry-made kid parses in
      ground (arith, text_eq_refl agent_id, text_eq_refl kid, not_empty t full)

saved_cache :
    (v : Verifier) (agent_id t : Text) (f : Files)
    → t ≢ []
    → (save_cache v agent_id t f).1 ≡ true
    → (kid : Text) × (v.extract_kid t ≡ some kid)
      × ((save_cache v agent_id t f).0.cache ≡ cache_of v agent_id t)
      × (cache_of v agent_id t ≢ none)
unfolding save_cache
saved_cache v agent_id t f full h = elim (Option-cases (v.extract_kid t)) [
  | inl e ↦ absurd (unfold cache_of in ground (arith, not_empty t full))
  | inr (kid, e) ↦ elim (Option-cases (cache_of v agent_id t)) [
    | inl g ↦ absurd (ground (arith, not_empty t full))
    | inr (c, g) ↦ (kid, e, ground (arith, not_empty t full), λ w. ground arith)
  ]
]

made-cache_of :
    (v : Verifier) (agent_id t kid : Text) (claim : ℕ)
    → v.verify_token agent_id t ≡ some claim
    → v.extract_kid t ≡ some kid
    → cache_of v agent_id t ≡ some (made v agent_id t 0 claim kid)
unfolding cache_of
made-cache_of v agent_id t kid claim verified has_kid = ground arith

from_monitor :
    (o : LicenseOptions) (agent_id t : Text) (before : Time) (force : Bool) (f : Files)
    → o.monitor ≡ some t
    → cached_token o agent_id before force f ≡ none
    → resolve_token o agent_id before force f ≡ keep_token o agent_id t f
unfolding resolve_token
from_monitor o agent_id t before force f monitor missed = ground arith

keep_token-saved :
    (o : LicenseOptions) (agent_id t : Text) (f : Files)
    → o.has_cache ≡ true
    → t ≢ []
    → (keep_token o agent_id t f).1 ≡ token t
    → ((save_cache o.verifier agent_id t f).1 ≡ true)
      × ((keep_token o agent_id t f).0 ≡ (save_cache o.verifier agent_id t f).0)
unfolding keep_token
keep_token-saved o agent_id t f cached full got =
    elim (Bool-cases (save_cache o.verifier agent_id t f).1) [
      | inl saved ↦ (saved, ground (arith, not_empty t full))
      | inr unsaved ↦ absurd (ground (arith, not_empty t full))
    ]

from_cache :
    (o : LicenseOptions) (agent_id : Text) (now : Time) (f : Files) (c : Cache)
    → o.has_cache ≡ true
    → f.cache ≡ some c
    → valid_cache o.verifier agent_id now c ≡ valid
    → resolve_token o agent_id now false f ≡ (f, token c.token)
unfolding resolve_token cached_token is_valid
from_cache o agent_id now f c cached held ok = ground arith

-- A token that the monitor gave and that was saved serves every later run until five minutes before
-- it expires, whatever the monitor then answers; the later run changes no file.
pub kept_token_is_reused :
    (o : LicenseOptions) (agent_id t : Text) (before now : Time) (force : Bool) (f : Files)
    (claim : ℕ) (answer : Option Text)
    → o.has_cache ≡ true
    → o.monitor ≡ some t
    → t ≢ []
    → cached_token o agent_id before force f ≡ none
    → (resolve_token o agent_id before force f).1 ≡ token t
    → o.verifier.verify_token agent_id t ≡ some claim
    → o.verifier.parse_time (o.verifier.format_time claim) ≡ some ((claim + unix_epoch) * second)
    → now + 5 * minute ≤ (claim + unix_epoch) * second
    → let f' = (resolve_token o agent_id before force f).0 in
      resolve_token (record o { monitor = answer }) agent_id now false f' ≡ (f', token t)
kept_token_is_reused o agent_id t before now force f claim answer cached monitor full missed got
      verified parses lasting =
    let kept = from_monitor o agent_id t before force f monitor missed in
    let saved = keep_token-saved o agent_id t f cached full (cc) in
    let (kid, has_kid, held, _) = saved_cache o.verifier agent_id t f full saved.0 in
    let c = made o.verifier agent_id t now claim kid in
    let in_file : (resolve_token o agent_id before force f).0.cache ≡ some c =
      (let h = made-cache_of o.verifier agent_id t kid claim verified has_kid in cc) in
    from_cache (record o { monitor = answer }) agent_id now _ c cached in_file
      (made-valid o.verifier agent_id t now claim kid full verified has_kid parses lasting)
