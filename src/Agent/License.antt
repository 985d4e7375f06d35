-- ===== src/Agent/License.antt =====
-- agent/license.go: the token of a run, from the cache, from the monitor, or none where an offline
-- license or a relaxed configuration lets the run go on without.
pub mod Reuse
use heartpost.Common.{Bool, true, false, ◌&&◌, not, Option, none, some, [], if◌then◌else◌}
use heartpost.Common.Text.{Text, is_empty}
use heartpost.Clock.{Time}
use heartpost.Agent.TokenCache.{
  Cache, Verifier, Validity, valid, stale, broken, Files, valid_cache, clear_cache, save_cache,
}

pub record LicenseOptions : Type 0 where
  pub verifier : Verifier
  -- Verify of the key, the answer of VerifyWithMonitor, and VerifyOfflineLicense.
  pub key_ok : Bool
  pub monitor : Option Text
  pub offline_ok : Bool
  pub has_offline_file : Bool
  pub has_cache : Bool
  pub relaxed : Bool

-- A token, or an error; a run without a token has the empty one.
pub data Token : Type 0 where
  token : Text → Token
  refused : Token

unfoldable pub is_valid : Validity → Bool
is_valid valid = true
is_valid _ = false

-- The token of a cache that is valid.
unfoldable pub cached_token : LicenseOptions → Text → Time → Bool → Files → Option Text
unfolding is_valid
cached_token o agent_id now force f =
    if o.has_cache && not force
    then elim f.cache [
      | none ↦ none
      | some c ↦ (if is_valid (valid_cache o.verifier agent_id now c) then some c.token else none)
    ]
    else none

-- The monitor did not give a token.
unfoldable pub fall_back : LicenseOptions → Files → Files × Token
fall_back o f =
    if (if o.has_offline_file then o.offline_ok else o.relaxed)
    then ((if o.has_cache then (clear_cache f).0 else f), token [])
    else (f, refused)

-- The monitor gave this one.
unfoldable pub keep_token : LicenseOptions → Text → Text → Files → Files × Token
keep_token o agent_id t f =
    if not (is_empty t) && o.has_cache
    then (let result = save_cache o.verifier agent_id t f in
        (result.0, (if result.1 then token t else refused)))
    else (f, token t)

-- resolveToken
unfoldable pub resolve_token : LicenseOptions → Text → Time → Bool → Files → Files × Token
unfolding cached_token fall_back keep_token
resolve_token o agent_id now force f = elim (cached_token o agent_id now force f) [
  | some t ↦ (f, token t)
  | none ↦ elim o.monitor [ none ↦ fall_back o f | some t ↦ keep_token o agent_id t f ]
]

-- verify: the key first, then the token; without a license there is neither.
unfoldable pub verify_license : Option LicenseOptions → Text → Time → Files → Files × Token
verify_license none agent_id now f = (f, token [])
verify_license (some o) agent_id now f =
    if o.key_ok then resolve_token o agent_id now false f else (f, refused)
