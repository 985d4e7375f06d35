-- ===== src/Agent/TokenCache.antt =====
-- agent/token_cache.go: the license token that is kept between runs.
use heartpost.Common.{
  ℕ, ◌+◌, ◌*◌, Bool, true, false, ◌||◌, ◌&&◌, not, Option, none, some, ltb, if◌then◌else◌,
}
use heartpost.Common.Text.{Text, text_eq, is_empty}
use heartpost.Clock.{Time, second, minute, unix_epoch}

pub record Cache : Type 0 where
  pub token : Text
  pub kid : Text
  pub expires_at : Text
  pub agent_id : Text

-- agentlicense and the time package, as the cache uses them; `none` is an error. A token's expiry
-- is in seconds from the Unix epoch, that of the text in nanoseconds from the zero time.
pub record Verifier : Type 0 where
  -- VerifyToken: the expiry of a token that verifies for the agent.
  pub verify_token : Text → Text → Option ℕ
  pub extract_kid : Text → Option Text
  pub parse_time : Text → Option Time
  pub format_time : ℕ → Text

pub data Validity : Type 0 where
  valid stale broken : Validity

-- The expiry in nanoseconds: the claim's, unless the cache has one of its own.
unfoldable pub expiry : Verifier → Cache → ℕ → Option Time
expiry v c claim =
    if is_empty c.expires_at
    then some ((claim + unix_epoch) * second)
    else v.parse_time c.expires_at

unfoldable pub judge_expiry : Time → Option Time → Validity
judge_expiry now none = broken
judge_expiry now (some expires) = if ltb expires (now + 5 * minute) then stale else valid

-- Valid: stale where the cache is of no use, broken where it returns an error.
unfoldable pub valid_cache : Verifier → Text → Time → Cache → Validity
unfolding expiry judge_expiry
valid_cache v agent_id now c =
    if not (text_eq c.agent_id agent_id) || is_empty c.token
    then stale
    else elim (v.verify_token agent_id c.token) [
      | none ↦ broken
      | some claim ↦ elim (v.extract_kid c.token) [
        | none ↦ broken
        | some kid ↦
            if not (is_empty c.kid) && not (text_eq c.kid kid)
            then broken
            else judge_expiry now (expiry v c claim)
      ]
    ]

-- The record that SaveTokenCache writes.
unfoldable pub cache_of : Verifier → Text → Text → Option Cache
cache_of v agent_id token = elim (v.verify_token agent_id token) [
  | none ↦ none
  | some claim ↦ elim (v.extract_kid token) [
    | none ↦ none
    | some kid ↦
        some (record {
          token = token;
          kid = kid;
          expires_at = v.format_time claim;
          agent_id = agent_id;
        })
  ]
]

-- The cache file, and whether its removal and its replacement work. Its temporary file is not read.
pub record Files : Type 0 where
  pub cache : Option Cache
  pub remove_ok : Bool
  pub write_ok : Bool

-- ClearTokenCache: the files after it, and whether it returned nil. A missing file is no error.
unfoldable pub clear_cache : Files → Files × Bool
clear_cache f = elim f.cache [
  | none ↦ (f, true)
  | some c ↦ (if f.remove_ok then (record f { cache = none }, true) else (f, false))
]

-- SaveTokenCache
unfoldable pub save_cache : Verifier → Text → Text → Files → Files × Bool
unfolding clear_cache cache_of
save_cache v agent_id token f =
    if is_empty token then clear_cache f else elim (cache_of v agent_id token) [
      | none ↦ (f, false)
      | some c ↦ (if f.write_ok then (record f { cache = some c }, true) else (f, false))
    ]
