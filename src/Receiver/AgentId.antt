-- ===== src/Receiver/AgentId.antt =====
-- core/receiver/store.go: which agent ids are accepted.
use heartpost.Common.{ℕ, Bool, true, false, ◌&&◌, ◌||◌, [], ◌∷◌, ◌==◌, leb, length}
use heartpost.Common.Text.{Text}

unfoldable pub is_alphanumeric : ℕ → Bool
is_alphanumeric c =
    (leb b'A' c && leb c b'Z') || (leb b'a' c && leb c b'z') || (leb b'0' c && leb c b'9')

-- [A-Za-z0-9-]*
unfoldable pub all_id_codes : Text → Bool
unfolding is_alphanumeric
all_id_codes [] = true
all_id_codes (c ∷ s) = (is_alphanumeric c || (c == b'-')) && all_id_codes s

-- ^[A-Za-z0-9][A-Za-z0-9-]{0,63}$
unfoldable pub valid_agent_id : Text → Bool
unfolding all_id_codes
valid_agent_id [] = false
valid_agent_id (c ∷ s) = is_alphanumeric c && (all_id_codes s && leb (length s) 63)
