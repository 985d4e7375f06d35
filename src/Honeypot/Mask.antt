-- ===== src/Honeypot/Mask.antt =====
-- honeypotserver/server.go: maskBody, on the bytes of a body. Its pattern is
-- (?i)(password|passwd|token|secret|api[_-]?key)=([^&\s]+), and a match becomes `$1=***`.
pub mod Fields
pub mod Secrets
use heartpost.Common.{
  ℕ, zero, suc, ◌+◌, ◌-◌, Bool, true, false, ◌||◌, ◌&&◌, Option, none, some, List, [], ◌∷◌, ◌++◌,
  map, leb, length, ◌==◌, if◌then◌else◌, ◌>>=◌,
}
use heartpost.Common.Text.{Text, codes}
use heartpost.Signature.{Bytes}

-- The ways to write a letter without regard to case: the two cases in ASCII, and the long s and the
-- Kelvin sign, which fold to s and k.
abbrev pub folds : ℕ → List Bytes
folds c =
    (c ∷ [])
    ∷ ((if leb b'a' c && leb c b'z' then ((c - 32) ∷ []) ∷ [] else [])
        ++ ((if c == b's' then (0xc5 ∷ 0xbf ∷ []) ∷ [] else [])
            ++ (if c == b'k' then (0xe2 ∷ 0x84 ∷ 0xaa ∷ []) ∷ [] else [])))

abbrev pub names : List Text
names =
    codes "password"
    ∷ codes "passwd"
    ∷ codes "token"
    ∷ codes "secret"
    ∷ codes "api_key"
    ∷ codes "api-key"
    ∷ codes "apikey"
    ∷ []

-- A word of the pattern, as the ways to write each of its letters.
abbrev pub Word : Type 0
Word = List (List Bytes)

unfoldable pub words : List Word
words = map (λ name. map folds name) names

-- What follows a prefix.
unfoldable pub strip : Bytes → Bytes → Option Bytes
strip [] s = some s
strip (d ∷ p) [] = none
strip (d ∷ p) (c ∷ s) = if c == d then strip p s else none

abbrev pub or_next : Bytes → Option Bytes → Option (Bytes × Bytes) → Option (Bytes × Bytes)
or_next v none rest = rest
or_next v (some r) rest = some (v, r)

-- The first of the prefixes that fits, and what follows it.
unfoldable pub strip_any : List Bytes → Bytes → Option (Bytes × Bytes)
strip_any [] s = none
strip_any (v ∷ vs) s = or_next v (strip v s) (strip_any vs s)

unfoldable pub strip_word : Word → Bytes → Option (Bytes × Bytes)
strip_word [] s = some ([], s)
strip_word (l ∷ w) s = do (v, r) ← strip_any l s; (k, q) ← strip_word w r; some (v ++ k, q)

-- \s and &
abbrev pub is_stop : ℕ → Bool
is_stop c = (leb 9 c && leb c 10) || (leb 12 c && leb c 13) || (c == 32) || (c == b'&')

-- The length of [^&\s]* at the start of a text.
unfoldable pub value_length : Bytes → ℕ
value_length [] = 0
value_length (c ∷ s) = if is_stop c then 0 else suc (value_length s)

-- The length of an equals sign and a value that is not empty, or 0.
unfoldable pub assigned : Bytes → ℕ
assigned [] = 0
assigned (c ∷ s) = if (c == b'=') && leb 1 (value_length s) then suc (value_length s) else 0

unfoldable pub if_assigned : Option (Bytes × Bytes) → Option (Bytes × ℕ) → Option (Bytes × ℕ)
if_assigned none rest = rest
if_assigned (some (k, r)) rest =
    if leb 1 (assigned r) then some (k, length k + assigned r) else rest

-- The match at the start of a text: the name as it is written, and the length of the whole match.
unfoldable pub secret_at : List Word → Bytes → Option (Bytes × ℕ)
secret_at [] s = none
secret_at (w ∷ ws) s = if_assigned (strip_word w s) (secret_at ws s)

abbrev pub stars : Bytes
stars = codes "=***"

-- What replaces a match, or a byte that starts none; `rest n` masks what follows after `n` bytes.
unfoldable pub replaced : ℕ → Option (Bytes × ℕ) → (ℕ → Bytes) → Bytes
replaced c none rest = c ∷ rest 0
replaced c (some (k, n)) rest = k ++ (stars ++ rest (n - 1))

-- The text with its matches replaced, from the left, after `n` bytes of the last match.
unfoldable pub mask_from : ℕ → Bytes → Bytes
mask_from n [] = []
mask_from (suc n) (c ∷ s) = mask_from n s
mask_from zero (c ∷ s) = replaced c (secret_at words (c ∷ s)) (λ n. mask_from n s)

-- maskBody
unfoldable pub mask_body : Bytes → Bytes
unfolding mask_from
mask_body s = mask_from 0 s
