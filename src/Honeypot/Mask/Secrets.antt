-- ===== src/Honeypot/Mask/Secrets.antt =====
-- What masking hides of a body: what stands after a secret's name and an equals sign, up to the next
-- space or ampersand, where that is not empty.
use heartpost.Common.{
  ℕ, suc, ◌+◌, ◌-◌, ◌≡◌, refl, sym, ◌∙◌, true, false, Option, some, [], ◌∷◌, ◌++◌, leb, length,
  length-append, All, arith,
}
use heartpost.Common.Text.{codes}
use heartpost.Signature.{Bytes}
use heartpost.Honeypot.Mask.{
  words, strip, strip_any, strip_word, is_stop, value_length, assigned, if_assigned, secret_at,
  stars, replaced, mask_from, mask_body,
}
use heartpost.Honeypot.Mask.Fields.{mask_from-stop}

-- The names of secrets, in lower case.
pub data IsSecretName : Bytes → Type 0 where
  password : IsSecretName (codes "password")
  passwd : IsSecretName (codes "passwd")
  token : IsSecretName (codes "token")
  secret : IsSecretName (codes "secret")
  api_key : IsSecretName (codes "api_key")
  api-key : IsSecretName (codes "api-key")
  apikey : IsSecretName (codes "apikey")

-- A value that is masked as a whole: not empty, and without spaces and ampersands.
pub data IsValue : Bytes → Type 0 where
  value : (c : ℕ) (v : Bytes) → All (λ d. is_stop d ≡ false) (c ∷ v) → IsValue (c ∷ v)

-- Two bodies that are the same but for such values, each of which stands alone or between two of the
-- bytes that end one.
pub data Alike : Bytes → Bytes → Type 0 where
  same : (f : Bytes) → Alike f f
  hidden :
      {k v w : Bytes}
      → IsSecretName k
      → IsValue v
      → IsValue w
      → Alike (k ++ b'=' ∷ v) (k ++ b'=' ∷ w)
  joined :
      {f g r s : Bytes} (stop : ℕ)
      → is_stop stop ≡ true
      → Alike f g
      → Alike r s
      → Alike (f ++ stop ∷ r) (g ++ stop ∷ s)

value_length-all : (v : Bytes) → All (λ d. is_stop d ≡ false) v → value_length v ≡ length v
unfolding value_length
value_length-all [] h = refl
value_length-all (c ∷ v) h = rw (h.0, value_length-all v h.1) refl

mask_from-length : (x : Bytes) → mask_from (length x) x ≡ []
unfolding mask_from
mask_from-length [] = refl
mask_from-length (c ∷ x) = mask_from-length x

leb-suc : (n : ℕ) → leb 1 (suc n) ≡ true
leb-suc n = ground arith

assigned_value : {v : Bytes} → IsValue v → assigned (b'=' ∷ v) ≡ suc (length v)
unfolding assigned
assigned_value (value c v h) = rw (value_length-all (c ∷ v) h, leb-suc (length v)) refl

if_assigned-value :
    {v : Bytes} (k : Bytes) (rest : Option (Bytes × ℕ))
    → IsValue v
    → if_assigned (some (k, b'=' ∷ v)) rest ≡ some (k, length k + suc (length v))
unfolding if_assigned
if_assigned-value {v} k rest h = rw (assigned_value h, leb-suc (length v)) refl

secret_at-name :
    {k v : Bytes}
    → IsSecretName k
    → IsValue v
    → secret_at words (k ++ b'=' ∷ v) ≡ some (k, length k + suc (length v))
unfolding words secret_at strip_word strip_any strip if_assigned
secret_at-name password h = if_assigned-value (codes "password") _ h
secret_at-name passwd h = if_assigned-value (codes "passwd") _ h
secret_at-name token h = if_assigned-value (codes "token") _ h
secret_at-name secret h = if_assigned-value (codes "secret") _ h
secret_at-name api_key h = if_assigned-value (codes "api_key") _ h
secret_at-name api-key h = if_assigned-value (codes "api-key") _ h
secret_at-name apikey h = if_assigned-value (codes "apikey") _ h

mask_whole :
    (x k : Bytes) (n : ℕ)
    → secret_at words x ≡ some (k, suc n)
    → length x ≡ suc n
    → mask_from 0 x ≡ k ++ stars
unfolding mask_from replaced
mask_whole [] k n e h = ground arith
mask_whole (c ∷ x) k n e h =
    let rest : n ≡ length x = omega (arith, h) in
    let less : suc (length x) - 1 ≡ length x = omega arith in
    rw (e, rest, less, mask_from-length x) refl

mask_secret : {k v : Bytes} → IsSecretName k → IsValue v → mask_from 0 (k ++ b'=' ∷ v) ≡ k ++ stars
mask_secret {k} {v} is_name h =
    let e = secret_at-name is_name h in
    let sum : length k + suc (length v) ≡ suc (length k + length v) = omega arith in
    mask_whole (k ++ b'=' ∷ v) k (length k + length v) (rw (← sum) e)
      (rw (length-append k (b'=' ∷ v)) (omega arith))

-- Alike bodies are masked alike.
pub mask_body-Alike : {a b : Bytes} → Alike a b → mask_body a ≡ mask_body b
unfolding mask_body
mask_body-Alike (same f) = refl
mask_body-Alike (hidden is_name v w) = mask_secret is_name v ∙ sym (mask_secret is_name w)
mask_body-Alike (joined {f = f} {g = g} {r = r} {s = s} stop ends first rest) =
    rw
      (
        mask_from-stop stop ends r 0 f (omega arith),
        mask_from-stop stop ends s 0 g (omega arith),
        mask_body-Alike first,
        mask_body-Alike rest,
      )
      refl
