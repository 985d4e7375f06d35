-- ===== src/License/Base64/Laws.antt =====
-- Encoded bytes decode to themselves, and their text holds no dot.
use heartpost.Common.{
  ℕ, ◌+◌, ◌*◌, ◌/◌, ◌%◌, ◌<◌, ◌≡◌, refl, ap, false, ◌||◌, some, List, [], ◌∷◌, ◌==◌, arith, All,
}
use heartpost.Common.Text.{Text, codes}
use heartpost.Signature.{Bytes}
use heartpost.License.Base64.{char_of, value_of, encode, values_of, join_values, decode}

value_of-char_of : (n : ℕ) → n < 64 → value_of (char_of n) ≡ some n
unfolding value_of char_of
value_of-char_of n h = ground arith

not_break : (n : ℕ) → n < 64 → ((char_of n == 10) || (char_of n == 13)) ≡ false
unfolding char_of
not_break n h = ground arith

not_dot : (n : ℕ) → n < 64 → (char_of n == b'.') ≡ false
unfolding char_of
not_dot n h = ground arith

values_of-cons :
    (n : ℕ) (s : Text) (vs : List ℕ)
    → n < 64
    → values_of s ≡ some vs
    → values_of (char_of n ∷ s) ≡ some (n ∷ vs)
unfolding values_of
values_of-cons n s vs h e = rw (not_break n h, value_of-char_of n h, e) refl

-- The sextets that stand for the bytes.
sextets : Bytes → List ℕ
sextets [] = []
sextets (a ∷ []) = a / 4 ∷ a % 4 * 16 ∷ []
sextets (a ∷ b ∷ []) = a / 4 ∷ (a % 4 * 16 + b / 16) ∷ b % 16 * 4 ∷ []
sextets (a ∷ b ∷ c ∷ s) = a / 4 ∷ (a % 4 * 16 + b / 16) ∷ (b % 16 * 4 + c / 64) ∷ c % 64 ∷ sextets s

abbrev pub IsBytes : Bytes → Type 0
IsBytes = All (λ b. b < 256)

values_of-encode : (s : Bytes) → IsBytes s → values_of (encode s) ≡ some (sextets s)
unfolding encode sextets
values_of-encode [] h = unfold values_of in refl
values_of-encode (a ∷ []) h =
    values_of-cons _ _ _ (omega (arith, h.0))
      (values_of-cons _ _ _ (omega arith) (values_of-encode [] tt))
values_of-encode (a ∷ b ∷ []) h = values_of-cons _ _ _ (omega (arith, h.0)) (
    values_of-cons _ _ _ (omega (arith, h.1.0))
      (values_of-cons _ _ _ (omega arith) (values_of-encode [] tt)))
values_of-encode (a ∷ b ∷ c ∷ s) h = values_of-cons _ _ _ (omega (arith, h.0)) (
    values_of-cons _ _ _ (omega (arith, h.1.0)) (
      values_of-cons _ _ _ (omega (arith, h.1.1.0))
        (values_of-cons _ _ _ (omega arith) (values_of-encode s h.1.1.1))))

first : (a b : ℕ) → b < 256 → a / 4 * 4 + (a % 4 * 16 + b / 16) / 16 ≡ a
first a b h = omega arith

second :
    (a b c : ℕ)
    → b < 256
    → c < 256
    → (a % 4 * 16 + b / 16) % 16 * 16 + (b % 16 * 4 + c / 64) / 4 ≡ b
second a b c h g = omega arith

second_last : (a b : ℕ) → b < 256 → (a % 4 * 16 + b / 16) % 16 * 16 + b % 16 * 4 / 4 ≡ b
second_last a b h = omega arith

third : (b c : ℕ) → c < 256 → (b % 16 * 4 + c / 64) % 4 * 64 + c % 64 ≡ c
third b c h = omega arith

join_values-sextets : (s : Bytes) → IsBytes s → join_values (sextets s) ≡ some s
unfolding join_values sextets
join_values-sextets [] h = refl
join_values-sextets (a ∷ []) h =
    ap some (let e : a / 4 * 4 + a % 4 * 16 / 16 ≡ a = omega arith in λ i. e i ∷ [])
join_values-sextets (a ∷ b ∷ []) h = rw (first a b h.1.0, second_last a b h.1.0) refl
join_values-sextets (a ∷ b ∷ c ∷ s) h =
    rw
      (
        join_values-sextets s h.1.1.1,
        first a b h.1.0,
        second a b c h.1.0 h.1.1.0,
        third b c h.1.1.0,
      )
      refl

-- Any bytes decode from their text to themselves.
pub decode-encode : (s : Bytes) → IsBytes s → decode (encode s) ≡ some s
unfolding decode
decode-encode s h = rw (values_of-encode s h) (join_values-sextets s h)

abbrev pub NoDots : Text → Type 0
NoDots = All (λ c. (c == b'.') ≡ false)

pub encode-NoDots : (s : Bytes) → IsBytes s → NoDots (encode s)
unfolding encode
encode-NoDots [] h = tt
encode-NoDots (a ∷ []) h =
    (not_dot (a / 4) (omega (arith, h.0)), (not_dot (a % 4 * 16) (omega arith), tt))
encode-NoDots (a ∷ b ∷ []) h = (
  not_dot (a / 4) (omega (arith, h.0)),
  (not_dot (a % 4 * 16 + b / 16) (omega (arith, h.1.0)), (not_dot (b % 16 * 4) (omega arith), tt)),
)
encode-NoDots (a ∷ b ∷ c ∷ s) h = (
  not_dot (a / 4) (omega (arith, h.0)),
  (
    not_dot (a % 4 * 16 + b / 16) (omega (arith, h.1.0)),
    (
      not_dot (b % 16 * 4 + c / 64) (omega (arith, h.1.1.0)),
      (not_dot (c % 64) (omega arith), encode-NoDots s h.1.1.1),
    ),
  ),
)

decode_line : decode (codes "aGVh\ncnQ") ≡ some (codes "heart")
unfolding decode
decode_line = refl
