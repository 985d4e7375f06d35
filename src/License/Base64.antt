-- ===== src/License/Base64.antt =====
-- encoding/base64, the URL alphabet without padding (RawURLEncoding).
pub mod Laws
use heartpost.Common.{
  ℕ, ◌+◌, ◌-◌, ◌*◌, ◌/◌, ◌%◌, Bool, ◌&&◌, ◌||◌, Option, none, some, List, [], ◌∷◌, ltb, leb, ◌==◌,
  ◌>>=◌, if◌then◌else◌,
}
use heartpost.Common.Text.{Text}
use heartpost.Signature.{Bytes}

unfoldable pub char_of : ℕ → ℕ
char_of n =
    if ltb n 26
    then b'A' + n
    else if ltb n 52
    then b'G' + n
    else if ltb n 62
    then n - 4
    else if n == 62
    then b'-'
    else b'_'

unfoldable pub value_of : ℕ → Option ℕ
value_of c =
    if leb b'A' c && leb c b'Z'
    then some (c - b'A')
    else if leb b'a' c && leb c b'z'
    then some (c - b'G')
    else if leb b'0' c && leb c b'9'
    then some (c + 4)
    else if c == b'-'
    then some 62
    else if c == b'_'
    then some 63
    else none

-- Three bytes are four characters; one or two at the end are two or three.
unfoldable pub encode : Bytes → Text
unfolding char_of
encode [] = []
encode (a ∷ []) = char_of (a / 4) ∷ char_of (a % 4 * 16) ∷ []
encode (a ∷ b ∷ []) = char_of (a / 4) ∷ char_of (a % 4 * 16 + b / 16) ∷ char_of (b % 16 * 4) ∷ []
encode (a ∷ b ∷ c ∷ s) =
    char_of (a / 4)
    ∷ char_of (a % 4 * 16 + b / 16)
    ∷ char_of (b % 16 * 4 + c / 64)
    ∷ char_of (c % 64)
    ∷ encode s

abbrev onto : {A : Type 0} → A → Option (List A) → Option (List A)
onto a none = none
onto a (some s) = some (a ∷ s)

-- The values of the characters; line breaks are left out.
unfoldable pub values_of : Text → Option (List ℕ)
unfolding value_of
values_of [] = some []
values_of (c ∷ s) =
    let rest = values_of s in
    if (c == 10) || (c == 13)
    then rest
    else elim (value_of c) [ none ↦ none | some v ↦ onto v rest ]

-- A single character at the end is an error; the bits that are left over are not looked at.
unfoldable pub join_values : List ℕ → Option Bytes
join_values [] = some []
join_values (p ∷ []) = none
join_values (p ∷ q ∷ []) = some ((p * 4 + q / 16) ∷ [])
join_values (p ∷ q ∷ r ∷ []) = some ((p * 4 + q / 16) ∷ (q % 16 * 16 + r / 4) ∷ [])
join_values (p ∷ q ∷ r ∷ t ∷ vs) =
    onto (p * 4 + q / 16) (onto (q % 16 * 16 + r / 4) (onto (r % 4 * 64 + t) (join_values vs)))

unfoldable pub decode : Text → Option Bytes
unfolding values_of join_values
decode s = values_of s >>= join_values
