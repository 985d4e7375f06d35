-- ===== src/Common/Decimal.antt =====
-- Decimal text, as fmt's %d writes it.
use heartpost.Common.Text.{Text, codes, is_empty}
use heartpost.Common.Tests.{ltb, leb, ◌==◌, if◌then◌else◌, ◌>>=◌, Bool-cases}
use mathlib.Core.Bool.{Bool, true, false, ◌&&◌}
use mathlib.Core.Option.{Option, none, some}
use heartpost.Common.Int.{ℤ, pos, negsuc, sub_ℕ, max_int64}
use heartpost.Common.Lists.{All}
use Prim.Native.Nat.{ℕ, zero, suc, ◌+◌, ◌-◌, ◌*◌, ◌/◌, ◌%◌, ◌<◌, ◌≤◌}
use mathlib.Core.Path.{◌≡◌, refl, ◌∙◌}
use mathlib.Core.Logic.{inl, inr}
use native.Mathlib.Omega.{arith}
use mathlib.Core.List.{[], ◌∷◌}

-- The digits of `n` before those of `out`; a number below 10 ^ fuel is written whole.
digits : ℕ → ℕ → Text → Text
digits zero n out = out
digits (suc fuel) n out =
    let more = digits fuel (n / 10) ((b'0' + n % 10) ∷ out) in
    if ltb n 10 then (b'0' + n) ∷ out else more

unfoldable pub print_ℕ : ℕ → Text
unfolding digits
print_ℕ n = digits (suc n) n []

unfoldable pub print_ℤ : ℤ → Text
print_ℤ (pos n) = print_ℕ n
print_ℤ (negsuc n) = b'-' ∷ print_ℕ (suc n)

print_1203 : print_ℕ 1203 ≡ codes "1203"
unfolding print_ℕ
print_1203 = refl

abbrev pub is_digit : ℕ → Bool
is_digit c = leb b'0' c && leb c b'9'

scan : Text → ℕ → Option ℕ
scan [] n = some n
scan (c ∷ s) n = if is_digit c then scan s (n * 10 + (c - b'0')) else none

-- At least one digit, and no more.
unfoldable pub parse_ℕ : Text → Option ℕ
unfolding scan
parse_ℕ [] = none
parse_ℕ (c ∷ s) = scan (c ∷ s) 0

abbrev in_int64 : Bool → ℕ → Option ℤ
in_int64 false n = if leb n max_int64 then some (pos n) else none
in_int64 true n = if leb n (max_int64 + 1) then some (sub_ℕ 0 n) else none

-- strconv.ParseInt(s, 10, 64): a sign may stand first, and a value out of range is an error.
unfoldable pub parse_int64 : Text → Option ℤ
parse_int64 [] = none
parse_int64 (c ∷ s) =
    if c == b'-'
    then parse_ℕ s >>= in_int64 true
    else if c == b'+'
    then parse_ℕ s >>= in_int64 false
    else parse_ℕ (c ∷ s) >>= in_int64 false

parse_examples :
    (parse_int64 (codes "-9223372036854775808") ≡ some (negsuc 9223372036854775807))
    × (parse_int64 (codes "9223372036854775808") ≡ none)
    × (parse_int64 (codes "1_0") ≡ none)
unfolding parse_int64 parse_ℕ
parse_examples = (refl, refl, refl)

-- Reading the digits of a number gives it back.
scan-digits : (fuel n : ℕ) (out : Text) → n < fuel → scan (digits fuel n out) 0 ≡ scan out n
unfolding scan digits
scan-digits zero n out h = elim h [ ]
scan-digits (suc fuel) n out h = elim (Bool-cases (ltb n 10)) [
  | inl small ↦ ground arith
  | inr large ↦
      rw large (scan-digits fuel (n / 10) ((b'0' + n % 10) ∷ out) (ground arith) ∙ ground arith)
]

abbrev pub IsNumeral : Text → Type 0
IsNumeral = All (λ c. is_digit c ≡ true)

digits-IsNumeral : (fuel n : ℕ) (out : Text) → IsNumeral out → IsNumeral (digits fuel n out)
unfolding digits
digits-IsNumeral zero n out h = h
digits-IsNumeral (suc fuel) n out h = elim (Bool-cases (ltb n 10)) [
  | inl small ↦ rw small (ground arith, h)
  | inr large ↦ rw large (digits-IsNumeral fuel (n / 10) _ (ground arith, h))
]

digits_not_empty :
    (fuel n : ℕ) (out : Text) → is_empty out ≡ false → is_empty (digits fuel n out) ≡ false
unfolding digits
digits_not_empty zero n out h = h
digits_not_empty (suc fuel) n out h =
    ground (arith, digits_not_empty fuel (n / 10) ((b'0' + n % 10) ∷ out) refl)

print_not_empty : (n : ℕ) → is_empty (print_ℕ n) ≡ false
unfolding print_ℕ digits
print_not_empty n = ground (arith, digits_not_empty n (n / 10) ((b'0' + n % 10) ∷ []) refl)

pub print-IsNumeral : (n : ℕ) → IsNumeral (print_ℕ n)
unfolding print_ℕ
print-IsNumeral n = digits-IsNumeral (suc n) n [] tt

parse_numeral :
    (s : Text) → IsNumeral s → is_empty s ≡ false → parse_int64 s ≡ (scan s 0 >>= in_int64 false)
unfolding parse_int64 parse_ℕ
parse_numeral [] h full = ground arith
parse_numeral (c ∷ s) h full = ground arith

scan-print : (n : ℕ) → scan (print_ℕ n) 0 ≡ some n
unfolding print_ℕ
scan-print n = scan-digits (suc n) n [] (omega arith) ∙ unfold scan in refl

-- The decimal text of a number that fits an int64 is read back as that number.
pub parse-print_ℤ : (n : ℕ) → n ≤ max_int64 → parse_int64 (print_ℤ (pos n)) ≡ some (pos n)
unfolding print_ℤ
parse-print_ℤ n h =
    rw (parse_numeral (print_ℕ n) (print-IsNumeral n) (print_not_empty n), scan-print)
      (ground arith)
