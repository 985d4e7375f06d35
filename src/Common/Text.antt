-- ===== src/Common/Text.antt =====
-- Go strings: a valid UTF-8 string is the list of its code points. Go compares strings by their
-- bytes, and UTF-8 keeps the order of code points.
use Prim.Native.Char.{code}
use Prim.Native.String.{String}
use heartpost.Common.Lists.{All, All-append}
use mathlib.Core.List.{reverse-append, reverse-reverse}
use heartpost.Common.Tests.{ltb, leb, ◌==◌, if◌then◌else◌}
use Prim.Native.Nat.{ℕ}
use mathlib.Core.Bool.{Bool, true, false, ◌&&◌, ◌||◌}
use mathlib.Core.Path.{◌≡◌, refl}
use mathlib.Core.Logic.{◌↔◌}
use mathlib.Core.List.{List, [], ◌∷◌, reverse}
use native.Mathlib.Omega.{arith}

abbrev pub Text : Type 0
Text = List ℕ

abbrev pub codes : String → Text
codes String.[] = []
codes (String.◌∷◌ c s) = code c ∷ codes s

-- s == t
unfoldable pub text_eq : Text → Text → Bool
text_eq [] [] = true
text_eq [] (d ∷ t) = false
text_eq (c ∷ s) [] = false
text_eq (c ∷ s) (d ∷ t) = (c == d) && text_eq s t

pub text_eq_sound : (s t : Text) → text_eq s t ≡ true → s ≡ t
unfolding text_eq
text_eq_sound [] [] h = refl
text_eq_sound [] (d ∷ t) h = ground arith
text_eq_sound (c ∷ s) [] h = ground arith
text_eq_sound (c ∷ s) (d ∷ t) h = ground (arith, text_eq_sound s t)

pub text_eq_refl : (s : Text) → text_eq s s ≡ true
unfolding text_eq
text_eq_refl [] = refl
text_eq_refl (c ∷ s) = ground (arith, text_eq_refl s)

pub text_eq_iff : (s t : Text) → (text_eq s t ≡ true) ↔ (s ≡ t)
text_eq_iff s t = (text_eq_sound s t, λ e. rw e (text_eq_refl t))

-- s < t
unfoldable pub text_ltb : Text → Text → Bool
text_ltb s [] = false
text_ltb [] (d ∷ t) = true
text_ltb (c ∷ s) (d ∷ t) = ltb c d || ((c == d) && text_ltb s t)

-- unicode.IsSpace
unfoldable pub is_space : ℕ → Bool
is_space c =
    (leb 9 c && leb c 13)
    || (c == 32)
    || (c == 0x85)
    || (c == 0xa0)
    || (c == 0x1680)
    || (leb 0x2000 c && leb c 0x200a)
    || (c == 0x2028)
    || (c == 0x2029)
    || (c == 0x202f)
    || (c == 0x205f)
    || (c == 0x3000)

unfoldable pub trim_left : Text → Text
trim_left [] = []
trim_left (c ∷ s) = if is_space c then trim_left s else c ∷ s

-- strings.TrimSpace
unfoldable pub trim_space : Text → Text
unfolding trim_left is_space
trim_space s = reverse (trim_left (reverse (trim_left s)))

abbrev pub is_empty : Text → Bool
is_empty [] = true
is_empty (c ∷ s) = false

-- The text after a prefix, if it has that prefix.
unfoldable pub has_prefix : Text → Text → Bool
has_prefix s [] = true
has_prefix [] (d ∷ p) = false
has_prefix (c ∷ s) (d ∷ p) = (c == d) && has_prefix s p

unfoldable pub contains_code : ℕ → Text → Bool
contains_code d [] = false
contains_code d (c ∷ s) = (c == d) || contains_code d s

trim_both : trim_space (codes "  a b \t") ≡ codes "a b"
unfolding trim_space
trim_both = refl

-- No text stands before itself.
pub text_ltb_irrefl : (s : Text) → text_ltb s s ≡ false
unfolding text_ltb
text_ltb_irrefl [] = refl
text_ltb_irrefl (c ∷ s) = ground (arith, text_ltb_irrefl s)

-- Trimming leaves a text without spaces as it is.
abbrev pub NoSpaces : Text → Type 0
NoSpaces = All (λ c. is_space c ≡ false)

trim_left-NoSpaces : (s : Text) → NoSpaces s → trim_left s ≡ s
unfolding trim_left
trim_left-NoSpaces [] h = refl
trim_left-NoSpaces (c ∷ s) h = rw h.0 refl

reverse-NoSpaces : (s : Text) → NoSpaces s → NoSpaces (reverse s)
reverse-NoSpaces [] h = tt
reverse-NoSpaces (c ∷ s) h =
    rw (reverse-append (c ∷ []) s)
      (All-append (λ c. is_space c ≡ false) (reverse s) (c ∷ []) (reverse-NoSpaces s h.1) (h.0, tt))

pub trim_space-NoSpaces : (s : Text) → NoSpaces s → trim_space s ≡ s
unfolding trim_space
trim_space-NoSpaces s h =
    rw (trim_left-NoSpaces s h, trim_left-NoSpaces (reverse s) (reverse-NoSpaces s h))
      (reverse-reverse s)
