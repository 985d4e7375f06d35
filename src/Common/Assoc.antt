-- ===== src/Common/Assoc.antt =====
-- Go maps with string keys, as association lists. The program sorts what it ranges over, so the
-- order of the entries shows nowhere.
use heartpost.Common.Text.{Text, text_eq, text_eq_iff}
use heartpost.Common.Tests.{if◌then◌else◌}
use mathlib.Core.Option.{Option, none, some}
use mathlib.Core.Path.{◌≡◌, refl}
use mathlib.Core.List.{List, [], ◌∷◌}
use native.Mathlib.Omega.{arith}

abbrev pub Assoc {ℓ} : Type ℓ → Type ℓ
Assoc V = List (Text × V)

module _ {ℓ} {V : Type ℓ} where
  -- m[k], with the Boolean of `v, ok := m[k]`
  unfoldable pub lookup : Text → Assoc V → Option V
  lookup k [] = none
  lookup k ((j, v) ∷ m) = if text_eq j k then some v else lookup k m

  -- m[k] = v
  unfoldable pub insert : Text → V → Assoc V → Assoc V
  insert k v [] = (k, v) ∷ []
  insert k v ((j, w) ∷ m) = if text_eq j k then (j, v) ∷ m else (j, w) ∷ insert k v m

  pub lookup-insert :
      (k j : Text) (v : V) (m : Assoc V)
      → lookup j (insert k v m) ≡ (if text_eq k j then some v else lookup j m)
  unfolding lookup insert
  lookup-insert k j v [] = refl
  lookup-insert k j v ((i, w) ∷ m) =
      ground (arith, text_eq_iff k j, text_eq_iff i k, text_eq_iff i j, lookup-insert k j v m)

  -- Every entry satisfies `P`, and no key stands twice.
  abbrev pub WellKeyed : (Text → V → Type ℓ) → Assoc V → Type ℓ
  WellKeyed P [] = Unit
  WellKeyed P ((k, v) ∷ m) = P k v × (lookup k m ≡ none) × WellKeyed P m
