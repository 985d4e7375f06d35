-- ===== src/Honeypot/Mask/Fields.antt =====
-- A match stays between the bytes that end a value, spaces and ampersands.
use heartpost.Common.{
  ℕ, zero, suc, ◌+◌, ◌-◌, ◌≤◌, ◌≡◌, refl, sym, ◌∙◌, inl, inr, Bool, true, false, map, ◌&&◌, ◌||◌,
  Option, none, some, List, [], ◌∷◌, ◌++◌, leb, length, length-append, All, ◌==◌, arith,
  if◌then◌else◌, Option-cases, Bool-cases,
}
use mathlib.Core.List.{append_assoc}
use mathlib.Core.Path.{subst}
use heartpost.Common.Text.{codes}
use heartpost.Signature.{Bytes}
use heartpost.Honeypot.Mask.{
  Word, words, replaced, folds, strip, strip_any, strip_word, is_stop, value_length, assigned,
  secret_at, stars, mask_from, if_assigned,
}

unfoldable pub NoStops : Bytes → Type 0
NoStops [] = Unit
NoStops (c ∷ s) = (is_stop c ≡ false) × NoStops s

any_stop : Bytes → Bool
any_stop [] = false
any_stop (c ∷ s) = is_stop c || any_stop s

module _ (stop : ℕ) (ends : is_stop stop ≡ true) (s : Bytes) where
  abbrev followed : Option Bytes → Option Bytes
  followed none = none
  followed (some r) = some (r ++ stop ∷ s)

  abbrev followed_by : Option (Bytes × Bytes) → Option (Bytes × Bytes)
  followed_by none = none
  followed_by (some (k, r)) = some (k, r ++ stop ∷ s)

  strip-stop : (p x : Bytes) → NoStops p → strip p (x ++ stop ∷ s) ≡ followed (strip p x)
  unfolding strip NoStops
  strip-stop [] x h = refl
  strip-stop (d ∷ p) [] h = ground arith
  strip-stop (d ∷ p) (c ∷ x) h = ground (arith, strip-stop p x h.1)

  strip_any-stop :
      (vs : List Bytes) (x : Bytes)
      → All NoStops vs
      → strip_any vs (x ++ stop ∷ s) ≡ followed_by (strip_any vs x)
  unfolding strip_any
  strip_any-stop [] x h = refl
  strip_any-stop (v ∷ vs) x h = elim (Option-cases (strip v x)) [
    | inl e ↦ rw (strip-stop v x h.0, e) (strip_any-stop vs x h.1)
    | inr (r, e) ↦ rw (strip-stop v x h.0, e) refl
  ]

  strip_word-stop :
      (w : Word) (x : Bytes)
      → All (All NoStops) w
      → strip_word w (x ++ stop ∷ s) ≡ followed_by (strip_word w x)
  unfolding strip_word
  strip_word-stop [] x h = refl
  strip_word-stop (l ∷ w) x h = elim (Option-cases (strip_any l x)) [
    | inl e ↦ rw (strip_any-stop l x h.0, e) refl
    | inr ((v, r), e) ↦ elim (Option-cases (strip_word w r)) [
      | inl e' ↦ rw (strip_any-stop l x h.0, e, strip_word-stop w r h.1, e') refl
      | inr ((k, q), e') ↦ rw (strip_any-stop l x h.0, e, strip_word-stop w r h.1, e') refl
    ]
  ]

  value_length-stop : (x : Bytes) → value_length (x ++ stop ∷ s) ≡ value_length x
  unfolding value_length
  value_length-stop [] = rw ends refl
  value_length-stop (c ∷ x) = ground (arith, value_length-stop x)

  assigned-stop : (x : Bytes) → assigned (x ++ stop ∷ s) ≡ assigned x
  unfolding assigned
  assigned-stop [] = ground arith
  assigned-stop (c ∷ x) = rw (value_length-stop x) refl

  secret_at-stop :
      (ws : List Word) (x : Bytes)
      → All (All (All NoStops)) ws
      → secret_at ws (x ++ stop ∷ s) ≡ secret_at ws x
  unfolding secret_at if_assigned
  secret_at-stop [] x h = refl
  secret_at-stop (w ∷ ws) x h = elim (Option-cases (strip_word w x)) [
    | inl e ↦ rw (strip_word-stop w x h.0, e) (secret_at-stop ws x h.1)
    | inr ((k, r), e) ↦
        rw (strip_word-stop w x h.0, e, assigned-stop r, secret_at-stop ws x h.1) refl
  ]

-- What matches is no longer than the text.
abbrev Leaves : ℕ → Bytes → Option Bytes → Type 0
Leaves n x none = Unit
Leaves n x (some r) = length x ≡ n + length r

abbrev Parts : Bytes → Option (Bytes × Bytes) → Type 0
Parts x none = Unit
Parts x (some (k, r)) = length x ≡ length k + length r

abbrev Within : Bytes → Option (Bytes × ℕ) → Type 0
Within x none = Unit
Within x (some (k, n)) = (1 ≤ n) × (n ≤ length x)

strip-Leaves : (p x : Bytes) → Leaves (length p) x (strip p x)
unfolding strip
strip-Leaves [] x = omega arith
strip-Leaves (d ∷ p) [] = tt
strip-Leaves (d ∷ p) (c ∷ x) = elim (Bool-cases (c == d)) [
  | inr other ↦ rw other tt
  | inl same ↦ elim (Option-cases (strip p x)) [
    | inl e ↦ rw (same, e) tt
    | inr (r, e) ↦
        let ih : length x ≡ length p + length r =
          subst (Leaves (length p) x) e (strip-Leaves p x) in
        rw (same, e) (omega (arith, ih))
  ]
]

strip_any-Parts : (vs : List Bytes) (x : Bytes) → Parts x (strip_any vs x)
unfolding strip_any
strip_any-Parts [] x = tt
strip_any-Parts (v ∷ vs) x = elim (Option-cases (strip v x)) [
  | inl e ↦ rw e (strip_any-Parts vs x)
  | inr (r, e) ↦ rw e (subst (Leaves (length v) x) e (strip-Leaves v x))
]

strip_word-Parts : (w : Word) (x : Bytes) → Parts x (strip_word w x)
unfolding strip_word
strip_word-Parts [] x = omega arith
strip_word-Parts (l ∷ w) x = elim (Option-cases (strip_any l x)) [
  | inl e ↦ rw e tt
  | inr ((v, r), e) ↦ elim (Option-cases (strip_word w r)) [
    | inl e' ↦ rw (e, e') tt
    | inr ((k, q), e') ↦
        let first : length x ≡ length v + length r = subst (Parts x) e (strip_any-Parts l x) in
        let rest : length r ≡ length k + length q = subst (Parts r) e' (strip_word-Parts w r) in
        rw (e, e') (rw (length-append v k) (omega arith))
  ]
]

value_length-bound : (x : Bytes) → value_length x ≤ length x
unfolding value_length
value_length-bound [] = omega arith
value_length-bound (c ∷ x) = ground (arith, value_length-bound x)

assigned-bound : (x : Bytes) → assigned x ≤ length x
unfolding assigned
assigned-bound [] = omega arith
assigned-bound (c ∷ x) = ground (arith, value_length-bound x)

secret_at-Within : (ws : List Word) (x : Bytes) → Within x (secret_at ws x)
unfolding secret_at if_assigned
secret_at-Within [] x = tt
secret_at-Within (w ∷ ws) x = elim (Option-cases (strip_word w x)) [
  | inl e ↦ rw e (secret_at-Within ws x)
  | inr ((k, r), e) ↦ elim (Bool-cases (leb 1 (assigned r))) [
    | inr none_there ↦ rw (e, none_there) (secret_at-Within ws x)
    | inl there ↦
        let whole : length x ≡ length k + length r = subst (Parts x) e (strip_word-Parts w x) in
        let bound = assigned-bound r in rw (e, there) (ground arith, omega arith)
  ]
]

-- No way to write a name has a space or an ampersand.
fold_tail-NoStops :
    (c : ℕ) (b d : Bool)
    → All NoStops (
        (if b then (0xc5 ∷ 0xbf ∷ []) ∷ [] else [])
        ++ (if d then (0xe2 ∷ 0x84 ∷ 0xaa ∷ []) ∷ [] else []))
unfolding NoStops
fold_tail-NoStops c true true = ((refl, (refl, tt)), ((refl, (refl, (refl, tt))), tt))
fold_tail-NoStops c true false = ((refl, (refl, tt)), tt)
fold_tail-NoStops c false true = ((refl, (refl, (refl, tt))), tt)
fold_tail-NoStops c false false = tt

folds-NoStops : (c : ℕ) → is_stop c ≡ false → All NoStops (folds c)
unfolding NoStops
folds-NoStops c h =
    let end = fold_tail-NoStops c (c == b's') (c == b'k') in
    elim (Bool-cases (leb b'a' c && leb c b'z')) [
      | inr other ↦ rw other ((h, tt), end)
      | inl low ↦
          let upper : is_stop (c - 32) ≡ false = ground arith in
          rw low ((h, tt), ((upper, tt), end))
    ]

letters-NoStops : (name : Bytes) → any_stop name ≡ false → All (All NoStops) (map folds name)
unfolding any_stop
letters-NoStops [] h = tt
letters-NoStops (c ∷ name) h = (folds-NoStops c (ground arith), letters-NoStops name (ground arith))

words-NoStops : All (All (All NoStops)) words
unfolding any_stop words
words-NoStops = (
  letters-NoStops (codes "password") refl,
  (
    letters-NoStops (codes "passwd") refl,
    (
      letters-NoStops (codes "token") refl,
      (
        letters-NoStops (codes "secret") refl,
        (
          letters-NoStops (codes "api_key") refl,
          (letters-NoStops (codes "api-key") refl, (letters-NoStops (codes "apikey") refl, tt)),
        ),
      ),
    ),
  ),
)

no_empty_match : secret_at words [] ≡ none
unfolding words secret_at if_assigned strip_word strip_any strip
no_empty_match = refl

-- The text up to a space or an ampersand and that after it are masked apart.
pub mask_from-stop :
    (stop : ℕ) (ends : is_stop stop ≡ true) (s : Bytes) (n : ℕ) (x : Bytes)
    → n ≤ length x
    → mask_from n (x ++ stop ∷ s) ≡ mask_from n x ++ stop ∷ mask_from 0 s
unfolding mask_from replaced
mask_from-stop stop ends s zero [] h =
    let no_match : secret_at words (stop ∷ s) ≡ none =
      secret_at-stop stop ends s words [] words-NoStops ∙ no_empty_match in
    rw no_match refl
mask_from-stop stop ends s (suc n) [] h = ground arith
mask_from-stop stop ends s (suc n) (c ∷ x) h = mask_from-stop stop ends s n x (omega arith)
mask_from-stop stop ends s zero (c ∷ x) h =
    let local = secret_at-stop stop ends s words (c ∷ x) words-NoStops in
    elim (Option-cases (secret_at words (c ∷ x))) [
      | inl e ↦ rw (local, e, mask_from-stop stop ends s 0 x (omega arith)) refl
      | inr ((k, n), e) ↦
          let within : (1 ≤ n) × (n ≤ length (c ∷ x)) =
            subst (Within (c ∷ x)) e (secret_at-Within words (c ∷ x)) in
          rw (local, e, mask_from-stop stop ends s (n - 1) x (omega (arith, within)))
            (sym (append_assoc k (stars ++ mask_from (n - 1) x) (stop ∷ mask_from 0 s)))
    ]
