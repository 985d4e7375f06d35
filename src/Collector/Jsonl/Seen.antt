-- ===== src/Collector/Jsonl/Seen.antt =====
-- Which records a run takes for new.
use heartpost.Common.{
  ◌≡◌, refl, ap, sym, ◌∙◌, inl, inr, true, false, ◌||◌, none, some, List, [], ◌∷◌, ◌++◌, map, arith,
  Bool-cases, Option-cases,
}
use heartpost.Common.Text.{Text, text_eq, text_eq_sound}
use heartpost.Signature.{Bytes}
use heartpost.Collector.Jsonl.{Template, has_key, parse_lines}

pub has_key-append :
    (k : Text) (xs ys : List Text) → has_key k (xs ++ ys) ≡ (has_key k xs || has_key k ys)
unfolding has_key
has_key-append k [] ys = refl
has_key-append k (x ∷ xs) ys = ground (arith, has_key-append k xs ys)

has_key_same :
    (j k : Text) (seen : List Text) → text_eq j k ≡ true → has_key j seen ≡ has_key k seen
has_key_same j k seen e = ap (λ t. has_key t seen) (text_eq_sound j k e)

module _ {T : Type 0} (c : Template T) where
  -- No record has a key that was seen before it.
  abbrev pub IsFresh : List Text → List T → Type 0
  IsFresh seen [] = Unit
  IsFresh seen (v ∷ vs) = (has_key (c.seen_key v) seen ≡ false) × IsFresh (c.seen_key v ∷ seen) vs

  -- The keys of the lines that parse.
  abbrev pub parsed_keys : List Bytes → List Text
  parsed_keys [] = []
  parsed_keys (l ∷ ls) = elim (c.parse_line l) [
    | none ↦ parsed_keys ls
    | some v ↦ c.seen_key v ∷ parsed_keys ls
  ]

  pub parse_skip :
      (l : Bytes) (ls : List Bytes) (seen : List Text)
      → c.parse_line l ≡ none
      → parse_lines c (l ∷ ls) seen ≡ parse_lines c ls seen
  unfolding parse_lines
  parse_skip l ls seen e = ground arith

  pub parse_dup :
      (l : Bytes) (ls : List Bytes) (seen : List Text) (v : T)
      → c.parse_line l ≡ some v
      → has_key (c.seen_key v) seen ≡ true
      → parse_lines c (l ∷ ls) seen ≡ parse_lines c ls seen
  unfolding parse_lines
  parse_dup l ls seen v e dup = ground arith

  pub parse_new :
      (l : Bytes) (ls : List Bytes) (seen : List Text) (v : T)
      → c.parse_line l ≡ some v
      → has_key (c.seen_key v) seen ≡ false
      → let rest = parse_lines c ls (c.seen_key v ∷ seen) in
        parse_lines c (l ∷ ls) seen ≡ (v ∷ rest.0, rest.1)
  unfolding parse_lines
  parse_new l ls seen v e new = ground arith

  pub keys_cons :
      (l : Bytes) (ls : List Bytes) (v : T)
      → c.parse_line l ≡ some v
      → parsed_keys (l ∷ ls) ≡ c.seen_key v ∷ parsed_keys ls
  keys_cons l ls v e = ground arith

  pub keys_skip :
      (l : Bytes) (ls : List Bytes) → c.parse_line l ≡ none → parsed_keys (l ∷ ls) ≡ parsed_keys ls
  keys_skip l ls e = ground arith

  parse_lines-IsFresh :
      (ls : List Bytes) (seen : List Text) → IsFresh seen (parse_lines c ls seen).0
  unfolding parse_lines
  parse_lines-IsFresh [] seen = tt
  parse_lines-IsFresh (l ∷ ls) seen = elim (Option-cases (c.parse_line l)) [
    | inl e ↦ rw (parse_skip l ls seen e) (parse_lines-IsFresh ls seen)
    | inr (v, e) ↦ elim (Bool-cases (has_key (c.seen_key v) seen)) [
      | inl dup ↦ rw (parse_dup l ls seen v e dup) (parse_lines-IsFresh ls seen)
      | inr new ↦
          rw (parse_new l ls seen v e new) (new, parse_lines-IsFresh ls (c.seen_key v ∷ seen))
    ]
  ]

  -- A key is seen afterwards where it was before or a new record has it.
  pub parse_lines-seen :
      (k : Text) (ls : List Bytes) (seen : List Text)
      → has_key k (parse_lines c ls seen).1
        ≡ (has_key k seen || has_key k (map c.seen_key (parse_lines c ls seen).0))
  unfolding parse_lines has_key
  parse_lines-seen k [] seen = ground arith
  parse_lines-seen k (l ∷ ls) seen = elim (Option-cases (c.parse_line l)) [
    | inl e ↦ rw (parse_skip l ls seen e) (parse_lines-seen k ls seen)
    | inr (v, e) ↦ elim (Bool-cases (has_key (c.seen_key v) seen)) [
      | inl dup ↦ rw (parse_dup l ls seen v e dup) (parse_lines-seen k ls seen)
      | inr new ↦
          rw (parse_new l ls seen v e new)
            (ground (arith, parse_lines-seen k ls (c.seen_key v ∷ seen)))
    ]
  ]

  -- And those are the keys of all lines.
  pub parse_lines-keys :
      (k : Text) (ls : List Bytes) (seen : List Text)
      → has_key k (parse_lines c ls seen).1 ≡ (has_key k seen || has_key k (parsed_keys ls))
  unfolding parse_lines has_key
  parse_lines-keys k [] seen = ground arith
  parse_lines-keys k (l ∷ ls) seen = elim (Option-cases (c.parse_line l)) [
    | inl e ↦ rw (parse_skip l ls seen e, keys_skip l ls e) (parse_lines-keys k ls seen)
    | inr (v, e) ↦ elim (Bool-cases (has_key (c.seen_key v) seen)) [
      | inl dup ↦
          rw (parse_dup l ls seen v e dup, keys_cons l ls v e)
            (ground (arith, parse_lines-keys k ls seen, has_key_same (c.seen_key v) k seen))
      | inr new ↦
          rw (parse_new l ls seen v e new, keys_cons l ls v e)
            (ground (arith, parse_lines-keys k ls (c.seen_key v ∷ seen)))
    ]
  ]

  -- The new records of a batch have keys that were not seen and do not repeat, and with the keys
  -- seen before they cover exactly those and the keys of all the lines that parse.
  pub parse_lines_lem :
      (ls : List Bytes) (seen : List Text)
      → let vs = (parse_lines c ls seen).0 in
        IsFresh seen vs
        × ((k : Text)
            → (has_key k seen || has_key k (map c.seen_key vs))
              ≡ (has_key k seen || has_key k (parsed_keys ls)))
  parse_lines_lem ls seen = (
    parse_lines-IsFresh ls seen,
    λ k. sym (parse_lines-seen k ls seen) ∙ parse_lines-keys k ls seen,
  )
